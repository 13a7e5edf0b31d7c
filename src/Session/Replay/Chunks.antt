-- ===== src/Session/Replay/Chunks.antt =====
-- internal/session/session.go: what replayOutput puts on the wire.
use gossh.Prelude.{
  ℕ, zero, suc, ◌≤◌, ◌<◌, ◌≡◌, refl, ap, sym, ◌∙◌, Bool, true, false, List, [], ◌∷◌, ◌++◌, map,
  append_assoc, append-nil, inl, inr, length, take, drop, concat, arith, Bool-cases, length-take,
  length-drop, take-append-drop,
}
use gossh.Protocol.{encode_output}
use gossh.Session.{Accepts, Wire}
use gossh.Session.Replay.{replay_loop, replay_output, replay_tail, replay_chunk}

abbrev pub EachAtMost : ℕ → List (List ℕ) → Type 0
EachAtMost n [] = Unit {0}
EachAtMost n (p ∷ ps) = (length p ≤ n) × EachAtMost n ps

-- What a run of the replay has sent of `whole`: output frames in order, none longer than `size`,
-- and all of it if no write failed.
pub record Replayed (size : ℕ) (whole : List ℕ) (before : Wire) (r : Wire × Bool) : Type 0 where
  pub parts : List (List ℕ)
  pub unsent : List ℕ
  pub frames : r.0.sent ≡ before.sent ++ map encode_output parts
  pub in_order : concat parts ++ unsent ≡ whole
  pub small : EachAtMost size parts
  pub all_sent : r.1 ≡ true → unsent ≡ []

-- A chunk in front of what the later rounds send.
Replayed-cons :
    (size : ℕ) (whole : List ℕ) (w w' : Wire) {r : Wire × Bool}
    → w'.sent ≡ w.sent ++ (encode_output (take size whole) ∷ [])
    → Replayed size (drop size whole) w' r
    → Replayed size whole w r
Replayed-cons size whole w w' e h = record {
  parts = take size whole ∷ h.parts;
  unsent = h.unsent;
  frames =
      h.frames
      ∙ ap (λ s. s ++ map encode_output h.parts) e
      ∙ append_assoc w.sent (encode_output (take size whole) ∷ []) (map encode_output h.parts);
  in_order =
      append_assoc (take size whole) (concat h.parts) h.unsent
      ∙ ap (λ s. take size whole ++ s) h.in_order
      ∙ take-append-drop size whole;
  small = (omega (arith, length-take {0} size whole), h.small);
  all_sent = h.all_sent;
}

Replayed-none : (size : ℕ) (w : Wire) (b : Bool) → Replayed size [] w (w, b)
Replayed-none size w b = record {
  parts = [];
  unsent = [];
  frames = sym (append-nil w.sent);
  in_order = refl;
  small = tt;
  all_sent = λ _. refl;
}

Replayed-failed : (size : ℕ) (left : List ℕ) (w : Wire) → Replayed size left w (w, false)
Replayed-failed size left w = record {
  parts = [];
  unsent = left;
  frames = sym (append-nil w.sent);
  in_order = refl;
  small = tt;
  all_sent = λ h. cc;
}

replay_loop-Replayed :
    (accepts : Accepts) (size fuel : ℕ) (left : List ℕ) (w : Wire)
    → 0 < size
    → length left ≤ fuel
    → Replayed size left w (replay_loop accepts size fuel left w)
unfolding replay_loop
replay_loop-Replayed accepts size zero [] w pos enough = Replayed-none size w true
replay_loop-Replayed accepts size zero (x ∷ xs) w pos enough = elim enough [ ]
replay_loop-Replayed accepts size (suc fuel) [] w pos enough = Replayed-none size w true
replay_loop-Replayed accepts size (suc fuel) (x ∷ xs) w pos enough =
    let w' : Wire = record { sent = w.sent ++ (encode_output (take size (x ∷ xs)) ∷ []) } in
    elim (Bool-cases (accepts w.sent (encode_output (take size (x ∷ xs))))) [
      | inl good ↦ rw good (
          Replayed-cons size (x ∷ xs) w w' refl (
            replay_loop-Replayed accepts size fuel (drop size (x ∷ xs)) w' pos
              (omega (arith, length-drop {0} size (x ∷ xs)))))
      | inr bad ↦ rw bad (Replayed-failed size (x ∷ xs) w)
    ]

-- Whatever writes the connection takes, a replay sends output frames of at most 32768 bytes each,
-- whose payloads in order are a prefix of the aligned tail of the snapshot, and the whole tail if no
-- write failed.
pub replay_output-Replayed :
    (accepts : Accepts) (snapshot : List ℕ) (w : Wire)
    → Replayed replay_chunk (replay_tail snapshot) w (replay_output accepts snapshot w)
unfolding replay_output
replay_output-Replayed accepts snapshot w =
    replay_loop-Replayed accepts replay_chunk (length (replay_tail snapshot)) (replay_tail snapshot)
      w (omega arith) (omega arith)
