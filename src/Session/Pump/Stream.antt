-- ===== src/Session/Pump/Stream.antt =====
-- internal/session/session.go: what a client has seen of the terminal's output.
use gossh.Prelude.{
  ℕ, ◌+◌, ◌≤◌, ◌≡◌, refl, sym, ap, ◌∙◌, Bool, true, false, List, [], ◌∷◌, ◌++◌, Option, none, some,
  length, length-append, arith, append_assoc, append-nil, le→leb, drop-length, ◌-◌, ◌==◌,
  if◌then◌else◌,
}
use native.Mathlib.Nat.{le_refl}
use gossh.Protocol.{encode_output}
use gossh.Ring.{Ring, bytes, last_bytes, write, new_ring}
use gossh.Ring.Suffix.{write-keeps_last, write-cap}
use gossh.Session.Pump.{
  Live, MirrorOps, pump_chunk, record_chunk, take_snapshot, set_conn, deliver_effects,
  answer_effects, mirror_chunk, client_bytes, pty_bytes, Event, chunk_read, snapshot_taken,
  conn_set, step, run, output_of, new_live,
}

-- The counters and the ring agree with the output so far.
pub record Follows {M : Type 0} (l : Live M) (output_so_far : List ℕ) : Type 0 where
  pub boundary : l.replay_seq ≤ l.total
  pub counted : l.total ≡ length output_so_far
  pub kept : bytes l.out ≡ last_bytes l.out.cap output_so_far

-- What client `c` gets of a chunk that goes to the attached client.
abbrev pub live_bytes : Option ℕ → ℕ → List ℕ → List ℕ
live_bytes none c chunk = []
live_bytes (some d) c chunk = if d == c then chunk else []

effects_client_bytes :
    (answers : List ℕ) (d : Option ℕ) (enabled : Bool) (c : ℕ) (chunk : List ℕ)
    → client_bytes c (answer_effects answers d enabled ++ deliver_effects d chunk)
      ≡ live_bytes d c chunk
unfolding answer_effects deliver_effects encode_output
effects_client_bytes [] none enabled c chunk = refl
effects_client_bytes (a ∷ more) none true c chunk = ground arith
effects_client_bytes (a ∷ more) none false c chunk = ground arith
effects_client_bytes answers (some d) enabled c chunk = append-nil (live_bytes (some d) c chunk)

effects_pty_bytes :
    (answers : List ℕ) (d : ℕ) (enabled : Bool) (chunk : List ℕ)
    → pty_bytes (answer_effects answers (some d) enabled ++ deliver_effects (some d) chunk) ≡ []
unfolding answer_effects deliver_effects
effects_pty_bytes answers d enabled chunk = refl

nothing_live : (d : Option ℕ) (c : ℕ) → [] ≡ live_bytes d c []
nothing_live none c = refl
nothing_live (some d) c = ground arith

output_of-cons :
    (e : Event) (es : List Event) → output_of (e ∷ es) ≡ output_of (e ∷ []) ++ output_of es
output_of-cons (chunk_read now bs) es = rw (append-nil bs)
output_of-cons snapshot_taken es = refl
output_of-cons (conn_set c) es = refl

module _ {M : Type 0} (ops : MirrorOps M) where
  -- What a chunk changes of the fields that the replay depends on.
  pub pump_chunk_fields :
      (now : ℕ) (l : Live M) (chunk : List ℕ)
      → ((pump_chunk ops now l chunk).0.total ≡ l.total + length chunk)
        × ((pump_chunk ops now l chunk).0.replay_seq ≡ l.replay_seq)
        × ((pump_chunk ops now l chunk).0.out ≡ write l.out chunk)
        × ((pump_chunk ops now l chunk).0.conn ≡ l.conn)
        × ((pump_chunk ops now l chunk).0.answer_queries ≡ l.answer_queries)
  unfolding pump_chunk
  pump_chunk_fields now l [] = (refl, refl, refl, refl, refl)
  pump_chunk_fields now l (x ∷ xs) = ground arith

  pub pump_chunk-cap :
      (now : ℕ) (l : Live M) (chunk : List ℕ) → (pump_chunk ops now l chunk).0.out.cap ≡ l.out.cap
  pump_chunk-cap now l chunk =
      ap (λ (r : Ring). r.cap) (pump_chunk_fields now l chunk).2 ∙ write-cap l.out chunk

  pub pump_chunk-Follows :
      (now : ℕ) (l : Live M) (chunk seen : List ℕ)
      → Follows l seen
      → Follows (pump_chunk ops now l chunk).0 (seen ++ chunk)
  pump_chunk-Follows now l chunk seen h =
      let (t, r, o, c, a) = pump_chunk_fields now l chunk in
      record {
        boundary = omega (arith, h.boundary);
        counted = omega (arith, h.counted, length-append {0} seen chunk);
        kept =
            ap bytes o
            ∙ write-keeps_last l.out chunk seen h.kept
            ∙ ap (λ (x : Ring). last_bytes x.cap (seen ++ chunk)) (sym o);
      }

  -- A chunk never starts before the replay boundary, so it is delivered to whoever is attached.
  pub pump_chunk_delivers :
      (now : ℕ) (l : Live M) (chunk seen : List ℕ) (c : ℕ)
      → Follows l seen
      → client_bytes c (pump_chunk ops now l chunk).1 ≡ live_bytes l.conn c chunk
  unfolding pump_chunk
  pump_chunk_delivers now l [] seen c h = nothing_live l.conn c
  pump_chunk_delivers now l (x ∷ xs) seen c h =
      rw (le→leb l.replay_seq l.total h.boundary)
        (effects_client_bytes _ l.conn l.answer_queries c (x ∷ xs))

  -- While a client is attached, in a session whose counters and ring follow its output, the mirror's
  -- answers to terminal queries are dropped: pumping a chunk writes nothing to the terminal.
  pub pump_chunk_attached :
      (now : ℕ) (l : Live M) (chunk seen : List ℕ) (d : ℕ)
      → Follows l seen
      → l.conn ≡ some d
      → pty_bytes (pump_chunk ops now l chunk).1 ≡ []
  unfolding pump_chunk
  pump_chunk_attached now l [] seen d h e = refl
  pump_chunk_attached now l (x ∷ xs) seen d h e =
      rw (le→leb l.replay_seq l.total h.boundary, e)
        (effects_pty_bytes (mirror_chunk ops now (record_chunk l (x ∷ xs)).0 (x ∷ xs)).1 d
          l.answer_queries (x ∷ xs))

  step-Follows :
      (l : Live M) (e : Event) (seen : List ℕ)
      → Follows l seen
      → Follows (step ops l e).0 (seen ++ output_of (e ∷ []))
  unfolding step take_snapshot set_conn
  step-Follows l (chunk_read now bs) seen h =
      rw (append-nil bs) (pump_chunk-Follows now l bs seen h)
  step-Follows l snapshot_taken seen h =
      rw (append-nil seen)
        (record { boundary = le_refl l.total; counted = h.counted; kept = h.kept })
  step-Follows l (conn_set c) seen h =
      rw (append-nil seen) (record { boundary = h.boundary; counted = h.counted; kept = h.kept })

  run-Follows :
      (l : Live M) (es : List Event) (seen : List ℕ)
      → Follows l seen
      → Follows (run ops l es).0 (seen ++ output_of es)
  unfolding run
  run-Follows l [] seen h = rw (append-nil seen) h
  run-Follows l (e ∷ es) seen h =
      rw (output_of-cons e es, ← append_assoc seen (output_of (e ∷ [])) (output_of es))
        (run-Follows (step ops l e).0 es (seen ++ output_of (e ∷ [])) (step-Follows l e seen h))

  -- A new session, whatever its ring holds at most, keeps counters and ring in agreement with the
  -- output through any chunks, snapshots and changes of the connection, in any order.
  pub run-new_live-Follows :
      (size : ℕ) (mirror : Option M) (answers : Bool) (es : List Event)
      → Follows (run ops (new_live size mirror answers) es).0 (output_of es)
  unfolding new_live new_ring bytes
  run-new_live-Follows size mirror answers es = run-Follows _ es [] (record {
    boundary = omega arith;
    counted = refl;
    kept = sym (drop-length (0 - size) [] (omega arith));
  })

  run-cap : (l : Live M) (es : List Event) → (run ops l es).0.out.cap ≡ l.out.cap
  unfolding run step take_snapshot set_conn
  run-cap l [] = refl
  run-cap l (chunk_read now bs ∷ es) =
      run-cap (pump_chunk ops now l bs).0 es ∙ pump_chunk-cap now l bs
  run-cap l (snapshot_taken ∷ es) = run-cap (take_snapshot l).0 es
  run-cap l (conn_set c ∷ es) = run-cap (set_conn c l) es

  pub run-new_live-cap :
      (size : ℕ) (mirror : Option M) (answers : Bool) (es : List Event)
      → (run ops (new_live size mirror answers) es).0.out.cap ≡ size
  unfolding new_live new_ring
  run-new_live-cap size mirror answers es = run-cap _ es
