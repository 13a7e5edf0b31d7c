-- ===== src/Session/Pump/Client.antt =====
-- internal/session/session.go: the output that one attached client receives, replayed and live.
use gossh.Prelude.{
  ℕ, ◌+◌, ◌-◌, ltb, true, false, drop-drop, length-drop, ◌≤◌, ◌≡◌, ◌==◌, if◌then◌else◌, ==_self,
  refl, sym, ap, ◌∙◌, Bool, List, [], ◌∷◌, ◌++◌, Option, some, length, length-append, drop,
  drop-append_left, arith, append_assoc,
}
use gossh.Ring.{bytes, last_bytes}
use gossh.Session.{Accepts, Wire}
use gossh.Session.Replay.{
  attach_replay_tail_bytes, rewind_limit, replay_chunk, align_tail_start, replay_tail,
  replay_output,
}
use gossh.Session.Replay.Align.{length-replay_tail}
use gossh.Session.Replay.Chunks.{Replayed, replay_output-Replayed}
use gossh.Session.Pump.{
  Live, MirrorOps, Effect, to_pty, to_client, Event, chunk_read, client_bytes, new_live, output_of,
  pump_chunk, run, set_conn, step, take_snapshot,
}
use gossh.Session.Pump.Stream.{
  Follows, pump_chunk_delivers, pump_chunk-Follows, pump_chunk_fields, run-new_live-Follows,
  run-new_live-cap, pump_chunk-cap,
}

client_bytes-append :
    (c : ℕ) (xs ys : List Effect)
    → client_bytes c (xs ++ ys) ≡ client_bytes c xs ++ client_bytes c ys
client_bytes-append c [] ys = refl
client_bytes-append c (to_pty bs ∷ xs) ys = client_bytes-append c xs ys
client_bytes-append c (to_client d frame ∷ xs) ys =
    ap (λ s. (if d == c then drop 1 frame else []) ++ s) (client_bytes-append c xs ys)
    ∙ sym
        (append_assoc (if d == c then drop 1 frame else []) (client_bytes c xs) (client_bytes c ys))

-- Chunks read one after another, each with the time at which the mirror saw it.
abbrev pub reads : List (ℕ × List ℕ) → List Event
reads [] = []
reads ((now, bs) ∷ cs) = chunk_read now bs ∷ reads cs

-- The client gets the output before the snapshot from `start` on by the replay, and what comes after
-- it live.
pub record JoinsLive (size : ℕ) (before : List ℕ) (w : Wire) (replay : Wire × Bool)
    (after live_sent : List ℕ) : Type 0 where
  pub start : ℕ
  pub replayed : Replayed replay_chunk (drop start before) w replay
  pub bounded : length (drop start before) ≤ attach_replay_tail_bytes + rewind_limit
  pub whole : length before ≤ size → length before ≤ attach_replay_tail_bytes → start ≡ 0
  pub live : live_sent ≡ after

cut_or_whole :
    (long : Bool) (k : ℕ) (snapshot : List ℕ)
    → (start : ℕ) × ((if long then drop k snapshot else snapshot) ≡ drop start snapshot)
      × (long ≡ false → start ≡ 0)
cut_or_whole true k snapshot = (k, refl, λ e. cc)
cut_or_whole false k snapshot = (0, refl, λ e. refl)

not_longer : (n limit : ℕ) → n ≤ limit → ltb limit n ≡ false
not_longer n limit h = ground arith

replay_tail_from :
    (snapshot : List ℕ)
    → (start : ℕ) × (replay_tail snapshot ≡ drop start snapshot)
      × (length snapshot ≤ attach_replay_tail_bytes → start ≡ 0)
unfolding replay_tail
replay_tail_from snapshot =
    let cut =
      cut_or_whole (ltb attach_replay_tail_bytes (length snapshot))
        (align_tail_start snapshot (length snapshot - attach_replay_tail_bytes)) snapshot in
    (cut.0, cut.1, λ small. cut.2 (not_longer (length snapshot) attach_replay_tail_bytes small))

-- What is replayed of the ring is the output from some point on.
replay_tail-drop :
    (size : ℕ) (before : List ℕ)
    → (start : ℕ) × (replay_tail (last_bytes size before) ≡ drop start before)
      × (length before ≤ size → length before ≤ attach_replay_tail_bytes → start ≡ 0)
replay_tail-drop size before =
    let lost : ℕ = length before - size in
    let tail = replay_tail_from (last_bytes size before) in
    (
      lost + tail.0,
      tail.1 ∙ drop-drop tail.0 lost before,
      λ held small.
          omega (arith, held, small, tail.2 (omega (arith, small, length-drop {0} lost before))),
    )

module _ {M : Type 0} (ops : MirrorOps M) where
  live_reads :
      (l : Live M) (c : ℕ) (cs : List (ℕ × List ℕ)) (seen : List ℕ)
      → l.conn ≡ some c
      → Follows l seen
      → client_bytes c (run ops l (reads cs)).1 ≡ output_of (reads cs)
  unfolding run step
  live_reads l c [] seen e h = refl
  live_reads l c ((now, bs) ∷ cs) seen e h =
      let l' = (pump_chunk ops now l bs).0 in
      client_bytes-append c (pump_chunk ops now l bs).1 (run ops l' (reads cs)).1
      ∙ ap (λ s. s ++ client_bytes c (run ops l' (reads cs)).1)
          (pump_chunk_delivers ops now l bs seen c h ∙ rw (e, ==_self c) refl)
      ∙ ap (λ s. bs ++ s)
          (live_reads l' c cs (seen ++ bs) ((pump_chunk_fields ops now l bs).3 ∙ e)
            (pump_chunk-Follows ops now l bs seen h))

  -- After any history of a new session, for a client that is attached when the snapshot is taken and
  -- stays so: replayOutput writes to it, in order and until a write fails, the output before the
  -- snapshot from some point on, at most 257 KiB of it, and the whole of it where it is no longer than
  -- the ring and than 256 KiB; and what the pump writes to it from then on is every later byte once, in
  -- order. The two write from two goroutines, and in which order their messages reach the connection
  -- is not stated, nor what the pump wrote to the client before the snapshot.
  pub replay_then_live :
      (size : ℕ) (mirror : Option M) (answers : Bool) (es : List Event) (c : ℕ)
      (cs : List (ℕ × List ℕ)) (accepts : Accepts) (w : Wire)
      → (run ops (new_live size mirror answers) es).0.conn ≡ some c
      → let (l, snapshot) = take_snapshot (run ops (new_live size mirror answers) es).0 in
        JoinsLive size
          (output_of es)
          w
          (replay_output accepts snapshot w)
          (output_of (reads cs))
          (client_bytes c (run ops l (reads cs)).1)
  unfolding take_snapshot
  replay_then_live size mirror answers es c cs accepts w e =
      let l = (run ops (new_live size mirror answers) es).0 in
      let h : Follows l (output_of es) = run-new_live-Follows ops size mirror answers es in
      let kept : bytes l.out ≡ last_bytes size (output_of es) =
        h.kept
        ∙ ap (λ n. last_bytes n (output_of es)) (run-new_live-cap ops size mirror answers es) in
      let tail = replay_tail-drop size (output_of es) in
      record {
        start = tail.0;
        replayed = rw (sym tail.1, sym kept) (replay_output-Replayed accepts (bytes l.out) w);
        bounded = rw (sym tail.1) (length-replay_tail (last_bytes size (output_of es)));
        whole = tail.2;
        live =
            live_reads (take_snapshot l).0 c cs (output_of es) e
              (record { boundary = omega arith; counted = h.counted; kept = h.kept });
      }

  -- A chunk that the pump handles after Attach has published the connection and before `bridge`
  -- takes the snapshot reaches the client twice: live, and at the end of the snapshot. So it is in
  -- every session whose counters and ring follow its output, for every chunk that the ring can hold.
  pub chunk_before_snapshot_sent_twice :
      (now : ℕ) (l : Live M) (seen chunk : List ℕ) (c : ℕ)
      → Follows l seen
      → length chunk ≤ l.out.cap
      → let (l', effects) = pump_chunk ops now (set_conn (some c) l) chunk in
        (client_bytes c effects ≡ chunk)
        × ((older : List ℕ) × ((take_snapshot l').1 ≡ older ++ chunk))
  unfolding set_conn take_snapshot
  chunk_before_snapshot_sent_twice now l seen chunk c h fits =
      let l0 = set_conn (some c) l in
      let h0 : Follows l0 seen = record {
        boundary = h.boundary;
        counted = h.counted;
        kept = h.kept;
      } in
      let h' : Follows (pump_chunk ops now l0 chunk).0 (seen ++ chunk) =
        pump_chunk-Follows ops now l0 chunk seen h0 in
      (
        pump_chunk_delivers ops now l0 chunk seen c h0 ∙ rw (==_self c) refl,
        (
          drop (length (seen ++ chunk) - l.out.cap) seen,
          h'.kept
              ∙ ap (λ n. last_bytes n (seen ++ chunk)) (pump_chunk-cap ops now l0 chunk)
              ∙ drop-append_left (length (seen ++ chunk) - l.out.cap) seen chunk
                  (omega (arith, length-append {0} seen chunk)),
        ),
      )
