-- ===== src/Session/Tests.antt =====
-- Runs of internal/session/session.go at concrete inputs.
use mathlib.Core.List.{Memᴰ}
use gossh.Prelude.{ℕ, ◌≡◌, refl, true, false, List, [], ◌∷◌, ◌++◌, some, arith}
use gossh.Ring.{new_ring, write}
use gossh.Session.{Wire}
use gossh.Session.Replay.{align_tail_start, replay_chunk, replay_output, replay_tail}
use gossh.Session.Replay.Align.{IsAligned, align_tail_start-IsAligned}
use gossh.Session.Replay.Chunks.{Replayed, replay_output-Replayed}
use gossh.Session.Pump.{
  Event, Live, MirrorOps, chunk_read, client_bytes, conn_set, new_live, pty_bytes, pump_chunk, run,
  set_conn, snapshot_taken, take_snapshot, step,
}
use gossh.Session.Pump.Stream.{Follows, run-new_live-Follows}
use gossh.Session.Pump.Client.{JoinsLive, chunk_before_snapshot_sent_twice, reads, replay_then_live}
use gossh.Session.Attach.{
  Attachment, Life, Reach, attach_begin, begins, here, new_life, next, running, taken_over,
}
use gossh.Session.Relay.{Relay, Setup, conn_write, natural, relay_frames, term_resize, term_write}
use gossh.Session.Relay.Allowed.{AllAllowed, relay_frames-AllAllowed}
use gossh.Session.Attach.Invariant.{Inv, Reach-Inv}
use gossh.Session.Attach.Ownership.{single_client}

-- A cut inside "é" (0xC3 0xA9), with an ESC before it.
abbrev cut_text : List ℕ
cut_text = b'a' ∷ 0x1b ∷ b'[' ∷ 0xc3 ∷ 0xa9 ∷ b'b' ∷ []

align_tail_start-IsAligned_example : IsAligned cut_text 4 (align_tail_start cut_text 4)
align_tail_start-IsAligned_example = align_tail_start-IsAligned cut_text 4 (omega arith)

rewinds : align_tail_start cut_text 4 ≡ 1
unfolding align_tail_start
rewinds = refl

abbrev wire : Wire
wire = record { sent = [] }

replay_output-Replayed_example :
    Replayed replay_chunk (replay_tail cut_text) wire (replay_output (λ sent m. true) cut_text wire)
replay_output-Replayed_example = replay_output-Replayed (λ sent m. true) cut_text wire

-- A mirror that keeps the bytes it is fed and answers every chunk.
abbrev echo : MirrorOps (List ℕ)
echo = record { feed = λ m bs. m ++ bs; drain_answers = λ m. (0x1b ∷ [], m) }

abbrev history : List Event
history =
    chunk_read 1 (1 ∷ 2 ∷ 3 ∷ [])
    ∷ conn_set (some 7)
    ∷ snapshot_taken
    ∷ chunk_read 2 (4 ∷ [])
    ∷ conn_set (some 8)
    ∷ []

abbrev started : Live (List ℕ)
started = new_live 2 (some []) true

run-new_live-Follows_example : Follows (run echo started history).0 (1 ∷ 2 ∷ 3 ∷ 4 ∷ [])
run-new_live-Follows_example = run-new_live-Follows echo 2 (some []) true history

replay_then_live_example :
    let (l, snapshot) = take_snapshot (run echo started history).0 in
    JoinsLive 2
      (1 ∷ 2 ∷ 3 ∷ 4 ∷ [])
      wire
      (replay_output (λ sent m. true) snapshot wire)
      (5 ∷ 6 ∷ [])
      (client_bytes 8 (run echo l (reads ((3, 5 ∷ []) ∷ (4, 6 ∷ []) ∷ []))).1)
replay_then_live_example =
    replay_then_live echo 2 (some []) true history 8 ((3, 5 ∷ []) ∷ (4, 6 ∷ []) ∷ [])
      (λ sent m. true) wire (unfold run step new_live pump_chunk take_snapshot set_conn in refl)

chunk_before_snapshot_sent_twice_example :
    let (l', effects) =
      pump_chunk echo 5 (set_conn (some 9) (run echo started history).0) (6 ∷ []) in
    (client_bytes 9 effects ≡ 6 ∷ [])
    × ((older : List ℕ) × ((take_snapshot l').1 ≡ older ++ (6 ∷ [])))
chunk_before_snapshot_sent_twice_example =
    chunk_before_snapshot_sent_twice echo 5 (run echo started history).0 (1 ∷ 2 ∷ 3 ∷ 4 ∷ [])
      (6 ∷ []) 9 run-new_live-Follows_example
      (unfold run step new_live pump_chunk take_snapshot set_conn new_ring write in omega arith)

answers_unattended : pty_bytes (pump_chunk echo 5 started (6 ∷ [])).1 ≡ 0x1b ∷ []
unfolding pump_chunk new_live
answers_unattended = refl

-- Client 1 attaches, then client 2 takes over.
abbrev after_first : Life
after_first = taken_over 1 1 (new_life 0)

abbrev after_second : Life
after_second = taken_over 2 2 after_first

abbrev first : Attachment
first = record { my_epoch = 1; conn = 1 }

abbrev second : Attachment
second = record { my_epoch = 2; conn = 2 }

taken_twice : Reach (new_life 0) after_second
unfolding new_life attach_begin
taken_twice =
    next (next here (begins {w' = after_first} 1 1 refl)) (begins {w' = after_second} 2 2 refl)

Reach-Inv_example : Inv after_second
Reach-Inv_example = Reach-Inv 0 taken_twice

two_open : ¬ Memᴰ {A = ℕ} 2 (1 ∷ [])
two_open (Memᴰ.head e) = absurd (omega arith)
two_open (Memᴰ.tail m) = elim m [ ]

single_client_example :
    (second.my_epoch ≡ second.my_epoch)
    × (second.conn ≡ second.conn)
    × (after_second.state ≡ running)
    × (after_second.conn ≡ some 2)
unfolding new_life
single_client_example =
    single_client 0 second second taken_twice (Memᴰ.head refl) (Memᴰ.head refl) two_open two_open

-- Every call succeeds, and every resize payload asks for 80 by 24.
abbrev relay_setup : Setup
relay_setup = record {
  env = λ log a. true;
  parse_resize = λ payload. some (record { columns = natural 80; rows = natural 24 });
  opts = record {
    permit_write = true;
    fixed_cols = 0;
    fixed_rows = 0;
    window_title = [];
    reconnect_seconds = 0;
    preferences = [];
  };
}

abbrev relay_start : Relay
relay_start = record {
  first_resize = true;
  last_cols = 0;
  last_rows = 0;
  has_mirror = false;
  log = [];
}

-- Input, a ping, and a resize.
abbrev relay_input : List (List ℕ)
relay_input = (b'1' ∷ b'l' ∷ b's' ∷ []) ∷ (b'2' ∷ []) ∷ (b'3' ∷ b'{' ∷ []) ∷ []

relay_frames-AllAllowed_example :
    AllAllowed relay_setup.opts (relay_frames relay_setup relay_input relay_start).0.log
relay_frames-AllAllowed_example = relay_frames-AllAllowed relay_setup relay_input relay_start refl

relay_run :
    (relay_frames relay_setup relay_input relay_start).0.log
    ≡ (term_write (b'l' ∷ b's' ∷ []), true)
      ∷ (conn_write (b'2' ∷ []), true)
      ∷ (term_resize 80 24, true)
      ∷ (term_resize 80 23, true)
      ∷ (term_resize 80 24, true)
      ∷ []
unfolding relay_frames
relay_run = refl
