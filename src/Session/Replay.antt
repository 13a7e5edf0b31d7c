-- ===== src/Session/Replay.antt =====
-- internal/session/session.go: what a fresh attach is sent before live output: sendInitializeMessage,
-- replayOutput and alignTailStart.
pub mod Align
pub mod Chunks
use gossh.Prelude.{
  ℕ, zero, suc, ◌+◌, ◌-◌, ◌*◌, ◌/◌, ◌%◌, Bool, true, false, List, [], ◌∷◌, ◌++◌, Option, none, some,
  length, take, drop, get_or, ltb, leb, ◌==◌, if◌then◌else◌,
}
use gossh.Protocol.{encode_output, encode_preferences, encode_reconnect, encode_window_title}
use gossh.Session.{Accepts, AttachOptions, Wire, send}

abbrev pub attach_replay_tail_bytes : ℕ
attach_replay_tail_bytes = 256 * 1024

abbrev pub replay_chunk : ℕ
replay_chunk = 32 * 1024

-- The messages of `messages`, in order, until a write fails.
send_all : Accepts → List (List ℕ) → Wire → Wire × Bool
send_all accepts [] w = (w, true)
send_all accepts (m ∷ ms) w =
    let (w', good) = send accepts w m in
    let rest = send_all accepts ms w' in if good then rest else (w', false)

unfoldable pub initialize_messages : AttachOptions → List (List ℕ)
unfolding encode_window_title encode_reconnect encode_preferences
initialize_messages opts =
    (encode_window_title opts.window_title ∷ [])
    ++ (if ltb 0 opts.reconnect_seconds then encode_reconnect opts.reconnect_seconds ∷ [] else [])
    ++ (if ltb 0 (length opts.preferences) then encode_preferences opts.preferences ∷ [] else [])

unfoldable pub send_initialize_message : Accepts → AttachOptions → Wire → Wire × Bool
unfolding send_all initialize_messages
send_initialize_message accepts opts w = send_all accepts (initialize_messages opts) w

-- `b&0xC0 == 0x80`: the two top bits are 1 and 0.
abbrev pub is_continuation : ℕ → Bool
is_continuation x = x / 64 % 4 == 2

abbrev pub esc : ℕ
esc = 0x1b

-- The first loop of alignTailStart: over the continuation bytes at the start. A round per byte from
-- `start` on is enough.
skip_continuation : ℕ → List ℕ → ℕ → ℕ
skip_continuation zero b start = start
skip_continuation (suc fuel) b start =
    let more = skip_continuation fuel b (start + 1) in
    if ltb start (length b)
    then (if is_continuation (get_or b start 0) then more else start)
    else start

-- The second loop: back from `start - d` to the nearest ESC, while `start - i <= 1024`.
find_esc : List ℕ → ℕ → ℕ → ℕ → Option ℕ
find_esc b start zero d = none
find_esc b start (suc fuel) d =
    let more = find_esc b start fuel (d + 1) in
    if leb d start then (if get_or b (start - d) 0 == esc then some (start - d) else more) else none

abbrev pub or_else : Option ℕ → ℕ → ℕ
or_else none d = d
or_else (some i) d = i

abbrev pub rewind_limit : ℕ
rewind_limit = 1024

unfoldable pub align_tail_start : List ℕ → ℕ → ℕ
unfolding skip_continuation find_esc
align_tail_start b start =
    if leb (length b) start
    then start
    else let s = skip_continuation (length b - start) b start in
      or_else (find_esc b s rewind_limit 1) s

-- The loop of replayOutput, for any chunk size; each round takes at least a byte off `data`.
replay_loop : Accepts → ℕ → ℕ → List ℕ → Wire → Wire × Bool
replay_loop accepts size zero data_left w = (w, true)
replay_loop accepts size (suc fuel) [] w = (w, true)
replay_loop accepts size (suc fuel) (x ∷ xs) w =
    let (w', good) = send accepts w (encode_output (take size (x ∷ xs))) in
    let rest = replay_loop accepts size fuel (drop size (x ∷ xs)) w' in
    if good then rest else (w', false)

-- The part of the snapshot that is replayed.
unfoldable pub replay_tail : List ℕ → List ℕ
unfolding align_tail_start
replay_tail snapshot =
    if ltb attach_replay_tail_bytes (length snapshot)
    then drop (align_tail_start snapshot (length snapshot - attach_replay_tail_bytes)) snapshot
    else snapshot

unfoldable pub replay_output : Accepts → List ℕ → Wire → Wire × Bool
unfolding replay_tail replay_loop
replay_output accepts snapshot w =
    replay_loop accepts replay_chunk (length (replay_tail snapshot)) (replay_tail snapshot) w
