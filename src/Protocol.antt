-- ===== src/Protocol.antt =====
-- internal/terminal/protocol.go: the frames between browser and server, the single-session form
-- `[type] [payload]` and the multiplexed form `[session id] [type] [length] [payload]`.
-- A byte is a number below 256. Every error wraps ErrInvalidMessage and differs in its text.
pub mod RoundTrip
pub mod Tests
use gossh.Prelude.{
  ℕ, suc, ◌+◌, ◌*◌, ◌/◌, ◌%◌, Bool, ◌&&◌, ◌||◌, not, true, List, [], ◌∷◌, ◌++◌, length, take, drop,
  get_or, replicate, ltb, ◌==◌, if◌then◌else◌, bytes_eq, decimal, Result, ok, err,
}

pub data FrameError : Type 0 where
  empty_frame unknown_type bad_id payload_too_long frame_too_short length_mismatch : FrameError
  empty_session_frame : FrameError

-- Message types, client to server.
abbrev pub input : ℕ
input = b'1'

abbrev pub ping : ℕ
ping = b'2'

abbrev pub resize_terminal : ℕ
resize_terminal = b'3'

-- Message types, server to client.
abbrev pub output : ℕ
output = b'1'

abbrev pub pong : ℕ
pong = b'2'

abbrev pub set_window_title : ℕ
set_window_title = b'3'

abbrev pub set_preferences : ℕ
set_preferences = b'4'

abbrev pub set_reconnect : ℕ
set_reconnect = b'5'

abbrev pub set_replay_done : ℕ
set_replay_done = b'6'

-- A buffer of `1+len(payload)` bytes is made, and the type and the payload are copied into it.
unfoldable pub encode_frame : ℕ → List ℕ → List ℕ
encode_frame msg_type payload = msg_type ∷ payload

unfoldable pub encode_output : List ℕ → List ℕ
unfolding encode_frame
encode_output payload = encode_frame output payload

unfoldable pub encode_pong : List ℕ
encode_pong = pong ∷ []

unfoldable pub encode_window_title : List ℕ → List ℕ
unfolding encode_frame
encode_window_title title = encode_frame set_window_title title

unfoldable pub encode_preferences : List ℕ → List ℕ
unfolding encode_frame
encode_preferences prefs = encode_frame set_preferences prefs

-- The JSON text of a number is its decimal text.
unfoldable pub encode_reconnect : ℕ → List ℕ
unfolding encode_frame decimal
encode_reconnect seconds = encode_frame set_reconnect (decimal seconds)

unfoldable pub encode_replay_done : List ℕ
encode_replay_done = set_replay_done ∷ []

pub record ClientMessage : Type 0 where
  pub msg_type : ℕ
  pub payload : List ℕ

unfoldable pub decode_client_frame : List ℕ → Result FrameError ClientMessage
decode_client_frame [] = err empty_frame
decode_client_frame (t ∷ rest) =
    if t == input || t == ping || t == resize_terminal
    then ok (record { msg_type = t; payload = rest })
    else err unknown_type

-- Multiplexed framing.
abbrev pub session_id_len : ℕ
session_id_len = 16

abbrev pub routed_header_len : ℕ
routed_header_len = session_id_len + 3

abbrev pub max_routed_payload : ℕ
max_routed_payload = 0xFFFF

abbrev pub conn_level_id : List ℕ
conn_level_id = replicate 16 0

-- The session id is empty for a connection-level frame.
pub record RoutedFrame : Type 0 where
  pub session_id : List ℕ
  pub msg_type : ℕ
  pub payload : List ℕ

unfoldable pub is_conn_level : RoutedFrame → Bool
is_conn_level f = bytes_eq f.session_id []

-- `byte(len(payload) >> 8)` and `byte(len(payload))`.
abbrev pub len_hi : List ℕ → ℕ
len_hi payload = length payload / 256 % 256

abbrev pub len_lo : List ℕ → ℕ
len_lo payload = length payload % 256

abbrev pub routed_bytes : List ℕ → ℕ → List ℕ → List ℕ
routed_bytes sid msg_type payload = sid ++ (msg_type ∷ len_hi payload ∷ len_lo payload ∷ payload)

unfoldable pub encode_routed : List ℕ → ℕ → List ℕ → Result FrameError (List ℕ)
encode_routed sid msg_type payload =
    if not (length sid == session_id_len)
    then err bad_id
    else if ltb max_routed_payload (length payload)
    then err payload_too_long
    else ok (routed_bytes sid msg_type payload)

unfoldable pub encode_routed_conn : ℕ → List ℕ → List ℕ
encode_routed_conn msg_type payload = routed_bytes conn_level_id msg_type payload

unfoldable pub encode_routed_session : List ℕ → List ℕ → Result FrameError (List ℕ)
unfolding encode_routed
encode_routed_session sid [] = err empty_session_frame
encode_routed_session sid (t ∷ rest) = encode_routed sid t rest

abbrev pub decoded_id : List ℕ → List ℕ
decoded_id sid = if bytes_eq sid conn_level_id then [] else sid

-- The two checks of the declared length, and the frame they let through.
finish_routed : List ℕ → ℕ → ℕ → List ℕ → Result FrameError RoutedFrame
finish_routed sid msg_type declared payload =
    if not (declared == length payload)
    then err length_mismatch
    else if ltb max_routed_payload (length payload)
    then err payload_too_long
    else ok (record { session_id = sid; msg_type = msg_type; payload = payload })

-- `hi<<8 | lo` is `hi * 256 + lo` for bytes.
unfoldable pub decode_routed : List ℕ → Result FrameError RoutedFrame
unfolding finish_routed
decode_routed frame =
    if ltb (length frame) routed_header_len
    then err frame_too_short
    else finish_routed (decoded_id (take session_id_len frame)) (get_or frame 16 0)
        (get_or frame 17 0 * 256 + get_or frame 18 0) (drop routed_header_len frame)
