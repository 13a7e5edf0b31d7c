-- ===== src/Protocol/Tests.antt =====
-- Runs of internal/terminal/protocol.go at concrete frames.
use gossh.Prelude.{ℕ, ◌≡◌, refl, List, [], ◌∷◌, ◌++◌, replicate, ok, err, arith}
use gossh.Protocol.{
  conn_level_id, decode_client_frame, decode_routed, empty_frame, encode_output, encode_reconnect,
  encode_routed, encode_routed_session, length_mismatch,
}
use gossh.Protocol.RoundTrip.{decode_routed-encode_routed, reencode, reencode-decode_routed}

abbrev sid_a : List ℕ
sid_a = replicate 16 b'a'

abbrev frame_hi : List ℕ
frame_hi = sid_a ++ (b'1' ∷ 0 ∷ 2 ∷ b'h' ∷ b'i' ∷ [])

decode_routed-encode_routed_example :
    decode_routed frame_hi
    ≡ ok (record { session_id = sid_a; msg_type = b'1'; payload = b'h' ∷ b'i' ∷ [] })
decode_routed-encode_routed_example =
    decode_routed-encode_routed sid_a b'1' (b'h' ∷ b'i' ∷ []) frame_hi (λ e. cc)
      (unfold encode_routed in refl)

reencode-decode_routed_example :
    reencode (record { session_id = sid_a; msg_type = b'1'; payload = b'h' ∷ b'i' ∷ [] })
    ≡ ok frame_hi
reencode-decode_routed_example =
    reencode-decode_routed frame_hi _ (omega arith) decode_routed-encode_routed_example

routed_session : encode_routed_session sid_a (b'1' ∷ b'h' ∷ b'i' ∷ []) ≡ ok frame_hi
unfolding encode_routed_session
routed_session = refl

declared_too_long : decode_routed (conn_level_id ++ (b'2' ∷ 0 ∷ 1 ∷ [])) ≡ err length_mismatch
unfolding decode_routed
declared_too_long = refl

client_empty : decode_client_frame [] ≡ err empty_frame
unfolding decode_client_frame
client_empty = refl

client_output :
    decode_client_frame (encode_output (7 ∷ [])) ≡ ok (record { msg_type = b'1'; payload = 7 ∷ [] })
unfolding decode_client_frame encode_output
client_output = refl

reconnect_ten : encode_reconnect 105 ≡ b'5' ∷ b'1' ∷ b'0' ∷ b'5' ∷ []
unfolding encode_reconnect
reconnect_ten = refl
