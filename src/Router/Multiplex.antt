-- ===== src/Router/Multiplex.antt =====
-- internal/api/ws_handler.go: what the channels write to the shared socket, read back by session.
use gossh.Prelude.{
  ℕ, ◌≤◌, ◌≡◌, ◌≢◌, refl, sym, ap, ◌∙◌, inl, inr, Bool, true, false, ◌&&◌, List, [], ◌∷◌, ◌++◌,
  if◌then◌else◌, Result, ok, err, length, arith, Bool-cases, bytes_eq, bytes_eq_ne, append-nil,
  append_assoc,
}
use gossh.Protocol.{
  RoutedFrame, FrameError, decode_routed, encode_routed_session, routed_bytes, decoded_id,
  conn_level_id, max_routed_payload,
}
use gossh.Protocol.RoundTrip.{encode_routed_cases, decode_routed-routed_bytes}
use gossh.Session.{Accepts, Wire, send}
use gossh.Router.Channels.{bytes_eq-cases}
use gossh.Router.{WsRouter, write_raw, write_made, write_routed_session, write_conn}

-- The client's view: the frames of one session among the messages of the socket.
abbrev pub client_frame : List ℕ → Result FrameError RoutedFrame → List (List ℕ)
client_frame sid (err e) = []
client_frame sid (ok f) = if bytes_eq f.session_id sid then (f.msg_type ∷ f.payload) ∷ [] else []

abbrev pub client_frames : List ℕ → List (List ℕ) → List (List ℕ)
client_frames sid [] = []
client_frames sid (m ∷ ms) = client_frame sid (decode_routed m) ++ client_frames sid ms

-- The writes of the channels, one after the other.
unfoldable pub write_all : Accepts → List (ℕ × List ℕ) → WsRouter → WsRouter
unfolding write_conn
write_all accepts [] rt = rt
write_all accepts (w ∷ ws) rt = write_all accepts ws (write_conn accepts w.0 w.1 rt).0

-- What a write hands to a session: nothing if it failed, wrote nothing or is another session's.
abbrev pub handed : List ℕ → List ℕ → List ℕ → Bool → List (List ℕ)
handed sid owner [] good = []
handed sid owner (t ∷ rest) good = if good && bytes_eq owner sid then (t ∷ rest) ∷ [] else []

abbrev pub all_handed : Accepts → List ℕ → List (ℕ × List ℕ) → WsRouter → List (List ℕ)
all_handed accepts sid [] rt = []
all_handed accepts sid (w ∷ ws) rt =
    handed sid (rt.conns w.0).sid w.1 (write_conn accepts w.0 w.1 rt).1
    ++ all_handed accepts sid ws (write_conn accepts w.0 w.1 rt).0

client_frames-append :
    (sid : List ℕ) (xs ys : List (List ℕ))
    → client_frames sid (xs ++ ys) ≡ client_frames sid xs ++ client_frames sid ys
client_frames-append sid [] ys = refl
client_frames-append sid (m ∷ xs) ys =
    ap (λ t. client_frame sid (decode_routed m) ++ t) (client_frames-append sid xs ys)
    ∙ sym (
        append_assoc (client_frame sid (decode_routed m)) (client_frames sid xs)
          (client_frames sid ys))

module _ (sid : List ℕ) (len : length sid ≡ 16) (proper : sid ≢ conn_level_id) where
  own_id : decoded_id sid ≡ sid
  own_id = rw (bytes_eq_ne sid conn_level_id proper) refl

  not_empty : bytes_eq [] sid ≡ false
  not_empty = bytes_eq_ne [] sid (λ e. omega (arith, len, ap length e))

  other_id : (owner : List ℕ) → owner ≢ sid → bytes_eq (decoded_id owner) sid ≡ false
  other_id owner ne = elim (Bool-cases (bytes_eq owner conn_level_id)) [
    | inl reserved ↦ rw reserved not_empty
    | inr named ↦ rw named (bytes_eq_ne owner sid ne)
  ]

  client_frame_own :
      (owner : List ℕ) (t : ℕ) (rest : List ℕ)
      → length owner ≡ 16
      → length rest ≤ max_routed_payload
      → client_frame sid (decode_routed (routed_bytes owner t rest))
        ≡ handed sid owner (t ∷ rest) true
  client_frame_own owner t rest l fits =
      rw (decode_routed-routed_bytes owner t rest l fits) (elim (bytes_eq-cases owner sid) [
        | inl own ↦ rw (own, own_id) refl
        | inr other ↦ rw (other_id owner other, bytes_eq_ne owner sid other) refl
      ])

  sent_frames :
      (accepts : Accepts) (wire : Wire) (owner : List ℕ) (t : ℕ) (rest : List ℕ)
      → length owner ≡ 16
      → length rest ≤ max_routed_payload
      → client_frames sid (send accepts wire (routed_bytes owner t rest)).0.sent
        ≡ client_frames sid wire.sent
          ++ handed sid owner (t ∷ rest) (send accepts wire (routed_bytes owner t rest)).1
  sent_frames accepts wire owner t rest l fits =
      elim (Bool-cases (accepts wire.sent (routed_bytes owner t rest))) [
        | inr refused ↦ rw refused (sym (append-nil (client_frames sid wire.sent)))
        | inl taken ↦ rw taken (
            client_frames-append sid wire.sent (routed_bytes owner t rest ∷ [])
            ∙ ap (λ x. client_frames sid wire.sent ++ x)
                (append-nil (client_frame sid (decode_routed (routed_bytes owner t rest)))
                  ∙ client_frame_own owner t rest l fits))
      ]

  frames_of_write :
      (accepts : Accepts) (h t : ℕ) (rest : List ℕ) (rt : WsRouter)
      → client_frames sid (write_conn accepts h (t ∷ rest) rt).0.wire.sent
        ≡ client_frames sid rt.wire.sent
          ++ handed sid (rt.conns h).sid (t ∷ rest) (write_conn accepts h (t ∷ rest) rt).1
  unfolding write_conn write_routed_session write_made write_raw encode_routed_session
  frames_of_write accepts h t rest rt = elim (encode_routed_cases (rt.conns h).sid t rest) [
    | inl bad ↦ rw (bad.1) (sym (append-nil (client_frames sid rt.wire.sent)))
    | inr (inl long) ↦ rw (long.2) (sym (append-nil (client_frames sid rt.wire.sent)))
    | inr (inr good) ↦
        rw (good.2) (sent_frames accepts rt.wire (rt.conns h).sid t rest good.0 good.1)
  ]

  frames_of_any :
      (accepts : Accepts) (h : ℕ) (b : List ℕ) (rt : WsRouter)
      → client_frames sid (write_conn accepts h b rt).0.wire.sent
        ≡ client_frames sid rt.wire.sent
          ++ handed sid (rt.conns h).sid b (write_conn accepts h b rt).1
  unfolding write_conn
  frames_of_any accepts h [] rt = sym (append-nil (client_frames sid rt.wire.sent))
  frames_of_any accepts h (t ∷ rest) rt = frames_of_write accepts h t rest rt

  -- Whatever the channels of a connection write, in any order, and whichever messages the socket takes:
  -- for a session id of 16 bytes, not all zero, a client that sorts the messages by session reads
  -- exactly what the writes of that session's channels that succeeded wrote, whole and in order.
  pub client_frames-write_all :
      (accepts : Accepts) (ws : List (ℕ × List ℕ)) (rt : WsRouter)
      → client_frames sid (write_all accepts ws rt).wire.sent
        ≡ client_frames sid rt.wire.sent ++ all_handed accepts sid ws rt
  unfolding write_all
  client_frames-write_all accepts [] rt = sym (append-nil (client_frames sid rt.wire.sent))
  client_frames-write_all accepts (w ∷ ws) rt =
      client_frames-write_all accepts ws (write_conn accepts w.0 w.1 rt).0
      ∙ ap (λ x. x ++ all_handed accepts sid ws (write_conn accepts w.0 w.1 rt).0)
          (frames_of_any accepts w.0 w.1 rt)
      ∙ append_assoc (client_frames sid rt.wire.sent)
          (handed sid (rt.conns w.0).sid w.1 (write_conn accepts w.0 w.1 rt).1)
          (all_handed accepts sid ws (write_conn accepts w.0 w.1 rt).0)
