-- ===== src/Router/Demultiplex.antt =====
-- internal/api/ws_handler.go: the read loop against a plain description of what a channel is to have.
use gossh.Prelude.{
  ℕ, ◌≡◌, ◌≢◌, refl, sym, ap, ◌∙◌, inl, inr, Bool, true, false, not, ◌&&◌, ◌||◌, List, [], ◌∷◌,
  ◌++◌, Option, ◌==◌, if◌then◌else◌, Result, ok, err, Result-cases, arith, Bool-cases, Option-cases,
  bytes_eq, bytes_eq_self, bytes_eq_ne, append-nil, append_assoc, if_holds,
}
use gossh.Protocol.{RoutedFrame, FrameError, is_conn_level, ping, decode_routed}
use gossh.Session.{Accepts}
use gossh.Router.Channels.{find, bytes_eq-cases, bytes_eq_apart}
use gossh.Router.{
  WsRouter, attach, detach, changed, write_raw, channel, deliver, dispatch, receive, serve,
}
use gossh.Router.Channel.{HasQueue, keeps_other, keeps_detach, keeps_attach}
use gossh.Router.Invariant.{Routes, changed_here, receive-Routes}

-- What a frame means to a session: a frame of its own, whose type and payload its channel has to read.
abbrev pub is_for : List ℕ → RoutedFrame → Bool
is_for sid f =
    not (is_conn_level f)
    && (bytes_eq f.session_id sid && (not (f.msg_type == attach) && not (f.msg_type == detach)))

abbrev pub frame_for : List ℕ → Result FrameError RoutedFrame → List (List ℕ)
frame_for sid (err e) = []
frame_for sid (ok f) = if is_for sid f then (f.msg_type ∷ f.payload) ∷ [] else []

abbrev pub frames_for : List ℕ → List (Option ℕ × List ℕ) → List (List ℕ)
frames_for sid [] = []
frames_for sid (m ∷ ms) = frame_for sid (decode_routed m.1) ++ frames_for sid ms

-- Whether a message asks to detach the session.
abbrev pub asks_detach : List ℕ → Result FrameError RoutedFrame → Bool
asks_detach sid (err e) = false
asks_detach sid (ok f) =
    not (is_conn_level f) && (bytes_eq f.session_id sid && (f.msg_type == detach))

abbrev pub any_detach : List ℕ → List (Option ℕ × List ℕ) → Bool
any_detach sid [] = false
any_detach sid (m ∷ ms) = asks_detach sid (decode_routed m.1) || any_detach sid ms

channel_of : (s : List ℕ) (rt : WsRouter) → bytes_eq s [] ≡ false → channel s rt ≡ find s rt.chans
unfolding channel
channel_of [] rt proper = cc
channel_of (x ∷ s) rt proper = refl

module _ (sid : List ℕ) (h : ℕ) (q : List (List ℕ)) where
  no_frame : (f : RoutedFrame) → is_for sid f ≡ false → q ++ frame_for sid (ok f) ≡ q
  no_frame f e = rw (e, append-nil q) refl

  own_frame :
      (f : RoutedFrame)
      → is_for sid f ≡ true
      → q ++ frame_for sid (ok f) ≡ q ++ ((f.msg_type ∷ f.payload) ∷ [])
  own_frame f e = rw e refl

  delivers_here :
      (frame : List ℕ) (rt : WsRouter)
      → HasQueue sid h q rt
      → HasQueue sid h (q ++ (frame ∷ [])) (deliver (find sid rt.chans) frame rt)
  unfolding deliver
  delivers_here frame rt has =
      rw (has.there, has.conn_open)
        (record {
          there = has.there;
          conn_open =
              ap (λ c. c.closed)
                (changed_here h (λ c. record c { queue = c.queue ++ (frame ∷ []) }) rt.conns)
              ∙ has.conn_open;
          queued =
              ap (λ c. c.queue)
                (changed_here h (λ c. record c { queue = c.queue ++ (frame ∷ []) }) rt.conns)
              ∙ ap (λ b. b ++ (frame ∷ [])) has.queued;
        })

  delivers_elsewhere :
      (other : List ℕ) (frame : List ℕ) (rt : WsRouter)
      → other ≢ sid
      → Routes rt
      → HasQueue sid h q rt
      → HasQueue sid h q (deliver (find other rt.chans) frame rt)
  unfolding deliver
  delivers_elsewhere other frame rt ne r has = elim (Option-cases (find other rt.chans)) [
    | inl missing ↦ rw missing has
    | inr found ↦ rw found.1 (
        if_holds (HasQueue sid h q) (rt.conns found.0).closed rt
          (record rt {
            conns = changed found.0 (λ c. record c { queue = c.queue ++ (frame ∷ []) }) rt.conns;
          })
          has
          (keeps_other sid h q found.0 (λ c. record c { queue = c.queue ++ (frame ∷ []) }) rt
            (λ same. ne (
              sym (r other found.0 found.1).1
              ∙ ap (λ i. (rt.conns i).sid) (sym same)
              ∙ (r sid h has.there).1))
            has))
  ]

  -- A frame at the session level.
  session_frame :
      (accepts : Accepts) (got : Option ℕ) (f : RoutedFrame) (rt : WsRouter)
      → is_conn_level f ≡ false
      → asks_detach sid (ok f) ≡ false
      → Routes rt
      → HasQueue sid h q rt
      → HasQueue sid h (q ++ frame_for sid (ok f)) (dispatch accepts got f rt).0
  unfolding dispatch
  session_frame accepts got f rt proper stays r has = elim (Bool-cases (f.msg_type == attach)) [
    | inl attaches ↦
        rw (no_frame f (ground arith), dispatch, proper, attaches)
          (keeps_attach sid h q accepts got f.session_id rt r has)
    | inr not_attach ↦ elim (Bool-cases (f.msg_type == detach)) [
      | inl detaches ↦
          rw (no_frame f (ground arith), dispatch, proper, not_attach, detaches)
            (keeps_detach sid h q f.session_id rt (bytes_eq_apart f.session_id sid (ground arith)) r
              has)
      | inr not_detach ↦ elim (bytes_eq-cases f.session_id sid) [
        | inl own ↦
            rw
              (
                own_frame f (ground (arith, own, bytes_eq_self sid)),
                dispatch,
                proper,
                not_attach,
                not_detach,
                channel_of f.session_id rt (ground arith),
                own,
              )
              (delivers_here (f.msg_type ∷ f.payload) rt has)
        | inr other ↦
            rw
              (
                no_frame f (ground (arith, bytes_eq_ne f.session_id sid other)),
                dispatch,
                proper,
                not_attach,
                not_detach,
                channel_of f.session_id rt (ground arith),
              )
              (delivers_elsewhere f.session_id (f.msg_type ∷ f.payload) rt other r has)
      ]
    ]
  ]

  dispatch-HasQueue :
      (accepts : Accepts) (got : Option ℕ) (f : RoutedFrame) (rt : WsRouter)
      → asks_detach sid (ok f) ≡ false
      → Routes rt
      → HasQueue sid h q rt
      → HasQueue sid h (q ++ frame_for sid (ok f)) (dispatch accepts got f rt).0
  unfolding dispatch write_raw
  dispatch-HasQueue accepts got f rt stays r has = elim (Bool-cases (is_conn_level f)) [
    | inr proper ↦ session_frame accepts got f rt proper stays r has
    | inl conn ↦
        rw (no_frame f (ground arith), dispatch, conn)
          (if_holds (λ (p : WsRouter × Bool). HasQueue sid h q p.0) (f.msg_type == ping) _ _
            (record { there = has.there; conn_open = has.conn_open; queued = has.queued }) has)
  ]

receive-HasQueue :
    (accepts : Accepts) (sid : List ℕ) (h : ℕ) (q : List (List ℕ)) (got : Option ℕ) (msg : List ℕ)
    (rt : WsRouter)
    → asks_detach sid (decode_routed msg) ≡ false
    → Routes rt
    → HasQueue sid h q rt
    → HasQueue sid h (q ++ frame_for sid (decode_routed msg)) (receive accepts got msg rt).0
unfolding receive
receive-HasQueue accepts sid h q got msg rt stays r has = elim (Result-cases (decode_routed msg)) [
  | inr bad ↦ rw (receive, bad.1, append-nil q) has
  | inl good ↦
      rw (receive, good.1)
        (dispatch-HasQueue sid h q accepts got good.0 rt (ground (arith, stays, good.1)) r has)
]

-- While the read loop takes any binary messages, none of which asks to detach the session, a channel
-- that is registered for it and open stays so, and its queue grows by exactly the session's own frames
-- among them, whole and in order: not by frames of other sessions, of the connection, malformed ones
-- or requests to attach.
pub serve-HasQueue :
    (accepts : Accepts) (sid : List ℕ) (h : ℕ) (q : List (List ℕ)) (ms : List (Option ℕ × List ℕ))
    (rt : WsRouter)
    → any_detach sid ms ≡ false
    → Routes rt
    → HasQueue sid h q rt
    → HasQueue sid h (q ++ frames_for sid ms) (serve accepts ms rt)
unfolding serve
serve-HasQueue accepts sid h q [] rt stays r has = rw (append-nil q) has
serve-HasQueue accepts sid h q (m ∷ ms) rt stays r has =
    rw (← append_assoc q (frame_for sid (decode_routed m.1)) (frames_for sid ms)) (
      serve-HasQueue accepts sid h (q ++ frame_for sid (decode_routed m.1)) ms
        (receive accepts m.0 m.1 rt).0 (ground arith) (receive-Routes accepts m.0 m.1 rt r)
        (receive-HasQueue accepts sid h q m.0 m.1 rt (ground arith) r has))
