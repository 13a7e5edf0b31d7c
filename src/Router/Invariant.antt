-- ===== src/Router/Invariant.antt =====
-- internal/api/ws_handler.go: the channels that are registered, after any steps of the goroutines of a
-- connection.
use gossh.Prelude.{
  ℕ, ◌<◌, ◌≡◌, ◌≢◌, refl, sym, ap, ◌∙◌, inl, inr, Bool, true, false, List, [], ◌∷◌, ◌++◌, Option,
  none, some, ◌==◌, Result, ok, err, Result-cases, arith, Bool-cases, Option-cases, ==_iff,
  if_holds,
}
use gossh.Protocol.{RoutedFrame, FrameError, is_conn_level, ping, decode_routed, encode_routed}
use gossh.Session.{Accepts}
use gossh.Router.Channels.{Chans, find, forget, put_found, forget_found}
use gossh.Router.{
  VirtualConn, WsRouter, attach, detach, attach_ok, attach_fail, not_found_text, changed, write_raw,
  write_made, write_routed, channel, remove, mark_closed, close_local, deliver, detach_session,
  register, attach_session, dispatch, receive,
}

-- A registered channel was made, for the session it is registered under.
abbrev pub IsRouted : Chans → (ℕ → VirtualConn) → ℕ → Type 0
IsRouted chans conns next =
    (s : List ℕ) → (h : ℕ) → find s chans ≡ some h → (h < next) × ((conns h).sid ≡ s)

abbrev pub Routes : WsRouter → Type 0
Routes rt = IsRouted rt.chans rt.conns rt.next

pub changed_sid :
    (h n : ℕ) (f : VirtualConn → VirtualConn) (conns : ℕ → VirtualConn)
    → ((c : VirtualConn) → (f c).sid ≡ c.sid)
    → (changed h f conns n).sid ≡ (conns n).sid
changed_sid h n f conns keeps = elim (Bool-cases (n == h)) [
  | inl same ↦ rw same (keeps (conns n))
  | inr other ↦ rw other refl
]

pub changed_other :
    (h n : ℕ) (f : VirtualConn → VirtualConn) (conns : ℕ → VirtualConn)
    → n ≢ h
    → changed h f conns n ≡ conns n
changed_other h n f conns ne = elim (Bool-cases (n == h)) [
  | inl same ↦ absurd (ne ((==_iff n h).0 same))
  | inr other ↦ rw other refl
]

pub changed_here :
    (h : ℕ) (f : VirtualConn → VirtualConn) (conns : ℕ → VirtualConn)
    → changed h f conns h ≡ f (conns h)
changed_here h f conns = rw ((==_iff h h).1 refl) refl

pub changed-Routes :
    (h : ℕ) (f : VirtualConn → VirtualConn) (rt : WsRouter)
    → ((c : VirtualConn) → (f c).sid ≡ c.sid)
    → Routes rt
    → Routes (record rt { conns = changed h f rt.conns })
changed-Routes h f rt keeps r s k there =
    ((r s k there).0, changed_sid h k f rt.conns keeps ∙ (r s k there).1)

forget-Routes :
    (sid : List ℕ) (rt : WsRouter) → Routes rt → Routes (record rt { chans = forget sid rt.chans })
forget-Routes sid rt r s k there = r s k (forget_found sid s k rt.chans there).1

pub remove-Routes : (sid : List ℕ) (h : ℕ) (rt : WsRouter) → Routes rt → Routes (remove sid h rt)
unfolding remove
remove-Routes sid h rt r = elim (Option-cases (find sid rt.chans)) [
  | inl missing ↦ rw (remove, missing) r
  | inr there ↦
      rw (remove, there.1)
        (if_holds Routes (there.0 == h) (record rt { chans = forget sid rt.chans }) rt
          (forget-Routes sid rt r) r)
]

pub close_local-Routes : (h : ℕ) (rt : WsRouter) → Routes rt → Routes (close_local h rt)
unfolding close_local mark_closed
close_local-Routes h rt r =
    remove-Routes (rt.conns h).sid h (mark_closed h rt)
      (changed-Routes h (λ c. record c { closed = true }) rt (λ c. refl) r)

pub register-Routes :
    (sid : List ℕ) (sess : ℕ) (rt : WsRouter) → Routes rt → Routes (register sid sess rt)
unfolding register
register-Routes sid sess rt r s k there = elim (put_found sid s rt.next k rt.chans there) [
  | inl new ↦ (
    omega (arith, new.1),
    ap
          (λ i.
            (changed rt.next (λ c. record { sid = sid; sess = sess; queue = []; closed = false })
              rt.conns i).sid)
          (sym new.1)
        ∙ ap (λ c. c.sid)
            (changed_here rt.next
              (λ c. record { sid = sid; sess = sess; queue = []; closed = false }) rt.conns)
        ∙ new.0,
  )
  | inr old ↦ (
    omega (arith, (r s k old).0),
    ap (λ c. c.sid)
          (changed_other rt.next k
            (λ c. record { sid = sid; sess = sess; queue = []; closed = false }) rt.conns
            (λ same. omega (arith, same, (r s k old).0)))
        ∙ (r s k old).1,
  )
]

-- The writes change the wire only.
pub write_made-Routes :
    (accepts : Accepts) (made : Result FrameError (List ℕ)) (rt : WsRouter)
    → Routes rt
    → Routes (write_made accepts made rt).0
unfolding write_made write_raw
write_made-Routes accepts (err e) rt r = r
write_made-Routes accepts (ok frame) rt r = r

pub write_routed-Routes :
    (accepts : Accepts) (sid : List ℕ) (t : ℕ) (payload : List ℕ) (rt : WsRouter)
    → Routes rt
    → Routes (write_routed accepts sid t payload rt).0
unfolding write_routed
write_routed-Routes accepts sid t payload rt r =
    write_made-Routes accepts (encode_routed sid t payload) rt r

deliver-Routes :
    (to : Option ℕ) (frame : List ℕ) (rt : WsRouter) → Routes rt → Routes (deliver to frame rt)
unfolding deliver
deliver-Routes none frame rt r = r
deliver-Routes (some h) frame rt r =
    if_holds Routes (rt.conns h).closed rt
      (record rt { conns = changed h (λ c. record c { queue = c.queue ++ (frame ∷ []) }) rt.conns })
      r (changed-Routes h (λ c. record c { queue = c.queue ++ (frame ∷ []) }) rt (λ c. refl) r)

detach_session-Routes : (sid : List ℕ) (rt : WsRouter) → Routes rt → Routes (detach_session sid rt)
unfolding detach_session
detach_session-Routes sid rt r = elim (Option-cases (find sid rt.chans)) [
  | inl missing ↦ rw (detach_session, missing) (forget-Routes sid rt r)
  | inr there ↦
      rw (detach_session, there.1)
        (close_local-Routes there.0 (record rt { chans = forget sid rt.chans })
          (forget-Routes sid rt r))
]

attach_session-Routes :
    (accepts : Accepts) (got : Option ℕ) (sid : List ℕ) (rt : WsRouter)
    → Routes rt
    → Routes (attach_session accepts got sid rt).0
unfolding attach_session
attach_session-Routes accepts got sid rt r = elim (Option-cases (find sid rt.chans)) [
  | inr there ↦ rw (attach_session, there.1) (write_routed-Routes accepts sid attach_ok [] rt r)
  | inl missing ↦ elim (Option-cases got) [
    | inl no_session ↦
        rw (attach_session, missing, no_session)
          (write_routed-Routes accepts sid attach_fail not_found_text rt r)
    | inr known ↦ rw (attach_session, missing, known.1) (register-Routes sid known.0 rt r)
  ]
]

abbrev RoutesFirst : WsRouter × Bool → Type 0
RoutesFirst p = Routes p.0

pub dispatch-Routes :
    (accepts : Accepts) (got : Option ℕ) (f : RoutedFrame) (rt : WsRouter)
    → Routes rt
    → Routes (dispatch accepts got f rt).0
unfolding dispatch write_raw
dispatch-Routes accepts got f rt r =
    if_holds RoutesFirst (is_conn_level f) _ _ (if_holds RoutesFirst (f.msg_type == ping) _ _ r r) (
      if_holds RoutesFirst (f.msg_type == attach) _ _
        (attach_session-Routes accepts got f.session_id rt r)
        (if_holds RoutesFirst (f.msg_type == detach) _ _ (detach_session-Routes f.session_id rt r)
          (deliver-Routes (channel f.session_id rt) (f.msg_type ∷ f.payload) rt r)))

pub receive-Routes :
    (accepts : Accepts) (got : Option ℕ) (msg : List ℕ) (rt : WsRouter)
    → Routes rt
    → Routes (receive accepts got msg rt).0
unfolding receive
receive-Routes accepts got msg rt r = elim (Result-cases (decode_routed msg)) [
  | inl good ↦ rw (receive, good.1) (dispatch-Routes accepts got good.0 rt r)
  | inr bad ↦ rw (receive, bad.1) r
]
