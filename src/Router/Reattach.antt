-- ===== src/Router/Reattach.antt =====
-- internal/api/ws_handler.go: a session detached and attached again on one connection.
use gossh.Prelude.{
  ℕ, ◌<◌, ◌≡◌, ◌≢◌, refl, ap, ◌∙◌, true, false, List, [], ◌∷◌, ◌++◌, none, some, arith, length,
  bytes_eq_self, ==_ne,
}
use gossh.Protocol.{encode_routed, routed_bytes}
use gossh.Session.{Accepts}
use gossh.Router.Channels.{Chans, find, forget, find-put, find-forget}
use gossh.Router.{
  WsRouter, session_event, event_preempted, detach_session, register, attach_session, close_conn,
  close_local, mark_closed, remove, write_routed, write_made, write_raw,
}
use gossh.Router.Invariant.{changed_sid, changed_other}

remove_missing :
    (sid : List ℕ) (h : ℕ) (rt : WsRouter) → find sid rt.chans ≡ none → remove sid h rt ≡ rt
unfolding remove
remove_missing sid h rt missing = rw (remove, missing) refl

close_local_gone :
    (sid : List ℕ) (h : ℕ) (rt : WsRouter)
    → (rt.conns h).sid ≡ sid
    → find sid rt.chans ≡ none
    → close_local h rt ≡ mark_closed h rt
unfolding close_local mark_closed
close_local_gone sid h rt own missing = rw own (remove_missing sid h (mark_closed h rt) missing)

find_forgotten : (sid : List ℕ) (cs : Chans) → find sid (forget sid cs) ≡ none
find_forgotten sid cs = find-forget sid sid cs ∙ rw (bytes_eq_self sid) refl

detach_registered :
    (sid : List ℕ) (h : ℕ) (rt : WsRouter)
    → find sid rt.chans ≡ some h
    → (rt.conns h).sid ≡ sid
    → detach_session sid rt ≡ mark_closed h (record rt { chans = forget sid rt.chans })
unfolding detach_session
detach_registered sid h rt there own =
    rw (detach_session, there)
      (close_local_gone sid h (record rt { chans = forget sid rt.chans }) own
        (find_forgotten sid rt.chans))

attach_unknown :
    (accepts : Accepts) (sid : List ℕ) (sess : ℕ) (rt : WsRouter)
    → find sid rt.chans ≡ none
    → (attach_session accepts (some sess) sid rt).0 ≡ register sid sess rt
unfolding attach_session
attach_unknown accepts sid sess rt missing = rw (attach_session, missing) refl

-- A channel that another one has replaced does not take that one out.
remove_replaced :
    (sid : List ℕ) (h k : ℕ) (rt : WsRouter)
    → find sid rt.chans ≡ some k
    → k ≢ h
    → remove sid h rt ≡ rt
unfolding remove
remove_replaced sid h k rt there other = rw (remove, there, ==_ne k h other) refl

close_local_replaced :
    (sid : List ℕ) (h k : ℕ) (rt : WsRouter)
    → (rt.conns h).sid ≡ sid
    → find sid rt.chans ≡ some k
    → k ≢ h
    → close_local h rt ≡ mark_closed h rt
unfolding close_local mark_closed
close_local_replaced sid h k rt own there other =
    rw own (remove_replaced sid h k (mark_closed h rt) there other)

notice_written :
    (sid : List ℕ) (rt : WsRouter)
    → length sid ≡ 16
    → (write_routed (λ _ _. true) sid session_event (event_preempted ∷ []) rt).0 ≡ record rt {
      wire = record {
        sent = rt.wire.sent ++ (routed_bytes sid session_event (event_preempted ∷ []) ∷ []);
      };
    }
unfolding write_routed write_made write_raw encode_routed
notice_written sid rt len = rw len refl

close_conn_replaced :
    (sid : List ℕ) (h k : ℕ) (rt : WsRouter)
    → length sid ≡ 16
    → (rt.conns h).sid ≡ sid
    → find sid rt.chans ≡ some k
    → k ≢ h
    → (find sid (close_conn (λ _ _. true) false h rt).chans ≡ some k)
      × ((close_conn (λ _ _. true) false h rt).wire.sent
          ≡ rt.wire.sent ++ (routed_bytes sid session_event (event_preempted ∷ []) ∷ []))
unfolding close_conn mark_closed
close_conn_replaced sid h k rt len own there other =
    (ap (λ s. find sid s.chans) whole ∙ there, ap (λ s. s.wire.sent) whole)
  where
    noticed : WsRouter
    noticed = record (mark_closed h rt) {
      wire = record {
        sent = rt.wire.sent ++ (routed_bytes sid session_event (event_preempted ∷ []) ∷ []);
      };
    }

    whole : close_conn (λ _ _. true) false h rt ≡ noticed
    whole =
        ap
          (λ s.
            (write_routed (λ _ _. true) s session_event (event_preempted ∷ [])
              (close_local h rt)).0)
          own
        ∙ ap (λ x. (write_routed (λ _ _. true) sid session_event (event_preempted ∷ []) x).0)
            (close_local_replaced sid h k rt own there other)
        ∙ notice_written sid (mark_closed h rt) len

find_registered :
    (sid : List ℕ) (sess : ℕ) (rt : WsRouter) → find sid (register sid sess rt).chans ≡ some rt.next
unfolding register
find_registered sid sess rt = find-put sid sid rt.next rt.chans ∙ rw (bytes_eq_self sid) refl

register_keeps :
    (sid : List ℕ) (sess h : ℕ) (rt : WsRouter)
    → h < rt.next
    → ((register sid sess rt).conns h).sid ≡ (rt.conns h).sid
unfolding register
register_keeps sid sess h rt made =
    ap (λ c. c.sid)
      (changed_other rt.next h (λ c. record { sid = sid; sess = sess; queue = []; closed = false })
        rt.conns (λ same. omega (arith, same, made)))

-- The client detaches a session and attaches it again.
abbrev pub reattached : Accepts → List ℕ → ℕ → WsRouter → WsRouter
reattached accepts sid sess rt = (attach_session accepts (some sess) sid (detach_session sid rt)).0

-- If the client detaches a session and attaches it again on the same connection before the session has
-- let go of the first channel, then when the session closes that one as preempted, a socket that takes
-- every message carries a notice of preemption for the session, though the new channel stays
-- registered.
pub reattach_told_preempted :
    (sid : List ℕ) (h sess : ℕ) (rt : WsRouter)
    → length sid ≡ 16
    → find sid rt.chans ≡ some h
    → (rt.conns h).sid ≡ sid
    → h < rt.next
    → (find sid (close_conn (λ _ _. true) false h (reattached (λ _ _. true) sid sess rt)).chans
        ≡ some rt.next)
      × ((close_conn (λ _ _. true) false h (reattached (λ _ _. true) sid sess rt)).wire.sent
          ≡ rt.wire.sent ++ (routed_bytes sid session_event (event_preempted ∷ []) ∷ []))
unfolding mark_closed register
reattach_told_preempted sid h sess rt len there own made = rw (again) (
    close_conn_replaced sid h rt.next renewed len
      (register_keeps sid sess h unregistered made
        ∙ changed_sid h h (λ c. record c { closed = true }) rt.conns (λ c. refl)
        ∙ own)
      (find_registered sid sess unregistered) (λ same. omega (arith, same, made)))
  where
    unregistered : WsRouter
    unregistered = mark_closed h (record rt { chans = forget sid rt.chans })

    renewed : WsRouter
    renewed = register sid sess unregistered

    again : reattached (λ _ _. true) sid sess rt ≡ renewed
    again =
        ap (λ s. (attach_session (λ _ _. true) (some sess) sid s).0)
          (detach_registered sid h rt there own)
        ∙ attach_unknown (λ _ _. true) sid sess unregistered (find_forgotten sid rt.chans)
