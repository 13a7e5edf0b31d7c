-- ===== src/Router/Steps.antt =====
-- internal/api/ws_handler.go: the goroutines of a connection, step by step in any order.
use gossh.Prelude.{
  ℕ, ◌≡◌, refl, ◌∙◌, inl, inr, Bool, true, List, [], ◌∷◌, Option, none, some, ◌==◌, if◌then◌else◌,
  arith, Bool-cases, ==_iff, bytes_eq,
}
use gossh.Protocol.{encode_routed_session}
use gossh.Session.{Accepts}
use gossh.Router.Channels.{Chans, find}
use gossh.Router.{
  WsRouter, attach_ok, session_event, event_destroyed, event_preempted, write_routed,
  write_routed_session, remove, mark_closed, close_local, receive, close_each, close_all,
  attach_started, attach_ended, read_message, rest_of, write_conn, close_conn,
}
use gossh.Router.Invariant.{
  Routes, changed-Routes, remove-Routes, close_local-Routes, write_made-Routes, write_routed-Routes,
  receive-Routes,
}

-- The read loop takes a message; a channel's goroutine writes its AttachOK or ends; the session reads,
-- writes or closes a channel, whose closeLocal is two steps when another comes between; and the
-- connection shuts down.
pub data RouterStep : Type 0 where
  receives : Option ℕ → List ℕ → RouterStep
  starts ends reads marks removes : ℕ → RouterStep
  writes : ℕ → List ℕ → RouterStep
  closes : Bool → ℕ → RouterStep
  shuts_down : RouterStep

unfoldable pub router_step : Accepts → RouterStep → WsRouter → WsRouter
unfolding receive attach_started attach_ended read_message mark_closed remove write_conn close_conn
    close_all
router_step accepts (receives got msg) rt = (receive accepts got msg rt).0
router_step accepts (starts h) rt = (attach_started accepts h rt).0
router_step accepts (ends h) rt = attach_ended h rt
router_step accepts (reads h) rt = (read_message h rt).0
router_step accepts (marks h) rt = mark_closed h rt
router_step accepts (removes h) rt = remove (rt.conns h).sid h rt
router_step accepts (writes h b) rt = (write_conn accepts h b rt).0
router_step accepts (closes destroyed h) rt = close_conn accepts destroyed h rt
router_step accepts shuts_down rt = close_all rt

unfoldable pub router_steps : Accepts → List RouterStep → WsRouter → WsRouter
unfolding router_step
router_steps accepts [] rt = rt
router_steps accepts (e ∷ es) rt = router_steps accepts es (router_step accepts e rt)

attach_started-Routes :
    (accepts : Accepts) (h : ℕ) (rt : WsRouter) → Routes rt → Routes (attach_started accepts h rt).0
unfolding attach_started
attach_started-Routes accepts h rt r =
    elim (Bool-cases (write_routed accepts (rt.conns h).sid attach_ok [] rt).1) [
      | inl good ↦
          rw (attach_started, good) (write_routed-Routes accepts (rt.conns h).sid attach_ok [] rt r)
      | inr bad ↦
          rw (attach_started, bad)
            (remove-Routes (rt.conns h).sid h
              (write_routed accepts (rt.conns h).sid attach_ok [] rt).0
              (write_routed-Routes accepts (rt.conns h).sid attach_ok [] rt r))
    ]

write_conn-Routes :
    (accepts : Accepts) (h : ℕ) (b : List ℕ) (rt : WsRouter)
    → Routes rt
    → Routes (write_conn accepts h b rt).0
unfolding write_conn write_routed_session
write_conn-Routes accepts h [] rt r = r
write_conn-Routes accepts h (t ∷ rest) rt r =
    write_made-Routes accepts (encode_routed_session (rt.conns h).sid (t ∷ rest)) rt r

close_each-Routes : (cs : Chans) (rt : WsRouter) → Routes rt → Routes (close_each cs rt)
unfolding close_each
close_each-Routes [] rt r = r
close_each-Routes (c ∷ cs) rt r =
    close_each-Routes cs (close_local c.1 rt) (close_local-Routes c.1 rt r)

close_all-Routes : (rt : WsRouter) → Routes (close_all rt)
unfolding close_all find
close_all-Routes rt = close_each-Routes rt.chans (record rt { chans = [] }) (λ s h. cc)

pub router_step-Routes :
    (accepts : Accepts) (e : RouterStep) (rt : WsRouter)
    → Routes rt
    → Routes (router_step accepts e rt)
unfolding router_step attach_ended read_message mark_closed close_conn
router_step-Routes accepts (receives got msg) rt r = receive-Routes accepts got msg rt r
router_step-Routes accepts (starts h) rt r = attach_started-Routes accepts h rt r
router_step-Routes accepts (ends h) rt r =
    close_local-Routes h (remove (rt.conns h).sid h rt) (remove-Routes (rt.conns h).sid h rt r)
router_step-Routes accepts (reads h) rt r =
    changed-Routes h (λ c. record c { queue = rest_of c.queue }) rt (λ c. refl) r
router_step-Routes accepts (marks h) rt r =
    changed-Routes h (λ c. record c { closed = true }) rt (λ c. refl) r
router_step-Routes accepts (removes h) rt r = remove-Routes (rt.conns h).sid h rt r
router_step-Routes accepts (writes h b) rt r = write_conn-Routes accepts h b rt r
router_step-Routes accepts (closes destroyed h) rt r =
    write_routed-Routes accepts (rt.conns h).sid session_event
      ((if destroyed then event_destroyed else event_preempted) ∷ []) (close_local h rt)
      (close_local-Routes h rt r)
router_step-Routes accepts shuts_down rt r = close_all-Routes rt

pub router_steps-Routes :
    (accepts : Accepts) (es : List RouterStep) (rt : WsRouter)
    → Routes rt
    → Routes (router_steps accepts es rt)
unfolding router_steps
router_steps-Routes accepts [] rt r = r
router_steps-Routes accepts (e ∷ es) rt r =
    router_steps-Routes accepts es (router_step accepts e rt) (router_step-Routes accepts e rt r)

-- Which channels are closed.
close_local-closed :
    (h k : ℕ) (rt : WsRouter)
    → ((close_local h rt).conns k).closed ≡ (if k == h then true else (rt.conns k).closed)
unfolding close_local remove mark_closed
close_local-closed h k rt = ground arith

close_local_keeps :
    (h k : ℕ) (rt : WsRouter)
    → (rt.conns k).closed ≡ true
    → ((close_local h rt).conns k).closed ≡ true
close_local_keeps h k rt shut = close_local-closed h k rt ∙ ground arith

close_each_keeps :
    (cs : Chans) (h : ℕ) (rt : WsRouter)
    → (rt.conns h).closed ≡ true
    → ((close_each cs rt).conns h).closed ≡ true
unfolding close_each
close_each_keeps [] h rt shut = shut
close_each_keeps (c ∷ cs) h rt shut =
    close_each_keeps cs h (close_local c.1 rt) (close_local_keeps c.1 h rt shut)

close_each-closed :
    (cs : Chans) (s : List ℕ) (h : ℕ) (rt : WsRouter)
    → find s cs ≡ some h
    → ((close_each cs rt).conns h).closed ≡ true
unfolding close_each find
close_each-closed [] s h rt there = cc
close_each-closed (c ∷ cs) s h rt there = elim (Bool-cases (bytes_eq c.0 s)) [
  | inl here ↦
      close_each_keeps cs h (close_local c.1 rt)
        (close_local-closed c.1 h rt ∙ rw ((==_iff h c.1).1 (ground (arith, here, there))) refl)
  | inr later ↦ close_each-closed cs s h (close_local c.1 rt) (ground (arith, later, there))
]

close_each_empty :
    (cs : Chans) (rt : WsRouter) → (close_each cs (record rt { chans = [] })).chans ≡ []
unfolding close_each close_local remove mark_closed find
close_each_empty [] rt = refl
close_each_empty (c ∷ cs) rt = close_each_empty cs (mark_closed c.1 rt)

-- When the connection shuts down, a channel that was registered is closed, and none is registered.
pub close_all_closes :
    (rt : WsRouter) (s : List ℕ) (h : ℕ)
    → find s rt.chans ≡ some h
    → (((close_all rt).conns h).closed ≡ true) × (find s (close_all rt).chans ≡ none)
unfolding close_all find
close_all_closes rt s h there = (
  close_each-closed rt.chans s h (record rt { chans = [] }) there,
  rw (close_each_empty rt.chans rt) refl,
)
