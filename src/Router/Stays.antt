-- ===== src/Router/Stays.antt =====
-- internal/api/ws_handler.go: how long a channel stays registered under its session.
use gossh.Prelude.{
  ℕ, ◌≡◌, ◌≢◌, sym, ap, ◌∙◌, inl, inr, Bool, true, false, List, [], ◌∷◌, ◌++◌, Option, none, some,
  ◌==◌, Result, ok, err, Result-cases, Bool-cases, Option-cases, if_holds, some_same, none-some,
  if◌then◌else◌, ==_iff,
}
use gossh.Protocol.{
  RoutedFrame, FrameError, is_conn_level, ping, decode_routed, encode_routed, encode_routed_session,
}
use gossh.Session.{Accepts}
use gossh.Router.Channels.{find, forget, forget_other, put_other}
use gossh.Router.{
  WsRouter, attach, detach, attach_ok, attach_fail, session_event, event_destroyed, event_preempted,
  not_found_text, new_ws_router, changed, write_raw, write_made, write_routed, write_conn,
  write_routed_session, channel, remove, mark_closed, close_local, deliver, detach_session,
  register, attach_session, dispatch, receive, attach_started, attach_ended, read_message,
  close_conn, close_all,
}
use gossh.Router.Invariant.{Routes}
use gossh.Router.Steps.{
  RouterStep, receives, starts, ends, reads, marks, removes, writes, closes, shuts_down,
  router_step, router_steps, router_step-Routes, router_steps-Routes, close_all_closes,
}

-- A step that is not of the channel's own goroutine or of its closing, no Detach of its session, and
-- not the end of the connection.
abbrev pub Spares : List ℕ → ℕ → RouterStep → Type 0
Spares s h (receives got msg) =
    (f : RoutedFrame) → decode_routed msg ≡ ok f → f.msg_type ≡ detach → f.session_id ≢ s
Spares s h (starts k) = k ≢ h
Spares s h (ends k) = k ≢ h
Spares s h (reads k) = Unit {0}
Spares s h (marks k) = Unit {0}
Spares s h (removes k) = k ≢ h
Spares s h (writes k b) = Unit {0}
Spares s h (closes destroyed k) = k ≢ h
Spares s h shuts_down = ⊥

abbrev pub AllSpare : List ℕ → ℕ → List RouterStep → Type 0
AllSpare s h [] = Unit {0}
AllSpare s h (e ∷ es) = Spares s h e × AllSpare s h es

module _ (s : List ℕ) (h : ℕ) where
  -- The channel is registered under the session.
  abbrev IsHeld : WsRouter → Type 0
  IsHeld rt = find s rt.chans ≡ some h

  abbrev IsHeldFirst : WsRouter × Bool → Type 0
  IsHeldFirst p = IsHeld p.0

  remove-IsHeld :
      (sid : List ℕ) (k : ℕ) (rt : WsRouter) → k ≢ h → IsHeld rt → IsHeld (remove sid k rt)
  unfolding remove
  remove-IsHeld sid k rt other held = elim (Option-cases (find sid rt.chans)) [
    | inl missing ↦ rw (remove, missing) held
    | inr (cur, there) ↦ elim (Bool-cases (cur == k)) [
      | inr differs ↦ rw (remove, there, differs) held
      | inl same ↦
          rw (remove, there, same)
            (forget_other sid s rt.chans (λ e. other (
                sym ((==_iff cur k).0 same)
                ∙ some_same (sym there ∙ ap (λ x. find x rt.chans) e ∙ held)))
              ∙ held)
    ]
  ]

  close_local-IsHeld : (k : ℕ) (rt : WsRouter) → k ≢ h → IsHeld rt → IsHeld (close_local k rt)
  unfolding close_local mark_closed
  close_local-IsHeld k rt other held =
      remove-IsHeld (rt.conns k).sid k (mark_closed k rt) other held

  write_made-IsHeld :
      (accepts : Accepts) (made : Result FrameError (List ℕ)) (rt : WsRouter)
      → IsHeld rt
      → IsHeld (write_made accepts made rt).0
  unfolding write_made write_raw
  write_made-IsHeld accepts (err e) rt held = held
  write_made-IsHeld accepts (ok frame) rt held = held

  write_routed-IsHeld :
      (accepts : Accepts) (sid : List ℕ) (t : ℕ) (payload : List ℕ) (rt : WsRouter)
      → IsHeld rt
      → IsHeld (write_routed accepts sid t payload rt).0
  unfolding write_routed
  write_routed-IsHeld accepts sid t payload rt held =
      write_made-IsHeld accepts (encode_routed sid t payload) rt held

  deliver-IsHeld :
      (to : Option ℕ) (frame : List ℕ) (rt : WsRouter) → IsHeld rt → IsHeld (deliver to frame rt)
  unfolding deliver
  deliver-IsHeld none frame rt held = held
  deliver-IsHeld (some k) frame rt held =
      if_holds IsHeld (rt.conns k).closed rt
        (record rt {
          conns = changed k (λ c. record c { queue = c.queue ++ (frame ∷ []) }) rt.conns;
        })
        held held

  detach_session-IsHeld :
      (sid : List ℕ) (rt : WsRouter)
      → sid ≢ s
      → Routes rt
      → IsHeld rt
      → IsHeld (detach_session sid rt)
  unfolding detach_session
  detach_session-IsHeld sid rt other r held = elim (Option-cases (find sid rt.chans)) [
    | inl missing ↦ rw (detach_session, missing) (forget_other sid s rt.chans other ∙ held)
    | inr (k, there) ↦
        rw (detach_session, there)
          (close_local-IsHeld k (record rt { chans = forget sid rt.chans })
            (λ e. other (sym (r sid k there).1 ∙ ap (λ n. (rt.conns n).sid) e ∙ (r s h held).1))
            (forget_other sid s rt.chans other ∙ held))
  ]

  attach_session-IsHeld :
      (accepts : Accepts) (got : Option ℕ) (sid : List ℕ) (rt : WsRouter)
      → IsHeld rt
      → IsHeld (attach_session accepts got sid rt).0
  unfolding attach_session register
  attach_session-IsHeld accepts got sid rt held = elim (Option-cases (find sid rt.chans)) [
    | inr there ↦
        rw (attach_session, there.1) (write_routed-IsHeld accepts sid attach_ok [] rt held)
    | inl missing ↦ elim (Option-cases got) [
      | inl no_session ↦
          rw (attach_session, missing, no_session)
            (write_routed-IsHeld accepts sid attach_fail not_found_text rt held)
      | inr known ↦
          rw (attach_session, missing, known.1)
            (put_other sid s rt.next rt.chans
                (λ e. none-some (sym missing ∙ ap (λ x. find x rt.chans) e ∙ held))
              ∙ held)
    ]
  ]

  dispatch-IsHeld :
      (accepts : Accepts) (got : Option ℕ) (f : RoutedFrame) (rt : WsRouter)
      → (f.msg_type ≡ detach → f.session_id ≢ s)
      → Routes rt
      → IsHeld rt
      → IsHeld (dispatch accepts got f rt).0
  unfolding dispatch write_raw
  dispatch-IsHeld accepts got f rt other r held =
      if_holds IsHeldFirst (is_conn_level f) _ _
        (if_holds IsHeldFirst (f.msg_type == ping) _ _ held held)
        (if_holds IsHeldFirst (f.msg_type == attach) _ _
          (attach_session-IsHeld accepts got f.session_id rt held)
          (elim (Bool-cases (f.msg_type == detach)) [
            | inl asked ↦ rw asked (
                detach_session-IsHeld f.session_id rt (other ((==_iff f.msg_type detach).0 asked)) r
                  held)
            | inr not_asked ↦
                rw not_asked
                  (deliver-IsHeld (channel f.session_id rt) (f.msg_type ∷ f.payload) rt held)
          ]))

  receive-IsHeld :
      (accepts : Accepts) (got : Option ℕ) (msg : List ℕ) (rt : WsRouter)
      → Spares s h (receives got msg)
      → Routes rt
      → IsHeld rt
      → IsHeld (receive accepts got msg rt).0
  unfolding receive
  receive-IsHeld accepts got msg rt spares r held = elim (Result-cases (decode_routed msg)) [
    | inl good ↦
        rw (receive, good.1) (dispatch-IsHeld accepts got good.0 rt (spares good.0 good.1) r held)
    | inr bad ↦ rw (receive, bad.1) held
  ]

  attach_started-IsHeld :
      (accepts : Accepts) (k : ℕ) (rt : WsRouter)
      → k ≢ h
      → IsHeld rt
      → IsHeld (attach_started accepts k rt).0
  unfolding attach_started
  attach_started-IsHeld accepts k rt other held =
      let sent = write_routed accepts (rt.conns k).sid attach_ok [] rt in
      let kept = write_routed-IsHeld accepts (rt.conns k).sid attach_ok [] rt held in
      if_holds IsHeldFirst sent.1 (sent.0, true) (remove (rt.conns k).sid k sent.0, false) kept
        (remove-IsHeld (rt.conns k).sid k sent.0 other kept)

  write_conn-IsHeld :
      (accepts : Accepts) (k : ℕ) (b : List ℕ) (rt : WsRouter)
      → IsHeld rt
      → IsHeld (write_conn accepts k b rt).0
  unfolding write_conn write_routed_session
  write_conn-IsHeld accepts k [] rt held = held
  write_conn-IsHeld accepts k (t ∷ rest) rt held =
      write_made-IsHeld accepts (encode_routed_session (rt.conns k).sid (t ∷ rest)) rt held

  router_step-IsHeld :
      (accepts : Accepts) (e : RouterStep) (rt : WsRouter)
      → Spares s h e
      → Routes rt
      → IsHeld rt
      → IsHeld (router_step accepts e rt)
  unfolding router_step attach_ended read_message mark_closed close_conn
  router_step-IsHeld accepts (receives got msg) rt spares r held =
      receive-IsHeld accepts got msg rt spares r held
  router_step-IsHeld accepts (starts k) rt other r held =
      attach_started-IsHeld accepts k rt other held
  router_step-IsHeld accepts (ends k) rt other r held =
      close_local-IsHeld k (remove (rt.conns k).sid k rt) other
        (remove-IsHeld (rt.conns k).sid k rt other held)
  router_step-IsHeld accepts (reads k) rt _ r held = held
  router_step-IsHeld accepts (marks k) rt _ r held = held
  router_step-IsHeld accepts (removes k) rt other r held =
      remove-IsHeld (rt.conns k).sid k rt other held
  router_step-IsHeld accepts (writes k b) rt _ r held = write_conn-IsHeld accepts k b rt held
  router_step-IsHeld accepts (closes destroyed k) rt other r held =
      write_routed-IsHeld accepts (rt.conns k).sid session_event
        ((if destroyed then event_destroyed else event_preempted) ∷ []) (close_local k rt)
        (close_local-IsHeld k rt other held)
  router_step-IsHeld accepts shuts_down rt never r held = absurd never

  router_steps-IsHeld :
      (accepts : Accepts) (es : List RouterStep) (rt : WsRouter)
      → AllSpare s h es
      → Routes rt
      → IsHeld rt
      → IsHeld (router_steps accepts es rt)
  unfolding router_steps
  router_steps-IsHeld accepts [] rt spare r held = held
  router_steps-IsHeld accepts (e ∷ es) rt spare r held =
      router_steps-IsHeld accepts es (router_step accepts e rt) spare.1
        (router_step-Routes accepts e rt r) (router_step-IsHeld accepts e rt spare.0 r held)

  -- Once a channel is registered under a session id on a connection that began empty, then after any
  -- steps but its own goroutine's, its own closing, a Detach of that session and the shutdown, in any
  -- order and with any outcome of each write, it is still the one registered there and carries that id;
  -- and if the connection then shuts down, it is closed and the id has no channel.
  pub channel_stays :
      (accepts : Accepts) (before after : List RouterStep)
      → find s (router_steps accepts before new_ws_router).chans ≡ some h
      → AllSpare s h after
      → let rt = router_steps accepts after (router_steps accepts before new_ws_router) in
        (find s rt.chans ≡ some h)
        × ((rt.conns h).sid ≡ s)
        × (((close_all rt).conns h).closed ≡ true)
        × (find s (close_all rt).chans ≡ none)
  channel_stays accepts before after held spare =
      let start = router_steps accepts before new_ws_router in
      let routes : Routes start =
        router_steps-Routes accepts before new_ws_router (unfold find in λ s h. cc) in
      let rt = router_steps accepts after start in
      let there = router_steps-IsHeld accepts after start spare routes held in
      let ended = close_all_closes rt s h there in
      (there, (router_steps-Routes accepts after start routes s h there).1, ended.0, ended.1)
