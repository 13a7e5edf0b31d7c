-- ===== src/Router/Tests.antt =====
-- internal/api/ws_handler.go: the theorems on concrete connections.
use gossh.Prelude.{
  ℕ, ◌≡◌, refl, true, false, List, [], ◌∷◌, ◌++◌, Option, none, some, replicate, arith,
}
use gossh.Protocol.{routed_bytes, decode_routed, is_conn_level, input, conn_level_id, output, ping}
use gossh.Session.{Accepts}
use gossh.Router.Channels.{find, put}
use gossh.Router.{
  WsRouter, attach, session_event, event_preempted, new_ws_router, register, serve, close_conn,
  close_all, receive, attach_session, attach_started, write_routed, write_made, write_raw,
}
use gossh.Router.Invariant.{Routes, register-Routes}
use gossh.Router.Steps.{
  RouterStep, receives, starts, ends, reads, marks, writes, closes, router_step, router_steps,
}
use gossh.Router.Stays.{channel_stays}
use gossh.Router.Channel.{HasQueue}
use gossh.Router.Demultiplex.{frames_for, serve-HasQueue}
use gossh.Router.Multiplex.{client_frames, write_all, all_handed, client_frames-write_all}
use gossh.Router.Reattach.{reattached, reattach_told_preempted}

abbrev takes_all : Accepts
takes_all sent m = true

abbrev id_a : List ℕ
id_a = replicate 16 97

abbrev id_b : List ℕ
id_b = replicate 16 98

abbrev one_attached : WsRouter
one_attached = register id_a 3 new_ws_router

-- The channel is made, read and written, and other sessions come and go.
abbrev first_steps : List RouterStep
first_steps = receives (some 3) (routed_bytes id_a attach []) ∷ starts 0 ∷ []

abbrev later_steps : List RouterStep
later_steps = reads 0 ∷ writes 0 (output ∷ 104 ∷ []) ∷ marks 0 ∷ ends 1 ∷ closes false 2 ∷ []

channel_stays_example :
    let rt =
      router_steps takes_all later_steps (router_steps takes_all first_steps new_ws_router) in
    (find id_a rt.chans ≡ some 0)
    × ((rt.conns 0).sid ≡ id_a)
    × (((close_all rt).conns 0).closed ≡ true)
    × (find id_a (close_all rt).chans ≡ none)
channel_stays_example =
    channel_stays id_a 0 takes_all first_steps later_steps
      (unfold router_steps router_step receive decode_routed is_conn_level attach_session register
          find put attach_started write_routed write_made write_raw in
        refl)
      (tt, (tt, (tt, ((λ e. cc), ((λ e. cc), tt)))))

one_attached-Routes : Routes one_attached
unfolding find
one_attached-Routes = register-Routes id_a 3 new_ws_router (λ s h. cc)

abbrev mixed : List (Option ℕ × List ℕ)
mixed =
    (none, routed_bytes id_a input (65 ∷ []))
    ∷ (none, routed_bytes id_b input (66 ∷ []))
    ∷ (none, routed_bytes conn_level_id ping [])
    ∷ (none, 1 ∷ 2 ∷ [])
    ∷ (none, routed_bytes id_a input (67 ∷ []))
    ∷ []

serve-HasQueue_example :
    HasQueue id_a 0 ([] ++ frames_for id_a mixed) (serve takes_all mixed one_attached)
serve-HasQueue_example =
    serve-HasQueue takes_all id_a 0 [] mixed one_attached
      (unfold decode_routed is_conn_level in refl) one_attached-Routes
      (unfold register find put in record { there = refl; conn_open = refl; queued = refl })

client_frames-write_all_example :
    client_frames id_a
      (write_all takes_all
        ((0, output ∷ 104 ∷ []) ∷ (1, output ∷ []) ∷ (0, []) ∷ [])
        one_attached).wire.sent
    ≡ client_frames id_a one_attached.wire.sent
      ++ all_handed takes_all id_a
          ((0, output ∷ 104 ∷ []) ∷ (1, output ∷ []) ∷ (0, []) ∷ [])
          one_attached
client_frames-write_all_example =
    client_frames-write_all id_a refl (λ e. cc) takes_all
      ((0, output ∷ 104 ∷ []) ∷ (1, output ∷ []) ∷ (0, []) ∷ []) one_attached

reattach_told_preempted_example :
    (find id_a
        (close_conn (λ _ _. true) false 0 (reattached (λ _ _. true) id_a 4 one_attached)).chans
      ≡ some one_attached.next)
    × ((close_conn (λ _ _. true) false 0 (reattached (λ _ _. true) id_a 4 one_attached)).wire.sent
        ≡ one_attached.wire.sent ++ (routed_bytes id_a session_event (event_preempted ∷ []) ∷ []))
reattach_told_preempted_example =
    reattach_told_preempted id_a 0 4 one_attached refl (unfold register find put in refl)
      (unfold register in refl) (unfold register in omega arith)
