-- ===== src/Router/Channel.antt =====
-- internal/api/ws_handler.go: what leaves the queue of a registered channel alone.
use gossh.Prelude.{
  ℕ, ◌≡◌, ◌≢◌, sym, ap, ◌∙◌, inl, inr, true, false, List, [], Option, some, ◌==◌, Result, ok, err,
  arith, Option-cases, none-some, if_holds,
}
use gossh.Protocol.{FrameError, encode_routed}
use gossh.Session.{Accepts}
use gossh.Router.Channels.{find, forget, forget_other, put_other}
use gossh.Router.{
  VirtualConn, WsRouter, attach_ok, attach_fail, not_found_text, changed, write_raw, write_made,
  write_routed, remove, mark_closed, close_local, detach_session, register, attach_session,
}
use gossh.Router.Invariant.{Routes, changed_other}

-- The channel is registered and open, and this is its queue.
pub record HasQueue (sid : List ℕ) (h : ℕ) (queue : List (List ℕ)) (rt : WsRouter) : Type 0 where
  pub there : find sid rt.chans ≡ some h
  pub conn_open : (rt.conns h).closed ≡ false
  pub queued : (rt.conns h).queue ≡ queue

module _ (sid : List ℕ) (h : ℕ) (q : List (List ℕ)) where
  -- Another channel is changed.
  pub keeps_other :
      (k : ℕ) (f : VirtualConn → VirtualConn) (rt : WsRouter)
      → h ≢ k
      → HasQueue sid h q rt
      → HasQueue sid h q (record rt { conns = changed k f rt.conns })
  keeps_other k f rt ne has = record {
    there = has.there;
    conn_open = ap (λ c. c.closed) (changed_other k h f rt.conns ne) ∙ has.conn_open;
    queued = ap (λ c. c.queue) (changed_other k h f rt.conns ne) ∙ has.queued;
  }

  pub keeps_forget :
      (other : List ℕ) (rt : WsRouter)
      → other ≢ sid
      → HasQueue sid h q rt
      → HasQueue sid h q (record rt { chans = forget other rt.chans })
  keeps_forget other rt ne has = record {
    there = forget_other other sid rt.chans ne ∙ has.there;
    conn_open = has.conn_open;
    queued = has.queued;
  }

  pub keeps_remove :
      (other : List ℕ) (k : ℕ) (rt : WsRouter)
      → other ≢ sid
      → HasQueue sid h q rt
      → HasQueue sid h q (remove other k rt)
  unfolding remove
  keeps_remove other k rt ne has = elim (Option-cases (find other rt.chans)) [
    | inl missing ↦ rw (remove, missing) has
    | inr found ↦
        rw (remove, found.1)
          (if_holds (HasQueue sid h q) (found.0 == k) (record rt { chans = forget other rt.chans })
            rt (keeps_forget other rt ne has) has)
  ]

  pub keeps_detach :
      (other : List ℕ) (rt : WsRouter)
      → other ≢ sid
      → Routes rt
      → HasQueue sid h q rt
      → HasQueue sid h q (detach_session other rt)
  unfolding detach_session close_local mark_closed
  keeps_detach other rt ne r has = elim (Option-cases (find other rt.chans)) [
    | inl missing ↦ rw (detach_session, missing) (keeps_forget other rt ne has)
    | inr found ↦
        rw (detach_session, found.1)
          (keeps_remove (rt.conns found.0).sid found.0
            (mark_closed found.0 (record rt { chans = forget other rt.chans }))
            (λ same. ne (sym (r other found.0 found.1).1 ∙ same))
            (keeps_other found.0 (λ c. record c { closed = true })
              (record rt { chans = forget other rt.chans })
              (λ same. ne (
                sym (r other found.0 found.1).1
                ∙ ap (λ i. (rt.conns i).sid) (sym same)
                ∙ (r sid h has.there).1))
              (keeps_forget other rt ne has)))
  ]

  pub keeps_made :
      (accepts : Accepts) (made : Result FrameError (List ℕ)) (rt : WsRouter)
      → HasQueue sid h q rt
      → HasQueue sid h q (write_made accepts made rt).0
  unfolding write_made write_raw
  keeps_made accepts (err e) rt has = has
  keeps_made accepts (ok frame) rt has = record {
    there = has.there;
    conn_open = has.conn_open;
    queued = has.queued;
  }

  pub keeps_register :
      (other : List ℕ) (sess : ℕ) (rt : WsRouter)
      → other ≢ sid
      → Routes rt
      → HasQueue sid h q rt
      → HasQueue sid h q (register other sess rt)
  unfolding register
  keeps_register other sess rt ne r has =
      let made =
        keeps_other rt.next (λ c. record { sid = other; sess = sess; queue = []; closed = false })
          rt (λ same. omega (arith, same, (r sid h has.there).0)) has in
      record {
        there = put_other other sid rt.next rt.chans ne ∙ has.there;
        conn_open = made.conn_open;
        queued = made.queued;
      }

  pub keeps_attach :
      (accepts : Accepts) (got : Option ℕ) (other : List ℕ) (rt : WsRouter)
      → Routes rt
      → HasQueue sid h q rt
      → HasQueue sid h q (attach_session accepts got other rt).0
  unfolding attach_session write_routed
  keeps_attach accepts got other rt r has = elim (Option-cases (find other rt.chans)) [
    | inr found ↦
        rw (attach_session, found.1) (keeps_made accepts (encode_routed other attach_ok []) rt has)
    | inl missing ↦ elim (Option-cases got) [
      | inl no_session ↦
          rw (attach_session, missing, no_session)
            (keeps_made accepts (encode_routed other attach_fail not_found_text) rt has)
      | inr known ↦
          rw (attach_session, missing, known.1)
            (keeps_register other known.0 rt
              (λ same. none-some (sym missing ∙ ap (λ s. find s rt.chans) same ∙ has.there)) r has)
    ]
  ]
