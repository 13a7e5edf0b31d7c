-- ===== src/Session/Attach/Ownership.antt =====
-- internal/session/session.go: at most one client per session, and how an attach ends.
use mathlib.Core.List.{Memᴰ}
use gossh.Prelude.{
  ℕ, ◌<◌, ◌≡◌, refl, sym, ◌⊎◌, inl, inr, none, some, ◌==◌, arith, err, true, false, Bool-cases,
  ==_iff, ==_self,
}
use gossh.Session.Attach.{
  Attachment, Life, Outcome, idle, running, destroyed, session_destroyed, session_preempted,
  attach_begin, attach_end, detach, destroy, new_life, Step, begins, ends, detaches, destroys,
  Reach, here, next, is_destroyed, clear_conn, left,
}
use gossh.Session.Attach.Invariant.{Inv, Reach-Inv, Account-of}

-- In any reachable state, two attaches in progress whose connections nobody has closed are the same
-- attach (they have the same epoch and connection), and the session is running with that connection.
pub single_client :
    (now : ℕ) {w : Life} (a b : Attachment)
    → Reach (new_life now) w
    → Memᴰ a w.attached
    → Memᴰ b w.attached
    → ¬ Memᴰ a.conn w.closing
    → ¬ Memᴰ b.conn w.closing
    → (a.my_epoch ≡ b.my_epoch) × (a.conn ≡ b.conn) × (w.state ≡ running) × (w.conn ≡ some a.conn)
single_client now {w} a b r ma mb oa ob =
    let h : Inv w = Reach-Inv now r in
    elim (Account-of w w.attached ma h.accounted) [
      | inr (_, m) ↦ absurd (oa m)
      | inl (ea, run, ca) ↦ elim (Account-of w w.attached mb h.accounted) [
        | inr (_, m) ↦ absurd (ob m)
        | inl (eb, _, cb) ↦ (omega arith, cc, run, ca)
      ]
    ]

module _ (now : ℕ) (a : Attachment) (e : Outcome) (w : Life) where
  end_destroyed : is_destroyed w.state ≡ true → attach_end now a e w ≡ (left now a w, e)
  unfolding attach_end
  end_destroyed dead = rw dead

  end_owner :
      is_destroyed w.state ≡ false
      → (w.attach_epoch == a.my_epoch) ≡ true
      → attach_end now a e w
        ≡ (record (left now a w) { state = idle; conn = clear_conn w.conn a.conn }, e)
  unfolding attach_end
  end_owner live mine = rw (live, mine)

  end_taken_over :
      is_destroyed w.state ≡ false
      → (w.attach_epoch == a.my_epoch) ≡ false
      → attach_end now a e w ≡ (left now a w, session_preempted)
  unfolding attach_end
  end_taken_over live lost = rw (live, lost)

-- How the second section of Attach ends, for an attach in progress in a reachable state: after
-- Destroy it leaves the session destroyed without a connection and passes on the error of `bridge`;
-- the owner leaves the session idle with no connection; an attach that was taken over returns
-- ErrSessionPreempted and leaves state, connection and epoch alone.
pub attach_end_cases :
    (start now : ℕ) {w : Life} (a : Attachment) (e : Outcome)
    → Reach (new_life start) w
    → Memᴰ a w.attached
    → let (w', out) = attach_end now a e w in
      ((w.state ≡ destroyed) × (w'.state ≡ destroyed) × (w'.conn ≡ none) × (out ≡ e))
      ⊎ ((a.my_epoch ≡ w.attach_epoch) × (w'.state ≡ idle) × (w'.conn ≡ none) × (out ≡ e))
      ⊎ ((a.my_epoch < w.attach_epoch)
          × (w'.state ≡ w.state)
          × (w'.conn ≡ w.conn)
          × (w'.attach_epoch ≡ w.attach_epoch)
          × (out ≡ session_preempted))
attach_end_cases start now {w} a e r m =
    let h : Inv w = Reach-Inv start r in
    elim (Bool-cases (is_destroyed w.state)) [
      | inl dead ↦
          let d : w.state ≡ destroyed = ground arith in
          rw (end_destroyed now a e w dead) (inl (d, d, h.free (λ q. cc), refl))
      | inr live ↦ elim (Account-of w w.attached m h.accounted) [
        | inl (same, _, c) ↦
            rw (end_owner now a e w live ((==_iff w.attach_epoch a.my_epoch).1 (sym same)))
              (inr (inl (same, refl, rw c (rw (==_self a.conn) refl), refl)))
        | inr (old, _) ↦
            rw (end_taken_over now a e w live (ground arith))
              (inr (inr (old, refl, refl, refl, refl)))
      ]
    ]

Step-destroyed : {w w' : Life} → Step w w' → w.state ≡ destroyed → w'.state ≡ destroyed
unfolding attach_begin attach_end detach destroy
Step-destroyed (begins now c e) d = absurd (ground arith)
Step-destroyed (ends now a e m) d = ground arith
Step-destroyed detaches d = d
Step-destroyed destroys d = ground arith

Reach-destroyed : {w w' : Life} → Reach w w' → w.state ≡ destroyed → w'.state ≡ destroyed
Reach-destroyed here d = d
Reach-destroyed (next r s) d = Step-destroyed s (Reach-destroyed r d)

-- Destroyed is final: no critical section leaves it, and every later attach is refused.
pub destroyed_final :
    {w w' : Life} (now c : ℕ)
    → w.state ≡ destroyed
    → Reach w w'
    → (w'.state ≡ destroyed) × (attach_begin now c w' ≡ err session_destroyed)
unfolding attach_begin
destroyed_final {w} {w'} now c d r =
    let d' : w'.state ≡ destroyed = Reach-destroyed r d in (d', ground arith)
