-- ===== src/Manager/Registry.antt =====
-- internal/session/manager.go: what holds of the registry and the store between any two sections.
pub mod Creation
pub mod Titles
pub mod Calls
use gossh.Prelude.{
  ℕ, ◌≤◌, ◌<◌, ◌≡◌, ◌≢◌, refl, sym, ap, ◌∙◌, Bool, true, false, String, List, [], ◌∷◌, Option, none,
  some, ◌=s◌, ◌==◌, ◌&&◌, not, if◌then◌else◌, length, GoMap, lookup, insert_found, delete_found,
  arith, inl, inr, Bool-cases, Option-cases, =s-cases, =s_self, =s_ne, =s→≡, some_same, none-some,
  ◌⊎◌, ok, err,
}
use mathlib.Core.Path.{subst}
use gossh.Session.Attach.{Life}
use gossh.Store.{Metadata, StoreOps}
use gossh.Store.Laws.{StoreLaws, find_meta}
use gossh.Manager.{
  Session, Manager, ManagerError, Request, Plan, alive, plan, is_full, is_fresh, start, new_session,
  created_meta, create_with_id, change_session, torn, destroy_close, destroy_remove, update_title,
  retitle_record, retitled, destroy_expired, is_expired, empty_manager, not_found,
  too_many_sessions, no_host, factory_failed,
}
use gossh.Manager.Sweep.{
  kept, lookup-destroy_expired, length-delete, length-sweep, length-insert, length-insert_known,
  length-changed, lookup-changed, changed_at,
}

module _ {S : Type 0} (ops : StoreOps S) {IsKeyed : S → Type 0} (laws : StoreLaws ops IsKeyed) where
  -- A registered session has its own id, and a record with its spec.
  abbrev pub Recorded : String → Session → S → Type 0
  Recorded id s store =
      (s.id ≡ id) × (meta : Metadata) × (ops.get id store ≡ some meta) × (meta.spec ≡ s.spec)

  pub record Registered (m : Manager S) : Type 0 where
    pub keyed : IsKeyed m.store
    pub recorded :
        (id : String) (s : Session) → lookup id m.sessions ≡ some s → Recorded id s m.store
    pub bounded : 0 < m.max_session → length m.sessions ≤ m.max_session

  -- One critical section: of a method of the manager, or of a session on its own.
  pub data Call : Type 0 where
    creates : Request → Call
    closes : Session → Call
    removes : String → Call
    retitles : String → String → Call
    sweeps : ℕ → Call
    lives : ℕ → Life → Bool → Call

  abbrev pub lived : Life → Bool → Session → Session
  lived life exited s = record s { life = life; exited = exited }

  abbrev pub call : Call → Manager S → Manager S
  call (creates r) m = (create_with_id ops r m).0
  call (closes s) m = destroy_close s m
  call (removes id) m = destroy_remove id m
  call (retitles id title) m = (update_title ops id title m).0
  call (sweeps now) m = (destroy_expired now m).0
  call (lives h life exited) m = change_session h (lived life exited) m

  abbrev pub calls : List Call → Manager S → Manager S
  calls [] m = m
  calls (c ∷ cs) m = calls cs (call c m)

  pub changed-Registered :
      (h : ℕ) (f : Session → Session) (m : Manager S)
      → ((s : Session) → ((f s).id ≡ s.id) × ((f s).spec ≡ s.spec))
      → Registered m
      → Registered (change_session h f m)
  changed-Registered h f m same r = record {
    keyed = r.keyed;
    recorded = λ id s at_id. by_old id s (sym (lookup-changed h f id m.sessions) ∙ at_id);
    bounded = λ p. rw (length-changed h f m.sessions) (r.bounded p);
  }
    where
      by_entry :
          (b : Bool) (id : String) (t : Session)
          → Recorded id t m.store
          → Recorded id (if b then f t else t) m.store
      by_entry true id t (own, meta, at_, spec) =
          ((same t).0 ∙ own, meta, at_, spec ∙ sym (same t).1)
      by_entry false id t known = known

      by_old :
          (id : String) (s : Session)
          → changed_at h f (lookup id m.sessions) ≡ some s
          → Recorded id s m.store
      by_old id s e = elim (Option-cases (lookup id m.sessions)) [
        | inl none_ ↦ absurd (none-some (rw none_ at e))
        | inr (t, found) ↦
            subst (λ x. Recorded id x m.store) (some_same (rw found at e))
              (by_entry (t.handle == h) id t (r.recorded id t found))
      ]

  pub remove-Registered :
      (id : String) (m : Manager S) → Registered m → Registered (destroy_remove id m)
  unfolding destroy_remove
  remove-Registered id m r = record {
    keyed = r.keyed;
    recorded = λ k s e. r.recorded k s (delete_found id k m.sessions e).1;
    bounded = λ p. ground (arith, r.bounded p, length-delete id m.sessions);
  }

  kept_found :
      (now timeout : ℕ) (o : Option Session) (s : Session)
      → kept now timeout o ≡ some s
      → o ≡ some s
  kept_found now timeout none s e = e
  kept_found now timeout (some t) s e = elim (Bool-cases (is_expired now timeout t)) [
    | inl gone ↦ absurd (none-some (rw gone at e))
    | inr stays ↦ rw stays at e
  ]

  pub sweep-Registered :
      (now : ℕ) (m : Manager S) → Registered m → Registered (destroy_expired now m).0
  unfolding destroy_expired
  sweep-Registered now m r = record {
    keyed = r.keyed;
    recorded = λ k s e.
        r.recorded k s
          (kept_found now m.idle_timeout _ s (sym (lookup-destroy_expired now k m) ∙ e));
    bounded = λ p. ground (arith, r.bounded p, length-sweep now m.idle_timeout m.sessions);
  }

  pub get_here :
      (meta : Metadata) (store : S) → ops.get meta.id (ops.record_meta meta store).0 ≡ some meta
  get_here meta store = laws.get_record meta store meta.id ∙ rw (=s_self meta.id) refl

  pub get_other :
      (meta : Metadata) (store : S) (k : String)
      → meta.id ≢ k
      → ops.get k (ops.record_meta meta store).0 ≡ ops.get k store
  get_other meta store k other = laws.get_record meta store k ∙ rw (=s_ne meta.id k other) refl

  pub Recorded-record :
      (meta old : Metadata) (k : String) (s : Session) (store : S)
      → ops.get meta.id store ≡ some old
      → old.spec ≡ meta.spec
      → Recorded k s store
      → Recorded k s (ops.record_meta meta store).0
  Recorded-record meta old k s store known same (own, m, at_k, spec) = elim (=s-cases meta.id k) [
    | inl here ↦
        let is_old : old ≡ m = some_same (sym known ∙ ap (λ x. ops.get x store) here ∙ at_k) in
        (
          own,
          meta,
          ap (λ x. ops.get x (ops.record_meta meta store).0) (sym here) ∙ get_here meta store,
          sym same ∙ ap (λ x. x.spec) is_old ∙ spec,
        )
    | inr there ↦ (own, m, get_other meta store k there ∙ at_k, spec)
  ]
