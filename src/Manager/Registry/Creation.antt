-- ===== src/Manager/Registry/Creation.antt =====
-- internal/session/manager.go: CreateWithID keeps the registry in order.
use gossh.Prelude.{
  ℕ, ◌≡◌, refl, sym, ap, ◌∙◌, true, false, some, ◌=s◌, ◌&&◌, not, insert_found, arith, inl, inr,
  Bool-cases, Option-cases, ◌⊎◌, ok, err,
}
use gossh.Store.{StoreOps}
use gossh.Store.Laws.{StoreLaws}
use gossh.Manager.{
  Session, Manager, ManagerError, Request, Plan, alive, plan, is_full, is_fresh, start, new_session,
  created_meta, create_with_id, too_many_sessions, no_host, factory_failed,
}
use gossh.Manager.Sweep.{length-insert}
use gossh.Manager.Registry.{Registered, get_here, get_other}

module _ {S : Type 0} (ops : StoreOps S) {IsKeyed : S → Type 0} (laws : StoreLaws ops IsKeyed) where
  created_meta-id : (p : Plan) (s : Session) → (created_meta p s).id ≡ s.id
  unfolding created_meta
  created_meta-id p s = elim (Option-cases p.recorded) [
    | inl none_ ↦ rw (none_, created_meta) refl
    | inr (meta, known) ↦ rw (known, created_meta) refl
  ]

  created_meta-spec : (p : Plan) (s : Session) → (created_meta p s).spec ≡ p.spec
  unfolding created_meta
  created_meta-spec p s = elim (Option-cases p.recorded) [
    | inl none_ ↦ rw (none_, created_meta) refl
    | inr (meta, known) ↦ rw (known, created_meta) refl
  ]

  pub start-Registered :
      (now : ℕ) (p : Plan) (m : Manager S)
      → is_full m ≡ false
      → Registered ops laws m
      → Registered ops laws (start ops now p m)
  unfolding start new_session is_full
  start-Registered now p m room r =
      let s = new_session m.next_handle p.id p.spec now in
      let meta = created_meta p s in
      let own : meta.id ≡ p.id = created_meta-id p s in
      record {
        keyed = laws.record-IsKeyed meta m.store r.keyed;
        recorded = λ k t e. elim (insert_found p.id k s m.sessions e) [
          | inl (here, is_s) ↦ (
            sym (ap (λ x. x.id) is_s) ∙ here,
            meta,
            ap (λ x. ops.get x (ops.record_meta meta m.store).0) (sym here ∙ sym own)
                ∙ get_here ops laws meta m.store,
            created_meta-spec p s ∙ ap (λ x. x.spec) is_s,
          )
          | inr (there, old) ↦
              let (own_t, m', at_, spec) = r.recorded k t old in
              (own_t, m', get_other ops laws meta m.store k (λ q. there (sym own ∙ q)) ∙ at_, spec)
        ];
        bounded = λ q. ground (arith, length-insert p.id s m.sessions);
      }

  -- The ways a CreateWithID ends.
  pub create_with_id_cases :
      (r : Request) (m : Manager S)
      → ((s : Session) × (alive r.id m ≡ some s) × (create_with_id ops r m ≡ (m, ok (s, false))))
        ⊎ ((e : ManagerError) × (create_with_id ops r m ≡ (m, err e)))
        ⊎ ((is_full m ≡ false)
            × (create_with_id ops r m ≡ (
              start ops r.now (plan ops r m) m,
              ok (new_session m.next_handle (plan ops r m).id (plan ops r m).spec r.now, true),
            )))
  unfolding create_with_id
  create_with_id_cases r m = elim (Option-cases (alive r.id m)) [
    | inr (s, found) ↦ inl (s, found, rw (found, create_with_id) refl)
    | inl none_ ↦ elim (Bool-cases (is_full m)) [
      | inl full ↦ inr (inl (too_many_sessions, rw (none_, full, create_with_id) refl))
      | inr room ↦
          elim (Bool-cases (is_fresh (plan ops r m) && ((plan ops r m).spec.host_id =s ""))) [
            | inl homeless ↦ inr (inl (no_host, rw (none_, room, homeless, create_with_id) refl))
            | inr hosted ↦ elim (Bool-cases (not (r.factory (plan ops r m).spec))) [
              | inl broken ↦
                  inr (inl (factory_failed, rw (none_, room, hosted, broken, create_with_id) refl))
              | inr made ↦ inr (inr (room, rw (none_, room, hosted, made, create_with_id) refl))
            ]
          ]
    ]
  ]

  pub create-Registered :
      (r : Request) (m : Manager S)
      → Registered ops laws m
      → Registered ops laws (create_with_id ops r m).0
  create-Registered r m reg = elim (create_with_id_cases r m) [
    | inl (s, _, e) ↦ rw e reg
    | inr (inl (e, q)) ↦ rw q reg
    | inr (inr (room, q)) ↦ rw q (start-Registered r.now (plan ops r m) m room reg)
  ]
