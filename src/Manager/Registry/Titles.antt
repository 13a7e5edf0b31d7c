-- ===== src/Manager/Registry/Titles.antt =====
-- internal/session/manager.go: UpdateTitle keeps the registry in order.
use gossh.Prelude.{
  ◌≡◌, refl, sym, ap, ◌∙◌, String, List, [], ◌∷◌, none, some, ◌=s◌, length, GoMap, lookup,
  insert_found, inl, inr, Bool-cases, Option-cases, =s→≡, ◌⊎◌,
}
use gossh.Store.{Metadata, StoreOps}
use gossh.Store.Laws.{StoreLaws, find_meta}
use gossh.Manager.{Session, Manager, update_title, retitle_record, retitled, not_found}
use gossh.Manager.Sweep.{length-insert_known}
use gossh.Manager.Registry.{Registered, Recorded, Recorded-record}

module _ {S : Type 0} (ops : StoreOps S) {IsKeyed : S → Type 0} (laws : StoreLaws ops IsKeyed) where
  -- The loop of UpdateTitle: the first record with the id is stored again with the title.
  pub retitle_record_cases :
      (id title : String) (metas : List Metadata) (store : S)
      → ((find_meta id metas ≡ none)
          × (retitle_record ops id title metas store ≡ (store, some not_found)))
        ⊎ ((meta : Metadata) × (find_meta id metas ≡ some meta)
            × (meta.id ≡ id)
            × ((retitle_record ops id title metas store).0
                ≡ (ops.record_meta (record meta { title = title }) store).0))
  retitle_record_cases id title [] store = inl (refl, refl)
  retitle_record_cases id title (meta ∷ metas) store = elim (Bool-cases (meta.id =s id)) [
    | inl here ↦ inr (meta, rw here refl, =s→≡ meta.id id here, rw here refl)
    | inr there ↦ rw there (retitle_record_cases id title metas store)
  ]

  retitled_found :
      (id title : String) (live : GoMap Session) (k : String) (t : Session)
      → lookup k (retitled id title live) ≡ some t
      → (s : Session) × (lookup k live ≡ some s) × (s.id ≡ t.id) × (s.spec ≡ t.spec)
  retitled_found id title live k t e = elim (Option-cases (lookup id live)) [
    | inl none_ ↦ (t, (rw (none_, retitled) at e), refl, refl)
    | inr (s, found) ↦
        elim (insert_found id k (record s { title = title }) live (rw (found, retitled) at e)) [
          | inl (here, is_t) ↦ (
            s,
            ap (λ x. lookup x live) (sym here) ∙ found,
            ap (λ x. x.id) is_t,
            ap (λ x. x.spec) is_t,
          )
          | inr (there, old) ↦ (t, old, refl, refl)
        ]
  ]

  length-retitled :
      (id title : String) (live : GoMap Session) → length (retitled id title live) ≡ length live
  length-retitled id title live = elim (Option-cases (lookup id live)) [
    | inl none_ ↦ rw (none_, retitled) refl
    | inr (s, found) ↦
        rw (found, retitled) (length-insert_known id (record s { title = title }) s live found)
  ]

  record-after :
      (id title : String) (m : Manager S) (k : String) (s : Session)
      → IsKeyed m.store
      → Recorded ops laws k s m.store
      → Recorded ops laws k s (update_title ops id title m).0.store
  unfolding update_title
  record-after id title m k s keyed known =
      elim (retitle_record_cases id title (ops.all m.store) m.store) [
        | inl (_, e) ↦ rw e known
        | inr (meta, found, own, e) ↦ rw e (
            Recorded-record ops laws (record meta { title = title }) meta k s m.store
              (ap (λ x. ops.get x m.store) own ∙ sym (laws.find_all id m.store keyed) ∙ found) refl
              known)
      ]

  keyed-after :
      (id title : String) (m : Manager S)
      → IsKeyed m.store
      → IsKeyed (update_title ops id title m).0.store
  unfolding update_title
  keyed-after id title m keyed = elim (retitle_record_cases id title (ops.all m.store) m.store) [
    | inl (_, e) ↦ rw e keyed
    | inr (meta, _, _, e) ↦ rw e (laws.record-IsKeyed (record meta { title = title }) m.store keyed)
  ]

  pub retitle-Registered :
      (id title : String) (m : Manager S)
      → Registered ops laws m
      → Registered ops laws (update_title ops id title m).0
  unfolding update_title
  retitle-Registered id title m r = record {
    keyed = keyed-after id title m r.keyed;
    recorded = λ k t e.
        let (s, found, own, spec) = retitled_found id title m.sessions k t e in
        let (own', meta, at_, spec') = r.recorded k s found in
        record-after id title m k t r.keyed (sym own ∙ own', meta, at_, spec' ∙ spec);
    bounded = λ q. rw (length-retitled id title m.sessions) (r.bounded q);
  }
