-- ===== src/Manager/Resurrect.antt =====
-- internal/session/manager.go: a second CreateWithID with an id.
use mathlib.Core.Path.{subst}
use gossh.Prelude.{
  ℕ, suc, ◌≡◌, ◌≢◌, refl, sym, ap, ◌∙◌, Bool, true, false, String, none, some, ◌=s◌, ◌&&◌, not,
  lookup, insert, delete_here, insert_here, arith, inl, inr, Bool-cases, Option-cases, =s_ne,
  some_same, none-some, Result, ok, err,
}
use gossh.Session.Attach.{destroy}
use gossh.Store.{Metadata, StoreOps}
use gossh.Store.Laws.{StoreLaws}
use gossh.Manager.{
  Session, Manager, ManagerError, Request, Plan, alive, plan, is_full, start, new_session,
  created_meta, create_with_id, changed, change_session, torn, destroy_session, destroy_find,
  destroy_close, destroy_remove, get, not_found, is_alive, state_text,
}
use gossh.Manager.Sweep.{changed_at, lookup-changed, length-changed, length-delete_known}
use gossh.Manager.Registry.{Registered, get_here, lived}
use gossh.Manager.Registry.Creation.{create_with_id_cases}

abbrev no_id : String
no_id = ""

alive_found :
    {S : Type 0} (id : String) (m : Manager S) (s : Session)
    → lookup id m.sessions ≡ some s
    → id ≢ no_id
    → s.exited ≡ false
    → alive id m ≡ some s
unfolding alive
alive_found id m s found proper on = rw (found, =s_ne id "" proper, on, alive) refl

alive-lookup :
    {S : Type 0} (id : String) (m : Manager S) (s : Session)
    → alive id m ≡ some s
    → lookup id m.sessions ≡ some s
unfolding alive
alive-lookup id m s e = elim (Option-cases (lookup id m.sessions)) [
  | inl none_ ↦ absurd (none-some (rw (none_, alive) at e))
  | inr (t, found) ↦ elim (Bool-cases (not (id =s "") && not t.exited)) [
    | inl on ↦ found ∙ (rw (found, on, alive) at e)
    | inr off ↦ absurd (none-some (rw (found, off, alive) at e))
  ]
]

create_alive :
    {S : Type 0} (ops : StoreOps S) (r : Request) (m : Manager S) (s : Session)
    → alive r.id m ≡ some s
    → create_with_id ops r m ≡ (m, ok (s, false))
unfolding create_with_id
create_alive ops r m s e = rw (e, create_with_id) refl

start-alive :
    {S : Type 0} (ops : StoreOps S) (now : ℕ) (p : Plan) (m : Manager S)
    → p.id ≢ no_id
    → alive p.id (start ops now p m) ≡ some (new_session m.next_handle p.id p.spec now)
unfolding start new_session
start-alive ops now p m proper =
    alive_found p.id (start ops now p m) (new_session m.next_handle p.id p.spec now)
      (insert_here p.id (new_session m.next_handle p.id p.spec now) m.sessions) proper refl

module _ {S : Type 0} (ops : StoreOps S) {IsKeyed : S → Type 0} (laws : StoreLaws ops IsKeyed) where
  -- CreateWithID is idempotent: where a call on a registry that is `Registered` returns a session
  -- whose id is not empty, a second call for that id, whatever else it asks for, returns the same
  -- session as not created and changes nothing.
  pub create_again :
      (r again : Request) (m m' : Manager S) (s : Session) (made : Bool)
      → Registered ops laws m
      → create_with_id ops r m ≡ (m', ok (s, made))
      → again.id ≡ s.id
      → s.id ≢ no_id
      → create_with_id ops again m' ≡ (m', ok (s, false))
  unfolding new_session
  create_again r again m m' s made reg first same proper =
      create_alive ops again m' s (ap (λ i. alive i m') same ∙ found)
    where
      found : alive s.id m' ≡ some s
      found = elim (create_with_id_cases ops laws r m) [
        | inl (t, on, e) ↦
            let ends : ◌≡◌ {A = Manager S × Result ManagerError (Session × Bool)} (m, ok (t, false))
                (m', ok (s, made)) =
              sym e ∙ first in
            let mm : m ≡ m' = cc in
            let ts : t ≡ s = cc in
            ap (λ x. alive x.id m') (sym ts)
            ∙ ap (alive t.id) (sym mm)
            ∙ ap (λ i. alive i m) (reg.recorded r.id t (alive-lookup r.id m t on)).0
            ∙ on
            ∙ ap some ts
        | inr (inl (e, q)) ↦ cc
        | inr (inr (room, q)) ↦
            let p = plan ops r m in
            let t = new_session m.next_handle p.id p.spec r.now in
            let ends : ◌≡◌ {A = Manager S × Result ManagerError (Session × Bool)}
                (start ops r.now p m, ok (t, true)) (m', ok (s, made)) =
              sym q ∙ first in
            let mm : start ops r.now p m ≡ m' = cc in
            let ts : t ≡ s = cc in
            ap (λ x. alive x.id m') (sym ts)
            ∙ ap (alive p.id) (sym mm)
            ∙ start-alive ops r.now p m (λ z. proper (sym (ap (λ x. x.id) ts) ∙ z))
            ∙ ap some ts
      ]

  -- Destroy and then CreateWithID with the same id: what the second makes.
  pub record Resurrected (old : Session) (meta : Metadata)
      (outcome : Manager S × Result ManagerError (Session × Bool)) : Type 0 where
    pub session : Session
    pub created : outcome.1 ≡ ok (session, true)
    pub same_id : session.id ≡ old.id
    pub same_spec : session.spec ≡ old.spec
    pub untitled : session.title ≡ ""
    pub meta_after :
        ops.get old.id outcome.0.store
        ≡ some (record meta { id = old.id; state = "idle"; run_count = suc meta.run_count })

  plan_recorded :
      (r : Request) (m : Manager S) (meta : Metadata)
      → r.id ≢ no_id
      → ops.get r.id m.store ≡ some meta
      → plan ops r m ≡ record { id = r.id; spec = meta.spec; recorded = some meta }
  unfolding plan
  plan_recorded r m meta proper known = rw (=s_ne r.id "" proper, known, plan) refl

  alive-none : (id : String) (m : Manager S) → lookup id m.sessions ≡ none → alive id m ≡ none
  unfolding alive
  alive-none id m e = rw (e, alive) refl

  create_recorded :
      (r : Request) (m : Manager S) (meta : Metadata)
      → lookup r.id m.sessions ≡ none
      → is_full m ≡ false
      → r.id ≢ no_id
      → ops.get r.id m.store ≡ some meta
      → r.factory meta.spec ≡ true
      → create_with_id ops r m ≡ (
        start ops r.now (record { id = r.id; spec = meta.spec; recorded = some meta }) m,
        ok (new_session m.next_handle r.id meta.spec r.now, true),
      )
  unfolding create_with_id
  create_recorded r m meta gone room proper known good =
      rw (alive-none r.id m gone, plan_recorded r m meta proper known, room, good, create_with_id)
        refl

  destroyed :
      (id : String) (m : Manager S) (s : Session)
      → lookup id m.sessions ≡ some s
      → (destroy_session Bool.true id m).0 ≡ destroy_remove id (destroy_close s m)
  unfolding destroy_session destroy_find get
  destroyed id m s found = rw (found, destroy_session, destroy_find, get) refl

  room_after :
      (id : String) (m : Manager S) (s : Session)
      → Registered ops laws m
      → lookup id m.sessions ≡ some s
      → is_full (destroy_remove id (destroy_close s m)) ≡ false
  unfolding destroy_remove destroy_close is_full
  room_after id m s reg found =
      let fewer =
        length-delete_known id _ (changed s.handle torn m.sessions)
          (lookup-changed s.handle torn id m.sessions ∙ ap (changed_at s.handle torn) found) in
      let same = length-changed s.handle torn m.sessions in ground (arith, reg.bounded)

  meta_made :
      (now : ℕ) (id : String) (meta : Metadata) (m : Manager S)
      → ops.get id
          (start ops now (record { id = id; spec = meta.spec; recorded = some meta }) m).store
        ≡ some (record meta { id = id; state = "idle"; run_count = suc meta.run_count })
  unfolding start created_meta new_session state_text
  meta_made now id meta m =
      get_here ops laws (record meta { id = id; state = "idle"; run_count = suc meta.run_count })
        m.store

  -- A session that is destroyed and created again under its id, by a request for any host at all,
  -- is connected to the host it was connected to, if the terminal can be made: there is room for it
  -- even if the registry was full, its record keeps the title and the creation time and counts one
  -- run more. The new session itself has no title, though its record may have one.
  pub create-destroy :
      (r : Request) (m : Manager S) (old : Session) (meta : Metadata)
      → Registered ops laws m
      → lookup r.id m.sessions ≡ some old
      → ops.get r.id m.store ≡ some meta
      → r.id ≢ no_id
      → r.factory meta.spec ≡ true
      → Resurrected old meta (create_with_id ops r (destroy_session Bool.true r.id m).0)
  unfolding destroy_remove destroy_close new_session
  create-destroy r m old meta reg found known proper good =
      let m1 = destroy_remove r.id (destroy_close old m) in
      let p : Plan = record { id = r.id; spec = meta.spec; recorded = some meta } in
      let gone : lookup r.id m1.sessions ≡ none =
        delete_here r.id (changed old.handle torn m.sessions) in
      let room : is_full m1 ≡ false = room_after r.id m old reg found in
      let made = create_recorded r m1 meta gone room proper known good in
      let all : create_with_id ops r (destroy_session Bool.true r.id m).0 ≡ _ =
        ap (create_with_id ops r) (destroyed r.id m old found) ∙ made in
      let (own, meta', at_, spec) = reg.recorded r.id old found in
      let same_meta : meta' ≡ meta = some_same (sym at_ ∙ known) in
      record {
        session = new_session m1.next_handle r.id meta.spec r.now;
        created = ap (λ o. o.1) all;
        same_id = sym own;
        same_spec = sym (ap (λ x. x.spec) same_meta) ∙ spec;
        untitled = refl;
        meta_after =
            subst
              (λ i.
                ops.get i (create_with_id ops r (destroy_session Bool.true r.id m).0).0.store
                ≡ some (record meta { id = i; state = "idle"; run_count = suc meta.run_count }))
              (sym own) (ap (λ o. ops.get r.id o.0.store) all ∙ meta_made r.now r.id meta m1);
      }

  plan-id : (r : Request) (m : Manager S) → r.id ≢ no_id → (plan ops r m).id ≡ r.id
  unfolding plan
  plan-id r m proper = elim (Option-cases (ops.get r.id m.store)) [
    | inl none_ ↦ rw (=s_ne r.id "" proper, none_, plan) refl
    | inr (meta, known) ↦ rw (=s_ne r.id "" proper, known, plan) refl
  ]

  -- The registry when a Destroy has closed its session, whose terminal has then exited.
  abbrev pub closed : Session → Manager S → Manager S
  closed old m =
      change_session old.handle (lived ops laws (destroy old.life) Bool.true) (destroy_close old m)

  -- A Destroy that has found and closed its session gives up the lock in between. If a CreateWithID
  -- with the same id comes before the last section of Destroy and makes a session, that section
  -- removes the new session, which is alive, from the registry: Get does not find it any more.
  pub destroy_removes_new_session :
      (r : Request) (m m' : Manager S) (old s : Session)
      → destroy_find r.id m ≡ ok old
      → r.id ≢ no_id
      → create_with_id ops r (closed old m) ≡ (m', ok (s, Bool.true))
      → (is_alive s ≡ Bool.true)
        × (get r.id m' ≡ ok s)
        × (get r.id (destroy_remove r.id m') ≡ err not_found)
  unfolding destroy_remove get new_session start
  destroy_removes_new_session r m m' old s found proper made =
      elim (create_with_id_cases ops laws r (closed old m)) [
        | inl (t, on, e) ↦
            let ends : ◌≡◌ {A = Manager S × Result ManagerError (Session × Bool)}
                (closed old m, ok (t, Bool.false)) (m', ok (s, Bool.true)) =
              sym e ∙ made in
            cc
        | inr (inl (e, q)) ↦ cc
        | inr (inr (room, q)) ↦
            let p = plan ops r (closed old m) in
            let t = new_session (closed old m).next_handle p.id p.spec r.now in
            let ends : ◌≡◌ {A = Manager S × Result ManagerError (Session × Bool)}
                (start ops r.now p (closed old m), ok (t, Bool.true)) (m', ok (s, Bool.true)) =
              sym q ∙ made in
            let mm : start ops r.now p (closed old m) ≡ m' = cc in
            let ts : t ≡ s = cc in
            let at_ : lookup r.id m'.sessions ≡ some s =
              ap (λ x. lookup r.id x.sessions) (sym mm)
              ∙ ap (λ i. lookup i (insert p.id t (closed old m).sessions))
                  (sym (plan-id r (closed old m) proper))
              ∙ insert_here p.id t (closed old m).sessions
              ∙ ap some ts in
            (ap is_alive (sym ts), rw (at_, get) refl, rw (delete_here r.id m'.sessions, get) refl)
      ]
