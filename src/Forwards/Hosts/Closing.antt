-- ===== src/Forwards/Hosts/Closing.antt =====
-- internal/api/forward_host.go: any calls and any rounds of the supervisors, and then closeAll.
use gossh.Prelude.{
  ℕ, ◌<◌, ◌≡◌, refl, sym, ap, ◌∙◌, ◌⊎◌, inl, inr, false, String, List, [], ◌∷◌, Option, none, ◌||◌,
  not, lookup, delete, Result, ok, err, arith, Option-cases, =s-cases, =s_ne, delete_here,
  delete_other, none-some, if_holds, if_taken,
}
use gossh.Host.{is_local}
use gossh.Forwards.Supervised.{
  ForwardHostState, HostEnv, Verdict, has_enabled_forwards, provide, resume, ensure, reconcile,
  supervise_dialed, handle_lost, keys,
}
use gossh.Forwards.Supervised.Loops.{has, has-keys, lose_keys-dial, lose_keys-stopped}
use gossh.Forwards.Supervised.Events.{
  provide-IsSound, resume-IsSound, ensure-IsSound, reconcile-IsSound, dialed-IsSound,
  handle_lost-IsSound, new_state-IsSound,
}
use gossh.Forwards.Hosts.{
  ForwardHostManager, new_forward_host_manager, at_object, state_of, on_state, resume_host,
  resume_all, release_host, ensure_host, reconcile_host, release_each, close_all,
}
use gossh.Forwards.Hosts.Keeping.{
  IsDown, IsKept, state_of-IsKept, on_state-IsKept, release_host-IsKept, supervised-IsKept,
}

-- The calls of the manager, and a supervisor of the h-th state that has dialed or lost its connection.
pub data HostCall : Type 0 where
  resumes : HostEnv → Option ℕ → String → HostCall
  resumes_all : List (String × HostEnv) → HostCall
  ensures : HostEnv → Result String ℕ → Option ℕ → String → HostCall
  reconciles : HostEnv → String → HostCall
  releases : String → HostCall
  dials : ℕ → HostEnv → Result String ℕ → HostCall
  loses : ℕ → HostCall
  closes_all : HostCall

unfoldable pub host_call : HostCall → ForwardHostManager → ForwardHostManager
unfolding resume_host resume_all ensure_host reconcile_host release_host close_all supervise_dialed
    handle_lost
host_call (resumes env prov id) m = resume_host env prov id m
host_call (resumes_all hosts) m = resume_all hosts m
host_call (ensures env dialed prov id) m = ensure_host env dialed prov id m
host_call (reconciles env id) m = reconcile_host env id m
host_call (releases id) m = release_host id m
host_call (dials h env dialed) m = record m {
  objects = at_object h (λ st. (supervise_dialed env dialed st).0) m.objects;
}
host_call (loses h) m = record m { objects = at_object h handle_lost m.objects }
host_call closes_all m = close_all m

unfoldable pub host_calls : List HostCall → ForwardHostManager → ForwardHostManager
unfolding host_call
host_calls [] m = m
host_calls (c ∷ cs) m = host_calls cs (host_call c m)

resume_host-IsKept :
    (env : HostEnv) (prov : Option ℕ) (id : String) (m : ForwardHostManager)
    → IsKept m
    → IsKept (resume_host env prov id m)
unfolding resume_host
resume_host-IsKept env prov id m k =
    on_state-IsKept id (λ st. (resume env (provide prov st)).0) m
      (λ st s. resume-IsSound env (provide prov st) (provide-IsSound prov st s)) k

resume_all-IsKept :
    (hosts : List (String × HostEnv)) (m : ForwardHostManager)
    → IsKept m
    → IsKept (resume_all hosts m)
unfolding resume_all
resume_all-IsKept [] m k = k
resume_all-IsKept (host ∷ hosts) m k =
    if_holds IsKept (is_local host.0 || not (has_enabled_forwards host.1.specs)) _ _
      (resume_all-IsKept hosts m k)
      (resume_all-IsKept hosts (resume_host host.1 none host.0 m)
        (resume_host-IsKept host.1 none host.0 m k))

ensure_host-IsKept :
    (env : HostEnv) (dialed : Result String ℕ) (prov : Option ℕ) (id : String)
    (m : ForwardHostManager)
    → IsKept m
    → IsKept (ensure_host env dialed prov id m)
unfolding ensure_host
ensure_host-IsKept env dialed prov id m k =
    if_holds IsKept (has_enabled_forwards env.specs) _ _
      (if_holds IsKept (ensure env dialed prov ((state_of id m).0.objects (state_of id m).1)).1 _ _
        (resume_host-IsKept env prov id (on_state id (λ st. (ensure env dialed prov st).0) m)
          ensured)
        ensured)
      k
  where
    ensured : IsKept (on_state id (λ st. (ensure env dialed prov st).0) m)
    ensured =
        on_state-IsKept id (λ st. (ensure env dialed prov st).0) m
          (λ st s. ensure-IsSound env dialed prov st s) k

reconcile_host-IsKept :
    (env : HostEnv) (id : String) (m : ForwardHostManager)
    → IsKept m
    → IsKept (reconcile_host env id m)
unfolding reconcile_host
reconcile_host-IsKept env id m k =
    elim (Option-cases ((state_of id m).0.objects (state_of id m).1).dial) [
      | inl down ↦
          rw (reconcile_host, down)
            (if_holds IsKept (has_enabled_forwards env.specs) _ _
              (resume_host-IsKept env none id (state_of id m).0 (state_of-IsKept id m k).0)
              (state_of-IsKept id m k).0)
      | inr up ↦
          rw (reconcile_host, up.1)
            (if_holds IsKept (has_enabled_forwards env.specs) _ _ reconciled
              (release_host-IsKept id (on_state id (reconcile env) m) reconciled))
    ]
  where
    reconciled : IsKept (on_state id (reconcile env) m)
    reconciled = on_state-IsKept id (reconcile env) m (λ st s. reconcile-IsSound env st s) k

release_each-IsKept :
    (ids : List String) (m : ForwardHostManager) → IsKept m → IsKept (release_each ids m)
unfolding release_each
release_each-IsKept [] m k = k
release_each-IsKept (id ∷ ids) m k =
    release_each-IsKept ids (release_host id m) (release_host-IsKept id m k)

dialed-IsDown :
    (env : HostEnv) (dialed : Result String ℕ) (st : ForwardHostState)
    → IsDown st
    → IsDown (supervise_dialed env dialed st).0
unfolding supervise_dialed
dialed-IsDown env (err msg) st down = rw (supervise_dialed, down.0) down
dialed-IsDown env (ok c) st down =
    rw (supervise_dialed, down.0)
      (if_taken (λ (r : ForwardHostState × Verdict). IsDown r.0) st.stopped _ _ down.1 down)

lost-IsDown : (st : ForwardHostState) → IsDown st → IsDown (handle_lost st)
unfolding handle_lost
lost-IsDown st down =
    let st' = record st { dial = none; last_err = "connection lost" } in
    (lose_keys-dial (keys st.entries) st', lose_keys-stopped (keys st.entries) st' ∙ down.1)

host_call-IsKept : (c : HostCall) (m : ForwardHostManager) → IsKept m → IsKept (host_call c m)
unfolding host_call close_all
host_call-IsKept (resumes env prov id) m k = resume_host-IsKept env prov id m k
host_call-IsKept (resumes_all hosts) m k = resume_all-IsKept hosts m k
host_call-IsKept (ensures env dialed prov id) m k = ensure_host-IsKept env dialed prov id m k
host_call-IsKept (reconciles env id) m k = reconcile_host-IsKept env id m k
host_call-IsKept (releases id) m k = release_host-IsKept id m k
host_call-IsKept (dials h env dialed) m k =
    supervised-IsKept h (λ st. (supervise_dialed env dialed st).0) m
      (λ st s. dialed-IsSound env dialed st s) (λ st down. dialed-IsDown env dialed st down) k
host_call-IsKept (loses h) m k = supervised-IsKept h handle_lost m handle_lost-IsSound lost-IsDown k
host_call-IsKept closes_all m k = release_each-IsKept (keys m.states) m k

host_calls-IsKept :
    (cs : List HostCall) (m : ForwardHostManager) → IsKept m → IsKept (host_calls cs m)
unfolding host_calls
host_calls-IsKept [] m k = k
host_calls-IsKept (c ∷ cs) m k = host_calls-IsKept cs (host_call c m) (host_call-IsKept c m k)

new_manager-IsKept : IsKept new_forward_host_manager
unfolding lookup
new_manager-IsKept = record {
  sound = λ h. new_state-IsSound "";
  fresh = λ k h. cc;
  unique = λ k j h. cc;
  reached = λ h made_before. absurd (omega arith);
}

release_host-lookup :
    (id j : String) (m : ForwardHostManager)
    → (lookup j m.states ≡ none) ⊎ (id ≡ j)
    → lookup j (release_host id m).states ≡ none
unfolding release_host
release_host-lookup id j m (inl missing) = elim (Option-cases (lookup id m.states)) [
  | inl gone ↦ rw (release_host, gone) missing
  | inr there ↦
      rw (release_host, there.1)
        (elim (=s-cases id j) [
          | inl same ↦ ap (λ i. lookup j (delete i m.states)) same ∙ delete_here j m.states
          | inr other ↦ delete_other id j m.states other ∙ missing
        ])
]
release_host-lookup id j m (inr same) = elim (Option-cases (lookup id m.states)) [
  | inl gone ↦ rw (release_host, gone) (ap (λ i. lookup i m.states) (sym same) ∙ gone)
  | inr there ↦
      rw (release_host, there.1)
        (ap (λ i. lookup j (delete i m.states)) same ∙ delete_here j m.states)
]

release_each-lookup :
    (ids : List String) (j : String) (m : ForwardHostManager)
    → (has j ids ≡ false → lookup j m.states ≡ none)
    → lookup j (release_each ids m).states ≡ none
unfolding release_each
release_each-lookup [] j m h = h refl
release_each-lookup (id ∷ ids) j m h = release_each-lookup ids j (release_host id m) (λ q.
    release_host-lookup id j m (elim (=s-cases id j) [
      | inl same ↦ inr same
      | inr other ↦ inl (h (rw (=s_ne id j other) q))
    ]))

-- Take any calls of the manager, each as a whole, and any rounds of the supervisors of the states it
-- has made, also of those that it no longer has, in any order and with any configurations, dials and
-- launches. After a closeAll at the end no host has a state, and on every state that was ever made
-- there is no connection and no listener is open.
pub closes_all_closed :
    (cs : List HostCall) (id : String) (h i : ℕ)
    → h < (host_call closes_all (host_calls cs new_forward_host_manager)).made
    → let after = host_call closes_all (host_calls cs new_forward_host_manager) in
      (lookup id after.states ≡ none)
      × ((after.objects h).dial ≡ none)
      × ((after.objects h).running i ≡ false)
unfolding host_call close_all
closes_all_closed cs id h i was_made = elim (kept.reached h was_made) [
  | inl registered ↦ absurd (none-some (sym (none_left registered.0) ∙ registered.1))
  | inr down ↦ (none_left id, down.0, (kept.sound h).quiet down.0 i)
]
  where
    before : ForwardHostManager
    before = host_calls cs new_forward_host_manager

    kept : IsKept (release_each (keys before.states) before)
    kept =
        release_each-IsKept (keys before.states) before
          (host_calls-IsKept cs new_forward_host_manager new_manager-IsKept)

    none_left : (j : String) → lookup j (release_each (keys before.states) before).states ≡ none
    none_left j = release_each-lookup (keys before.states) j before (has-keys j before.states)
