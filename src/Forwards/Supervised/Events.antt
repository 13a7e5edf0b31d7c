-- ===== src/Forwards/Supervised/Events.antt =====
-- internal/api/forward_host.go: the sections on the state of a host, in any order.
use gossh.Prelude.{
  ℕ, ◌≡◌, refl, sym, ◌∙◌, inl, inr, Bool, true, false, String, List, [], ◌∷◌, Option, none, some,
  ◌||◌, not, lookup, Result, ok, err, Result-cases, Bool-cases, Option-cases, none-some, if_holds,
}
use gossh.Forwards.Supervised.{
  ForwardHostState, HostEnv, Verdict, exits, goes_on, keys, has_enabled_forwards, reconcile_locked,
  provide, resume, connected, ensure, reconcile, supervise_dialed, handle_lost, cancel_all, release,
  new_state,
}
use gossh.Forwards.Supervised.Sound.{IsTracked}
use gossh.Forwards.Supervised.Loops.{cancel_all-open, has, has-keys, lose_keys-cleared}
use gossh.Forwards.Supervised.Open.{
  lose_keys-Tracked, reconcile_locked-Tracked, reconcile_locked-dial,
}

-- Without a connection there is no entry.
abbrev pub IsIdle : ForwardHostState → Type 0
IsIdle st = st.dial ≡ none → (k : String) → lookup k st.entries ≡ none

pub release-closed :
    (st : ForwardHostState) → IsTracked st → (i : ℕ) → (release st).running i ≡ false
unfolding release
release-closed st t i = elim (Bool-cases ((cancel_all (keys st.entries) st).running i)) [
  | inr shut ↦ shut
  | inl left ↦
      let before = cancel_all-open (keys st.entries) st i left in
      let owner = t.owned i before.0 in
      elim (Bool-cases (has owner.0 (keys st.entries))) [
        | inl there ↦ absurd (before.1 owner.0 owner.1 there owner.2 (sym owner.3))
        | inr missing ↦ absurd (none-some (sym (has-keys owner.0 st.entries missing) ∙ owner.2))
      ]
]

-- What is kept of a state: its listeners are those of its entries, and there are none without a
-- connection.
pub record IsSound (st : ForwardHostState) : Type 0 where
  pub tracked : IsTracked st
  pub idle : st.dial ≡ none → (k : String) → lookup k st.entries ≡ none
  pub quiet : st.dial ≡ none → (i : ℕ) → st.running i ≡ false

tracked-IsSound : (st : ForwardHostState) → IsTracked st → IsIdle st → IsSound st
tracked-IsSound st t idle = record {
  tracked = t;
  idle = idle;
  quiet = λ q i. elim (Bool-cases (st.running i)) [
    | inr shut ↦ shut
    | inl left ↦ let owner = t.owned i left in absurd (none-some (sym (idle q owner.0) ∙ owner.2))
  ];
}

reconciled-IsSound :
    (env : HostEnv) (st : ForwardHostState) (c : ℕ)
    → st.dial ≡ some c
    → IsTracked st
    → IsSound (reconcile_locked env st)
reconciled-IsSound env st c up t =
    tracked-IsSound (reconcile_locked env st) (reconcile_locked-Tracked env st t)
      (λ down k. absurd (none-some (sym down ∙ reconcile_locked-dial env st ∙ up)))

pub connected-IsSound :
    (env : HostEnv) (c : ℕ) (st : ForwardHostState) → IsSound st → IsSound (connected env c st)
unfolding connected
connected-IsSound env c st s =
    reconciled-IsSound env (record st { dial = some c; last_err = "" }) c refl s.tracked

pub provide-IsSound :
    (prov : Option ℕ) (st : ForwardHostState) → IsSound st → IsSound (provide prov st)
provide-IsSound none st s = s
provide-IsSound (some p) st s = record { tracked = s.tracked; idle = s.idle; quiet = s.quiet }

said-IsSound :
    (msg : String) (st : ForwardHostState) → IsSound st → IsSound (record st { last_err = msg })
said-IsSound msg st s = record { tracked = s.tracked; idle = s.idle; quiet = s.quiet }

pub resume-IsSound :
    (env : HostEnv) (st : ForwardHostState) → IsSound st → IsSound (resume env st).0
unfolding resume
resume-IsSound env st s =
    elim (Bool-cases (st.supervising || not (has_enabled_forwards env.specs))) [
      | inl none_to_do ↦ rw (resume, none_to_do) s
      | inr started ↦
          rw (resume, started) (record { tracked = s.tracked; idle = s.idle; quiet = s.quiet })
    ]

pub ensure-IsSound :
    (env : HostEnv) (dialed : Result String ℕ) (prov : Option ℕ) (st : ForwardHostState)
    → IsSound st
    → IsSound (ensure env dialed prov st).0
unfolding ensure
ensure-IsSound env dialed prov st s = elim (Bool-cases (has_enabled_forwards env.specs)) [
  | inr off ↦ rw (ensure, off) s
  | inl on ↦
      let now = provide prov st in
      let ready = provide-IsSound prov st s in
      elim (Option-cases now.dial) [
        | inr up ↦ rw (ensure, on, up.1) (reconciled-IsSound env now up.0 up.1 ready.tracked)
        | inl down ↦ elim (Result-cases dialed) [
          | inl opened ↦ rw (ensure, on, down, opened.1) (connected-IsSound env opened.0 now ready)
          | inr failed ↦ rw (ensure, on, down, failed.1) (said-IsSound failed.0 now ready)
        ]
      ]
]

pub reconcile-IsSound :
    (env : HostEnv) (st : ForwardHostState) → IsSound st → IsSound (reconcile env st)
unfolding reconcile
reconcile-IsSound env st s = elim (Option-cases st.dial) [
  | inl down ↦ rw (reconcile, down) s
  | inr up ↦ rw (reconcile, up.1) (reconciled-IsSound env st up.0 up.1 s.tracked)
]

pub dialed-IsSound :
    (env : HostEnv) (dialed : Result String ℕ) (st : ForwardHostState)
    → IsSound st
    → IsSound (supervise_dialed env dialed st).0
unfolding supervise_dialed
dialed-IsSound env (err msg) st s = elim (Option-cases st.dial) [
  | inl down ↦ rw (supervise_dialed, down) (said-IsSound msg st s)
  | inr up ↦ rw (supervise_dialed, up.1) s
]
dialed-IsSound env (ok c) st s = elim (Option-cases st.dial) [
  | inr up ↦ rw (supervise_dialed, up.1) s
  | inl down ↦
      rw (supervise_dialed, down)
        (if_holds (λ (r : ForwardHostState × Verdict). IsSound r.0) st.stopped (st, exits)
          (connected env c st, goes_on) s (connected-IsSound env c st s))
]

pub handle_lost-IsSound : (st : ForwardHostState) → IsSound st → IsSound (handle_lost st)
unfolding handle_lost
handle_lost-IsSound st s =
    let st' = record st { dial = none; last_err = "connection lost" } in
    tracked-IsSound (handle_lost st) (lose_keys-Tracked (keys st.entries) st' s.tracked)
      (λ down k. lose_keys-cleared (keys st.entries) st' k (has-keys k st.entries))

pub release-IsSound : (st : ForwardHostState) → IsSound st → IsSound (release st)
unfolding release lookup
release-IsSound st s =
    tracked-IsSound (release st)
      (record {
        fresh = λ i r. absurd (shut i r);
        held = λ k e. cc;
        owned = λ i r. absurd (shut i r);
        unique = λ k j e d. cc;
      })
      (λ down k. refl)
  where
    differ : {x : Bool} → x ≡ false → x ≡ true → ⊥
    differ p q = cc

    shut : (i : ℕ) → (release st).running i ≡ true → ⊥
    shut i r = differ (release-closed st s.tracked i) r

-- The sections on a state: a supervisor's, those of the sessions and of the configuration, release.
pub data Section : Type 0 where
  provides : Option ℕ → Section
  resumes : HostEnv → Section
  ensures : HostEnv → Result String ℕ → Option ℕ → Section
  reconciles : HostEnv → Section
  dials : HostEnv → Result String ℕ → Section
  loses : Section
  releases : Section

unfoldable pub section_of : Section → ForwardHostState → ForwardHostState
unfolding resume ensure reconcile supervise_dialed handle_lost release
section_of (provides prov) st = provide prov st
section_of (resumes env) st = (resume env st).0
section_of (ensures env dialed prov) st = (ensure env dialed prov st).0
section_of (reconciles env) st = reconcile env st
section_of (dials env dialed) st = (supervise_dialed env dialed st).0
section_of loses st = handle_lost st
section_of releases st = release st

unfoldable pub sections : List Section → ForwardHostState → ForwardHostState
unfolding section_of
sections [] st = st
sections (e ∷ es) st = sections es (section_of e st)

section-IsSound : (e : Section) (st : ForwardHostState) → IsSound st → IsSound (section_of e st)
unfolding section_of
section-IsSound (provides prov) st s = provide-IsSound prov st s
section-IsSound (resumes env) st s = resume-IsSound env st s
section-IsSound (ensures env dialed prov) st s = ensure-IsSound env dialed prov st s
section-IsSound (reconciles env) st s = reconcile-IsSound env st s
section-IsSound (dials env dialed) st s = dialed-IsSound env dialed st s
section-IsSound loses st s = handle_lost-IsSound st s
section-IsSound releases st s = release-IsSound st s

pub new_state-IsSound : (host_id : String) → IsSound (new_state host_id)
unfolding new_state lookup
new_state-IsSound host_id = record {
  tracked = record {
    fresh = λ i r. cc;
    held = λ k e. cc;
    owned = λ i r. cc;
    unique = λ k j e d. cc;
  };
  idle = λ down k. refl;
  quiet = λ down i. refl;
}

-- From the state made for a host, whatever sections run on it and in whatever order, with whatever
-- configurations, dials and launches: the open listeners are exactly those of the entries, one for
-- each; each was numbered by a launch; and while there is no connection there is no entry and no
-- listener is open.
pub sections-IsSound :
    (host_id : String) (es : List Section) → IsSound (sections es (new_state host_id))
unfolding sections
sections-IsSound host_id es = from es (new_state host_id) (new_state-IsSound host_id)
  where
    from : (es : List Section) (st : ForwardHostState) → IsSound st → IsSound (sections es st)
    from [] st s = s
    from (e ∷ es) st s = from es (section_of e st) (section-IsSound e st s)
