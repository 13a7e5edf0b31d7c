-- ===== src/Forwards/Hosts.antt =====
-- internal/api/forward_host.go: ForwardHostManager, the map from hosts to their states. A state is a
-- number into the table of all that were made. Each function is one call from beginning to end; what
-- the configuration, the dial and the launches of a host give it is its `HostEnv`.
pub mod Keeping
pub mod Closing
pub mod Tests
use gossh.Prelude.{
  ℕ, suc, Bool, true, false, String, List, [], ◌∷◌, Option, none, some, ◌==◌, ◌||◌, not,
  if◌then◌else◌, GoMap, lookup, insert, delete, Result,
}
use gossh.Host.{is_local}
use gossh.Forwards.Supervised.{
  ForwardHostState, HostEnv, new_state, has_enabled_forwards, provide, resume, ensure, reconcile,
  release, keys,
}

pub record ForwardHostManager : Type 0 where
  pub states : GoMap ℕ
  pub objects : ℕ → ForwardHostState
  pub made : ℕ

abbrev pub new_forward_host_manager : ForwardHostManager
new_forward_host_manager = record { states = []; objects = λ n. new_state ""; made = 0 }

abbrev pub at_object :
    ℕ → (ForwardHostState → ForwardHostState) → (ℕ → ForwardHostState) → ℕ → ForwardHostState
at_object h f objects n = if n == h then f (objects n) else objects n

-- state: the manager, and the state of the host in it.
unfoldable pub state_of : String → ForwardHostManager → ForwardHostManager × ℕ
unfolding new_state
state_of host_id m = elim (lookup host_id m.states) [
  | some h ↦ (m, h)
  | none ↦ (
    record m {
      states = insert host_id m.made m.states;
      objects = at_object m.made (λ old. new_state host_id) m.objects;
      made = suc m.made;
    },
    m.made,
  )
]

-- A section on the state of the host.
unfoldable pub on_state :
    String → (ForwardHostState → ForwardHostState) → ForwardHostManager → ForwardHostManager
unfolding state_of
on_state host_id f m =
    let got = state_of host_id m in record got.0 { objects = at_object got.1 f got.0.objects }

-- resume, whose supervisor runs on its own.
unfoldable pub resume_host : HostEnv → Option ℕ → String → ForwardHostManager → ForwardHostManager
unfolding on_state resume
resume_host env prov host_id m = on_state host_id (λ st. (resume env (provide prov st)).0) m

unfoldable pub resume_all : List (String × HostEnv) → ForwardHostManager → ForwardHostManager
unfolding resume_host has_enabled_forwards is_local
resume_all [] m = m
resume_all (host ∷ hosts) m =
    if is_local host.0 || not (has_enabled_forwards host.1.specs)
    then resume_all hosts m
    else resume_all hosts (resume_host host.1 none host.0 m)

unfoldable pub release_host : String → ForwardHostManager → ForwardHostManager
unfolding release
release_host host_id m = elim (lookup host_id m.states) [
  | none ↦ m
  | some h ↦ record m { states = delete host_id m.states; objects = at_object h release m.objects }
]

-- ensure, and the resume that follows a dial.
unfoldable pub ensure_host :
    HostEnv → Result String ℕ → Option ℕ → String → ForwardHostManager → ForwardHostManager
unfolding on_state resume_host ensure has_enabled_forwards state_of
ensure_host env dialed prov host_id m =
    if has_enabled_forwards env.specs
    then (let got = state_of host_id m in
        let ensured = on_state host_id (λ st. (ensure env dialed prov st).0) m in
        if (ensure env dialed prov (got.0.objects got.1)).1
        then resume_host env prov host_id ensured
        else ensured)
    else m

-- reconcile, with the resume or the release that may follow.
unfoldable pub reconcile_host : HostEnv → String → ForwardHostManager → ForwardHostManager
unfolding on_state resume_host reconcile release_host has_enabled_forwards state_of
reconcile_host env host_id m =
    let got = state_of host_id m in
    let reconciled = on_state host_id (reconcile env) m in
    elim (got.0.objects got.1).dial [
      | none ↦ if has_enabled_forwards env.specs then resume_host env none host_id got.0 else got.0
      | some c ↦
          if has_enabled_forwards env.specs then reconciled else release_host host_id reconciled
    ]

-- The loop of closeAll, over the hosts that had a state.
unfoldable pub release_each : List String → ForwardHostManager → ForwardHostManager
unfolding release_host
release_each [] m = m
release_each (id ∷ ids) m = release_each ids (release_host id m)

unfoldable pub close_all : ForwardHostManager → ForwardHostManager
unfolding release_each
close_all m = release_each (keys m.states) m
