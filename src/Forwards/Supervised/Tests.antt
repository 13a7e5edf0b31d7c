-- ===== src/Forwards/Supervised/Tests.antt =====
-- internal/api/forward_host.go: the theorems on concrete forwards.
use gossh.Prelude.{◌≡◌, refl, true, List, [], ◌∷◌, none, some, ok, err, ◌==◌, if◌then◌else◌}
use gossh.Host.{Forward, is_enabled}
use gossh.Forwards.{ForwardEntry}
use gossh.Forwards.Supervised.{
  HostEnv, new_state, reconcile_locked, forward_key, is_wanted, has_enabled_forwards, ensure,
  supervise_dialed, release, exits,
}
use gossh.Forwards.Supervised.Events.{
  sections, IsSound, ensures, reconciles, dials, loses, releases, sections-IsSound,
}
use gossh.Forwards.Supervised.Applied.{IsSettled}
use gossh.Forwards.Supervised.Reconciled.{
  IsReconciled, reconcile_locked-IsReconciled, ensure_after_release,
}

abbrev web_forward : Forward
web_forward = record { kind = "local"; bind = "8080"; target = "web:80"; enabled = none }

abbrev db_forward : Forward
db_forward = record { kind = "local"; bind = "5432"; target = "db:5432"; enabled = some true }

abbrev entry_of : Forward → ForwardEntry
entry_of f = record { handle = 0; id = "fwd"; kind = f.kind; bind = f.bind; target = f.target }

-- The first launch succeeds, the others fail.
abbrev first_only : List Forward → HostEnv
first_only fs = record {
  specs = fs;
  launch = λ n f. if n == 0 then ok (entry_of f) else err "address in use";
}

sections-IsSound_example : IsSound (
    sections
      (ensures (first_only (web_forward ∷ db_forward ∷ [])) (ok 1) none
        ∷ reconciles (first_only (db_forward ∷ []))
        ∷ loses
        ∷ dials (first_only (web_forward ∷ [])) (ok 2)
        ∷ releases
        ∷ [])
      (new_state "h_1"))
sections-IsSound_example = sections-IsSound "h_1" (
    ensures (first_only (web_forward ∷ db_forward ∷ [])) (ok 1) none
    ∷ reconciles (first_only (db_forward ∷ []))
    ∷ loses
    ∷ dials (first_only (web_forward ∷ [])) (ok 2)
    ∷ releases
    ∷ [])

reconcile_locked-IsReconciled_example :
    IsReconciled
      (first_only (web_forward ∷ []))
      (new_state "h_1")
      (reconcile_locked (first_only (web_forward ∷ [])) (new_state "h_1"))
      "local|8080|web:80"
reconcile_locked-IsReconciled_example =
    reconcile_locked-IsReconciled (first_only (web_forward ∷ [])) (new_state "h_1")
      "local|8080|web:80"

ensure_after_release_example :
    (supervise_dialed (first_only (web_forward ∷ [])) (ok 5) (release (new_state "h_1"))
      ≡ (release (new_state "h_1"), exits))
    × ((ensure (first_only (web_forward ∷ [])) (ok 5) none (release (new_state "h_1"))).0.dial
        ≡ some 5)
    × IsSettled "local|8080|web:80"
        (ensure (first_only (web_forward ∷ [])) (ok 5) none (release (new_state "h_1"))).0
ensure_after_release_example =
    ensure_after_release (first_only (web_forward ∷ [])) 5 none (new_state "h_1")
      "local|8080|web:80" (unfold has_enabled_forwards is_enabled in refl)
      (unfold is_wanted is_enabled forward_key in refl)
