-- ===== src/Forwards/Supervised/Reconciled.antt =====
-- internal/api/forward_host.go: reconcileLocked against the configuration, and the waits between dials.
use gossh.Prelude.{
  ℕ, zero, suc, ◌*◌, ◌^◌, ◌≤◌, min, ◌≡◌, refl, ◌∙◌, inl, inr, true, false, String, Option, none,
  some, ◌&&◌, not, if◌then◌else◌, lookup, ok, arith, Bool-cases, Option-cases,
}
use native.Mathlib.Nat.{pow-suc}
use gossh.Forwards.{ForwardEntry}
use gossh.Forwards.Supervised.{
  ForwardHostState, HostEnv, keys, has_enabled_forwards, is_wanted, revoke, reconcile_locked,
  connected, ensure, supervise_dialed, release, next_backoff, exits,
}
use gossh.Forwards.Supervised.Loops.{has, has-keys}
use gossh.Forwards.Supervised.Open.{reconcile_locked-dial}
use gossh.Forwards.Supervised.Launched.{IsLaunched, apply-IsLaunched, revoke-next_handle}
use gossh.Forwards.Supervised.Applied.{
  revoke-lookup, IsSettled, apply-keeps, apply-unwanted, apply-settles,
}

-- A key of the state before and after a reconciliation: unwanted, and gone; wanted and running, and
-- untouched; or wanted and not running, and then launched, with the outcome of that launch.
pub data IsReconciled (env : HostEnv) (before after : ForwardHostState) (j : String) : Type 0 where
  revoked :
      is_wanted env.specs j ≡ false
      → lookup j after.entries ≡ none
      → IsReconciled env before after j
  untouched :
      (e : ForwardEntry)
      → is_wanted env.specs j ≡ true
      → lookup j before.entries ≡ some e
      → lookup j after.entries ≡ some e
      → IsReconciled env before after j
  started :
      is_wanted env.specs j ≡ true
      → lookup j before.entries ≡ none
      → IsLaunched env env.specs before.next_handle j after
      → IsReconciled env before after j

reconcile_locked-IsSettled :
    (env : HostEnv) (st : ForwardHostState) (j : String)
    → is_wanted env.specs j ≡ true
    → IsSettled j (reconcile_locked env st)
unfolding reconcile_locked
reconcile_locked-IsSettled env st j h =
    apply-settles env j env.specs (revoke env.specs (keys st.entries) st) h

-- After a reconciliation with the configured forwards, a key that none of the enabled ones has is not
-- in the entries; the key of an enabled one that had an entry has that very entry, which was not
-- restarted; and for the key of another enabled one, whatever message it had, a forward with it was
-- launched in this reconciliation: the key has the entry that a launch gave and no message, or no
-- entry and the message of a launch that failed.
pub reconcile_locked-IsReconciled :
    (env : HostEnv) (st : ForwardHostState) (j : String)
    → IsReconciled env st (reconcile_locked env st) j
unfolding reconcile_locked
reconcile_locked-IsReconciled env st j = elim (Bool-cases (is_wanted env.specs j)) [
  | inr no_one ↦
      revoked no_one
        (apply-unwanted env j env.specs after_revoke no_one ∙ remains ∙ unwanted no_one)
  | inl some_one ↦ elim (Option-cases (lookup j st.entries)) [
    | inl missing ↦ started some_one missing (
        apply-IsLaunched env env.specs st.next_handle j env.specs after_revoke (λ g among. among)
          some_one (omega (arith, revoke-next_handle env.specs (keys st.entries) st))
          (remains ∙ wanted some_one ∙ missing))
    | inr found ↦
        untouched found.0 some_one found.1
          (apply-keeps env j env.specs found.0 after_revoke (remains ∙ wanted some_one ∙ found.1))
  ]
]
  where
    after_revoke : ForwardHostState
    after_revoke = revoke env.specs (keys st.entries) st

    remains : lookup j after_revoke.entries ≡ (
        if has j (keys st.entries) && not (is_wanted env.specs j)
        then none
        else lookup j st.entries)
    remains = revoke-lookup env.specs (keys st.entries) j st

    wanted :
        is_wanted env.specs j ≡ true
        → (if has j (keys st.entries) && not (is_wanted env.specs j)
            then none
            else lookup j st.entries)
          ≡ lookup j st.entries
    wanted h = ground arith

    unwanted :
        is_wanted env.specs j ≡ false
        → (if has j (keys st.entries) && not (is_wanted env.specs j)
            then none
            else lookup j st.entries)
          ≡ none
    unwanted h = elim (Bool-cases (has j (keys st.entries))) [
      | inl there ↦ rw (there, h) refl
      | inr missing ↦ rw missing (has-keys j st.entries missing)
    ]

-- The wait before the n-th dial that failed in a row.
abbrev pub backoff_after : ℕ → ℕ → ℕ → ℕ
backoff_after max_backoff base zero = base
backoff_after max_backoff base (suc n) = next_backoff max_backoff (backoff_after max_backoff base n)

-- If the first wait is at most the greatest, the wait after n doublings is the n-th power of two times
-- the first, or the greatest where that is less.
pub backoff_after_closed :
    (max_backoff base n : ℕ)
    → base ≤ max_backoff
    → backoff_after max_backoff base n ≡ min (base * 2 ^ n) max_backoff
unfolding next_backoff
backoff_after_closed max_backoff base zero h = omega arith
backoff_after_closed max_backoff base (suc n) h =
    rw (backoff_after_closed max_backoff base n h)
      (halves (base * 2 ^ n) (base * 2 ^ suc n) (rw (pow-suc 2 n) (grind arith)))
  where
    halves : (x y : ℕ) → y ≡ x * 2 → min (min x max_backoff * 2) max_backoff ≡ min y max_backoff
    halves x y e = omega arith

installs :
    (env : HostEnv) (c : ℕ) (prov : Option ℕ) (st : ForwardHostState) (j : String)
    → st.dial ≡ none
    → has_enabled_forwards env.specs ≡ true
    → is_wanted env.specs j ≡ true
    → ((ensure env (ok c) prov st).0.dial ≡ some c) × IsSettled j (ensure env (ok c) prov st).0
unfolding ensure connected
installs env c none st j down on wanted =
    rw (ensure, on, down)
      (
        reconcile_locked-dial env (record st { dial = some c; last_err = "" }),
        reconcile_locked-IsSettled env (record st { dial = some c; last_err = "" }) j wanted,
      )
installs env c (some p) st j down on wanted =
    rw (ensure, on, down)
      (
        reconcile_locked-dial env (record st { dial = some c; last_err = ""; last_prov = some p }),
        reconcile_locked-IsSettled env
            (record st { dial = some c; last_err = ""; last_prov = some p }) j wanted,
      )

-- Where release has run before a dial ended, a supervisor that dialed puts nothing on the state and
-- ends; the section of ensure, if forwards are enabled, puts its connection there all the same, and
-- every enabled forward is started on it or has failed.
pub ensure_after_release :
    (env : HostEnv) (c : ℕ) (prov : Option ℕ) (st : ForwardHostState) (j : String)
    → has_enabled_forwards env.specs ≡ true
    → is_wanted env.specs j ≡ true
    → (supervise_dialed env (ok c) (release st) ≡ (release st, exits))
      × ((ensure env (ok c) prov (release st)).0.dial ≡ some c)
      × IsSettled j (ensure env (ok c) prov (release st)).0
unfolding supervise_dialed release
ensure_after_release env c prov st j on wanted =
    let put = installs env c prov (release st) j refl on wanted in (refl, put.0, put.1)
