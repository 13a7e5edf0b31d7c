-- ===== src/Session/Observe/Waiting.antt =====
-- internal/session/session.go: when Wait returns, and what a result says.
use mathlib.Core.Path.{subst}
use gossh.Prelude.{
  ℕ, suc, zero, ◌+◌, ◌-◌, ◌≤◌, ◌<◌, ◌≡◌, refl, sym, ◌∙◌, inl, inr, Bool, true, false, Option, none,
  some, ◌&&◌, ltb, leb, Result, ok, err, arith, Bool-cases, Option-cases, some_same, none-some,
}
use gossh.Session.Observe.{
  ObserveError, mirror_disabled, context_done, Wake, ticks, cancelled, exits, Poll, WaitResult,
  matched, quieted, timed_out, exited, screen_matches, wait_tests, wait_select, wait_round, wait,
}

module _ {Snap : Type 0} (regex : Option (Snap → Bool)) (timeout quiet start : ℕ) where
  -- What a result of a round with this reading means.
  pub data Justified (p : Poll Snap) : Result ObserveError (WaitResult Snap) → Type 0 where
    no_mirror : p.mirror ≡ none → Justified p (err mirror_disabled)
    by_match :
        (snap : Snap)
        → p.mirror ≡ some snap
        → screen_matches regex timeout quiet start snap ≡ true
        → Justified p (ok (matched snap))
    by_quiet :
        (snap : Snap)
        → p.mirror ≡ some snap
        → screen_matches regex timeout quiet start snap ≡ false
        → 0 < quiet
        → quiet ≤ p.now - p.last_write
        → Justified p (ok (quieted snap))
    by_timeout :
        (snap : Snap)
        → p.mirror ≡ some snap
        → screen_matches regex timeout quiet start snap ≡ false
        → 0 < timeout
        → start + timeout < p.now
        → Justified p (ok (timed_out snap))
    by_cancel : p.wake ≡ cancelled → Justified p (err context_done)
    by_exit :
        (final : Snap)
        → p.wake ≡ exits (some final)
        → screen_matches regex timeout quiet start final ≡ false
        → Justified p (ok (exited final))
    by_exit_match :
        (final : Snap)
        → p.wake ≡ exits (some final)
        → screen_matches regex timeout quiet start final ≡ true
        → Justified p (ok (matched final))
    no_final : p.wake ≡ exits none → Justified p (err mirror_disabled)

  select-Justified :
      (p : Poll Snap) (w : Wake Snap) (r : Result ObserveError (WaitResult Snap))
      → p.wake ≡ w
      → wait_select regex timeout quiet start w ≡ some r
      → Justified p r
  unfolding wait_select
  select-Justified p ticks r at e = absurd (none-some e)
  select-Justified p cancelled r at e = rw⁻¹ (some_same e) (by_cancel at)
  select-Justified p (exits none) r at e = rw⁻¹ (some_same e) (no_final at)
  select-Justified p (exits (some final)) r at e =
      elim (Bool-cases (screen_matches regex timeout quiet start final)) [
        | inl hit ↦
            subst (Justified p) (some_same (sym (rw (wait_select, hit) refl) ∙ e))
              (by_exit_match final at hit)
        | inr miss ↦
            subst (Justified p) (some_same (sym (rw (wait_select, miss) refl) ∙ e))
              (by_exit final at miss)
      ]

  tests-Justified :
      (p : Poll Snap) (snap : Snap) (r : Result ObserveError (WaitResult Snap))
      → p.mirror ≡ some snap
      → wait_tests regex timeout quiet start p snap ≡ some r
      → Justified p r
  unfolding wait_tests
  tests-Justified p snap r seen e =
      elim (Bool-cases (screen_matches regex timeout quiet start snap)) [
        | inl hit ↦
            subst (Justified p) (some_same (sym (rw (wait_tests, hit) refl) ∙ e))
              (by_match snap seen hit)
        | inr miss ↦ elim (Bool-cases (ltb 0 quiet && leb quiet (p.now - p.last_write))) [
          | inl still ↦
              subst (Justified p) (some_same (sym (rw (wait_tests, miss, still) refl) ∙ e))
                (by_quiet snap seen miss (ground (arith, still)) (ground (arith, still)))
          | inr busy ↦ elim (Bool-cases (ltb 0 timeout && ltb (start + timeout) p.now)) [
            | inl late ↦
                subst (Justified p) (some_same (sym (rw (wait_tests, miss, busy, late) refl) ∙ e))
                  (by_timeout snap seen miss (ground (arith, late)) (ground (arith, late)))
            | inr early ↦ absurd (none-some (sym (rw (wait_tests, miss, busy, early) refl) ∙ e))
          ]
        ]
      ]

  round-Justified :
      (p : Poll Snap) (r : Result ObserveError (WaitResult Snap))
      → wait_round regex timeout quiet start p ≡ some r
      → Justified p r
  unfolding wait_round
  round-Justified p r e = elim (Option-cases p.mirror) [
    | inl off ↦
        subst (Justified p) (some_same (sym (rw (wait_round, off) refl) ∙ e)) (no_mirror off)
    | inr on ↦ elim (Option-cases (wait_tests regex timeout quiet start p on.0)) [
      | inl none_yet ↦
          select-Justified p p.wake r refl (sym (rw (wait_round, on.1, none_yet) refl) ∙ e)
      | inr found ↦
          subst (Justified p) (some_same (sym (rw (wait_round, on.1, found.1) refl) ∙ e))
            (tests-Justified p on.0 found.0 on.1 found.1)
    ]
  ]

  pub wait-Justified :
      (rounds : ℕ) (polls : ℕ → Poll Snap) (r : Result ObserveError (WaitResult Snap))
      → wait regex timeout quiet start rounds polls ≡ some r
      → (i : ℕ) × Justified (polls i) r
  unfolding wait
  wait-Justified zero polls r e = absurd (none-some e)
  wait-Justified (suc rounds) polls r e =
      elim (Option-cases (wait_round regex timeout quiet start (polls 0))) [
        | inr now ↦ (0, round-Justified (polls 0) r (now.1 ∙ sym (rw (wait, now.1) refl) ∙ e))
        | inl later ↦
            let rest =
              wait-Justified rounds (λ i. polls (suc i)) r (sym (rw (wait, later) refl) ∙ e) in
            (suc rest.0, rest.1)
      ]

  -- A round past the deadline returns.
  late_tests :
      (p : Poll Snap) (snap : Snap)
      → 0 < timeout
      → start + timeout < p.now
      → (r : Result ObserveError (WaitResult Snap)) × (wait_tests regex timeout quiet start p snap
          ≡ some r)
  unfolding wait_tests
  late_tests p snap some_time late =
      elim (Bool-cases (screen_matches regex timeout quiet start snap)) [
        | inl hit ↦ (ok (matched snap), rw (wait_tests, hit) refl)
        | inr miss ↦ elim (Bool-cases (ltb 0 quiet && leb quiet (p.now - p.last_write))) [
          | inl still ↦ (ok (quieted snap), rw (wait_tests, miss, still) refl)
          | inr busy ↦ (ok (timed_out snap), rw (wait_tests, miss, busy, over) refl)
        ]
      ]
    where
      over : (ltb 0 timeout && ltb (start + timeout) p.now) ≡ true
      over = ground arith

  late_round :
      (p : Poll Snap)
      → 0 < timeout
      → start + timeout < p.now
      → (r : Result ObserveError (WaitResult Snap)) × (wait_round regex timeout quiet start p
          ≡ some r)
  unfolding wait_round late_tests
  late_round p some_time late = elim (Option-cases p.mirror) [
    | inl off ↦ (err mirror_disabled, rw (wait_round, off) refl)
    | inr on ↦
        let found = late_tests p on.0 some_time late in
        (found.0, rw (wait_round, on.1, found.1) refl)
  ]

  wait_stops :
      (i : ℕ) (polls : ℕ → Poll Snap) (r : Result ObserveError (WaitResult Snap))
      → wait_round regex timeout quiet start (polls i) ≡ some r
      → (r' : Result ObserveError (WaitResult Snap)) × (wait regex timeout quiet start (suc i) polls
          ≡ some r')
  unfolding wait
  wait_stops zero polls r e = (r, rw (wait, e) refl)
  wait_stops (suc i) polls r e =
      let rest = wait_stops i (λ k. polls (suc k)) r e in
      elim (Option-cases (wait_round regex timeout quiet start (polls 0))) [
        | inr now ↦ (now.0, rw (wait, now.1) refl)
        | inl later ↦ (rest.0, rw (wait, later) rest.1)
      ]

  advances :
      (polls : ℕ → Poll Snap) (i : ℕ)
      → start ≤ (polls 0).now
      → ((k : ℕ) → (polls k).now < (polls (suc k)).now)
      → start + i ≤ (polls i).now
  advances polls zero from ahead = omega arith
  advances polls (suc i) from ahead = omega (arith, advances polls i from ahead, ahead i)

  -- With a timeout, and a clock that goes on between two rounds, Wait returns within two rounds more
  -- than the timeout has milliseconds, and its result is justified by what one of its rounds read: a
  -- match or a quiet screen by that screen, a timeout only past the deadline and when neither held, an
  -- exit or a cancellation by the select.
  pub wait_returns :
      (polls : ℕ → Poll Snap)
      → 0 < timeout
      → start ≤ (polls 0).now
      → ((k : ℕ) → (polls k).now < (polls (suc k)).now)
      → (r : Result ObserveError (WaitResult Snap)) × (wait regex timeout quiet start
            (suc (suc timeout))
            polls
          ≡ some r)
        × (i : ℕ) × Justified (polls i) r
  wait_returns polls some_time from ahead =
      let late =
        late_round (polls (suc timeout)) some_time
          (omega (arith, advances polls (suc timeout) from ahead)) in
      let result = wait_stops (suc timeout) polls late.0 late.1 in
      let why = wait-Justified (suc (suc timeout)) polls result.0 result.1 in
      (result.0, result.1, why.0, why.1)
