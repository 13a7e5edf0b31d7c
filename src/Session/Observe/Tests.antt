-- ===== src/Session/Observe/Tests.antt =====
-- internal/session/session.go: a run of Wait.
use gossh.Prelude.{ℕ, ◌+◌, ◌*◌, ◌≡◌, false, some, Result, arith}
use gossh.Session.Observe.{Poll, ticks, ObserveError, WaitResult, wait}
use gossh.Session.Observe.Waiting.{Justified, wait_returns}

-- A screen that is written to in every round, 20 ms apart, and never screen_matches.
abbrev busy_screen : ℕ → Poll ℕ
busy_screen i = record {
  mirror = some i;
  last_write = 1000 + i * 20;
  now = 1000 + i * 20;
  wake = ticks;
}

wait_returns_example :
    (r : Result ObserveError (WaitResult ℕ)) × (wait (some (λ n. false)) 100 50 1000 102 busy_screen
      ≡ some r)
    × (i : ℕ) × Justified (some (λ n. false)) 100 50 1000 (busy_screen i) r
wait_returns_example =
    wait_returns (some (λ n. false)) 100 50 1000 busy_screen (omega arith) (omega arith)
      (λ k. omega arith)
