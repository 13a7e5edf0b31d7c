-- ===== src/Session/Observe.antt =====
-- internal/session/session.go: Screen, Resize, Input, Signal and Wait, which an agent calls without a
-- client. The mirror and its snapshots, the regular expression and the terminal's methods are
-- parameters. A round of Wait's loop is what it reads (the mirror, the clocks) and what its select
-- then takes; times are in milliseconds.
pub mod Waiting
pub mod Tests
use gossh.Prelude.{
  ℕ, suc, zero, ◌+◌, ◌-◌, Bool, true, false, List, [], ◌∷◌, Option, none, some, ◌&&◌, ltb, leb,
  if◌then◌else◌, Result, ok, err,
}
use gossh.Session.Attach.{State, destroyed}

pub data ObserveError : Type 0 where
  mirror_disabled session_destroyed context_done : ObserveError
  terminal_failed : ℕ → ObserveError

module _ {Snap : Type 0} where
  -- `none` is a session without a mirror.
  unfoldable pub screen : Option Snap → Result ObserveError Snap
  screen none = err mirror_disabled
  screen (some snap) = ok snap

-- Input and Signal, with what the terminal's method returns: a number of an error, or none.
unfoldable pub guarded : State → Option ℕ → Result ObserveError (Unit {0})
guarded State.destroyed outcome = err session_destroyed
guarded _ none = ok tt
guarded _ (some e) = err (terminal_failed e)

-- Resize: the size of the mirror, if there is one, follows the terminal's.
unfoldable pub resize :
    Option ℕ → ℕ → ℕ → Option (ℕ × ℕ) → Option (ℕ × ℕ) × Result ObserveError (Unit {0})
resize (some e) cols rows mirror = (mirror, err (terminal_failed e))
resize none cols rows none = (none, ok tt)
resize none cols rows (some size) = (some (cols, rows), ok tt)

-- What the select at the end of a round takes; after an exit Screen is called once more.
pub data Wake (Snap : Type 0) : Type 0 where
  ticks cancelled : Wake Snap
  exits : Option Snap → Wake Snap

pub record Poll (Snap : Type 0) : Type 0 where
  pub mirror : Option Snap
  pub last_write : ℕ
  pub now : ℕ
  pub wake : Wake Snap

-- WaitResult with its screen; a terminal that exited without a match has none of the flags.
pub data WaitResult (Snap : Type 0) : Type 0 where
  matched quieted timed_out exited : Snap → WaitResult Snap

module _ {Snap : Type 0} (regex : Option (Snap → Bool)) (timeout quiet start : ℕ) where
  abbrev pub screen_matches : Snap → Bool
  screen_matches snap = elim regex [ none ↦ false | some r ↦ r snap ]

  -- The tests of a round in their order; `none` is that it comes to the select.
  unfoldable pub wait_tests : Poll Snap → Snap → Option (Result ObserveError (WaitResult Snap))
  wait_tests p snap =
      if screen_matches snap
      then some (ok (matched snap))
      else if ltb 0 quiet && leb quiet (p.now - p.last_write)
      then some (ok (quieted snap))
      else if ltb 0 timeout && ltb (start + timeout) p.now
      then some (ok (timed_out snap))
      else none

  unfoldable pub wait_select : Wake Snap → Option (Result ObserveError (WaitResult Snap))
  wait_select ticks = none
  wait_select cancelled = some (err context_done)
  wait_select (exits none) = some (err mirror_disabled)
  wait_select (exits (some final)) =
      some (ok (if screen_matches final then matched final else exited final))

  unfoldable pub wait_round : Poll Snap → Option (Result ObserveError (WaitResult Snap))
  unfolding wait_tests wait_select
  wait_round p = elim p.mirror [
    | none ↦ some (err mirror_disabled)
    | some snap ↦ elim (wait_tests p snap) [ none ↦ wait_select p.wake | some r ↦ some r ]
  ]

  -- The loop, over what its rounds will read; `none` is that it still runs after that many rounds.
  unfoldable pub wait : ℕ → (ℕ → Poll Snap) → Option (Result ObserveError (WaitResult Snap))
  unfolding wait_round
  wait zero polls = none
  wait (suc rounds) polls =
      let later = wait rounds (λ i. polls (suc i)) in
      elim (wait_round (polls 0)) [ none ↦ later | some r ↦ some r ]
