-- ===== src/Session/Attach.antt =====
-- internal/session/session.go: the lifecycle of a session: Attach with its preemption, Detach and
-- Destroy. Each of them holds s.mu in one or two critical sections, and a section is one function
-- here. `bridge` runs between the two sections of Attach: an attach that is in it is an entry of
-- `attached`, newest first. Any sections of any calls may follow one another (`Step`).
-- A connection is a number; `closing` lists the connections that a caller has handed to Close (which
-- the code does just after it leaves the section). attachEpoch (uint64) counts without a bound.
pub mod Invariant
pub mod Ownership
use mathlib.Core.List.{Memᴰ}
use gossh.Prelude.{
  ℕ, suc, ◌≡◌, ◌≢◌, Bool, List, [], ◌∷◌, Option, none, some, ◌==◌, if◌then◌else◌, Result, ok, err,
}

pub data State : Type 0 where
  idle running destroyed : State

pub State-discrete : Discrete State
State-discrete = hlevel

-- How an attach ends: what `bridge` returned, or one of the session's own errors.
pub data Outcome : Type 0 where
  finished client_closed terminal_closed session_preempted session_destroyed : Outcome

-- An attach between its two critical sections.
pub record Attachment : Type 0 where
  pub my_epoch : ℕ
  pub conn : ℕ

pub record Life : Type 0 where
  pub state : State
  pub conn : Option ℕ
  pub attach_epoch : ℕ
  pub last_touched : ℕ
  pub attached : List Attachment
  pub closing : List ℕ
  pub term_closed : Bool

abbrev pub close_old : Option ℕ → List ℕ → List ℕ
close_old none cs = cs
close_old (some c) cs = c ∷ cs

abbrev pub is_destroyed : State → Bool
is_destroyed destroyed = Bool.true
is_destroyed _ = Bool.false

abbrev pub taken_over : ℕ → ℕ → Life → Life
taken_over now c w = record {
  state = running;
  conn = some c;
  attach_epoch = suc w.attach_epoch;
  last_touched = now;
  attached = record { my_epoch = suc w.attach_epoch; conn = c } ∷ w.attached;
  closing = close_old w.conn w.closing;
  term_closed = w.term_closed;
}

-- The first section of Attach, with the Close of the connection that it takes over from.
unfoldable pub attach_begin : ℕ → ℕ → Life → Result Outcome Life
attach_begin now c w =
    if is_destroyed w.state then err session_destroyed else ok (taken_over now c w)

unfoldable pub remove_epoch : ℕ → List Attachment → List Attachment
remove_epoch e [] = []
remove_epoch e (a ∷ as_) = if a.my_epoch == e then as_ else a ∷ remove_epoch e as_

abbrev pub clear_conn : Option ℕ → ℕ → Option ℕ
clear_conn none c = none
clear_conn (some d) c = if d == c then none else some d

-- The attach `a` is over, and `lastTouched` is set.
abbrev pub left : ℕ → Attachment → Life → Life
left now a w = record w { attached = remove_epoch a.my_epoch w.attached; last_touched = now }

-- The second section of Attach, by the attach `a`, for the error `e` that `bridge` returned.
unfoldable pub attach_end : ℕ → Attachment → Outcome → Life → Life × Outcome
attach_end now a e w =
    if is_destroyed w.state
    then (left now a w, e)
    else if w.attach_epoch == a.my_epoch
    then (record (left now a w) { state = idle; conn = clear_conn w.conn a.conn }, e)
    else (left now a w, session_preempted)

-- Detach closes the current connection and changes nothing else.
unfoldable pub detach : Life → Life
detach w = record w { closing = close_old w.conn w.closing }

abbrev pub torn_down : Life → Life
torn_down w = record {
  state = destroyed;
  conn = none;
  attach_epoch = suc w.attach_epoch;
  last_touched = w.last_touched;
  attached = w.attached;
  closing = close_old w.conn w.closing;
  term_closed = Bool.true;
}

-- Destroy, with the Close of the client connection and of the terminal.
unfoldable pub destroy : Life → Life
destroy w = if is_destroyed w.state then w else torn_down w

unfoldable pub new_life : ℕ → Life
new_life now = record {
  state = idle;
  conn = none;
  attach_epoch = 0;
  last_touched = now;
  attached = [];
  closing = [];
  term_closed = Bool.false;
}

-- One critical section of one call.
pub data Step (w : Life) : Life → Type 0 where
  begins : {w' : Life} (now c : ℕ) → attach_begin now c w ≡ ok w' → Step w w'
  ends :
      (now : ℕ) (a : Attachment) (e : Outcome) → Memᴰ a w.attached → Step w (attach_end now a e w).0
  detaches : Step w (detach w)
  destroys : Step w (destroy w)

pub data Reach (w : Life) : Life → Type 0 where
  here : Reach w w
  next : {v u : Life} → Reach w v → Step v u → Reach w u
