-- ===== src/Session.antt =====
-- internal/session/session.go: one terminal process with its lifecycle. This file has the state that
-- the children share; each child models a part of the file.
pub mod Replay
pub mod Pump
pub mod Attach
pub mod Relay
pub mod Observe
pub mod Tests
use gossh.Prelude.{ℕ, Bool, true, false, List, [], ◌∷◌, ◌++◌, if◌then◌else◌}

-- A client connection as the server writes to it: the messages written so far.
pub record Wire : Type 0 where
  pub sent : List (List ℕ)

-- Whether a connection takes the next message, after those it took before.
abbrev pub Accepts : Type 0
Accepts = List (List ℕ) → List ℕ → Bool

-- `conn.Write(message)`: the wire after it, and whether it succeeded.
abbrev pub send : Accepts → Wire → List ℕ → Wire × Bool
send accepts w m =
    if accepts w.sent m then (record { sent = w.sent ++ (m ∷ []) }, true) else (w, false)

-- AttachOptions; a size of 0 is not fixed.
pub record AttachOptions : Type 0 where
  pub permit_write : Bool
  pub fixed_cols : ℕ
  pub fixed_rows : ℕ
  pub window_title : List ℕ
  pub reconnect_seconds : ℕ
  pub preferences : List ℕ
