-- ===== src/Ring.antt =====
-- internal/session/ring.go: the fixed-capacity byte buffer behind the attach-time replay.
-- A byte is a number; the mutex makes each operation atomic, so an operation is one function.
pub mod Suffix
pub mod Tests
use gossh.Prelude.{ℕ, ◌-◌, List, [], ◌++◌, length, drop, leb, ltb, if◌then◌else◌}

pub record Ring : Type 0 where
  pub cap : ℕ
  pub b : List ℕ

unfoldable pub new_ring : ℕ → Ring
new_ring cap = record { cap = cap; b = [] }

-- The last `n` bytes: the slice `p[len(p)-n:]`.
abbrev pub last_bytes : ℕ → List ℕ → List ℕ
last_bytes n p = drop (length p - n) p

-- `append(r.b, p...)`, and the compaction to the tail when the capacity is exceeded.
compact : Ring → List ℕ → Ring
compact r b =
    if ltb r.cap (length b) then record r { b = drop (length b - r.cap) b } else record r { b = b }

unfoldable pub write : Ring → List ℕ → Ring
unfolding compact
write r p =
    if leb r.cap (length p)
    then record r { b = drop (length p - r.cap) p }
    else compact r (r.b ++ p)

unfoldable pub bytes : Ring → List ℕ
bytes r = r.b
