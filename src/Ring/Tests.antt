-- ===== src/Ring/Tests.antt =====
-- Runs of internal/session/ring.go at concrete inputs.
use gossh.Prelude.{List, [], ◌∷◌, ◌≡◌, refl, ℕ}
use gossh.Ring.{bytes, new_ring, write}
use gossh.Ring.Suffix.{write_all, bytes-new_ring}

abbrev chunks : List (List ℕ)
chunks = (1 ∷ 2 ∷ []) ∷ (3 ∷ 4 ∷ []) ∷ (5 ∷ []) ∷ []

bytes-new_ring_example : bytes (write_all (new_ring 3) chunks) ≡ 3 ∷ 4 ∷ 5 ∷ []
bytes-new_ring_example = bytes-new_ring 3 chunks

-- One write that alone is longer than the ring.
write_long : bytes (write (new_ring 2) (1 ∷ 2 ∷ 3 ∷ [])) ≡ 2 ∷ 3 ∷ []
unfolding bytes write new_ring
write_long = refl
