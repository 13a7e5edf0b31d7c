-- ===== src/Ring/Suffix.antt =====
-- internal/session/ring.go: what the ring holds after any writes.
use gossh.Prelude.{
  ℕ, ◌+◌, ◌-◌, ◌≤◌, ◌≡◌, refl, sym, ap, ◌∙◌, inl, inr, List, [], ◌∷◌, ◌++◌, append_assoc,
  append-nil, arith, length, drop, concat, drop-append_left, drop-length, length-append,
  length-drop, drop-append_right, drop-drop, drop_at, leb, ltb, leb→le, Bool-cases,
}
use gossh.Ring.{Ring, write, bytes, new_ring, last_bytes}

pub record IsBounded (r : Ring) : Type 0 where
  pub within : length r.b ≤ r.cap

pub write-cap : (r : Ring) (p : List ℕ) → (write r p).cap ≡ r.cap
unfolding write
write-cap r p = ground arith

-- A write keeps the ring within its capacity.
pub write-IsBounded : (r : Ring) (p : List ℕ) → IsBounded (write r p)
unfolding write
write-IsBounded r p =
    ground
      (arith, length-drop (length p - r.cap) p, length-drop (length (r.b ++ p) - r.cap) (r.b ++ p))

-- The last bytes of a sequence do not depend on what was cut off before.
last_bytes-drop :
    (n k : ℕ) (xs : List ℕ) → k ≤ length xs - n → last_bytes n (drop k xs) ≡ last_bytes n xs
last_bytes-drop n k xs h =
    drop-drop (length (drop k xs) - n) k xs
    ∙ drop_at (k + (length (drop k xs) - n)) (length xs - n) xs
        (omega (arith, length-drop {0} k xs))

last_bytes-append_long :
    (n : ℕ) (xs p : List ℕ) → n ≤ length p → last_bytes n (xs ++ p) ≡ last_bytes n p
last_bytes-append_long n xs p h =
    drop-append_right (length (xs ++ p) - n) xs p (omega (arith, length-append {0} xs p))
    ∙ drop_at (length (xs ++ p) - n - length xs) (length p - n) p
        (omega (arith, length-append {0} xs p))

last_bytes-short : (n : ℕ) (xs : List ℕ) → length xs ≤ n → last_bytes n xs ≡ xs
last_bytes-short n xs h = drop_at (length xs - n) 0 xs (omega arith)

last_bytes-append_last :
    (n : ℕ) (xs p : List ℕ) → last_bytes n (last_bytes n xs ++ p) ≡ last_bytes n (xs ++ p)
last_bytes-append_last n xs p =
    ap (last_bytes n) (sym (drop-append_left (length xs - n) xs p (omega arith)))
    ∙ last_bytes-drop n (length xs - n) (xs ++ p) (omega (arith, length-append {0} xs p))

write-eq-last_bytes : (r : Ring) (p : List ℕ) → bytes (write r p) ≡ last_bytes r.cap (bytes r ++ p)
unfolding write bytes
write-eq-last_bytes r p = elim (Bool-cases (leb r.cap (length p))) [
  | inl fills ↦ rw fills (sym (last_bytes-append_long r.cap r.b p (leb→le r.cap (length p) fills)))
  | inr fits ↦ rw fits (elim (Bool-cases (ltb r.cap (length (r.b ++ p)))) [
    | inl over ↦ rw over refl
    | inr room ↦ rw room (sym (last_bytes-short r.cap (r.b ++ p) (ground arith)))
  ])
]

pub write-keeps_last :
    (r : Ring) (p seen : List ℕ)
    → bytes r ≡ last_bytes r.cap seen
    → bytes (write r p) ≡ last_bytes (write r p).cap (seen ++ p)
write-keeps_last r p seen h =
    write-eq-last_bytes r p
    ∙ ap (λ b. last_bytes r.cap (b ++ p)) h
    ∙ last_bytes-append_last r.cap seen p
    ∙ ap (λ c. last_bytes c (seen ++ p)) (sym (write-cap r p))

pub write_all : Ring → List (List ℕ) → Ring
write_all r [] = r
write_all r (p ∷ ps) = write_all (write r p) ps

bytes-write_all :
    (r : Ring) (ps : List (List ℕ)) (seen : List ℕ)
    → bytes r ≡ last_bytes r.cap seen
    → bytes (write_all r ps) ≡ last_bytes r.cap (seen ++ concat ps)
unfolding write_all
bytes-write_all r [] seen h = h ∙ ap (last_bytes r.cap) (sym (append-nil seen))
bytes-write_all r (p ∷ ps) seen h =
    bytes-write_all (write r p) ps (seen ++ p) (write-keeps_last r p seen h)
    ∙ ap (λ c. last_bytes c ((seen ++ p) ++ concat ps)) (write-cap r p)
    ∙ ap (last_bytes r.cap) (append_assoc seen p (concat ps))

pub write_all-IsBounded : (r : Ring) (ps : List (List ℕ)) → IsBounded r → IsBounded (write_all r ps)
unfolding write_all
write_all-IsBounded r [] h = h
write_all-IsBounded r (p ∷ ps) h = write_all-IsBounded (write r p) ps (write-IsBounded r p)

-- After any sequence of writes to a new ring of any capacity, `Bytes` is the last `cap` bytes of all
-- that was written, or all of it if that is less.
pub bytes-new_ring :
    (cap : ℕ) (ps : List (List ℕ))
    → bytes (write_all (new_ring cap) ps) ≡ last_bytes cap (concat ps)
unfolding new_ring bytes
bytes-new_ring size ps =
    bytes-write_all (new_ring size) ps [] (sym (drop-length (0 - size) [] (omega arith)))
