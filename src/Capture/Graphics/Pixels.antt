-- ===== src/Capture/Graphics/Pixels.antt =====
-- internal/capture/graphics.go: the indices that rawToImage reads.
use native.Mathlib.Nat.{mul-le-mul_right}
use gossh.Prelude.{
  ℕ, zero, suc, ◌+◌, ◌*◌, ◌≤◌, ◌<◌, ◌^◌, ◌≡◌, ◌⊎◌, refl, ap, inl, inr, Bool, true, false, List, [],
  ◌∷◌, ◌++◌, some, ◌==◌, ◌||◌, length, get_elem?, arith, Bool-cases, length-append,
}
use gossh.Capture.Graphics.Placing.{atoi_bound}
use gossh.Capture.Graphics.{
  Pixel, bytes_per_pixel, read_pixel, read_row, read_rows, wrapped, is_short, atoi, Raw, no_image,
  made, raw_to_image,
}

index_fits : (w h x y : ℕ) → x < w → y < h → y * w + x < w * h
index_fits w h x y in_row in_image =
    omega (arith, in_row, mul-le-mul_right {m = suc y} {n = h} w in_image)

get_elem?-some : (xs : List ℕ) (i : ℕ) → i < length xs → (a : ℕ) × (get_elem? xs i ≡ some a)
get_elem?-some [] i h = absurd (omega arith)
get_elem?-some (x ∷ xs) zero h = (x, refl)
get_elem?-some (x ∷ xs) (suc i) h = get_elem?-some xs i (omega arith)

read_pixel-some :
    (bytes : List ℕ) (alpha : Bool) (off : ℕ)
    → off + bytes_per_pixel alpha ≤ length bytes
    → (p : Pixel) × (read_pixel bytes alpha off ≡ some p)
unfolding read_pixel
read_pixel-some bytes true off h =
    let r = get_elem?-some bytes off (omega arith) in
    let g = get_elem?-some bytes (off + 1) (omega arith) in
    let b = get_elem?-some bytes (off + 2) (omega arith) in
    let a = get_elem?-some bytes (off + 3) (omega arith) in
    (record { r = r.0; g = g.0; b = b.0; a = a.0 }, rw (read_pixel, r.1, g.1, b.1, a.1) refl)
read_pixel-some bytes false off h =
    let r = get_elem?-some bytes off (omega arith) in
    let g = get_elem?-some bytes (off + 1) (omega arith) in
    let b = get_elem?-some bytes (off + 2) (omega arith) in
    (record { r = r.0; g = g.0; b = b.0; a = 0xff }, rw (read_pixel, r.1, g.1, b.1) refl)

wrapped_small : (n : ℕ) → n < 2 ^ 63 → wrapped n ≡ n
unfolding wrapped
wrapped_small n h = omega arith

module _ (bytes : List ℕ) (alpha : Bool) (w h : ℕ)
    (enough : w * h * bytes_per_pixel alpha ≤ length bytes)
    (small : w * h * bytes_per_pixel alpha < 2 ^ 63) where
  pixel_fits :
      (x y : ℕ)
      → x < w
      → y < h
      → (y * w + x) * bytes_per_pixel alpha + bytes_per_pixel alpha ≤ length bytes
  pixel_fits x y in_row in_image =
      four_or_three alpha (y * w + x) (w * h) (index_fits w h x y in_row in_image) enough
    where
      four_or_three :
          (alpha : Bool) (i n : ℕ)
          → i < n
          → n * bytes_per_pixel alpha ≤ length bytes
          → i * bytes_per_pixel alpha + bytes_per_pixel alpha ≤ length bytes
      four_or_three true i n fits all = omega arith
      four_or_three false i n fits all = omega arith

  offset_small :
      (x y : ℕ)
      → x < w
      → y < h
      → wrapped ((y * w + x) * bytes_per_pixel alpha) ≡ (y * w + x) * bytes_per_pixel alpha
  offset_small x y in_row in_image =
      wrapped_small _ (below alpha (y * w + x) (w * h) (index_fits w h x y in_row in_image) small)
    where
      below :
          (alpha : Bool) (i n : ℕ)
          → i < n
          → n * bytes_per_pixel alpha < 2 ^ 63
          → i * bytes_per_pixel alpha < 2 ^ 63
      below true i n less all = omega arith
      below false i n less all = omega arith

  read_at-some :
      (x y : ℕ)
      → x < w
      → y < h
      → (p : Pixel) × (read_pixel bytes alpha (wrapped ((y * w + x) * bytes_per_pixel alpha))
          ≡ some p)
  read_at-some x y in_row in_image = rw (offset_small x y in_row in_image) (
      read_pixel-some bytes alpha ((y * w + x) * bytes_per_pixel alpha)
        (pixel_fits x y in_row in_image))

  read_row-some :
      (x y n : ℕ)
      → x + n ≡ w
      → y < h
      → (ps : List Pixel) × (read_row bytes alpha w y x n ≡ some ps) × (length ps ≡ n)
  unfolding read_row
  read_row-some x y zero e in_image = ([], refl, refl)
  read_row-some x y (suc n) e in_image =
      let p = read_at-some x y (omega arith) in_image in
      let ps = read_row-some (suc x) y n (omega arith) in_image in
      (p.0 ∷ ps.0, rw (read_row, p.1, ps.1) refl, ap suc ps.2)

  read_rows-some :
      (y n : ℕ)
      → y + n ≡ h
      → (ps : List Pixel) × (read_rows bytes alpha w y n ≡ some ps) × (length ps ≡ w * n)
  unfolding read_rows
  read_rows-some y zero e = ([], refl, omega arith)
  read_rows-some y (suc n) e =
      let row = read_row-some 0 y w (omega arith) (omega arith) in
      let rest = read_rows-some (suc y) n (omega arith) in
      (
        row.0 ++ rest.0,
        rw (read_rows, row.1, rest.1) refl,
        omega (arith, length-append row.0 rest.0, row.2, rest.2),
      )

-- The answer for a size and data: none when a side is zero or the data is too short, else an image of
-- that size with a pixel for each of its points.
pub data IsRaw (bytes : List ℕ) (w h : ℕ) (alpha : Bool) : Raw → Type 0 where
  no_points : (w ≡ 0) ⊎ (h ≡ 0) → IsRaw bytes w h alpha no_image
  too_short : length bytes < w * h * bytes_per_pixel alpha → IsRaw bytes w h alpha no_image
  filled :
      (ps : List Pixel)
      → 0 < w
      → 0 < h
      → w * h * bytes_per_pixel alpha ≤ length bytes
      → length ps ≡ w * h
      → IsRaw bytes w h alpha (made (record { width = w; height = h; pixels = ps }))

is_short_cases :
    (bytes : List ℕ) (need : ℕ)
    → need < 2 ^ 63
    → ((is_short bytes (wrapped need) ≡ true) × (length bytes < need))
      ⊎ ((is_short bytes (wrapped need) ≡ false) × (need ≤ length bytes))
unfolding is_short
is_short_cases bytes need small = rw (wrapped_small need small) (ground arith)

raw_to_image-IsRaw :
    (bytes : List ℕ) (w h : ℕ) (alpha : Bool)
    → w * h * bytes_per_pixel alpha < 2 ^ 63
    → IsRaw bytes w h alpha (raw_to_image bytes w h alpha)
unfolding raw_to_image
raw_to_image-IsRaw bytes w h alpha small = elim (Bool-cases (w == 0 || h == 0)) [
  | inl flat ↦ rw (raw_to_image, flat) (no_points (ground arith))
  | inr solid ↦ elim (is_short_cases bytes (w * h * bytes_per_pixel alpha) small) [
    | inl (short, less) ↦ rw (raw_to_image, solid, short) (too_short less)
    | inr (long, fits) ↦
        let ps = read_rows-some bytes alpha w h fits small 0 h (omega arith) in
        rw (raw_to_image, solid, long, ps.1) (filled ps.0 (ground arith) (ground arith) fits ps.2)
  ]
]

sides_small :
    (w h : ℕ) (alpha : Bool) → w ≤ 2 ^ 30 → h ≤ 2 ^ 30 → w * h * bytes_per_pixel alpha < 2 ^ 63
sides_small w h true in_w in_h = omega (arith, mul-le-mul_right {m = w} {n = 2 ^ 30} h in_w)
sides_small w h false in_w in_h = omega (arith, mul-le-mul_right {m = w} {n = 2 ^ 30} h in_w)

-- Where an int has 64 bits, for the sides that finishKitty reads from any two texts of the header, and
-- whatever the data, rawToImage reads no index out of range: it gives none when a side is zero or when
-- the data is shorter than the points need, and else an image of that size with a pixel for each
-- point.
pub raw_to_image-atoi-IsRaw :
    (bytes width height : List ℕ) (alpha : Bool)
    → IsRaw bytes
        (atoi width)
        (atoi height)
        alpha
        (raw_to_image bytes (atoi width) (atoi height) alpha)
raw_to_image-atoi-IsRaw bytes width height alpha =
    raw_to_image-IsRaw bytes (atoi width) (atoi height) alpha
      (sides_small (atoi width) (atoi height) alpha (atoi_bound width) (atoi_bound height))
