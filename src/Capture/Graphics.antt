-- ===== src/Capture/Graphics.antt =====
-- internal/capture/graphics.go: the kitty protocol. A transmission is collected from its chunks, decoded
-- and placed on the grid. Base64, zlib and the image formats are parameters; strings are bytes. The
-- integers of this file stay far below the machine's bound: atoi refuses above 2^30, and the largest
-- product is of two such numbers and 4.
pub mod Pixels
pub mod Placing
pub mod Chunks
pub mod Tests
use mathlib.Core.Option.{bind as ◌>>=◌}
use gossh.Prelude.{
  ℕ, zero, suc, ◌+◌, ◌-◌, ◌*◌, ◌/◌, ◌%◌, ◌^◌, min, max, Bool, true, false, List, [], ◌∷◌, ◌++◌,
  Option, none, some, ltb, leb, ◌==◌, ◌&&◌, ◌||◌, not, if◌then◌else◌, length, get_elem?, take, drop,
  bytes_eq,
}

abbrev pub Keys : Type 0
Keys = List (List ℕ × List ℕ)

-- `keys[k]`, empty where it is missing; a later part is in front of an earlier.
unfoldable pub value : List ℕ → Keys → List ℕ
value k [] = []
value k (e ∷ es) = let later = value k es in if bytes_eq e.0 k then e.1 else later

-- `strings.Cut` at one byte.
unfoldable pub cut : ℕ → List ℕ → List ℕ × Option (List ℕ)
cut sep [] = ([], none)
cut sep (b ∷ bs) = let rest = cut sep bs in if b == sep then ([], some bs) else (b ∷ rest.0, rest.1)

-- The loop over the parts between commas; `part` is the part so far, in reverse order of `keys`.
abbrev pub add_key : List ℕ × Option (List ℕ) → Keys → Keys
add_key (k, none) keys = keys
add_key (k, some v) keys = (k, v) ∷ keys

unfoldable pub keys_from : List ℕ → List ℕ → Keys → Keys
unfolding cut
keys_from part [] keys = add_key (cut b'=' part) keys
keys_from part (b ∷ bs) keys =
    let next = keys_from [] bs (add_key (cut b'=' part) keys) in
    let longer = keys_from (part ++ (b ∷ [])) bs keys in if b == b',' then next else longer

unfoldable pub parse_kitty_keys : List ℕ → Keys
unfolding keys_from
parse_kitty_keys head = keys_from [] head []

unfoldable pub atoi_from : ℕ → List ℕ → ℕ
atoi_from n [] = n
atoi_from n (c ∷ cs) =
    let more = atoi_from (n * 10 + (c - b'0')) cs in
    if ltb c b'0' || ltb b'9' c then 0 else if ltb (2 ^ 30) (n * 10 + (c - b'0')) then 0 else more

unfoldable pub atoi : List ℕ → ℕ
unfolding atoi_from
atoi s = atoi_from 0 s

unfoldable pub int_div_ceil : ℕ → ℕ → ℕ
int_div_ceil a b = if b == 0 then 1 else (a + b - 1) / b

pub record Pixel : Type 0 where
  pub r : ℕ
  pub g : ℕ
  pub b : ℕ
  pub a : ℕ

abbrev pub bytes_per_pixel : Bool → ℕ
bytes_per_pixel true = 4
bytes_per_pixel false = 3

-- The reads of one pixel; `none` is an index out of range, on which the program panics.
unfoldable pub read_pixel : List ℕ → Bool → ℕ → Option Pixel
read_pixel bytes alpha off = elim (get_elem? bytes off) [
  | none ↦ none
  | some r ↦ elim (get_elem? bytes (off + 1)) [
    | none ↦ none
    | some g ↦ elim (get_elem? bytes (off + 2)) [
      | none ↦ none
      | some b ↦
          if alpha
          then elim (get_elem? bytes (off + 3)) [
            | none ↦ none
            | some a ↦ some (record { r = r; g = g; b = b; a = a })
          ]
          else some (record { r = r; g = g; b = b; a = 0xff })
    ]
  ]
]

-- The inner loop, for the `n` pixels of row `y` from column `x` on, and the outer one.
-- A product of ints, on a machine whose int has 64 bits: the lower half is what it is, the upper half
-- stands for the negative numbers.
unfoldable pub wrapped : ℕ → ℕ
wrapped n = n % 2 ^ 64

unfoldable pub read_row : List ℕ → Bool → ℕ → ℕ → ℕ → ℕ → Option (List Pixel)
unfolding read_pixel wrapped
read_row bytes alpha w y x zero = some []
read_row bytes alpha w y x (suc n) =
    let later = read_row bytes alpha w y (suc x) n in
    elim (read_pixel bytes alpha (wrapped ((y * w + x) * bytes_per_pixel alpha))) [
      | none ↦ none
      | some p ↦ elim later [ none ↦ none | some ps ↦ some (p ∷ ps) ]
    ]

unfoldable pub read_rows : List ℕ → Bool → ℕ → ℕ → ℕ → Option (List Pixel)
unfolding read_row
read_rows bytes alpha w y zero = some []
read_rows bytes alpha w y (suc n) =
    let later = read_rows bytes alpha w (suc y) n in
    elim (read_row bytes alpha w y 0 w) [
      | none ↦ none
      | some ps ↦ elim later [ none ↦ none | some qs ↦ some (ps ++ qs) ]
    ]

-- An image by its size and its pixels, row by row.
pub record Image : Type 0 where
  pub width : ℕ
  pub height : ℕ
  pub pixels : List Pixel

pub data Raw : Type 0 where
  no_image panicked : Raw
  made : Image → Raw

-- `len(data) < need`, where a product that has become negative is less than any length.
unfoldable pub is_short : List ℕ → ℕ → Bool
is_short bytes need = ltb need (2 ^ 63) && ltb (length bytes) need

unfoldable pub raw_to_image : List ℕ → ℕ → ℕ → Bool → Raw
unfolding read_rows wrapped is_short
raw_to_image bytes w h alpha =
    if (w == 0 || h == 0) || is_short bytes (wrapped (w * h * bytes_per_pixel alpha))
    then no_image
    else elim (read_rows bytes alpha w 0 h) [
      | none ↦ panicked
      | some ps ↦ made (record { width = w; height = h; pixels = ps })
    ]

-- The grid with its cursor and the pixels of a cell.
pub record Grid : Type 0 where
  pub cols : ℕ
  pub rows : ℕ
  pub x : ℕ
  pub y : ℕ
  pub cell_w : ℕ
  pub cell_h : ℕ

pub record Placement : Type 0 where
  pub row : ℕ
  pub col : ℕ
  pub cell_cols : ℕ
  pub cell_rows : ℕ

-- The rectangle asked for, or scaled from the pixels.
unfoldable pub wanted_cells : Grid → ℕ → ℕ → ℕ → ℕ → ℕ × ℕ
unfolding int_div_ceil
wanted_cells g w h c r =
    if c == 0 && r == 0
    then (max 1 (int_div_ceil w g.cell_w), max 1 (int_div_ceil h g.cell_h))
    else if c == 0
    then (max 1 (int_div_ceil (w * r) h), r)
    else if r == 0
    then (c, max 1 (int_div_ceil (h * c) w))
    else (c, r)

-- addImage: the placement, cut to the grid, and the cursor behind it.
unfoldable pub add_image : Grid → ℕ → ℕ → Keys → Option (Placement × Grid)
unfolding wanted_cells atoi value
add_image g w h keys =
    let cells =
      wanted_cells g w h (atoi (value (b'c' ∷ []) keys)) (atoi (value (b'r' ∷ []) keys)) in
    let cc = min (g.cols - g.x) cells.0 in
    let cr = min (g.rows - g.y) cells.1 in
    if cc == 0 || cr == 0
    then none
    else (let wraps = leb g.cols (g.x + cc) in
        let ny = if wraps then min (g.rows - 1) (g.y + 1) else g.y in
        some (
          record { row = g.y; col = g.x; cell_cols = cc; cell_rows = cr },
          record g { x = if wraps then 0 else g.x + cc; y = min (g.rows - 1) (ny + (cr - 1)) },
        ))

-- A transmission in progress, and those that were handed to finishKitty.
pub record KittyPending : Type 0 where
  pub keys : Option Keys
  pub collected : List ℕ

pub record Kitty : Type 0 where
  pub pending : KittyPending
  pub finished : List (Keys × List ℕ)

abbrev pub no_pending : KittyPending
no_pending = record { keys = none; collected = [] }

abbrev pub keys_or_nil : Option Keys → Keys
keys_or_nil none = []
keys_or_nil (some k) = k

-- The actions that are not transmissions.
unfoldable pub is_ignored : Keys → Bool
unfolding value
is_ignored keys =
    let a = value (b'a' ∷ []) keys in
    (bytes_eq a (b'q' ∷ []) || bytes_eq a (b'r' ∷ []) || bytes_eq a (b'D' ∷ []))
    || (bytes_eq a (b'c' ∷ []) || bytes_eq a (b'f' ∷ []) || bytes_eq a (b'p' ∷ []))

abbrev pub has_more : Keys → Bool
has_more keys = bytes_eq (value (b'm' ∷ []) keys) (b'1' ∷ [])

-- handleAPC behind the parse of its header.
unfoldable pub kitty_command : Keys → List ℕ → Kitty → Kitty
unfolding is_ignored value
kitty_command keys sent k =
    if is_ignored keys
    then k
    else if has_more keys
    then record k {
      pending = record {
        keys = elim k.pending.keys [
          | some old ↦ some old
          | none ↦ if length k.pending.collected == 0 then some keys else none
        ];
        collected = k.pending.collected ++ sent;
      };
    }
    else if ltb 0 (length k.pending.collected)
    then record {
      pending = no_pending;
      finished = k.finished ++ ((keys_or_nil k.pending.keys, k.pending.collected ++ sent) ∷ []);
    }
    else record { pending = no_pending; finished = k.finished ++ ((keys, sent) ∷ []) }

abbrev pub or_empty : Option (List ℕ) → List ℕ
or_empty none = []
or_empty (some bs) = bs

unfoldable pub handle_apc : List ℕ → Kitty → Kitty
unfolding cut parse_kitty_keys kitty_command
handle_apc [] k = k
handle_apc (g ∷ body) k =
    if g == b'G'
    then (let parts = cut b';' body in
        kitty_command (parse_kitty_keys parts.0) (or_empty parts.1) k)
    else k

-- Magic numbers.
pub data Mime : Type 0 where
  png jpeg gif webp unknown : Mime

unfoldable pub mime_detect : List ℕ → Mime
mime_detect b =
    if leb 8 (length b)
      && bytes_eq (take 8 b) (0x89 ∷ 0x50 ∷ 0x4e ∷ 0x47 ∷ 0x0d ∷ 0x0a ∷ 0x1a ∷ 0x0a ∷ [])
    then png
    else if leb 3 (length b) && bytes_eq (take 3 b) (0xff ∷ 0xd8 ∷ 0xff ∷ [])
    then jpeg
    else if leb 6 (length b)
        && (bytes_eq (take 6 b) (b'G' ∷ b'I' ∷ b'F' ∷ b'8' ∷ b'7' ∷ b'a' ∷ [])
            || bytes_eq (take 6 b) (b'G' ∷ b'I' ∷ b'F' ∷ b'8' ∷ b'9' ∷ b'a' ∷ []))
    then gif
    else if leb 12 (length b)
        && bytes_eq (take 4 b) (b'R' ∷ b'I' ∷ b'F' ∷ b'F' ∷ [])
        && bytes_eq (take 4 (drop 8 b)) (b'W' ∷ b'E' ∷ b'B' ∷ b'P' ∷ [])
    then webp
    else unknown

-- finishKitty up to addImage: the image, and its bytes.
pub record Decoders : Type 0 where
  pub base64 : List ℕ → Option (List ℕ)
  pub inflate : List ℕ → Option (List ℕ)
  pub decode_image : List ℕ → Option Image

abbrev pub raw_image : Raw → Option Image
raw_image (made img) = some img
raw_image _ = none

unfoldable pub finish_kitty : Decoders → Keys → List ℕ → Option (Image × List ℕ)
unfolding raw_to_image atoi value
finish_kitty d keys [] = none
finish_kitty d keys (p ∷ ps) = do
  coded ← d.base64 (p ∷ ps)
  raw ← (if bytes_eq (value (b'o' ∷ []) keys) (b'z' ∷ []) then d.inflate coded else some coded)
  img ←
      (let f = value (b'f' ∷ []) keys in
        if bytes_eq f (b'2' ∷ b'4' ∷ []) || bytes_eq f (b'3' ∷ b'2' ∷ [])
        then raw_image (
            raw_to_image raw (atoi (value (b's' ∷ []) keys)) (atoi (value (b'v' ∷ []) keys))
              (bytes_eq f (b'3' ∷ b'2' ∷ [])))
        else d.decode_image raw)
  some (img, raw)
