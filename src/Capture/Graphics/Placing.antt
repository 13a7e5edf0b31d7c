-- ===== src/Capture/Graphics/Placing.antt =====
-- internal/capture/graphics.go: where addImage puts an image and leaves the cursor.
use gossh.Prelude.{
  ℕ, ◌+◌, ◌-◌, ◌*◌, ◌^◌, min, ◌≤◌, ◌<◌, ◌≡◌, refl, inl, inr, Bool, false, List, [], ◌∷◌, some, ltb,
  leb, ◌==◌, ◌||◌, if◌then◌else◌, arith, Bool-cases,
}
use gossh.Capture.Graphics.{Keys, value, atoi, atoi_from, Grid, Placement, wanted_cells, add_image}

-- The digits of a header are at most 2^30.
atoi_from_bound : (n : ℕ) (s : List ℕ) → n ≤ 2 ^ 30 → atoi_from n s ≤ 2 ^ 30
unfolding atoi_from
atoi_from_bound n [] h = h
atoi_from_bound n (c ∷ cs) h = elim (Bool-cases (ltb c b'0' || ltb b'9' c)) [
  | inl bad ↦ rw (atoi_from, bad) (omega arith)
  | inr digit ↦ elim (Bool-cases (ltb (2 ^ 30) (n * 10 + (c - b'0')))) [
    | inl large ↦ rw (atoi_from, digit, large) (omega arith)
    | inr small ↦
        rw (atoi_from, digit, small)
          (atoi_from_bound (n * 10 + (c - b'0')) cs (ground (arith, small)))
  ]
]

pub atoi_bound : (s : List ℕ) → atoi s ≤ 2 ^ 30
unfolding atoi
atoi_bound s = atoi_from_bound 0 s (omega arith)

wanted_positive :
    (g : Grid) (w h c r : ℕ) → (0 < (wanted_cells g w h c r).0) × (0 < (wanted_cells g w h c r).1)
unfolding wanted_cells
wanted_positive g w h c r = ground arith

-- The placement lies in the grid from the cursor on, and the new cursor is in the grid.
pub record InGrid (g : Grid) (p : Placement) (after : Grid) : Type 0 where
  pub at_col : p.col ≡ g.x
  pub at_row : p.row ≡ g.y
  pub some_cols : 0 < p.cell_cols
  pub some_rows : 0 < p.cell_rows
  pub cols_fit : p.col + p.cell_cols ≤ g.cols
  pub rows_fit : p.row + p.cell_rows ≤ g.rows
  pub cursor_col : after.x < g.cols
  pub cursor_row : after.y < g.rows

-- With the cursor inside the grid, addImage places every image, whatever its size and its keys, on a
-- rectangle of at least one cell that starts at the cursor and lies in the grid, and leaves the cursor
-- in the grid.
pub add_image-InGrid :
    (g : Grid) (w h : ℕ) (keys : Keys)
    → g.x < g.cols
    → g.y < g.rows
    → (p : Placement) × (after : Grid) × (add_image g w h keys ≡ some (p, after)) × InGrid g p after
unfolding add_image
add_image-InGrid g w h keys inside_x inside_y = (
  record { row = g.y; col = g.x; cell_cols = cc; cell_rows = cr },
  record g {
    x = if wraps then 0 else g.x + cc;
    y = min (g.rows - 1) ((if wraps then min (g.rows - 1) (g.y + 1) else g.y) + (cr - 1));
  },
  rw (add_image, room) refl,
  record {
    at_col = refl;
    at_row = refl;
    some_cols = omega (arith, inside_x, positive.0);
    some_rows = omega (arith, inside_y, positive.1);
    cols_fit = omega (arith, inside_x);
    rows_fit = omega (arith, inside_y);
    cursor_col = ground arith;
    cursor_row = omega (arith, inside_y);
  },
)
  where
    cells : ℕ × ℕ
    cells = wanted_cells g w h (atoi (value (b'c' ∷ []) keys)) (atoi (value (b'r' ∷ []) keys))

    positive : (0 < cells.0) × (0 < cells.1)
    positive = wanted_positive g w h (atoi (value (b'c' ∷ []) keys)) (atoi (value (b'r' ∷ []) keys))

    cc : ℕ
    cc = min (g.cols - g.x) cells.0

    cr : ℕ
    cr = min (g.rows - g.y) cells.1

    wraps : Bool
    wraps = leb g.cols (g.x + cc)

    room : (cc == 0 || cr == 0) ≡ false
    room = ground (arith, positive.0, positive.1)
