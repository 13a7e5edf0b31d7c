-- ===== src/Capture/Graphics/Tests.antt =====
-- internal/capture/graphics.go: the theorems on concrete images.
use gossh.Prelude.{◌^◌, ◌*◌, ◌≡◌, refl, false, [], ◌∷◌, ◌++◌, some, arith}
use gossh.Capture.Graphics.{
  Keys, Grid, Placement, no_pending, value, is_ignored, kitty_command, add_image, raw_to_image,
  atoi, made, wrapped, is_short, parse_kitty_keys, keys_from, cut,
}
use gossh.Capture.Graphics.Chunks.{run_chunks, sent_by, chunks_finish_once}
use gossh.Capture.Graphics.Placing.{InGrid, add_image-InGrid}
use gossh.Capture.Graphics.Pixels.{IsRaw, raw_to_image-atoi-IsRaw}

-- f=100,m=1
abbrev opening : Keys
opening = (b'm' ∷ [], b'1' ∷ []) ∷ (b'f' ∷ [], b'1' ∷ b'0' ∷ b'0' ∷ []) ∷ []

abbrev closing : Keys
closing = (b'm' ∷ [], b'0' ∷ []) ∷ []

opening_parsed :
    parse_kitty_keys (b'f' ∷ b'=' ∷ b'1' ∷ b'0' ∷ b'0' ∷ b',' ∷ b'm' ∷ b'=' ∷ b'1' ∷ []) ≡ opening
unfolding parse_kitty_keys keys_from cut
opening_parsed = refl

chunks_finish_once_example :
    kitty_command closing (b'C' ∷ []) (
      run_chunks
        ((opening, b'B' ∷ []) ∷ [])
        (kitty_command opening (b'A' ∷ []) (record { pending = no_pending; finished = [] })))
    ≡ record {
      pending = no_pending;
      finished =
          []
          ++ ((opening, ((b'A' ∷ []) ++ sent_by ((opening, b'B' ∷ []) ∷ [])) ++ (b'C' ∷ [])) ∷ []);
    }
unfolding value is_ignored
chunks_finish_once_example =
    chunks_finish_once opening closing (b'A' ∷ []) (b'C' ∷ []) ((opening, b'B' ∷ []) ∷ []) [] refl
      refl (refl, refl, tt) refl refl (omega arith)

abbrev corner : Grid
corner = record { cols = 80; rows = 24; x = 79; y = 23; cell_w = 8; cell_h = 16 }

add_image-InGrid_example :
    (p : Placement) × (after : Grid) × (add_image corner 640 480 [] ≡ some (p, after))
    × InGrid corner p after
add_image-InGrid_example = add_image-InGrid corner 640 480 [] (omega arith) (omega arith)

raw_to_image-atoi-IsRaw_example :
    IsRaw
      (1 ∷ 2 ∷ 3 ∷ 4 ∷ 5 ∷ 6 ∷ [])
      (atoi (b'2' ∷ []))
      (atoi (b'1' ∷ []))
      false
      (raw_to_image (1 ∷ 2 ∷ 3 ∷ 4 ∷ 5 ∷ 6 ∷ []) (atoi (b'2' ∷ [])) (atoi (b'1' ∷ [])) false)
raw_to_image-atoi-IsRaw_example =
    raw_to_image-atoi-IsRaw (1 ∷ 2 ∷ 3 ∷ 4 ∷ 5 ∷ 6 ∷ []) (b'2' ∷ []) (b'1' ∷ []) false

-- An image of two pixels is made.
two_pixels :
    raw_to_image (1 ∷ 2 ∷ 3 ∷ 4 ∷ 5 ∷ 6 ∷ []) 2 1 false
    ≡ made (record {
      width = 2;
      height = 1;
      pixels =
          (record { r = 1; g = 2; b = 3; a = 0xff })
          ∷ (record { r = 4; g = 5; b = 6; a = 0xff })
          ∷ [];
    })
unfolding raw_to_image
two_pixels = refl

-- A square whose side no header gives: its product is zero in 64 bits.
overflow_not_short : is_short [] (wrapped (2 ^ 32 * 2 ^ 32 * 4)) ≡ false
unfolding is_short wrapped
overflow_not_short = refl
