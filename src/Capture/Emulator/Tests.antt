-- ===== src/Capture/Emulator/Tests.antt =====
-- Runs of internal/capture/emulator.go on concrete output.
use gossh.Prelude.{ℕ, ◌≡◌, refl, List, [], ◌∷◌}
use gossh.Capture.Scanner.{initial}
use gossh.Capture.Scanner.Bounds.{Bounded}
use gossh.Capture.Scanner.Bounds.Feed.{feed, feed-Bounded}
use gossh.Capture.Emulator.{Vt, handle_osc, new_emulator, vt_write, write, write_bytes}
use gossh.Capture.Emulator.Splice.{write_bytes-spliced, save_cursor}

abbrev screen : Vt
screen = record { width = 80; cursor_x = λ done. 79; rune_width = λ bs. 2 }

-- A wide rune, a title, and a repetition that asks for 9999.
abbrev output : List ℕ
output =
    0xe4 ∷ 0xb8 ∷ 0xad ∷ 0x1b ∷ b']' ∷ b'0' ∷ 0x07 ∷ 0x1b ∷ b'[' ∷ b'9' ∷ b'9' ∷ b'9' ∷ b'9' ∷ b'b'
    ∷ []

feed-Bounded_example : Bounded (feed screen.rune_width output initial)
feed-Bounded_example = feed-Bounded screen.rune_width output

write_bytes-spliced_example :
    ((write_bytes screen (0x1b ∷ b'[' ∷ b'0' ∷ b's' ∷ []) new_emulator).run ≡ 0x1b ∷ b'7' ∷ [])
    × ((write_bytes screen (0x1b ∷ b'[' ∷ b'0' ∷ b's' ∷ []) new_emulator).done ≡ [])
unfolding new_emulator initial
write_bytes-spliced_example =
    write_bytes-spliced screen b's' b'7' (b'0' ∷ []) new_emulator save_cursor (refl, tt) refl

-- The rune does not fit in the last column: it is preceded by a line break.
wide_wraps :
    (write screen (0xe4 ∷ 0xb8 ∷ 0xad ∷ []) new_emulator).done
    ≡ vt_write (0x0d ∷ 0x0a ∷ []) ∷ vt_write (0xe4 ∷ 0xb8 ∷ 0xad ∷ []) ∷ []
unfolding write new_emulator
wide_wraps = refl

title_handled :
    (write screen (0x1b ∷ b']' ∷ b'0' ∷ 0x07 ∷ []) new_emulator).done
    ≡ vt_write (0x1b ∷ b']' ∷ b'0' ∷ 0x07 ∷ []) ∷ handle_osc (b'0' ∷ []) ∷ []
unfolding write new_emulator
title_handled = refl
