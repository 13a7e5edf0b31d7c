-- ===== src/Capture/Emulator.antt =====
-- internal/capture/emulator.go: Emulator.Write, which hands output to the terminal emulator in runs and
-- interjects where that emulator lacks a feature. What it asks for is the list `done`; the width of
-- the screen and the cursor column that `done` leads to are parameters, and so is the width of a rune.
pub mod Splice
pub mod Tests
use gossh.Prelude.{
  ℕ, zero, suc, ◌+◌, ◌-◌, min, Bool, true, false, List, [], ◌∷◌, ◌++◌, ltb, ◌==◌, ◌&&◌,
  if◌then◌else◌, length, take, bytes_eq, decimal,
}
use gossh.Capture.{
  GfxEvt, gfx_none, gfx_rune, gfx_osc_payload, gfx_dcs_payload, gfx_apc_payload, gfx_csi_replaced,
}
use gossh.Capture.Scanner.{Scanner, Report, mode, ris, initial, advance, buffering_rune, has_param}

-- A write to x/vt, a payload handed to its handler, and the drop of images and answers.
pub data Action : Type 0 where
  vt_write handle_osc handle_dcs handle_apc : List ℕ → Action
  drop_images : Action

pub record Vt : Type 0 where
  pub width : ℕ
  pub cursor_x : List Action → ℕ
  pub rune_width : List ℕ → ℕ

-- `run` is the local buffer of Write.
pub record Emulator : Type 0 where
  pub scanner : Scanner
  pub cursor_visible : Bool
  pub run : List ℕ
  pub done : List Action

unfoldable pub new_emulator : Emulator
new_emulator = record { scanner = initial; cursor_visible = true; run = []; done = [] }

-- U+10EEEE in UTF-8.
abbrev pub kitty_placeholder : List ℕ
kitty_placeholder = 0xf4 ∷ 0x8e ∷ 0xbb ∷ 0xae ∷ []

-- The text without the placeholder; `skip` bytes of one are still to be dropped.
unfoldable pub strip_from : ℕ → List ℕ → List ℕ
strip_from skip [] = []
strip_from (suc skip) (b ∷ bs) = strip_from skip bs
strip_from zero (b ∷ bs) =
    let here = bytes_eq (take 4 (b ∷ bs)) kitty_placeholder in
    let rest = strip_from (if here then 3 else 0) bs in if here then rest else b ∷ rest

abbrev pub emit : Action → Emulator → Emulator
emit a e = record e { done = e.done ++ (a ∷ []) }

unfoldable pub flush : Emulator → Emulator
flush e =
    if length e.run == 0 then e else record e { done = e.done ++ (vt_write e.run ∷ []); run = [] }

abbrev pub append_run : List ℕ → Emulator → Emulator
append_run bs e = record e { run = e.run ++ bs }

-- trackMode and onRIS; the scanner has reset itself.
unfoldable pub track : List Report → Emulator → Emulator
track [] e = e
track (mode priv params set ∷ rest) e =
    track rest (if priv && has_param 25 params then record e { cursor_visible = set } else e)
track (ris ∷ rest) e = track rest (emit drop_images (record e { cursor_visible = true }))

-- A wide rune that does not fit goes to the next line.
unfoldable pub wrap_wide : Vt → Emulator → Emulator
unfolding flush
wrap_wide vt e =
    let e' = flush e in
    if ltb 1 e.scanner.w
    then (if ltb vt.width (vt.cursor_x e'.done + e.scanner.w)
        then emit (vt_write (0x0d ∷ 0x0a ∷ [])) e'
        else e')
    else e

-- In insert mode, blank cells for the rune.
unfoldable pub insert_cells : Emulator → Emulator
unfolding flush decimal
insert_cells e =
    if e.scanner.insert_mode && ltb 0 e.scanner.w
    then emit (vt_write (0x1b ∷ b'[' ∷ (decimal e.scanner.w ++ (b'@' ∷ [])))) (flush e)
    else e

-- The bytes of a sequence that the run ends with are replaced; `csi_len` counts the last one too.
unfoldable pub splice : Emulator → Emulator
splice e =
    let cut = min (e.scanner.csi_len - 1) (length e.run) in
    record e { run = take (length e.run - cut) e.run ++ e.scanner.replacement }

abbrev pub clear_payload : Emulator → Emulator
clear_payload e = record e { scanner = record e.scanner { payload = [] } }

unfoldable pub on_event : Vt → ℕ → GfxEvt → Emulator → Emulator
unfolding wrap_wide insert_cells splice flush buffering_rune
on_event vt b gfx_rune e = append_run e.scanner.rune_buf (insert_cells (wrap_wide vt e))
on_event vt b gfx_csi_replaced e = splice e
on_event vt b gfx_osc_payload e =
    clear_payload (emit (handle_osc e.scanner.payload) (flush (append_run (b ∷ []) e)))
on_event vt b gfx_dcs_payload e =
    clear_payload (emit (handle_dcs e.scanner.payload) (flush (append_run (b ∷ []) e)))
on_event vt b gfx_apc_payload e =
    clear_payload (emit (handle_apc e.scanner.payload) (flush (append_run (b ∷ []) e)))
on_event vt b gfx_none e = if buffering_rune e.scanner then e else append_run (b ∷ []) e

unfoldable pub write_byte : Vt → ℕ → Emulator → Emulator
unfolding advance track on_event
write_byte vt b e =
    let (s, ev, reports) = advance vt.rune_width b e.scanner in
    on_event vt b ev (track reports (record e { scanner = s }))

unfoldable pub write_bytes : Vt → List ℕ → Emulator → Emulator
unfolding write_byte
write_bytes vt [] e = e
write_bytes vt (b ∷ bs) e = write_bytes vt bs (write_byte vt b e)

unfoldable pub write : Vt → List ℕ → Emulator → Emulator
unfolding strip_from write_bytes flush
write vt p e = flush (write_bytes vt (strip_from 0 p) (record e { run = [] }))
