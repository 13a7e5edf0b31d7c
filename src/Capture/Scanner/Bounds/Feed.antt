-- ===== src/Capture/Scanner/Bounds/Feed.antt =====
-- internal/capture/emulator.go: the bounds of a scanner after any bytes.
use gossh.Prelude.{
  ℕ, ◌≤◌, ◌<◌, ◌≡◌, refl, List, [], ◌∷◌, ◌++◌, ◌==◌, not, length, length-append, arith, Bool-cases,
  inl, inr,
}
use mathlib.Core.Path.{subst}
use gossh.Capture.{
  gfx_osc_payload, gfx_dcs_payload, gfx_apc_payload, GfxScanState, gs_scan, gs_esc, gs_csi, gs_utf8,
  gs_osc, gs_osc_end, gs_dcs, gs_dcs_end, gs_apc, gs_apc_end,
}
use gossh.Capture.Scanner.{
  Scanner, initial, take_payload, advance_utf8, end_payload, advance, is_continuation_byte,
}
use gossh.Capture.Scanner.Bounds.{
  Bounded, Collecting, moved, initial-Bounded, scan_byte-Bounded, take_payload-Bounded,
  collect-Bounded, end_payload-Bounded, counted-Bounded, Collecting-grown,
}
use gossh.Capture.Scanner.Bounds.Sequences.{advance_csi-Bounded, advance_esc-Bounded}

advance_utf8-Bounded :
    (rune_width : List ℕ → ℕ) (b : ℕ) (s : Scanner)
    → (1 ≤ length s.utf8_buf) × (length s.utf8_buf < s.utf8_need) × (s.utf8_need ≤ 4)
    → Bounded s
    → Bounded (advance_utf8 rune_width b s).0
unfolding advance_utf8
advance_utf8-Bounded rune_width b s c h =
    let grown = length-append {0} s.utf8_buf (b ∷ []) in
    elim (Bool-cases (not (is_continuation_byte b))) [
      | inl y0 ↦
          rw (y0, advance_utf8)
            (scan_byte-Bounded b (record s { state = gs_scan; utf8_buf = []; utf8_need = 0 }) tt
              (moved s _ tt refl refl refl refl refl h))
      | inr n0 ↦ elim (Bool-cases (length (s.utf8_buf ++ (b ∷ [])) == s.utf8_need)) [
        | inl y1 ↦
            rw (n0, y1, advance_utf8)
              (record {
                buffered = h.buffered;
                collecting = tt;
                last = rw grown (omega arith);
                rune = rw grown (omega arith);
                held = h.held;
                spliced = h.spliced;
              })
        | inr n1 ↦
            rw (n0, n1, advance_utf8)
              (record {
                buffered = h.buffered;
                collecting =
                    Collecting-grown s.state (length (s.utf8_buf ++ (b ∷ []))) s.utf8_need
                      (rw grown (omega arith)) (rw grown (ground (arith, grown))) c.2;
                last = h.last;
                rune = h.rune;
                held = h.held;
                spliced = h.spliced;
              })
      ]
    ]

advance-Bounded :
    (rune_width : List ℕ → ℕ) (b : ℕ) (s : Scanner) → Bounded s → Bounded (advance rune_width b s).0
unfolding advance
advance-Bounded rune_width b s h = by_state s.state refl
  where
    by_state : (st : GfxScanState) → s.state ≡ st → Bounded (advance rune_width b s).0
    by_state gs_scan e = rw (e, advance) (scan_byte-Bounded b s (rw e tt) h)
    by_state gs_utf8 e =
        rw (e, advance)
          (advance_utf8-Bounded rune_width b s
            (subst (λ x. Collecting x (length s.utf8_buf) s.utf8_need) e h.collecting) h)
    by_state gs_esc e = rw (e, advance) (advance_esc-Bounded b s h)
    by_state gs_csi e = rw (e, advance) (advance_csi-Bounded b s h)
    by_state gs_osc e = elim (Bool-cases (b == 0x07)) [
      | inl bel ↦
          rw (e, bel, advance)
            (counted-Bounded (take_payload s, gfx_osc_payload, []) (take_payload-Bounded s h))
      | inr other ↦ rw (e, other, advance) (collect-Bounded b gs_osc_end s tt h)
    ]
    by_state gs_osc_end e =
        rw (e, advance)
          (counted-Bounded (end_payload b gs_osc gfx_osc_payload s)
            (end_payload-Bounded b gs_osc gfx_osc_payload s tt h))
    by_state gs_dcs e = rw (e, advance) (collect-Bounded b gs_dcs_end s tt h)
    by_state gs_dcs_end e = rw (e, advance) (end_payload-Bounded b gs_dcs gfx_dcs_payload s tt h)
    by_state gs_apc e = rw (e, advance) (collect-Bounded b gs_apc_end s tt h)
    by_state gs_apc_end e = rw (e, advance) (end_payload-Bounded b gs_apc gfx_apc_payload s tt h)

abbrev pub feed : (List ℕ → ℕ) → List ℕ → Scanner → Scanner
feed rune_width [] s = s
feed rune_width (b ∷ bs) s = feed rune_width bs (advance rune_width b s).0

-- Whatever bytes a new scanner reads, a payload in collection and a payload handed on are at most 16
-- MiB, a splice is at most 4096 runes of 4 bytes, and while a rune is collected the next byte still
-- has a place in the array of 4.
pub feed-Bounded : (rune_width : List ℕ → ℕ) (bs : List ℕ) → Bounded (feed rune_width bs initial)
feed-Bounded rune_width bs = from bs initial initial-Bounded
  where
    from : (bs : List ℕ) (s : Scanner) → Bounded s → Bounded (feed rune_width bs s)
    from [] s h = h
    from (b ∷ bs) s h = from bs (advance rune_width b s).0 (advance-Bounded rune_width b s h)
