-- ===== src/Capture/Scanner/Bounds.antt =====
-- internal/capture/emulator.go: no output makes the scanner hold more than its limits.
pub mod Sequences
pub mod Feed
use gossh.Prelude.{
  ℕ, suc, zero, ◌*◌, ◌≤◌, ◌<◌, ◌≡◌, refl, List, [], ◌∷◌, ◌++◌, ltb, leb, ◌==◌, ◌&&◌, ◌||◌, not,
  length, concat, replicate, length-append, arith, Bool-cases, inl, inr,
}
use mathlib.Core.Path.{subst}
use gossh.Capture.{
  GfxEvt, gfx_none, gfx_rune, gfx_osc_payload, gfx_dcs_payload, gfx_apc_payload, gfx_csi_replaced,
  GfxScanState, gs_scan, gs_esc, gs_csi, gs_utf8, gs_osc, gs_osc_end, gs_dcs, gs_dcs_end, gs_apc,
  gs_apc_end,
}
use gossh.Capture.Scanner.{
  Scanner, Outcome, gfx_buf_limit, rep_max, initial, reset, start_payload, append_payload,
  count_osc_query, scan_byte, repetitions, csi_final, count_query, advance_csi, advance_esc,
  take_payload, collect, advance_utf8, end_payload, counted, advance, utf8_length, parse_params,
  is_digit, has_param, is_osc_query, is_continuation_byte,
}

-- While a rune is collected, at least one of its bytes is there and at least one is missing.
abbrev pub Collecting : GfxScanState → ℕ → ℕ → Type 0
Collecting gs_utf8 got need = (1 ≤ got) × (got < need) × (need ≤ 4)
Collecting _ got need = Unit {0}

pub record Bounded (s : Scanner) : Type 0 where
  pub buffered : length s.buf ≤ gfx_buf_limit
  pub collecting : Collecting s.state (length s.utf8_buf) s.utf8_need
  pub last : length s.last_rune ≤ 4
  pub rune : length s.rune_buf ≤ 4
  pub held : length s.payload ≤ gfx_buf_limit
  pub spliced : length s.replacement ≤ 4 * rep_max

-- A change that touches nothing bounded but the collection of a rune.
pub moved :
    (s s' : Scanner)
    → Collecting s'.state (length s'.utf8_buf) s'.utf8_need
    → s'.buf ≡ s.buf
    → s'.last_rune ≡ s.last_rune
    → s'.rune_buf ≡ s.rune_buf
    → s'.payload ≡ s.payload
    → s'.replacement ≡ s.replacement
    → Bounded s
    → Bounded s'
moved s s' c e1 e2 e3 e4 e5 h = record {
  buffered = rw e1 h.buffered;
  collecting = c;
  last = rw e2 h.last;
  rune = rw e3 h.rune;
  held = rw e4 h.held;
  spliced = rw e5 h.spliced;
}

pub initial-Bounded : Bounded initial
unfolding initial
initial-Bounded = record {
  buffered = omega arith;
  collecting = tt;
  last = omega arith;
  rune = omega arith;
  held = omega arith;
  spliced = omega arith;
}

Collecting-quiet : (st : GfxScanState) (g n g' n' : ℕ) → Collecting st 0 0 → Collecting st g' n'
Collecting-quiet gs_scan g n g' n' c = tt
Collecting-quiet gs_esc g n g' n' c = tt
Collecting-quiet gs_csi g n g' n' c = tt
Collecting-quiet gs_utf8 g n g' n' c = absurd (omega (arith, c.0))
Collecting-quiet gs_osc g n g' n' c = tt
Collecting-quiet gs_osc_end g n g' n' c = tt
Collecting-quiet gs_dcs g n g' n' c = tt
Collecting-quiet gs_dcs_end g n g' n' c = tt
Collecting-quiet gs_apc g n g' n' c = tt
Collecting-quiet gs_apc_end g n g' n' c = tt

pub Collecting-grown : (st : GfxScanState) (g n : ℕ) → 1 ≤ g → g < n → n ≤ 4 → Collecting st g n
Collecting-grown gs_scan g n p q r = tt
Collecting-grown gs_esc g n p q r = tt
Collecting-grown gs_csi g n p q r = tt
Collecting-grown gs_utf8 g n p q r = (p, q, r)
Collecting-grown gs_osc g n p q r = tt
Collecting-grown gs_osc_end g n p q r = tt
Collecting-grown gs_dcs g n p q r = tt
Collecting-grown gs_dcs_end g n p q r = tt
Collecting-grown gs_apc g n p q r = tt
Collecting-grown gs_apc_end g n p q r = tt

utf8_length-bounds : (b : ℕ) → (1 < utf8_length b) × (utf8_length b ≤ 4)
utf8_length-bounds b = (ground arith, ground arith)

pub scan_byte-Bounded :
    (b : ℕ) (s : Scanner) → Collecting s.state 0 0 → Bounded s → Bounded (scan_byte b s).0
unfolding scan_byte
scan_byte-Bounded b s c h = elim (Bool-cases (b == 0x1b)) [
  | inl y0 ↦ rw (y0, scan_byte) (moved s _ tt refl refl refl refl refl h)
  | inr n0 ↦ elim (Bool-cases (ltb b 0x80)) [
    | inl y1 ↦
        rw (n0, y1, scan_byte)
          (record {
            buffered = h.buffered;
            collecting = h.collecting;
            last = omega arith;
            rune = omega arith;
            held = h.held;
            spliced = h.spliced;
          })
    | inr n1 ↦ elim (Bool-cases (leb 0xc2 b && leb b 0xf4)) [
      | inl y2 ↦
          rw (n0, n1, y2, scan_byte)
            (moved s _ (omega arith, (utf8_length-bounds b).0, (utf8_length-bounds b).1) refl refl
              refl refl refl h)
      | inr n2 ↦ rw (n0, n1, n2, scan_byte) (h)
    ]
  ]
]

pub append_payload-Bounded : (b : ℕ) (s : Scanner) → Bounded s → Bounded (append_payload b s)
unfolding append_payload
append_payload-Bounded b s h = elim (Bool-cases (s.full)) [
  | inl y0 ↦ rw (y0, append_payload) (moved s _ h.collecting refl refl refl refl refl h)
  | inr n0 ↦ elim (Bool-cases (leb gfx_buf_limit (length s.buf))) [
    | inl y1 ↦
        rw (n0, y1, append_payload)
          (record {
            buffered = omega arith;
            collecting = h.collecting;
            last = h.last;
            rune = h.rune;
            held = h.held;
            spliced = h.spliced;
          })
    | inr n1 ↦
        rw (n0, n1, append_payload)
          (record {
            buffered = rw (length-append {0} s.buf (b ∷ [])) (ground arith);
            collecting = h.collecting;
            last = h.last;
            rune = h.rune;
            held = h.held;
            spliced = h.spliced;
          })
  ]
]

pub start_payload-Bounded :
    (to : GfxScanState) (s : Scanner) → Collecting to 0 0 → Bounded s → Bounded (start_payload to s)
unfolding start_payload
start_payload-Bounded to s c h = record {
  buffered = omega arith;
  collecting = Collecting-quiet to 0 0 (length s.utf8_buf) s.utf8_need c;
  last = h.last;
  rune = h.rune;
  held = h.held;
  spliced = h.spliced;
}

pub take_payload-Bounded : (s : Scanner) → Bounded s → Bounded (take_payload s)
unfolding take_payload
take_payload-Bounded s h = record {
  buffered = omega arith;
  collecting = tt;
  last = h.last;
  rune = h.rune;
  held = h.buffered;
  spliced = h.spliced;
}

pub collect-Bounded :
    (b : ℕ) (to : GfxScanState) (s : Scanner)
    → Collecting to 0 0
    → Bounded s
    → Bounded (collect b to s).0
unfolding collect
collect-Bounded b to s c h = elim (Bool-cases (b == 0x1b)) [
  | inl y0 ↦
      rw (y0, collect)
        (moved s _ (Collecting-quiet to 0 0 (length s.utf8_buf) s.utf8_need c) refl refl refl refl
          refl h)
  | inr n0 ↦ rw (n0, collect) (append_payload-Bounded b s h)
]

pub end_payload-Bounded :
    (b : ℕ) (back : GfxScanState) (e : GfxEvt) (s : Scanner)
    → Collecting back 0 0
    → Bounded s
    → Bounded (end_payload b back e s).0
unfolding end_payload
end_payload-Bounded b back e s c h = elim (Bool-cases (b == 0x5c)) [
  | inl y0 ↦ rw (y0, end_payload) (take_payload-Bounded s h)
  | inr n0 ↦
      rw (n0, end_payload)
        (moved s _ (Collecting-quiet back 0 0 (length s.utf8_buf) s.utf8_need c) refl refl refl refl
          refl h)
]

count_osc_query-Bounded : (s : Scanner) → Bounded s → Bounded (count_osc_query s)
unfolding count_osc_query
count_osc_query-Bounded s h = elim (Bool-cases (is_osc_query s.payload)) [
  | inl y0 ↦ rw (y0, count_osc_query) (moved s _ h.collecting refl refl refl refl refl h)
  | inr n0 ↦ rw (n0, count_osc_query) (h)
]

pub counted-Bounded : (o : Outcome) → Bounded o.0 → Bounded (counted o).0
unfolding counted
counted-Bounded (s, gfx_osc_payload, r) h = count_osc_query-Bounded s h
counted-Bounded (s, gfx_none, r) h = h
counted-Bounded (s, gfx_rune, r) h = h
counted-Bounded (s, gfx_dcs_payload, r) h = h
counted-Bounded (s, gfx_apc_payload, r) h = h
counted-Bounded (s, gfx_csi_replaced, r) h = h
