-- ===== src/Capture/Scanner/Bounds/Sequences.antt =====
-- internal/capture/emulator.go: the bounds of a scanner inside escape sequences.
use gossh.Prelude.{
  ℕ, suc, zero, ◌*◌, ◌≤◌, refl, List, [], ◌∷◌, ltb, leb, ◌==◌, ◌&&◌, ◌||◌, not, length, concat,
  replicate, length-append, arith, Bool-cases, inl, inr,
}
use gossh.Capture.{gs_scan, gs_osc, gs_dcs, gs_apc}
use gossh.Capture.Scanner.{
  Scanner, rep_max, reset, repetitions, csi_final, count_query, advance_csi, advance_esc,
  parse_params, is_digit, has_param,
}
use gossh.Capture.Scanner.Bounds.{Bounded, moved, initial-Bounded, start_payload-Bounded}

concat-replicate : (n : ℕ) (r : List ℕ) → length r ≤ 4 → length (concat (replicate n r)) ≤ 4 * n
concat-replicate zero r h = omega arith
concat-replicate (suc n) r h =
    rw (length-append {0} r (concat (replicate n r))) (omega (arith, concat-replicate n r h))

repetitions-rep_max : (ps : List ℕ) → repetitions ps ≤ rep_max
unfolding repetitions
repetitions-rep_max [] = omega arith
repetitions-rep_max (p ∷ ps) = omega arith

repeated :
    (ps : List ℕ) (r : List ℕ)
    → length r ≤ 4
    → length (concat (replicate (repetitions ps) r)) ≤ 4 * rep_max
repeated ps r h = omega (arith, concat-replicate (repetitions ps) r h, repetitions-rep_max ps)

spliced-Bounded :
    (bs : List ℕ) (s : Scanner)
    → length bs ≤ 4 * rep_max
    → Bounded s
    → Bounded (record s { state = gs_scan; replacement = bs })
spliced-Bounded bs s short h = record {
  buffered = h.buffered;
  collecting = tt;
  last = h.last;
  rune = h.rune;
  held = h.held;
  spliced = short;
}

csi_final-Bounded : (b : ℕ) (ps : List ℕ) (s : Scanner) → Bounded s → Bounded (csi_final b ps s).0
unfolding csi_final
csi_final-Bounded b ps s h = elim (Bool-cases (b == b'h' || b == b'l')) [
  | inl y0 ↦ (elim (Bool-cases (not s.priv && has_param 4 ps)) [
    | inl q ↦ rw (y0, q, csi_final) (moved s _ tt refl refl refl refl refl h)
    | inr q ↦ rw (y0, q, csi_final) (moved s _ tt refl refl refl refl refl h)
  ])
  | inr n0 ↦ elim (Bool-cases (b == b's' && not s.priv)) [
    | inl y1 ↦ rw (n0, y1, csi_final) (spliced-Bounded (0x1b ∷ b'7' ∷ []) s (omega arith) h)
    | inr n1 ↦ elim (Bool-cases (b == b'u' && not s.priv)) [
      | inl y2 ↦ rw (n0, n1, y2, csi_final) (spliced-Bounded (0x1b ∷ b'8' ∷ []) s (omega arith) h)
      | inr n2 ↦ elim (Bool-cases (b == b'b')) [
        | inl y3 ↦ (elim (Bool-cases (ltb 0 (length s.last_rune))) [
          | inl q ↦
              rw (n0, n1, n2, y3, q, csi_final)
                (spliced-Bounded (concat (replicate (repetitions ps) s.last_rune)) s
                  (repeated ps s.last_rune h.last) h)
          | inr q ↦ rw (n0, n1, n2, y3, q, csi_final) (moved s _ tt refl refl refl refl refl h)
        ])
        | inr n3 ↦ rw (n0, n1, n2, n3, csi_final) (moved s _ tt refl refl refl refl refl h)
      ]
    ]
  ]
]

count_query-Bounded : (b : ℕ) (s : Scanner) → Bounded s → Bounded (count_query b s)
unfolding count_query
count_query-Bounded b s h =
    elim (Bool-cases ((b == b'n' || b == b'c') || (b == b'p' && s.saw_dollar))) [
      | inl y0 ↦ rw (y0, count_query) (moved s _ h.collecting refl refl refl refl refl h)
      | inr n0 ↦ rw (n0, count_query) (moved s _ h.collecting refl refl refl refl refl h)
    ]

pub advance_csi-Bounded : (b : ℕ) (s : Scanner) → Bounded s → Bounded (advance_csi b s).0
unfolding advance_csi
advance_csi-Bounded b s h = elim (Bool-cases (b == b'?')) [
  | inl y0 ↦ rw (y0, advance_csi) (moved s _ h.collecting refl refl refl refl refl h)
  | inr n0 ↦ elim (Bool-cases (is_digit b || (b == b';' || b == b':'))) [
    | inl y1 ↦ rw (n0, y1, advance_csi) (moved s _ h.collecting refl refl refl refl refl h)
    | inr n1 ↦ elim (Bool-cases (leb 0x20 b && leb b 0x3e)) [
      | inl y2 ↦ (elim (Bool-cases (b == b'$')) [
        | inl q ↦
            rw (n0, n1, y2, q, advance_csi) (moved s _ h.collecting refl refl refl refl refl h)
        | inr q ↦
            rw (n0, n1, y2, q, advance_csi) (moved s _ h.collecting refl refl refl refl refl h)
      ])
      | inr n2 ↦ elim (Bool-cases (leb 0x40 b && leb b 0x7e)) [
        | inl y3 ↦
            rw (n0, n1, n2, y3, advance_csi)
              (csi_final-Bounded b (parse_params s.param_str)
                (count_query b (record s { csi_len = suc s.csi_len }))
                (count_query-Bounded b (record s { csi_len = suc s.csi_len })
                  (moved s _ h.collecting refl refl refl refl refl h)))
        | inr n3 ↦
            rw (n0, n1, n2, n3, advance_csi) (moved s _ h.collecting refl refl refl refl refl h)
      ]
    ]
  ]
]

pub advance_esc-Bounded : (b : ℕ) (s : Scanner) → Bounded s → Bounded (advance_esc b s).0
unfolding advance_esc reset
advance_esc-Bounded b s h = elim (Bool-cases (b == b'[')) [
  | inl y0 ↦ rw (y0, advance_esc) (moved s _ tt refl refl refl refl refl h)
  | inr n0 ↦ elim (Bool-cases (b == b']')) [
    | inl y1 ↦ rw (n0, y1, advance_esc) (start_payload-Bounded gs_osc s tt h)
    | inr n1 ↦ elim (Bool-cases (b == b'P')) [
      | inl y2 ↦ rw (n0, n1, y2, advance_esc) (start_payload-Bounded gs_dcs s tt h)
      | inr n2 ↦ elim (Bool-cases (b == b'_')) [
        | inl y3 ↦ rw (n0, n1, n2, y3, advance_esc) (start_payload-Bounded gs_apc s tt h)
        | inr n3 ↦ elim (Bool-cases (b == b'c')) [
          | inl y4 ↦ rw (n0, n1, n2, n3, y4, advance_esc) (initial-Bounded)
          | inr n4 ↦ rw (n0, n1, n2, n3, n4, advance_esc) (moved s _ tt refl refl refl refl refl h)
        ]
      ]
    ]
  ]
]
