-- ===== src/Capture/Emulator/Splice.antt =====
-- internal/capture/emulator.go: what Write puts in the place of CSI s and CSI u, and plain text.
use gossh.Prelude.{
  ℕ, suc, ◌-◌, ◌≡◌, refl, ap, ◌∙◌, Bool, true, false, List, [], ◌∷◌, ◌++◌, ◌==◌, ◌||◌, length, take,
  length-append, take-append_exact, append_assoc, arith, min,
}
use gossh.Capture.{gfx_none, gfx_csi_replaced, gs_scan, gs_csi, gs_esc}
use gossh.Capture.Scanner.{
  Scanner, advance, advance_csi, advance_esc, scan_byte, csi_final, count_query, buffering_rune,
  is_digit, parse_params,
}
use gossh.Capture.Emulator.{Action, Vt, Emulator, write_byte, write_bytes, on_event, splice, track}

abbrev pub is_param : ℕ → Bool
is_param b = is_digit b || (b == b';' || b == b':')

abbrev pub AllParams : List ℕ → Type 0
AllParams [] = Unit {0}
AllParams (b ∷ bs) = (is_param b ≡ true) × AllParams bs

-- Save or restore the cursor: the byte of ANSI, and the one of DEC.
pub data CursorOp : ℕ → ℕ → Type 0 where
  save_cursor : CursorOp b's' b'7'
  restore_cursor : CursorOp b'u' b'8'

module _ (vt : Vt) where
  write_byte_none :
      (b : ℕ) (e : Emulator) (s : Scanner)
      → advance vt.rune_width b e.scanner ≡ (s, gfx_none, [])
      → buffering_rune s ≡ false
      → write_byte vt b e ≡ record e { scanner = s; run = e.run ++ (b ∷ []) }
  unfolding write_byte on_event track
  write_byte_none b e s adv quiet = rw (adv, quiet, write_byte, on_event) refl

  write_byte_replaced :
      (b : ℕ) (e : Emulator) (s : Scanner)
      → advance vt.rune_width b e.scanner ≡ (s, gfx_csi_replaced, [])
      → write_byte vt b e ≡ splice (record e { scanner = s })
  unfolding write_byte on_event track
  write_byte_replaced b e s adv = rw (adv, write_byte) refl

  -- Inside a CSI sequence that is not private: the run ends with its bytes so far.
  record InCsi (r : List ℕ) (d : List Action) (e : Emulator) : Type 0 where
    at_csi : e.scanner.state ≡ gs_csi
    open_ : e.scanner.priv ≡ false
    pre : List ℕ
    runs : e.run ≡ r ++ pre
    counts : length pre ≡ e.scanner.csi_len
    same : e.done ≡ d

  abbrev with_param : ℕ → Scanner → Scanner
  with_param b s = record s { csi_len = suc s.csi_len; param_str = s.param_str ++ (b ∷ []) }

  advance_at_csi :
      (b : ℕ) (s : Scanner) → s.state ≡ gs_csi → advance vt.rune_width b s ≡ advance_csi b s
  unfolding advance
  advance_at_csi b s e = simp (e, advance)

  advance_csi_param :
      (b : ℕ) (s : Scanner) → is_param b ≡ true → advance_csi b s ≡ (with_param b s, gfx_none, [])
  unfolding advance_csi
  advance_csi_param b s p =
      let q : (b == b'?') ≡ false = ground arith in rw (q, p, advance_csi) refl

  advance_param :
      (b : ℕ) (s : Scanner)
      → s.state ≡ gs_csi
      → is_param b ≡ true
      → advance vt.rune_width b s ≡ (with_param b s, gfx_none, [])
  advance_param b s at_csi p = advance_at_csi b s at_csi ∙ advance_csi_param b s p

  buffering_csi : (s : Scanner) → s.state ≡ gs_csi → buffering_rune s ≡ false
  unfolding buffering_rune
  buffering_csi s e = rw (e, buffering_rune) refl

  param-InCsi :
      (b : ℕ) (r : List ℕ) (d : List Action) (e : Emulator)
      → is_param b ≡ true
      → InCsi r d e
      → InCsi r d (write_byte vt b e)
  param-InCsi b r d e p h =
      rw
        (write_byte_none b e (with_param b e.scanner) (advance_param b e.scanner h.at_csi p)
          (buffering_csi (with_param b e.scanner) h.at_csi))
        (record {
          at_csi = h.at_csi;
          open_ = h.open_;
          pre = h.pre ++ (b ∷ []);
          runs = ap (λ x. x ++ (b ∷ [])) h.runs ∙ append_assoc r h.pre (b ∷ []);
          counts = length-append {0} h.pre (b ∷ []) ∙ omega (arith, h.counts);
          same = h.same;
        })

  params-InCsi :
      (ps : List ℕ) (r : List ℕ) (d : List Action) (e : Emulator)
      → AllParams ps
      → InCsi r d e
      → InCsi r d (write_bytes vt ps e)
  unfolding write_bytes
  params-InCsi [] r d e all h = h
  params-InCsi (b ∷ bs) r d e all h =
      params-InCsi bs r d (write_byte vt b e) all.1 (param-InCsi b r d e all.0 h)

  abbrev finished : ℕ → Scanner → Scanner
  finished c s = record s {
    csi_len = suc s.csi_len;
    saw_dollar = false;
    state = gs_scan;
    replacement = 0x1b ∷ c ∷ [];
  }

  -- The final byte of the sequence.
  csi_final_op :
      (b c : ℕ) (ps : List ℕ) (s : Scanner)
      → CursorOp b c
      → s.priv ≡ false
      → csi_final b ps s
        ≡ (record s { state = gs_scan; replacement = 0x1b ∷ c ∷ [] }, gfx_csi_replaced, [])
  unfolding csi_final
  csi_final_op _ _ ps s save_cursor priv = simp (priv, csi_final)
  csi_final_op _ _ ps s restore_cursor priv = simp (priv, csi_final)

  advance_csi_op :
      (b c : ℕ) (s : Scanner)
      → CursorOp b c
      → s.priv ≡ false
      → advance_csi b s ≡ (finished c s, gfx_csi_replaced, [])
  unfolding advance_csi count_query
  advance_csi_op _ _ s save_cursor priv =
      csi_final_op b's' b'7' (parse_params s.param_str)
        (record s { csi_len = suc s.csi_len; saw_dollar = false }) save_cursor priv
  advance_csi_op _ _ s restore_cursor priv =
      csi_final_op b'u' b'8' (parse_params s.param_str)
        (record s { csi_len = suc s.csi_len; saw_dollar = false }) restore_cursor priv

  spliced :
      (b c : ℕ) (r : List ℕ) (d : List Action) (e : Emulator)
      → CursorOp b c
      → InCsi r d e
      → ((write_byte vt b e).run ≡ r ++ (0x1b ∷ c ∷ [])) × ((write_byte vt b e).done ≡ d)
  unfolding splice
  spliced b c r d e op h =
      rw
        (write_byte_replaced b e (finished c e.scanner)
          (advance_at_csi b e.scanner h.at_csi ∙ advance_csi_op b c e.scanner op h.open_))
        (ap (λ x. x ++ (0x1b ∷ c ∷ [])) kept, h.same)
    where
      cut : length e.run - min (suc e.scanner.csi_len - 1) (length e.run) ≡ length r
      cut =
          let l = ap (length {A = ℕ}) h.runs ∙ length-append {0} r h.pre in omega (arith, h.counts)

      kept : take (length e.run - min (suc e.scanner.csi_len - 1) (length e.run)) e.run ≡ r
      kept = ap (λ n. take n e.run) cut ∙ ap (take (length r)) h.runs ∙ take-append_exact r h.pre

  write_bytes-append :
      (xs ys : List ℕ) (e : Emulator)
      → write_bytes vt (xs ++ ys) e ≡ write_bytes vt ys (write_bytes vt xs e)
  unfolding write_bytes
  write_bytes-append [] ys e = refl
  write_bytes-append (x ∷ xs) ys e = write_bytes-append xs ys (write_byte vt x e)

  abbrev at_esc : Emulator → Emulator
  at_esc e = record e { scanner = record e.scanner { state = gs_esc }; run = e.run ++ (0x1b ∷ []) }

  abbrev opened : Scanner → Scanner
  opened s = record s { state = gs_csi; priv = false; param_str = []; csi_len = 2 }

  advance_escape :
      (s : Scanner)
      → s.state ≡ gs_scan
      → advance vt.rune_width 0x1b s ≡ (record s { state = gs_esc }, gfx_none, [])
  unfolding advance scan_byte
  advance_escape s e = simp (e, advance)

  write_escape : (e : Emulator) → e.scanner.state ≡ gs_scan → write_byte vt 0x1b e ≡ at_esc e
  unfolding buffering_rune
  write_escape e at_rest =
      write_byte_none 0x1b e (record e.scanner { state = gs_esc })
        (advance_escape e.scanner at_rest) refl

  write_bracket :
      (e : Emulator)
      → write_byte vt b'[' (at_esc e)
        ≡ record e { scanner = opened e.scanner; run = (e.run ++ (0x1b ∷ [])) ++ (b'[' ∷ []) }
  unfolding buffering_rune advance advance_esc
  write_bracket e = write_byte_none b'[' (at_esc e) (opened e.scanner) refl refl

  opened-InCsi :
      (e : Emulator)
      → e.scanner.state ≡ gs_scan
      → InCsi e.run e.done (write_bytes vt (0x1b ∷ b'[' ∷ []) e)
  unfolding write_bytes
  opened-InCsi e at_rest =
      rw (ap (write_byte vt b'[') (write_escape e at_rest) ∙ write_bracket e) (record {
        at_csi = refl;
        open_ = refl;
        pre = 0x1b ∷ b'[' ∷ [];
        runs = append_assoc e.run (0x1b ∷ []) (b'[' ∷ []);
        counts = refl;
        same = refl;
      })

  -- CSI s and CSI u, with any parameters and after any output that leaves the scanner at rest, reach
  -- the terminal emulator as ESC 7 and ESC 8: exactly the bytes of the sequence leave the run, and
  -- what was handed on before stays as it was.
  pub write_bytes-spliced :
      (b c : ℕ) (ps : List ℕ) (e : Emulator)
      → CursorOp b c
      → AllParams ps
      → e.scanner.state ≡ gs_scan
      → ((write_bytes vt (0x1b ∷ b'[' ∷ (ps ++ (b ∷ []))) e).run ≡ e.run ++ (0x1b ∷ c ∷ []))
        × ((write_bytes vt (0x1b ∷ b'[' ∷ (ps ++ (b ∷ []))) e).done ≡ e.done)
  unfolding write_bytes
  write_bytes-spliced b c ps e op all at_rest =
      let e1 = write_bytes vt (0x1b ∷ b'[' ∷ []) e in
      rw (write_bytes-append ps (b ∷ []) e1) (
        spliced b c e.run e.done (write_bytes vt ps e1) op
          (params-InCsi ps e.run e.done e1 all (opened-InCsi e at_rest)))
