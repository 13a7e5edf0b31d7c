-- ===== src/Capture/Scanner.antt =====
-- internal/capture/emulator.go: gfxScanner, one byte at a time.
pub mod Bounds
use gossh.Prelude.{
  ℕ, suc, ◌+◌, ◌*◌, ◌-◌, ◌^◌, min, Bool, true, false, List, [], ◌∷◌, ◌++◌, Option, none, some, ltb,
  leb, ◌==◌, ◌&&◌, ◌||◌, not, if◌then◌else◌, length, concat, replicate,
}
use gossh.Capture.{
  GfxEvt, gfx_none, gfx_rune, gfx_osc_payload, gfx_dcs_payload, gfx_apc_payload, gfx_csi_replaced,
  GfxScanState, gs_scan, gs_esc, gs_csi, gs_utf8, gs_osc, gs_osc_end, gs_dcs, gs_dcs_end, gs_apc,
  gs_apc_end,
}

abbrev pub gfx_buf_limit : ℕ
gfx_buf_limit = 16 * 2 ^ 20

abbrev pub rep_max : ℕ
rep_max = 4096

pub record Scanner : Type 0 where
  pub state : GfxScanState
  pub buf : List ℕ
  pub full : Bool
  pub priv : Bool
  pub param_str : List ℕ
  pub csi_len : ℕ
  pub utf8_buf : List ℕ
  pub utf8_need : ℕ
  pub w : ℕ
  pub rune_buf : List ℕ
  pub insert_mode : Bool
  pub last_rune : List ℕ
  pub query_hits : ℕ
  pub saw_dollar : Bool
  pub payload : List ℕ
  pub replacement : List ℕ

-- The calls of onMode and onRIS.
pub data Report : Type 0 where
  mode : Bool → List ℕ → Bool → Report
  ris : Report

abbrev pub Outcome : Type 0
Outcome = Scanner × GfxEvt × List Report

unfoldable pub initial : Scanner
initial = record {
  state = gs_scan;
  buf = [];
  full = false;
  priv = false;
  param_str = [];
  csi_len = 0;
  utf8_buf = [];
  utf8_need = 0;
  w = 0;
  rune_buf = [];
  insert_mode = false;
  last_rune = [];
  query_hits = 0;
  saw_dollar = false;
  payload = [];
  replacement = [];
}

-- reset keeps only the callbacks.
unfoldable pub reset : Scanner → Scanner
unfolding initial
reset s = initial

unfoldable pub start_payload : GfxScanState → Scanner → Scanner
start_payload to s = record s { state = to; buf = []; full = false }

unfoldable pub append_payload : ℕ → Scanner → Scanner
append_payload b s =
    if s.full
    then s
    else if leb gfx_buf_limit (length s.buf)
    then record s { full = true; buf = [] }
    else record s { buf = s.buf ++ (b ∷ []) }

unfoldable pub buffering_rune : Scanner → Bool
buffering_rune s = elim s.state [
  | gs_scan ↦ false
  | gs_esc ↦ false
  | gs_csi ↦ false
  | gs_utf8 ↦ true
  | gs_osc ↦ false
  | gs_osc_end ↦ false
  | gs_dcs ↦ false
  | gs_dcs_end ↦ false
  | gs_apc ↦ false
  | gs_apc_end ↦ false
]

abbrev pub is_digit : ℕ → Bool
is_digit b = leb b'0' b && leb b b'9'

-- The digits at the front, counted, and what follows them.
abbrev pub skip_digits : List ℕ → ℕ × List ℕ
skip_digits [] = (0, [])
skip_digits (b ∷ bs) =
    let (n, rest) = skip_digits bs in if is_digit b then (suc n, rest) else (0, b ∷ bs)

abbrev pub starts_with : ℕ → List ℕ → Bool
starts_with x [] = false
starts_with x (b ∷ bs) = b == x

abbrev pub skip_one : ℕ → List ℕ → List ℕ
skip_one x [] = []
skip_one x (b ∷ bs) = if b == x then bs else b ∷ bs

unfoldable pub is_osc_query : List ℕ → Bool
is_osc_query p =
    let (n, rest) = skip_digits p in
    if ltb (length p) 2 || not (starts_with b'1' p)
    then false
    else if (ltb n 1 || ltb 2 n) || length rest == 0
    then false
    else starts_with b'?' (skip_one b';' rest)

unfoldable pub count_osc_query : Scanner → Scanner
unfolding is_osc_query
count_osc_query s = if is_osc_query s.payload then record s { query_hits = suc s.query_hits } else s

abbrev pub utf8_length : ℕ → ℕ
utf8_length b = if leb b 0xdf then 2 else if leb b 0xef then 3 else 4

unfoldable pub scan_byte : ℕ → Scanner → Scanner × GfxEvt
scan_byte b s =
    if b == 0x1b
    then (record s { state = gs_esc }, gfx_none)
    else if ltb b 0x80
    then (record s { w = 1; rune_buf = b ∷ []; last_rune = b ∷ [] }, gfx_rune)
    else if leb 0xc2 b && leb b 0xf4
    then (record s { state = gs_utf8; utf8_buf = b ∷ []; utf8_need = utf8_length b }, gfx_none)
    else (s, gfx_none)

-- The value of a segment of digits; strconv.Atoi refuses what an int64 cannot hold, and an empty or
-- refused segment is 0.
abbrev pub digits_value : ℕ → List ℕ → ℕ
digits_value n [] = n
digits_value n (d ∷ ds) = digits_value (10 * n + (d - b'0')) ds

unfoldable pub segment_value : List ℕ → ℕ
segment_value ds = if ltb (digits_value 0 ds) (2 ^ 63) then digits_value 0 ds else 0

-- parseParams, with the segment read so far.
abbrev pub params_from : List ℕ → List ℕ → List ℕ
params_from segment [] = segment_value segment ∷ []
params_from segment (b ∷ bs) =
    let next = params_from [] bs in
    let more = params_from (segment ++ (b ∷ [])) bs in
    if b == b';' || b == b':' then segment_value segment ∷ next else more

unfoldable pub parse_params : List ℕ → List ℕ
unfolding segment_value
parse_params bs = params_from [] bs

abbrev pub has_param : ℕ → List ℕ → Bool
has_param x [] = false
has_param x (p ∷ ps) = p == x || has_param x ps

-- How often CSI b repeats.
unfoldable pub repetitions : List ℕ → ℕ
repetitions [] = 1
repetitions (p ∷ ps) = min rep_max (if p == 0 then 1 else p)

-- The final byte of a CSI sequence, after the queries are counted.
unfoldable pub csi_final : ℕ → List ℕ → Scanner → Outcome
unfolding repetitions
csi_final b params s =
    let done = record s { state = gs_scan } in
    if b == b'h' || b == b'l'
    then (
      if not s.priv && has_param 4 params then record done { insert_mode = b == b'h' } else done,
      gfx_none,
      mode s.priv params (b == b'h') ∷ [],
    )
    else if b == b's' && not s.priv
    then (record done { replacement = 0x1b ∷ b'7' ∷ [] }, gfx_csi_replaced, [])
    else if b == b'u' && not s.priv
    then (record done { replacement = 0x1b ∷ b'8' ∷ [] }, gfx_csi_replaced, [])
    else if b == b'b'
    then (
      if ltb 0 (length s.last_rune)
          then record done { replacement = concat (replicate (repetitions params) s.last_rune) }
          else done,
      gfx_csi_replaced,
      [],
    )
    else (done, gfx_none, [])

unfoldable pub count_query : ℕ → Scanner → Scanner
count_query b s =
    if (b == b'n' || b == b'c') || (b == b'p' && s.saw_dollar)
    then record s { query_hits = suc s.query_hits; saw_dollar = false }
    else record s { saw_dollar = false }

unfoldable pub advance_csi : ℕ → Scanner → Outcome
unfolding count_query csi_final parse_params
advance_csi b s0 =
    let s = record s0 { csi_len = suc s0.csi_len } in
    if b == b'?'
    then (record s { priv = true }, gfx_none, [])
    else if is_digit b || (b == b';' || b == b':')
    then (record s { param_str = s.param_str ++ (b ∷ []) }, gfx_none, [])
    else if leb 0x20 b && leb b 0x3e
    then (if b == b'$' then record s { saw_dollar = true } else s, gfx_none, [])
    else if leb 0x40 b && leb b 0x7e
    then csi_final b (parse_params s.param_str) (count_query b s)
    else (s, gfx_none, [])

unfoldable pub advance_esc : ℕ → Scanner → Outcome
unfolding start_payload reset
advance_esc b s =
    if b == b'['
    then (record s { state = gs_csi; priv = false; param_str = []; csi_len = 2 }, gfx_none, [])
    else if b == b']'
    then (start_payload gs_osc s, gfx_none, [])
    else if b == b'P'
    then (start_payload gs_dcs s, gfx_none, [])
    else if b == b'_'
    then (start_payload gs_apc s, gfx_none, [])
    else if b == b'c'
    then (reset s, gfx_none, ris ∷ [])
    else (record s { state = gs_scan }, gfx_none, [])

unfoldable pub take_payload : Scanner → Scanner
take_payload s = record s { state = gs_scan; payload = s.buf; buf = []; full = false }

-- A byte of a payload; `to` is the state after an ESC.
unfoldable pub collect : ℕ → GfxScanState → Scanner → Outcome
unfolding append_payload
collect b to s =
    if b == 0x1b
    then (record s { state = to }, gfx_none, [])
    else (append_payload b s, gfx_none, [])

unfoldable pub is_continuation_byte : ℕ → Bool
is_continuation_byte b = leb 0x80 b && leb b 0xbf

-- A byte of a multi-byte rune; `rune_width` decodes the rune and measures it.
unfoldable pub advance_utf8 : (List ℕ → ℕ) → ℕ → Scanner → Outcome
unfolding scan_byte is_continuation_byte
advance_utf8 rune_width b s =
    let (s', e) = scan_byte b (record s { state = gs_scan; utf8_buf = []; utf8_need = 0 }) in
    let got = s.utf8_buf ++ (b ∷ []) in
    if not (is_continuation_byte b)
    then (s', e, [])
    else if length got == s.utf8_need
    then (
      record s {
        state = gs_scan;
        utf8_buf = [];
        utf8_need = 0;
        w = rune_width got;
        rune_buf = got;
        last_rune = got;
      },
      gfx_rune,
      [],
    )
    else (record s { utf8_buf = got }, gfx_none, [])

-- The byte after an ESC in a payload: it ends the payload if it is a backslash.
unfoldable pub end_payload : ℕ → GfxScanState → GfxEvt → Scanner → Outcome
unfolding take_payload
end_payload b back e s =
    if b == 0x5c then (take_payload s, e, []) else (record s { state = back }, gfx_none, [])

unfoldable pub counted : Outcome → Outcome
unfolding count_osc_query
counted (s, gfx_osc_payload, r) = (count_osc_query s, gfx_osc_payload, r)
counted o = o

unfoldable pub advance : (List ℕ → ℕ) → ℕ → Scanner → Outcome
unfolding scan_byte advance_utf8 advance_esc advance_csi collect take_payload end_payload counted
advance rune_width b s = elim s.state [
  | gs_scan ↦ let (s', e) = scan_byte b s in (s', e, [])
  | gs_utf8 ↦ advance_utf8 rune_width b s
  | gs_esc ↦ advance_esc b s
  | gs_csi ↦ advance_csi b s
  | gs_osc ↦
      if b == 0x07 then counted (take_payload s, gfx_osc_payload, []) else collect b gs_osc_end s
  | gs_osc_end ↦ counted (end_payload b gs_osc gfx_osc_payload s)
  | gs_dcs ↦ collect b gs_dcs_end s
  | gs_dcs_end ↦ end_payload b gs_dcs gfx_dcs_payload s
  | gs_apc ↦ collect b gs_apc_end s
  | gs_apc_end ↦ end_payload b gs_apc gfx_apc_payload s
]
