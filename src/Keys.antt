-- ===== src/Keys.antt =====
-- cmd/keys.go: the names of keys as the bytes that a terminal expects. A name is its list of runes;
-- `strings.ToLower` and the UTF-8 bytes of a rune are parameters.
pub mod Combos
pub mod Tests
use gossh.Prelude.{
  ℕ, suc, ◌+◌, ◌-◌, Bool, true, false, not, ◌&&◌, ◌||◌, List, [], ◌∷◌, ◌++◌, Option, none, some,
  ◌==◌, leb, if◌then◌else◌, bytes_eq, decimal,
}

abbrev pub Table {ℓ} : Type ℓ → Type ℓ
Table V = List (List ℕ × V)

unfoldable pub find_key {ℓ} : {V : Type ℓ} → List ℕ → Table V → Option V
find_key key [] = none
find_key key (e ∷ es) = let later = find_key key es in if bytes_eq e.0 key then some e.1 else later

abbrev pub named_keys : Table (List ℕ)
named_keys =
    (b'e' ∷ b'n' ∷ b't' ∷ b'e' ∷ b'r' ∷ [], 0x0d ∷ [])
    ∷ (b'r' ∷ b'e' ∷ b't' ∷ b'u' ∷ b'r' ∷ b'n' ∷ [], 0x0d ∷ [])
    ∷ (b't' ∷ b'a' ∷ b'b' ∷ [], 0x09 ∷ [])
    ∷ (b'e' ∷ b's' ∷ b'c' ∷ b'a' ∷ b'p' ∷ b'e' ∷ [], 0x1b ∷ [])
    ∷ (b'e' ∷ b's' ∷ b'c' ∷ [], 0x1b ∷ [])
    ∷ (b's' ∷ b'p' ∷ b'a' ∷ b'c' ∷ b'e' ∷ [], b' ' ∷ [])
    ∷ (b'b' ∷ b'a' ∷ b'c' ∷ b'k' ∷ b's' ∷ b'p' ∷ b'a' ∷ b'c' ∷ b'e' ∷ [], 0x7f ∷ [])
    ∷ (b'd' ∷ b'e' ∷ b'l' ∷ b'e' ∷ b't' ∷ b'e' ∷ [], 0x1b ∷ b'[' ∷ b'3' ∷ b'~' ∷ [])
    ∷ (b'd' ∷ b'e' ∷ b'l' ∷ [], 0x1b ∷ b'[' ∷ b'3' ∷ b'~' ∷ [])
    ∷ (b'i' ∷ b'n' ∷ b's' ∷ b'e' ∷ b'r' ∷ b't' ∷ [], 0x1b ∷ b'[' ∷ b'2' ∷ b'~' ∷ [])
    ∷ (b'i' ∷ b'n' ∷ b's' ∷ [], 0x1b ∷ b'[' ∷ b'2' ∷ b'~' ∷ [])
    ∷ (b'u' ∷ b'p' ∷ [], 0x1b ∷ b'O' ∷ b'A' ∷ [])
    ∷ (b'd' ∷ b'o' ∷ b'w' ∷ b'n' ∷ [], 0x1b ∷ b'O' ∷ b'B' ∷ [])
    ∷ (b'r' ∷ b'i' ∷ b'g' ∷ b'h' ∷ b't' ∷ [], 0x1b ∷ b'O' ∷ b'C' ∷ [])
    ∷ (b'l' ∷ b'e' ∷ b'f' ∷ b't' ∷ [], 0x1b ∷ b'O' ∷ b'D' ∷ [])
    ∷ (b'h' ∷ b'o' ∷ b'm' ∷ b'e' ∷ [], 0x1b ∷ b'O' ∷ b'H' ∷ [])
    ∷ (b'e' ∷ b'n' ∷ b'd' ∷ [], 0x1b ∷ b'O' ∷ b'F' ∷ [])
    ∷ (b'p' ∷ b'a' ∷ b'g' ∷ b'e' ∷ b'u' ∷ b'p' ∷ [], 0x1b ∷ b'[' ∷ b'5' ∷ b'~' ∷ [])
    ∷ (b'p' ∷ b'g' ∷ b'u' ∷ b'p' ∷ [], 0x1b ∷ b'[' ∷ b'5' ∷ b'~' ∷ [])
    ∷ (b'p' ∷ b'a' ∷ b'g' ∷ b'e' ∷ b'd' ∷ b'o' ∷ b'w' ∷ b'n' ∷ [], 0x1b ∷ b'[' ∷ b'6' ∷ b'~' ∷ [])
    ∷ (b'p' ∷ b'g' ∷ b'd' ∷ b'n' ∷ [], 0x1b ∷ b'[' ∷ b'6' ∷ b'~' ∷ [])
    ∷ (b'p' ∷ b'g' ∷ b'd' ∷ b'o' ∷ b'w' ∷ b'n' ∷ [], 0x1b ∷ b'[' ∷ b'6' ∷ b'~' ∷ [])
    ∷ (b'f' ∷ b'1' ∷ [], 0x1b ∷ b'O' ∷ b'P' ∷ [])
    ∷ (b'f' ∷ b'2' ∷ [], 0x1b ∷ b'O' ∷ b'Q' ∷ [])
    ∷ (b'f' ∷ b'3' ∷ [], 0x1b ∷ b'O' ∷ b'R' ∷ [])
    ∷ (b'f' ∷ b'4' ∷ [], 0x1b ∷ b'O' ∷ b'S' ∷ [])
    ∷ (b'f' ∷ b'5' ∷ [], 0x1b ∷ b'[' ∷ b'1' ∷ b'5' ∷ b'~' ∷ [])
    ∷ (b'f' ∷ b'6' ∷ [], 0x1b ∷ b'[' ∷ b'1' ∷ b'7' ∷ b'~' ∷ [])
    ∷ (b'f' ∷ b'7' ∷ [], 0x1b ∷ b'[' ∷ b'1' ∷ b'8' ∷ b'~' ∷ [])
    ∷ (b'f' ∷ b'8' ∷ [], 0x1b ∷ b'[' ∷ b'1' ∷ b'9' ∷ b'~' ∷ [])
    ∷ (b'f' ∷ b'9' ∷ [], 0x1b ∷ b'[' ∷ b'2' ∷ b'0' ∷ b'~' ∷ [])
    ∷ (b'f' ∷ b'1' ∷ b'0' ∷ [], 0x1b ∷ b'[' ∷ b'2' ∷ b'1' ∷ b'~' ∷ [])
    ∷ (b'f' ∷ b'1' ∷ b'1' ∷ [], 0x1b ∷ b'[' ∷ b'2' ∷ b'3' ∷ b'~' ∷ [])
    ∷ (b'f' ∷ b'1' ∷ b'2' ∷ [], 0x1b ∷ b'[' ∷ b'2' ∷ b'4' ∷ b'~' ∷ [])
    ∷ []

-- CSI {code};{mod}~
abbrev pub tilde_keys : Table ℕ
tilde_keys =
    (b'i' ∷ b'n' ∷ b's' ∷ b'e' ∷ b'r' ∷ b't' ∷ [], 2)
    ∷ (b'i' ∷ b'n' ∷ b's' ∷ [], 2)
    ∷ (b'd' ∷ b'e' ∷ b'l' ∷ b'e' ∷ b't' ∷ b'e' ∷ [], 3)
    ∷ (b'd' ∷ b'e' ∷ b'l' ∷ [], 3)
    ∷ (b'p' ∷ b'a' ∷ b'g' ∷ b'e' ∷ b'u' ∷ b'p' ∷ [], 5)
    ∷ (b'p' ∷ b'g' ∷ b'u' ∷ b'p' ∷ [], 5)
    ∷ (b'p' ∷ b'a' ∷ b'g' ∷ b'e' ∷ b'd' ∷ b'o' ∷ b'w' ∷ b'n' ∷ [], 6)
    ∷ (b'p' ∷ b'g' ∷ b'd' ∷ b'n' ∷ [], 6)
    ∷ (b'p' ∷ b'g' ∷ b'd' ∷ b'o' ∷ b'w' ∷ b'n' ∷ [], 6)
    ∷ (b'f' ∷ b'5' ∷ [], 15)
    ∷ (b'f' ∷ b'6' ∷ [], 17)
    ∷ (b'f' ∷ b'7' ∷ [], 18)
    ∷ (b'f' ∷ b'8' ∷ [], 19)
    ∷ (b'f' ∷ b'9' ∷ [], 20)
    ∷ (b'f' ∷ b'1' ∷ b'0' ∷ [], 21)
    ∷ (b'f' ∷ b'1' ∷ b'1' ∷ [], 23)
    ∷ (b'f' ∷ b'1' ∷ b'2' ∷ [], 24)
    ∷ []

-- CSI 1;{mod}{final}
abbrev pub nav_final : Table ℕ
nav_final =
    (b'u' ∷ b'p' ∷ [], b'A')
    ∷ (b'd' ∷ b'o' ∷ b'w' ∷ b'n' ∷ [], b'B')
    ∷ (b'r' ∷ b'i' ∷ b'g' ∷ b'h' ∷ b't' ∷ [], b'C')
    ∷ (b'l' ∷ b'e' ∷ b'f' ∷ b't' ∷ [], b'D')
    ∷ (b'h' ∷ b'o' ∷ b'm' ∷ b'e' ∷ [], b'H')
    ∷ (b'e' ∷ b'n' ∷ b'd' ∷ [], b'F')
    ∷ []

-- CSI 1;{mod}{final}
abbrev pub f_key_final : Table ℕ
f_key_final =
    (b'f' ∷ b'1' ∷ [], b'P')
    ∷ (b'f' ∷ b'2' ∷ [], b'Q')
    ∷ (b'f' ∷ b'3' ∷ [], b'R')
    ∷ (b'f' ∷ b'4' ∷ [], b'S')
    ∷ []

pub record Mods : Type 0 where
  pub ctrl : Bool
  pub alt : Bool
  pub shift : Bool

-- The switch over one modifier; `none` is a name that it does not know.
unfoldable pub add_modifier : List ℕ → Mods → Option Mods
add_modifier name m =
    if bytes_eq name (b'c' ∷ b't' ∷ b'r' ∷ b'l' ∷ [])
    then some (record m { ctrl = true })
    else if bytes_eq name (b'a' ∷ b'l' ∷ b't' ∷ [])
        || bytes_eq name (b'm' ∷ b'e' ∷ b't' ∷ b'a' ∷ [])
    then some (record m { alt = true })
    else if bytes_eq name (b's' ∷ b'h' ∷ b'i' ∷ b'f' ∷ b't' ∷ [])
    then some (record m { shift = true })
    else none

unfoldable pub modifier_code : Mods → Option ℕ
modifier_code m =
    if not m.ctrl && not m.alt && m.shift
    then some 2
    else if not m.ctrl && m.alt && not m.shift
    then some 3
    else if not m.ctrl && m.alt && m.shift
    then some 4
    else if m.ctrl && not m.alt && not m.shift
    then some 5
    else if m.ctrl && not m.alt && m.shift
    then some 6
    else if m.ctrl && m.alt && not m.shift
    then some 7
    else if m.ctrl && m.alt && m.shift
    then some 8
    else none

abbrev pub prepend_esc : List ℕ → List ℕ
prepend_esc b = 0x1b ∷ b

unfoldable pub csi : List ℕ → List ℕ → List ℕ
csi params final = 0x1b ∷ b'[' ∷ params ++ final

-- The modified navigation and function keys, at the end of resolveModifierCombo.
unfoldable pub modified_key : List ℕ → ℕ → Option (List ℕ)
unfolding find_key csi decimal
modified_key key param = elim (find_key key nav_final) [
  | some final ↦ some (csi (b'1' ∷ b';' ∷ decimal param) (final ∷ []))
  | none ↦ elim (find_key key tilde_keys) [
    | some code ↦ some (csi (decimal code ++ (b';' ∷ decimal param)) (b'~' ∷ []))
    | none ↦ elim (find_key key f_key_final) [
      | some final ↦ some (csi (b'1' ∷ b';' ∷ decimal param) (final ∷ []))
      | none ↦ none
    ]
  ]
]

abbrev pub is_ctrl_letter : List ℕ → Bool
is_ctrl_letter (c ∷ []) = leb b'a' c && leb c b'z'
is_ctrl_letter _ = false

abbrev pub rune_of : List ℕ → Option ℕ
rune_of (c ∷ []) = some c
rune_of _ = none

module _ (utf8 : ℕ → List ℕ) where
  -- Alt with a key: its own bytes or those of its name, behind an ESC.
  unfoldable pub alt_key : List ℕ → Option (List ℕ)
  unfolding find_key
  alt_key key = elim (rune_of key) [
    | some c ↦ some (prepend_esc (utf8 c))
    | none ↦ elim (find_key key named_keys) [ some b ↦ some (prepend_esc b) | none ↦ none ]
  ]

  abbrev pub by_code : List ℕ → Option ℕ → Option (List ℕ)
  by_code key none = none
  by_code key (some param) = modified_key key param

  -- resolveModifierCombo, once the modifiers are known.
  unfoldable pub resolve_modified : List ℕ → Mods → Option (List ℕ)
  unfolding alt_key modifier_code modified_key
  resolve_modified key m =
      if m.ctrl && not m.alt && not m.shift && is_ctrl_letter key
      then elim (rune_of key) [ some c ↦ some (((c - b'a') + 1) ∷ []) | none ↦ none ]
      else elim (if m.alt && not m.ctrl && not m.shift then alt_key key else none) [
        | some b ↦ some b
        | none ↦
            if m.shift && not m.ctrl && not m.alt && bytes_eq key (b't' ∷ b'a' ∷ b'b' ∷ [])
            then some (0x1b ∷ b'[' ∷ b'Z' ∷ [])
            else by_code key (modifier_code m)
      ]

  -- The parts between the plus signs; all but the last are modifiers.
  unfoldable pub with_parts : List ℕ → List (List ℕ) → Mods → Option (List ℕ)
  unfolding resolve_modified add_modifier
  with_parts part [] m = resolve_modified part m
  with_parts part (next ∷ rest) m = elim (add_modifier part m) [
    | none ↦ none
    | some more ↦ with_parts next rest more
  ]

abbrev pub no_mods : Mods
no_mods = record { ctrl = false; alt = false; shift = false }

-- `strings.Split(lower, "+")`: the first part, and the others.
unfoldable pub split_plus : List ℕ → List ℕ × List (List ℕ)
split_plus [] = ([], [])
split_plus (c ∷ cs) =
    let rest = split_plus cs in if c == b'+' then ([], rest.0 ∷ rest.1) else (c ∷ rest.0, rest.1)

abbrev pub combo_of : (ℕ → List ℕ) → List ℕ × List (List ℕ) → Option (List ℕ)
combo_of utf8 (part, []) = none
combo_of utf8 (part, next ∷ rest) = with_parts utf8 part (next ∷ rest) no_mods

unfoldable pub resolve_modifier_combo : (ℕ → List ℕ) → List ℕ → Option (List ℕ)
unfolding split_plus with_parts
resolve_modifier_combo utf8 lower = combo_of utf8 (split_plus lower)

unfoldable pub resolve_key : (List ℕ → List ℕ) → (ℕ → List ℕ) → List ℕ → Option (List ℕ)
unfolding resolve_modifier_combo find_key
resolve_key to_lower utf8 name = elim (resolve_modifier_combo utf8 (to_lower name)) [
  | some b ↦ some b
  | none ↦ elim (find_key (to_lower name) named_keys) [
    | some b ↦ some b
    | none ↦ elim (rune_of name) [ some c ↦ some (utf8 c) | none ↦ none ]
  ]
]

unfoldable pub resolve_keys : (List ℕ → List ℕ) → (ℕ → List ℕ) → List (List ℕ) → Option (List ℕ)
unfolding resolve_key
resolve_keys to_lower utf8 [] = some []
resolve_keys to_lower utf8 (n ∷ ns) =
    let later = resolve_keys to_lower utf8 ns in
    elim (resolve_key to_lower utf8 n) [
      | none ↦ none
      | some b ↦ elim later [ none ↦ none | some bs ↦ some (b ++ bs) ]
    ]
