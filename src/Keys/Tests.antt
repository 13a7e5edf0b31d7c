-- ===== src/Keys/Tests.antt =====
-- cmd/keys.go: the tables and the theorems on concrete keys.
use gossh.Prelude.{ℕ, ◌≡◌, refl, List, [], ◌∷◌, some, decimal}
use gossh.Keys.{
  find_key, csi, modified_key, modifier_code, resolve_modified, resolve_modifier_combo,
}
use gossh.Keys.Combos.{ctrl_key, shift_key, typed, held, combo-held}

abbrev ascii : ℕ → List ℕ
ascii c = c ∷ []

abbrev up_name : List ℕ
up_name = b'u' ∷ b'p' ∷ []

combo-held_example :
    resolve_modifier_combo ascii (typed (shift_key ∷ ctrl_key ∷ shift_key ∷ []) up_name)
    ≡ resolve_modified ascii up_name (held (shift_key ∷ ctrl_key ∷ shift_key ∷ []))
combo-held_example = combo-held ascii up_name refl shift_key (ctrl_key ∷ shift_key ∷ [])

-- Ctrl+Shift+Up is ESC [ 1 ; 6 A.
ctrl_shift_up :
    resolve_modified ascii up_name (held (ctrl_key ∷ shift_key ∷ []))
    ≡ some (0x1b ∷ b'[' ∷ b'1' ∷ b';' ∷ b'6' ∷ b'A' ∷ [])
unfolding resolve_modified modifier_code modified_key find_key csi decimal
ctrl_shift_up = refl
