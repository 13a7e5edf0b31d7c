-- ===== src/Keys/Combos.antt =====
-- cmd/keys.go: combinations of modifiers with a key, as a user writes them.
use gossh.Prelude.{
  ℕ, ◌+◌, ◌≡◌, refl, ap, ◌∙◌, Bool, true, false, ◌||◌, List, [], ◌∷◌, ◌++◌, some, ◌==◌, arith,
}
use gossh.Keys.{
  Mods, no_mods, add_modifier, modifier_code, resolve_modified, with_parts, split_plus, combo_of,
  resolve_modifier_combo,
}

-- A modifier, and its name.
pub data Modifier : Type 0 where
  ctrl_key alt_key meta_key shift_key : Modifier

abbrev pub name_of : Modifier → List ℕ
name_of ctrl_key = b'c' ∷ b't' ∷ b'r' ∷ b'l' ∷ []
name_of alt_key = b'a' ∷ b'l' ∷ b't' ∷ []
name_of meta_key = b'm' ∷ b'e' ∷ b't' ∷ b'a' ∷ []
name_of shift_key = b's' ∷ b'h' ∷ b'i' ∷ b'f' ∷ b't' ∷ []

abbrev pub is_ctrl : Modifier → Bool
is_ctrl ctrl_key = true
is_ctrl _ = false

abbrev pub is_alt : Modifier → Bool
is_alt alt_key = true
is_alt meta_key = true
is_alt _ = false

abbrev pub is_shift : Modifier → Bool
is_shift shift_key = true
is_shift _ = false

abbrev pub any_of : (Modifier → Bool) → List Modifier → Bool
any_of p [] = false
any_of p (m ∷ ms) = p m || any_of p ms

-- What is held, whatever the order.
abbrev pub held : List Modifier → Mods
held ms = record { ctrl = any_of is_ctrl ms; alt = any_of is_alt ms; shift = any_of is_shift ms }

-- The combination as a user types it, modifiers first.
abbrev pub typed : List Modifier → List ℕ → List ℕ
typed [] key = key
typed (m ∷ ms) key = name_of m ++ (b'+' ∷ typed ms key)

abbrev pub has_plus : List ℕ → Bool
has_plus [] = false
has_plus (c ∷ cs) = (c == b'+') || has_plus cs

split_plus-part :
    (part rest : List ℕ)
    → has_plus part ≡ false
    → split_plus (part ++ (b'+' ∷ rest)) ≡ (part, (split_plus rest).0 ∷ (split_plus rest).1)
unfolding split_plus
split_plus-part [] rest h = refl
split_plus-part (c ∷ cs) rest h = rw (split_plus-part cs rest (ground arith), not_plus) refl
  where
    not_plus : (c == b'+') ≡ false
    not_plus = ground arith

split_plus-key : (key : List ℕ) → has_plus key ≡ false → split_plus key ≡ (key, [])
unfolding split_plus
split_plus-key [] h = refl
split_plus-key (c ∷ cs) h = rw (split_plus-key cs (ground arith), not_plus) refl
  where
    not_plus : (c == b'+') ≡ false
    not_plus = ground arith

name-plain : (m : Modifier) → has_plus (name_of m) ≡ false
name-plain ctrl_key = refl
name-plain alt_key = refl
name-plain meta_key = refl
name-plain shift_key = refl

-- The flags after a modifier.
abbrev adds_to : Modifier → Mods → Mods
adds_to m s = record {
  ctrl = is_ctrl m || s.ctrl;
  alt = is_alt m || s.alt;
  shift = is_shift m || s.shift;
}

abbrev adds_all : List Modifier → Mods → Mods
adds_all [] s = s
adds_all (m ∷ ms) s = adds_all ms (adds_to m s)

add_modifier-name : (m : Modifier) (s : Mods) → add_modifier (name_of m) s ≡ some (adds_to m s)
unfolding add_modifier
add_modifier-name ctrl_key s = refl
add_modifier-name alt_key s = refl
add_modifier-name meta_key s = refl
add_modifier-name shift_key s = refl

or_swap : (a b c : Bool) → (a || (b || c)) ≡ ((b || a) || c)
or_swap true true c = refl
or_swap true false c = refl
or_swap false true c = refl
or_swap false false c = refl

mods_eq :
    {a b c x y z : Bool}
    → a ≡ x
    → b ≡ y
    → c ≡ z
    → ◌≡◌ {A = Mods}
        (record { ctrl = a; alt = b; shift = c })
        (record { ctrl = x; alt = y; shift = z })
mods_eq p q r = rw (p, q, r) refl

adds_all-held :
    (ms : List Modifier) (s : Mods)
    → adds_all ms s ≡ record {
      ctrl = any_of is_ctrl ms || s.ctrl;
      alt = any_of is_alt ms || s.alt;
      shift = any_of is_shift ms || s.shift;
    }
adds_all-held [] s = refl
adds_all-held (m ∷ ms) s =
    adds_all-held ms (adds_to m s)
    ∙ mods_eq (or_swap (any_of is_ctrl ms) (is_ctrl m) s.ctrl)
        (or_swap (any_of is_alt ms) (is_alt m) s.alt)
        (or_swap (any_of is_shift ms) (is_shift m) s.shift)

or_false : (b : Bool) → (b || false) ≡ b
or_false true = refl
or_false false = refl

adds_all-no_mods : (ms : List Modifier) → adds_all ms no_mods ≡ held ms
adds_all-no_mods ms =
    adds_all-held ms no_mods
    ∙ mods_eq (or_false (any_of is_ctrl ms)) (or_false (any_of is_alt ms))
        (or_false (any_of is_shift ms))

module _ (utf8 : ℕ → List ℕ) (key : List ℕ) (plain : has_plus key ≡ false) where
  parts_step :
      (m : Modifier) (rest : List ℕ) (s : Mods)
      → with_parts utf8
          (split_plus (name_of m ++ (b'+' ∷ rest))).0
          (split_plus (name_of m ++ (b'+' ∷ rest))).1
          s
        ≡ with_parts utf8 (split_plus rest).0 (split_plus rest).1 (adds_to m s)
  unfolding with_parts
  parts_step m rest s =
      rw (split_plus-part (name_of m) rest (name-plain m), with_parts, add_modifier-name m s) refl

  with_parts-typed :
      (ms : List Modifier) (s : Mods)
      → with_parts utf8 (split_plus (typed ms key)).0 (split_plus (typed ms key)).1 s
        ≡ resolve_modified utf8 key (adds_all ms s)
  unfolding with_parts
  with_parts-typed [] s = rw (split_plus-key key plain) refl
  with_parts-typed (m ∷ ms) s = parts_step m (typed ms key) s ∙ with_parts-typed ms (adds_to m s)

  -- Any modifiers, in any order and any number of times, joined by plus signs to a key without one: the
  -- combination is taken apart into them again, and stands for the key with those that are held.
  pub combo-held :
      (m : Modifier) (ms : List Modifier)
      → resolve_modifier_combo utf8 (typed (m ∷ ms) key) ≡ resolve_modified utf8 key (held (m ∷ ms))
  unfolding resolve_modifier_combo
  combo-held m ms =
      ap (combo_of utf8) (split_plus-part (name_of m) (typed ms key) (name-plain m))
      ∙ first_step
      ∙ with_parts-typed ms (adds_to m no_mods)
      ∙ ap (resolve_modified utf8 key) (adds_all-no_mods (m ∷ ms))
    where
      first_step :
          combo_of utf8 (name_of m, (split_plus (typed ms key)).0 ∷ (split_plus (typed ms key)).1)
          ≡ with_parts utf8
              (split_plus (typed ms key)).0
              (split_plus (typed ms key)).1
              (adds_to m no_mods)
      first_step = rw (with_parts, add_modifier-name m no_mods) refl

-- The code of the modifiers is one more than the sum of 1 for shift, 2 for alt and 4 for ctrl.
abbrev pub weight : Bool → ℕ → ℕ
weight true n = n
weight false n = 0

pub modifier_code_sum :
    (m : Mods)
    → (m.ctrl || m.alt || m.shift) ≡ true
    → modifier_code m ≡ some (1 + weight m.shift 1 + weight m.alt 2 + weight m.ctrl 4)
unfolding modifier_code
modifier_code_sum m some_held = ground arith
