-- ===== src/Prelude/Maps.antt =====
-- Go maps with string keys, as association lists: an insert replaces or appends, so a key stands at
-- most once, and the order of the list is one of the orders in which Go may range over the map.
use Prim.Native.String.{String}
use mathlib.Core.Path.{◌≡◌, refl, sym, ap, ◌∙◌}
use mathlib.Core.Bool.{Bool, true, false}
use mathlib.Core.Logic.{◌≢◌, ◌⊎◌, inl, inr}
use mathlib.Core.Option.{Option, none, some}
use mathlib.Core.List.{List, [], ◌∷◌}
use native.Mathlib.Omega.{arith}
use text.Mathlib.Text.{◌==◌ as str_eq}
use text.Mathlib.TextEquality.{eq_iff}
use text.Mathlib.TextPositions.{eq_refl}
use gossh.Prelude.Tests.{Bool-cases, if◌then◌else◌}

-- Equality of Go strings.
infix 50 ◌=s◌
abbrev pub ◌=s◌ : String → String → Bool
a =s b = str_eq a b

pub =s_self : (a : String) → (a =s a) ≡ true
=s_self a = eq_refl a

pub =s→≡ : (a b : String) → (a =s b) ≡ true → a ≡ b
=s→≡ a b h = ground (arith, eq_iff a b)

pub =s_ne : (a b : String) → a ≢ b → (a =s b) ≡ false
=s_ne a b h = ground (arith, eq_iff a b)

pub =s-cases : (a b : String) → (a ≡ b) ⊎ (a ≢ b)
=s-cases a b = elim (Bool-cases (a =s b)) [
  | inl e ↦ inl (=s→≡ a b e)
  | inr e ↦ inr (λ q. absurd (differ e (rw q (=s_self b))))
]
  where
    differ : {x : Bool} → x ≡ false → x ≡ true → ⊥
    differ p q = cc

pub some_same {ℓ} : {A : Type ℓ} {a b : A} → some a ≡ some b → a ≡ b
some_same q = cc

pub none-some {ℓ} : {A : Type ℓ} {a : A} → none ≡ some a → ⊥
none-some q = cc

abbrev pub GoMap {ℓ} : Type ℓ → Type ℓ
GoMap V = List (String × V)

module _ {ℓ} {V : Type ℓ} where
  unfoldable pub insert : String → V → GoMap V → GoMap V
  insert key value [] = (key, value) ∷ []
  insert key value (entry ∷ rest) =
      let later = insert key value rest in
      if entry.0 =s key then (key, value) ∷ rest else entry ∷ later

  unfoldable pub delete : String → GoMap V → GoMap V
  delete key [] = []
  delete key (entry ∷ rest) =
      let later = delete key rest in if entry.0 =s key then later else entry ∷ later

  unfoldable pub lookup : String → GoMap V → Option V
  lookup key [] = none
  lookup key (entry ∷ rest) =
      let later = lookup key rest in if entry.0 =s key then some entry.1 else later

  pub lookup-delete :
      (key other : String) (entries : GoMap V)
      → lookup other (delete key entries) ≡ (if key =s other then none else lookup other entries)
  unfolding lookup delete
  lookup-delete key other [] = ground arith
  lookup-delete key other (e ∷ rest) =
      ground
        (arith, eq_iff e.0 key, eq_iff e.0 other, eq_iff key other, lookup-delete key other rest)

  pub lookup-insert :
      (key other : String) (value : V) (entries : GoMap V)
      → lookup other (insert key value entries)
        ≡ (if key =s other then some value else lookup other entries)
  unfolding insert lookup
  lookup-insert key other value [] = refl
  lookup-insert key other value (e ∷ rest) = ground (
    arith,
    eq_iff e.0 key,
    eq_iff e.0 other,
    eq_iff key other,
    lookup-insert key other value rest,
  )

  pub insert_here : (k : String) (v : V) (m : GoMap V) → lookup k (insert k v m) ≡ some v
  insert_here k v m = lookup-insert k k v m ∙ rw (=s_self k) refl

  pub insert_other :
      (k j : String) (v : V) (m : GoMap V) → k ≢ j → lookup j (insert k v m) ≡ lookup j m
  insert_other k j v m ne = lookup-insert k j v m ∙ rw (=s_ne k j ne) refl

  pub delete_here : (k : String) (m : GoMap V) → lookup k (delete k m) ≡ none
  delete_here k m = lookup-delete k k m ∙ rw (=s_self k) refl

  pub delete_other : (k j : String) (m : GoMap V) → k ≢ j → lookup j (delete k m) ≡ lookup j m
  delete_other k j m ne = lookup-delete k j m ∙ rw (=s_ne k j ne) refl

  -- What a lookup after an insert or a delete has found.
  pub insert_found :
      (k j : String) (v : V) (m : GoMap V) {w : V}
      → lookup j (insert k v m) ≡ some w
      → ((k ≡ j) × (v ≡ w)) ⊎ ((k ≢ j) × (lookup j m ≡ some w))
  insert_found k j v m e = elim (=s-cases k j) [
    | inl same ↦
        inl (same, some_same (sym (insert_here k v m) ∙ ap (λ i. lookup i (insert k v m)) same ∙ e))
    | inr other ↦ inr (other, sym (insert_other k j v m other) ∙ e)
  ]

  pub delete_found :
      (k j : String) (m : GoMap V) {w : V}
      → lookup j (delete k m) ≡ some w
      → (k ≢ j) × (lookup j m ≡ some w)
  delete_found k j m e = elim (=s-cases k j) [
    | inl same ↦
        absurd (none-some (sym (delete_here k m) ∙ ap (λ i. lookup i (delete k m)) same ∙ e))
    | inr other ↦ (other, sym (delete_other k j m other) ∙ e)
  ]
