-- ===== src/Router/Channels.antt =====
-- internal/api/ws_handler.go: the map `chans` from session ids to channels.
use gossh.Prelude.{
  ℕ, ◌≡◌, ◌≢◌, ◌↔◌, refl, sym, ◌∙◌, ◌⊎◌, inl, inr, Bool, true, false, List, [], ◌∷◌, Option, none,
  some, if◌then◌else◌, bytes_eq, bytes_eq_self, bytes_eq→≡, bytes_eq_ne, arith, Bool-cases,
  some_same, none-some,
}

abbrev pub Chans : Type 0
Chans = List (List ℕ × ℕ)

unfoldable pub find : List ℕ → Chans → Option ℕ
find sid [] = none
find sid (c ∷ cs) = let later = find sid cs in if bytes_eq c.0 sid then some c.1 else later

unfoldable pub put : List ℕ → ℕ → Chans → Chans
put sid h [] = (sid, h) ∷ []
put sid h (c ∷ cs) =
    let later = put sid h cs in if bytes_eq c.0 sid then (sid, h) ∷ cs else c ∷ later

unfoldable pub forget : List ℕ → Chans → Chans
forget sid [] = []
forget sid (c ∷ cs) = let later = forget sid cs in if bytes_eq c.0 sid then later else c ∷ later

bytes_eq_iff : (xs ys : List ℕ) → (bytes_eq xs ys ≡ true) ↔ (xs ≡ ys)
bytes_eq_iff xs ys = (bytes_eq→≡ xs ys, λ e. rw (sym e) (bytes_eq_self xs))

pub bytes_eq-cases : (xs ys : List ℕ) → (xs ≡ ys) ⊎ (xs ≢ ys)
bytes_eq-cases xs ys = elim (Bool-cases (bytes_eq xs ys)) [
  | inl e ↦ inl (bytes_eq→≡ xs ys e)
  | inr e ↦ inr (λ q. absurd (differ e (rw q (bytes_eq_self ys))))
]
  where
    differ : {x : Bool} → x ≡ false → x ≡ true → ⊥
    differ p q = cc

pub bytes_eq_apart : (xs ys : List ℕ) → bytes_eq xs ys ≡ false → xs ≢ ys
bytes_eq_apart xs ys e q = differ e (rw q (bytes_eq_self ys))
  where
    differ : {x : Bool} → x ≡ false → x ≡ true → ⊥
    differ p r = cc

pub find-put :
    (sid other : List ℕ) (h : ℕ) (cs : Chans)
    → find other (put sid h cs) ≡ (if bytes_eq sid other then some h else find other cs)
unfolding find put
find-put sid other h [] = refl
find-put sid other h (c ∷ cs) = ground (
  arith,
  bytes_eq_iff c.0 sid,
  bytes_eq_iff c.0 other,
  bytes_eq_iff sid other,
  find-put sid other h cs,
)

pub find-forget :
    (sid other : List ℕ) (cs : Chans)
    → find other (forget sid cs) ≡ (if bytes_eq sid other then none else find other cs)
unfolding find forget
find-forget sid other [] = ground arith
find-forget sid other (c ∷ cs) = ground (
  arith,
  bytes_eq_iff c.0 sid,
  bytes_eq_iff c.0 other,
  bytes_eq_iff sid other,
  find-forget sid other cs,
)

-- What is found after a put or a removal.
pub put_found :
    (sid other : List ℕ) (h k : ℕ) (cs : Chans)
    → find other (put sid h cs) ≡ some k
    → ((sid ≡ other) × (h ≡ k)) ⊎ (find other cs ≡ some k)
put_found sid other h k cs e = elim (Bool-cases (bytes_eq sid other)) [
  | inl same ↦
      inl (bytes_eq→≡ sid other same, some_same (sym (find-put sid other h cs ∙ rw same refl) ∙ e))
  | inr differs ↦ inr (sym (find-put sid other h cs ∙ rw differs refl) ∙ e)
]

pub forget_found :
    (sid other : List ℕ) (k : ℕ) (cs : Chans)
    → find other (forget sid cs) ≡ some k
    → (sid ≢ other) × (find other cs ≡ some k)
forget_found sid other k cs e = elim (bytes_eq-cases sid other) [
  | inl same ↦
      absurd (none-some (sym (find-forget sid other cs ∙ rw (same, bytes_eq_self other) refl) ∙ e))
  | inr differs ↦
      (differs, sym (find-forget sid other cs ∙ rw (bytes_eq_ne sid other differs) refl) ∙ e)
]

pub forget_other :
    (sid other : List ℕ) (cs : Chans) → sid ≢ other → find other (forget sid cs) ≡ find other cs
forget_other sid other cs ne = find-forget sid other cs ∙ rw (bytes_eq_ne sid other ne) refl

pub put_other :
    (sid other : List ℕ) (h : ℕ) (cs : Chans)
    → sid ≢ other
    → find other (put sid h cs) ≡ find other cs
put_other sid other h cs ne = find-put sid other h cs ∙ rw (bytes_eq_ne sid other ne) refl
