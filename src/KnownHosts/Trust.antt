-- ===== src/KnownHosts/Trust.antt =====
-- internal/sshx/knownhosts.go: what a check and a pin do to an address.
use gossh.Prelude.{
  ℕ, ◌≡◌, refl, ap, ◌∙◌, ◌⊎◌, inl, inr, Bool, true, false, String, none, some, ◌=s◌, ◌&&◌, lookup,
  insert, insert_here, bytes_eq, Bool-cases, =s_self, bytes_eq_self, arith,
}
use gossh.KnownHosts.{
  PublicKey, HostPin, KnownHosts, get, save, save_failed, pin, pin_of, matches, callback, check,
  accepted, refused, unpinned, host_key_mismatch,
}

-- The address is pinned to the key.
abbrev pub PinnedTo : String → PublicKey → KnownHosts → Type 0
PinnedTo addr key k =
    (p : HostPin) × (lookup addr k.pins ≡ some p)
    × (p.key_type ≡ key.key_type)
    × (p.key_blob ≡ key.key_blob)

pub save-pins : (saved : Bool) (k : KnownHosts) → (save saved k).0.pins ≡ k.pins
unfolding save
save-pins saved k = ground arith

pub check_known :
    (addr : String) (key : PublicKey) (k : KnownHosts) (p : HostPin)
    → lookup addr k.pins ≡ some p
    → ((matches p key ≡ true) × (check addr key k ≡ accepted))
      ⊎ ((matches p key ≡ false) × (check addr key k ≡ refused (host_key_mismatch addr p key)))
unfolding check get
check_known addr key k p found = elim (Bool-cases (matches p key)) [
  | inl same ↦ inl (same, rw (check, found, same) refl)
  | inr other ↦ inr (other, rw (check, found, other) refl)
]

pub check_new :
    (addr : String) (key : PublicKey) (k : KnownHosts)
    → lookup addr k.pins ≡ none
    → check addr key k ≡ unpinned
unfolding check get
check_new addr key k none_ = rw (check, none_) refl

callback_known :
    (saved : Bool) (now : ℕ) (addr : String) (key : PublicKey) (k : KnownHosts) (p : HostPin)
    → lookup addr k.pins ≡ some p
    → ((matches p key ≡ true) × (callback saved now addr key k ≡ (k, none)))
      ⊎ ((matches p key ≡ false)
          × (callback saved now addr key k ≡ (k, some (host_key_mismatch addr p key))))
unfolding callback
callback_known saved now addr key k p found = elim (check_known addr key k p found) [
  | inl (same, e) ↦ inl (same, rw (callback, e) refl)
  | inr (other, e) ↦ inr (other, rw (callback, e) refl)
]

callback_new :
    (saved : Bool) (now : ℕ) (addr : String) (key : PublicKey) (k : KnownHosts)
    → lookup addr k.pins ≡ none
    → callback saved now addr key k ≡ pin saved now addr key k
unfolding callback
callback_new saved now addr key k none_ = rw (callback, check_new addr key k none_) refl

pub pin-pins :
    (saved : Bool) (now : ℕ) (addr : String) (key : PublicKey) (k : KnownHosts)
    → (pin saved now addr key k).0.pins ≡ insert addr (pin_of now key) k.pins
unfolding pin
pin-pins saved now addr key k =
    save-pins saved (record k { pins = insert addr (pin_of now key) k.pins })

pub pin-PinnedTo :
    (saved : Bool) (now : ℕ) (addr : String) (key : PublicKey) (k : KnownHosts)
    → PinnedTo addr key (pin saved now addr key k).0
pin-PinnedTo saved now addr key k = (
  pin_of now key,
  ap (lookup addr) (pin-pins saved now addr key k) ∙ insert_here addr (pin_of now key) k.pins,
  refl,
  refl,
)

-- A first connection whose pin cannot be saved is refused, yet the key is trusted from then on: the
-- next connection with it is accepted.
pub refused_then_trusted :
    (saved : Bool) (now now' : ℕ) (addr : String) (key : PublicKey) (k : KnownHosts)
    → lookup addr k.pins ≡ none
    → (callback false now addr key k).1 ≡ some save_failed
    → (callback saved now' addr key (callback false now addr key k).0).1 ≡ none
refused_then_trusted saved now now' addr key k fresh failed =
    let (p, found, same_type, same_blob) = pin-PinnedTo false now addr key k in
    let k' = (callback false now addr key k).0 in
    let known : lookup addr k'.pins ≡ some p =
      ap (λ r. lookup addr r.0.pins) (callback_new false now addr key k fresh) ∙ found in
    elim (callback_known saved now' addr key k' p known) [
      | inl (_, e) ↦ ap (λ r. r.1) e
      | inr (other, e) ↦
          let agree : matches p key ≡ true =
            ap (λ t. (t =s key.key_type) && bytes_eq p.key_blob key.key_blob) same_type
            ∙ ap (λ b. (key.key_type =s key.key_type) && bytes_eq b key.key_blob) same_blob
            ∙ rw (=s_self key.key_type, bytes_eq_self key.key_blob) refl in
          cc
    ]
