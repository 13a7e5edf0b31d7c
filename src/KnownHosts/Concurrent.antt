-- ===== src/KnownHosts/Concurrent.antt =====
-- internal/sshx/knownhosts.go: trust on first use where the sections of many calls of Callback, and of
-- Forget, come in any order.
use gossh.Prelude.{
  ℕ, ◌==◌, ◌≡◌, ◌≢◌, refl, sym, ap, ◌∙◌, inl, inr, Bool, true, String, List, [], ◌∷◌, some, lookup,
  delete, delete_other, insert_other, bytes_eq→≡, =s→≡, =s-cases, Bool-cases, Option-cases,
  none-some, some_same, arith,
}
use gossh.KnownHosts.{
  PublicKey, HostPin, KnownHosts, TrustError, forget, pin, pin_of, matches, check, accepted,
  refused, unpinned, Calls, begin_call, finish_call,
}
use gossh.KnownHosts.Trust.{PinnedTo, check_known, check_new, save-pins, pin-pins, pin-PinnedTo}

-- A section: the first or the second of a call of Callback, or a Forget.
pub data Event : Type 0 where
  begins : String → PublicKey → Event
  finishes : Bool → ℕ → ℕ → Event
  forgets : Bool → String → Event

abbrev pub step : Event → Calls → Calls
step (begins addr key) s = begin_call addr key s
step (finishes saved now c) s = (finish_call saved now c s).0
step (forgets saved addr) s = record s { store = (forget saved addr s.store).0 }

abbrev pub run : List Event → Calls → Calls
run [] s = s
run (e ∷ es) s = run es (step e s)

-- Every Forget is of another address.
abbrev pub Keeps : String → List Event → Type 0
Keeps addr [] = Unit {0}
Keeps addr (begins a key ∷ es) = Keeps addr es
Keeps addr (finishes saved now c ∷ es) = Keeps addr es
Keeps addr (forgets saved a ∷ es) = (a ≢ addr) × Keeps addr es

-- Each call that is still to pin the address has the key.
abbrev pub OnlyPends : String → PublicKey → Calls → Type 0
OnlyPends addr key s =
    (c : ℕ) (call : String × PublicKey) → s.pending c ≡ some call → call.0 ≡ addr → call.1 ≡ key

-- Callback lets the key through for the address: it matches the pin, or its call is still to pin it.
pub data Passes (addr : String) (key : PublicKey) (s : Calls) : Type 0 where
  known : check addr key s.store ≡ accepted → Passes addr key s
  first : (c : ℕ) → s.pending c ≡ some (addr, key) → Passes addr key s

same_key :
    (p : HostPin) (key : PublicKey)
    → matches p key ≡ true
    → (p.key_type ≡ key.key_type) × (p.key_blob ≡ key.key_blob)
same_key p key same = (
  ground (arith, =s→≡ p.key_type key.key_type),
  ground (arith, bytes_eq→≡ p.key_blob key.key_blob),
)

check-PinnedTo :
    (addr : String) (key : PublicKey) (k : KnownHosts)
    → check addr key k ≡ accepted
    → PinnedTo addr key k
check-PinnedTo addr key k good = elim (Option-cases (lookup addr k.pins)) [
  | inl none_ ↦ absurd (not_both (sym (check_new addr key k none_) ∙ good))
  | inr (p, found) ↦ elim (check_known addr key k p found) [
    | inl (same, _) ↦ let equal = same_key p key same in (p, found, equal.0, equal.1)
    | inr (_, e) ↦ absurd (not_refused (sym e ∙ good))
  ]
]
  where
    not_both : unpinned ≡ accepted → ⊥
    not_both q = cc

    not_refused : {e : TrustError} → refused e ≡ accepted → ⊥
    not_refused q = cc

-- The address is pinned to the key, and only calls with the key are still to pin it.
record Secure (addr : String) (key : PublicKey) (s : Calls) : Type 0 where
  held : PinnedTo addr key s.store
  pends : OnlyPends addr key s

begin_call-Secure :
    (addr a : String) (key k : PublicKey) (s : Calls)
    → Secure addr key s
    → Secure addr key (begin_call a k s)
unfolding begin_call
begin_call-Secure addr a key k s h = elim (Option-cases (lookup a s.store.pins)) [
  | inr (p, found) ↦ elim (check_known a k s.store p found) [
    | inl (_, e) ↦ rw (begin_call, e) h
    | inr (_, e) ↦ rw (begin_call, e) h
  ]
  | inl none_ ↦
      rw (begin_call, check_new a k s.store none_)
        (record {
          held = h.held;
          pends = λ c call waits same. elim (Bool-cases (c == s.next)) [
            | inr old ↦ h.pends c call (rw old at waits) same
            | inl new ↦ absurd (
                none-some (
                  sym none_
                  ∙ ap (λ x. lookup x s.store.pins)
                      (ap (λ q. q.0) (some_same (rw new at waits)) ∙ same)
                  ∙ h.held.1))
          ];
        })
]

pin_pending :
    (addr : String) (key : PublicKey) (saved : Bool) (now : ℕ) (call : String × PublicKey)
    (k : KnownHosts)
    → PinnedTo addr key k
    → (call.0 ≡ addr → call.1 ≡ key)
    → PinnedTo addr key (pin saved now call.0 call.1 k).0
pin_pending addr key saved now (a, new) k (p, found, same_type, same_blob) agrees =
    elim (=s-cases a addr) [
      | inl here ↦ rw (here, agrees here) (pin-PinnedTo saved now addr key k)
      | inr other ↦ (
        p,
        ap (lookup addr) (pin-pins saved now a new k)
            ∙ insert_other a addr (pin_of now new) k.pins other
            ∙ found,
        same_type,
        same_blob,
      )
    ]

finish_call-Secure :
    (addr : String) (key : PublicKey) (saved : Bool) (now c : ℕ) (s : Calls)
    → Secure addr key s
    → Secure addr key (finish_call saved now c s).0
unfolding finish_call
finish_call-Secure addr key saved now c s h = elim (Option-cases (s.pending c)) [
  | inl none_ ↦ rw (finish_call, none_) h
  | inr (call, waits) ↦
      rw (finish_call, waits)
        (record {
          held = pin_pending addr key saved now call s.store h.held (h.pends c call waits);
          pends = λ d other waits' same. elim (Bool-cases (d == c)) [
            | inl done ↦ absurd (none-some (rw done at waits'))
            | inr old ↦ h.pends d other (rw old at waits') same
          ];
        })
]

forget-PinnedTo :
    (addr a : String) (key : PublicKey) (saved : Bool) (k : KnownHosts)
    → a ≢ addr
    → PinnedTo addr key k
    → PinnedTo addr key (forget saved a k).0
unfolding forget
forget-PinnedTo addr a key saved k other (p, found, same_type, same_blob) = (
  p,
  ap (lookup addr) (save-pins saved (record k { pins = delete a k.pins }))
      ∙ delete_other a addr k.pins other
      ∙ found,
  same_type,
  same_blob,
)

run-Secure :
    (addr : String) (key : PublicKey) (es : List Event) (s : Calls)
    → Keeps addr es
    → Secure addr key s
    → Secure addr key (run es s)
run-Secure addr key [] s keeps h = h
run-Secure addr key (begins a k ∷ es) s keeps h =
    run-Secure addr key es (begin_call a k s) keeps (begin_call-Secure addr a key k s h)
run-Secure addr key (finishes saved now c ∷ es) s keeps h =
    run-Secure addr key es (finish_call saved now c s).0 keeps
      (finish_call-Secure addr key saved now c s h)
run-Secure addr key (forgets saved a ∷ es) s keeps h =
    run-Secure addr key es (record s { store = (forget saved a s.store).0 }) keeps.1
      (record { held = forget-PinnedTo addr a key saved s.store keeps.0 h.held; pends = h.pends })

-- If the store accepts a key for an address, and no call of Callback that found the address unknown is
-- still to pin another key to it, then after any sections of calls for any addresses and any Forget of
-- other addresses, in any order and whatever cannot be saved, Callback lets no other key through for
-- that address, neither by the pin nor by a call that is still to pin it.
pub accepted_key_stays :
    (addr : String) (key key' : PublicKey) (s : Calls) (es : List Event)
    → check addr key s.store ≡ accepted
    → OnlyPends addr key s
    → Keeps addr es
    → Passes addr key' (run es s)
    → (key'.key_type ≡ key.key_type) × (key'.key_blob ≡ key.key_blob)
accepted_key_stays addr key key' s es good pends keeps passes =
    let h =
      run-Secure addr key es s keeps
        (record { held = check-PinnedTo addr key s.store good; pends = pends }) in
    elim passes [
      | first c waits ↦
          let same = h.pends c (addr, key') waits refl in
          (ap (λ k. k.key_type) same, ap (λ k. k.key_blob) same)
      | known good' ↦
          let (p, found, same_type, same_blob) = h.held in
          let (q, found', same_type', same_blob') =
            check-PinnedTo addr key' (run es s).store good' in
          let one = some_same (sym found ∙ found') in
          (
            sym same_type' ∙ sym (ap (λ x. x.key_type) one) ∙ same_type,
            sym same_blob' ∙ sym (ap (λ x. x.key_blob) one) ∙ same_blob,
          )
    ]
