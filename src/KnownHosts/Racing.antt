-- ===== src/KnownHosts/Racing.antt =====
-- internal/sshx/knownhosts.go: two first connections to one address at the same time.
use gossh.Prelude.{
  ℕ, suc, ◌≡◌, refl, sym, ap, ◌∙◌, inl, inr, Bool, true, false, String, Option, none, some, lookup,
  insert_here, arith, ==_self, ==_ne,
}
use gossh.KnownHosts.{
  PublicKey, KnownHosts, save, pin, pin_of, matches, check, refused, host_key_mismatch, Calls,
  set_call, begin_call, finish_call,
}
use gossh.KnownHosts.Trust.{check_known, check_new, pin-pins}

pin-lookup :
    (saved : Bool) (now : ℕ) (addr : String) (key : PublicKey) (k : KnownHosts)
    → lookup addr (pin saved now addr key k).0.pins ≡ some (pin_of now key)
pin-lookup saved now addr key k =
    ap (lookup addr) (pin-pins saved now addr key k) ∙ insert_here addr (pin_of now key) k.pins

pin_saved :
    (now : ℕ) (addr : String) (key : PublicKey) (k : KnownHosts)
    → (pin true now addr key k).1 ≡ none
unfolding pin save
pin_saved now addr key k = ground arith

begin_call_new :
    (addr : String) (key : PublicKey) (s : Calls)
    → lookup addr s.store.pins ≡ none
    → begin_call addr key s
      ≡ record s { pending = set_call s.next (some (addr, key)) s.pending; next = suc s.next }
unfolding begin_call
begin_call_new addr key s none_ = rw (begin_call, check_new addr key s.store none_) refl

two_waits :
    (n : ℕ) (key key' : PublicKey) (addr : String) (pending : ℕ → Option (String × PublicKey))
    → set_call (suc n) (some (addr, key')) (set_call n (some (addr, key)) pending) n
      ≡ some (addr, key)
two_waits n key key' addr pending = rw (==_ne n (suc n) (λ e. omega (arith, e)), ==_self n) refl

other_waits :
    (n : ℕ) (key key' : PublicKey) (addr : String) (pending : ℕ → Option (String × PublicKey))
    → set_call n none
        (set_call (suc n) (some (addr, key')) (set_call n (some (addr, key)) pending))
        (suc n)
      ≡ some (addr, key')
other_waits n key key' addr pending =
    rw (==_ne (suc n) n (λ e. omega (arith, e)), ==_self (suc n)) refl

finish_call_pending :
    (saved : Bool) (now c : ℕ) (addr : String) (key : PublicKey) (s : Calls)
    → s.pending c ≡ some (addr, key)
    → finish_call saved now c s ≡ (
      record s { store = (pin saved now addr key s.store).0; pending = set_call c none s.pending },
      (pin saved now addr key s.store).1,
    )
unfolding finish_call
finish_call_pending saved now c addr key s waits = rw (finish_call, waits) refl

-- Two calls for an unknown address, each of which looks before the other has pinned, are both accepted
-- when their pins are saved, whatever their keys; the address is then pinned to the key of the call
-- that finished last, and where the other key differs from it, the next connection with it is refused.
pub racing_first_calls :
    (addr : String) (key key' : PublicKey) (s : Calls) (now now' : ℕ)
    → lookup addr s.store.pins ≡ none
    → matches (pin_of now' key') key ≡ false
    → let s2 = begin_call addr key' (begin_call addr key s) in
      let (one, e) = finish_call true now s.next s2 in
      let (both, e') = finish_call true now' (suc s.next) one in
      (e ≡ none)
      × (e' ≡ none)
      × (check addr key both.store ≡ refused (host_key_mismatch addr (pin_of now' key') key))
racing_first_calls addr key key' s now now' fresh differs =
    let s1 : Calls = record s {
      pending = set_call s.next (some (addr, key)) s.pending;
      next = suc s.next;
    } in
    let s2 : Calls = record s1 {
      pending = set_call (suc s.next) (some (addr, key')) s1.pending;
      next = suc (suc s.next);
    } in
    let k = (pin true now addr key s.store).0 in
    let one : Calls = record s2 { store = k; pending = set_call s.next none s2.pending } in
    let waits : s2.pending s.next ≡ some (addr, key) = two_waits s.next key key' addr s.pending in
    let waits' : one.pending (suc s.next) ≡ some (addr, key') =
      other_waits s.next key key' addr s.pending in
    rw
      (
        begin_call_new addr key s fresh,
        begin_call_new addr key' s1 fresh,
        finish_call_pending true now s.next addr key s2 waits,
        finish_call_pending true now' (suc s.next) addr key' one waits',
      )
      (
        pin_saved now addr key s.store,
        pin_saved now' addr key' k,
        check_differs (pin true now' addr key' k).0 (pin-lookup true now' addr key' k),
      )
  where
    apart : false ≡ true → ⊥
    apart q = cc

    check_differs :
        (k : KnownHosts)
        → lookup addr k.pins ≡ some (pin_of now' key')
        → check addr key k ≡ refused (host_key_mismatch addr (pin_of now' key') key)
    check_differs k there = elim (check_known addr key k (pin_of now' key') there) [
      | inl (same, _) ↦ absurd (apart (sym differs ∙ same))
      | inr (_, e) ↦ e
    ]
