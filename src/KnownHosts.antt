-- ===== src/KnownHosts.antt =====
-- internal/sshx/knownhosts.go: the host keys learned on first use. The mutex makes each of Get, Pin and
-- Forget atomic. A call of Callback is two sections: its Get with the comparison, `check`, and where the
-- address is unknown its Pin; other sections may come between (Concurrent), and `callback` is a call
-- that runs with none between. Times are arguments; `saved` says whether every file operation of
-- saveLocked succeeds. A key is its type and the bytes of Marshal, and the
-- fingerprints of a mismatch are not computed: the error has the two keys instead.
pub mod Trust
pub mod Concurrent
pub mod Racing
pub mod Tests
use gossh.Prelude.{
  ℕ, suc, ◌==◌, Bool, true, false, String, List, [], ◌∷◌, Option, none, some, ◌=s◌, ◌&&◌,
  if◌then◌else◌, GoMap, lookup, insert, delete, bytes_eq,
}

pub record PublicKey : Type 0 where
  pub key_type : String
  pub key_blob : List ℕ

pub record HostPin : Type 0 where
  pub key_type : String
  pub key_blob : List ℕ
  pub first_seen : ℕ

-- An empty path is a store in memory only; `file` is what the file holds.
pub record KnownHosts : Type 0 where
  pub path : String
  pub pins : GoMap HostPin
  pub file : GoMap HostPin

-- HostKeyMismatch, and the other errors.
pub data TrustError : Type 0 where
  host_key_mismatch : String → HostPin → PublicKey → TrustError
  save_failed : TrustError

unfoldable pub get : String → KnownHosts → Option HostPin
get addr k = lookup addr k.pins

unfoldable pub pinned : String → KnownHosts → Bool
unfolding get
pinned addr k = elim (get addr k) [ none ↦ false | some p ↦ true ]

unfoldable pub pins_of : KnownHosts → GoMap HostPin
pins_of k = k.pins

-- saveLocked.
unfoldable pub save : Bool → KnownHosts → KnownHosts × Option TrustError
save saved k =
    if k.path =s ""
    then (k, none)
    else if saved
    then (record k { file = k.pins }, none)
    else (k, some save_failed)

unfoldable pub forget : Bool → String → KnownHosts → KnownHosts × Option TrustError
unfolding save
forget saved addr k = save saved (record k { pins = delete addr k.pins })

abbrev pub pin_of : ℕ → PublicKey → HostPin
pin_of now key = record { key_type = key.key_type; key_blob = key.key_blob; first_seen = now }

unfoldable pub pin : Bool → ℕ → String → PublicKey → KnownHosts → KnownHosts × Option TrustError
unfolding save
pin saved now addr key k = save saved (record k { pins = insert addr (pin_of now key) k.pins })

-- `pin.KeyType == key.Type() && bytes.Equal(pin.KeyBlob, key.Marshal())`.
abbrev pub matches : HostPin → PublicKey → Bool
matches p key = (p.key_type =s key.key_type) && bytes_eq p.key_blob key.key_blob

-- What Callback knows after its Get: the key is accepted, or refused, or the address has no pin.
pub data Check : Type 0 where
  accepted unpinned : Check
  refused : TrustError → Check

-- The first section of Callback.
unfoldable pub check : String → PublicKey → KnownHosts → Check
unfolding get
check addr key k = elim (get addr k) [
  | none ↦ unpinned
  | some p ↦ if matches p key then accepted else refused (host_key_mismatch addr p key)
]

-- A call of Callback with no other section between its two: no error accepts the key.
unfoldable pub callback :
    Bool → ℕ → String → PublicKey → KnownHosts → KnownHosts × Option TrustError
unfolding check pin
callback saved now addr key k = elim (check addr key k) [
  | accepted ↦ (k, none)
  | refused e ↦ (k, some e)
  | unpinned ↦ pin saved now addr key k
]

-- The calls of Callback that have found no pin and not yet pinned, by number: each address and key.
pub record Calls : Type 0 where
  pub store : KnownHosts
  pub pending : ℕ → Option (String × PublicKey)
  pub next : ℕ

abbrev pub set_call :
    ℕ
    → Option (String × PublicKey)
    → (ℕ → Option (String × PublicKey))
    → ℕ
    → Option (String × PublicKey)
set_call c v pending n = if n == c then v else pending n

-- A new call checks; without a pin it goes on to its Pin.
unfoldable pub begin_call : String → PublicKey → Calls → Calls
unfolding check
begin_call addr key s = elim (check addr key s.store) [
  | accepted ↦ s
  | refused e ↦ s
  | unpinned ↦ record s {
    pending = set_call s.next (some (addr, key)) s.pending;
    next = suc s.next;
  }
]

-- A call that goes on pins what it was given; also the error that Callback then returns.
unfoldable pub finish_call : Bool → ℕ → ℕ → Calls → Calls × Option TrustError
unfolding pin
finish_call saved now c s = elim (s.pending c) [
  | none ↦ (s, none)
  | some call ↦
      let (k, e) = pin saved now call.0 call.1 s.store in
      (record s { store = k; pending = set_call c none s.pending }, e)
]
