-- ===== src/KnownHosts/Tests.antt =====
-- Runs of internal/sshx/knownhosts.go at concrete keys.
use gossh.Prelude.{
  ◌≡◌, refl, sym, ap, ◌==◌, true, false, List, [], ◌∷◌, none, some, lookup, insert, delete, arith,
  eq_iff, Bool-cases, inl, inr, some_same, none-some,
}
use gossh.KnownHosts.{
  KnownHosts, PublicKey, Calls, callback, check, get, pin, save, forget, begin_call, finish_call,
  set_call, host_key_mismatch, pin_of,
}
use gossh.KnownHosts.Trust.{refused_then_trusted}
use gossh.KnownHosts.Concurrent.{
  Event, OnlyPends, known, begins, finishes, forgets, accepted_key_stays,
}

abbrev nothing : KnownHosts
nothing = record { path = "known_hosts"; pins = []; file = [] }

abbrev key_a : PublicKey
key_a = record { key_type = "ssh-ed25519"; key_blob = 1 ∷ 2 ∷ [] }

abbrev key_b : PublicKey
key_b = record { key_type = "ssh-ed25519"; key_blob = 1 ∷ 3 ∷ [] }

abbrev other_type : PublicKey
other_type = record { key_type = "ssh-rsa"; key_blob = 9 ∷ [] }

-- One address pinned to a key, and a call with that key for it that is still to pin.
abbrev one_known : Calls
one_known = record {
  store = record { path = "known_hosts"; pins = ("a:22", pin_of 1 key_a) ∷ []; file = [] };
  pending = set_call 0 (some ("a:22", key_a)) (λ n. none);
  next = 1;
}

-- Another host is learned, and forgotten; the pending call pins, and its pin cannot be saved.
abbrev between : List Event
between =
    begins "b:22" key_b
    ∷ begins "a:22" other_type
    ∷ finishes false 2 0
    ∷ finishes true 3 1
    ∷ forgets true "b:22"
    ∷ []

only_key_a : OnlyPends "a:22" key_a one_known
only_key_a c call waits same = elim (Bool-cases (c == 0)) [
  | inl here ↦ ap (λ q. q.1) (sym (some_same (rw here at waits)))
  | inr other ↦ absurd (none-some (rw other at waits))
]

accepted_key_stays_example : (key_a.key_type ≡ key_a.key_type) × (key_a.key_blob ≡ key_a.key_blob)
accepted_key_stays_example =
    accepted_key_stays "a:22" key_a key_a one_known between (unfold check get lookup in refl)
      only_key_a ((λ e. ground (arith, eq_iff "b:22" "a:22")), tt)
      (known (unfold begin_call finish_call pin save check get lookup forget insert delete in refl))

refused_then_trusted_example :
    (callback true 2 "a:22" key_a (callback false 1 "a:22" key_a nothing).0).1 ≡ none
refused_then_trusted_example =
    refused_then_trusted true 1 2 "a:22" key_a nothing (unfold lookup in refl)
      (unfold callback check get pin save lookup in refl)

other_key_refused :
    (callback true 2 "a:22" key_b (callback true 1 "a:22" key_a nothing).0).1
    ≡ some (host_key_mismatch "a:22" (pin_of 1 key_a) key_b)
unfolding callback check get pin save lookup insert
other_key_refused = refl
