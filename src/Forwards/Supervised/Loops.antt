-- ===== src/Forwards/Supervised/Loops.antt =====
-- internal/api/forward_host.go: what the loops leave of a host's entries and listeners.
use gossh.Prelude.{
  ℕ, ◌≡◌, ◌≢◌, refl, sym, ap, ◌∙◌, inl, inr, Bool, true, false, String, List, [], ◌∷◌, none, some,
  ◌=s◌, ◌||◌, if◌then◌else◌, GoMap, lookup, insert, arith, Bool-cases, Option-cases, =s-cases,
  =s_self, =s_ne, =s→≡, some_same, none-some, lookup-delete,
}
use gossh.Forwards.{ForwardEntry}
use gossh.Forwards.Supervised.{ForwardHostState, cancel, keys, drop_entry, lose_keys, cancel_all}
use gossh.Forwards.Supervised.Sound.{cancel_open}

-- The keys over which a loop ranges are all there are.
abbrev pub has : String → List String → Bool
has j [] = false
has j (k ∷ ks) = (k =s j) || has j ks

pub has-keys {ℓ} :
    {V : Type ℓ} (j : String) (m : GoMap V) → has j (keys m) ≡ false → lookup j m ≡ none
unfolding lookup
has-keys j [] h = refl
has-keys j ((k, v) ∷ m) h = elim (Bool-cases (k =s j)) [
  | inl same ↦ ground arith
  | inr other ↦ rw other (has-keys j m (ground arith))
]

pub lose_keys-cleared :
    (ks : List String) (st : ForwardHostState) (j : String)
    → (has j ks ≡ false → lookup j st.entries ≡ none)
    → lookup j (lose_keys ks st).entries ≡ none
unfolding lose_keys
lose_keys-cleared [] st j h = h refl
lose_keys-cleared (k ∷ ks) st j h = elim (Option-cases (lookup k st.entries)) [
  | inl missing ↦ rw (lose_keys, missing) (lose_keys-cleared ks st j (λ q. later missing q))
  | inr found ↦
      rw (lose_keys, found.1)
        (lose_keys-cleared ks
          (record (drop_entry k found.0 st) { failed = insert k "connection lost" st.failed }) j
          (λ q. lookup-delete k j st.entries ∙ dropped q))
]
  where
    later : lookup k st.entries ≡ none → has j ks ≡ false → lookup j st.entries ≡ none
    later missing q = elim (=s-cases k j) [
      | inl same ↦ ap (λ i. lookup i st.entries) (sym same) ∙ missing
      | inr other ↦ h (rw (=s_ne k j other) q)
    ]

    dropped : has j ks ≡ false → (if k =s j then none else lookup j st.entries) ≡ none
    dropped q = elim (=s-cases k j) [
      | inl same ↦ rw (same, =s_self j) refl
      | inr other ↦ rw (=s_ne k j other) (h (rw (=s_ne k j other) q))
    ]

pub lose_keys-dial : (ks : List String) (st : ForwardHostState) → (lose_keys ks st).dial ≡ st.dial
unfolding lose_keys
lose_keys-dial [] st = refl
lose_keys-dial (k ∷ ks) st = elim (Option-cases (lookup k st.entries)) [
  | inl missing ↦ rw (lose_keys, missing) (lose_keys-dial ks st)
  | inr found ↦
      rw (lose_keys, found.1)
        (lose_keys-dial ks
          (record (drop_entry k found.0 st) { failed = insert k "connection lost" st.failed }))
]

pub lose_keys-stopped :
    (ks : List String) (st : ForwardHostState) → (lose_keys ks st).stopped ≡ st.stopped
unfolding lose_keys
lose_keys-stopped [] st = refl
lose_keys-stopped (k ∷ ks) st = elim (Option-cases (lookup k st.entries)) [
  | inl missing ↦ rw (lose_keys, missing) (lose_keys-stopped ks st)
  | inr found ↦
      rw (lose_keys, found.1)
        (lose_keys-stopped ks
          (record (drop_entry k found.0 st) { failed = insert k "connection lost" st.failed }))
]

cancel_all-none :
    (k : String) (ks : List String) (st : ForwardHostState)
    → lookup k st.entries ≡ none
    → cancel_all (k ∷ ks) st ≡ cancel_all ks st
unfolding cancel_all
cancel_all-none k ks st missing = rw (cancel_all, missing) refl

cancel_all-some :
    (k : String) (ks : List String) (st : ForwardHostState) (e : ForwardEntry)
    → lookup k st.entries ≡ some e
    → cancel_all (k ∷ ks) st ≡ cancel_all ks (record st { running = cancel e.handle st.running })
unfolding cancel_all
cancel_all-some k ks st e found = rw (cancel_all, found) refl

-- What is open after the loop of release was open, and is the listener of none of its keys.
pub cancel_all-open :
    (ks : List String) (st : ForwardHostState) (i : ℕ)
    → (cancel_all ks st).running i ≡ true
    → (st.running i ≡ true)
      × ((j : String) (e : ForwardEntry)
          → has j ks ≡ true
          → lookup j st.entries ≡ some e
          → i ≢ e.handle)
unfolding cancel_all
cancel_all-open [] st i r = (r, λ j e q there. cc)
cancel_all-open (k ∷ ks) st i r = elim (Option-cases (lookup k st.entries)) [
  | inl missing ↦
      let rest = cancel_all-open ks st i (closed_none missing r) in
      (
        rest.0,
        λ j e q there. elim (Bool-cases (k =s j)) [
          | inl same ↦
              absurd
                (none-some (sym missing ∙ ap (λ k. lookup k st.entries) (=s→≡ k j same) ∙ there))
          | inr other ↦ rest.1 j e (skipped j other q) there
        ],
      )
  | inr found ↦
      let rest =
        cancel_all-open ks (record st { running = cancel found.0.handle st.running }) i
          (closed_some found r) in
      let before = cancel_open found.0.handle i st.running rest.0 in
      (
        before.1,
        λ j e q there. elim (Bool-cases (k =s j)) [
          | inl same ↦ λ here. before.0 (
              here
              ∙ ap (λ d. d.handle)
                  (some_same
                    (sym there ∙ ap (λ k. lookup k st.entries) (sym (=s→≡ k j same)) ∙ found.1)))
          | inr other ↦ rest.1 j e (skipped j other q) there
        ],
      )
]
  where
    skipped : (j : String) → (k =s j) ≡ false → has j (k ∷ ks) ≡ true → has j ks ≡ true
    skipped j other q = ground arith

    closed_none :
        lookup k st.entries ≡ none
        → (cancel_all (k ∷ ks) st).running i ≡ true
        → (cancel_all ks st).running i ≡ true
    closed_none missing q = sym (ap (λ s. s.running i) (cancel_all-none k ks st missing)) ∙ q

    closed_some :
        (found : (e : ForwardEntry) × (lookup k st.entries ≡ some e))
        → (cancel_all (k ∷ ks) st).running i ≡ true
        → (cancel_all ks (record st { running = cancel found.0.handle st.running })).running i
          ≡ true
    closed_some found q = sym (ap (λ s. s.running i) (cancel_all-some k ks st found.0 found.1)) ∙ q
