-- ===== src/Forwards/Registry/Agreement.antt =====
-- internal/api/forward_handler.go: the two maps of the registry, and deletions that overlap.
use mathlib.Core.Path.{subst}
use gossh.Prelude.{
  ◌≡◌, ◌≢◌, refl, sym, ap, ◌∙◌, ◌⊎◌, inl, inr, String, none, some, ◌=s◌, ◌&&◌, if◌then◌else◌, GoMap,
  lookup, insert, delete, lookup-insert, lookup-delete, arith, Option-cases, =s-cases, =s_self,
  =s_ne, insert_here, insert_other, delete_other, insert_found, delete_found, some_same, none-some,
}
use gossh.Forwards.{ForwardEntry}
use gossh.Forwards.Registry.{ForwardRegistry, new_forward_registry, entries_of, add, get, remove}

entries_of-insert :
    (session_id s : String) (m : GoMap ForwardEntry) (r : ForwardRegistry) (ids : GoMap String)
    → entries_of s (record { by_session = insert session_id m r.by_session; by_entry_id = ids })
      ≡ (if session_id =s s then m else entries_of s r)
unfolding entries_of
entries_of-insert session_id s m r ids = elim (=s-cases session_id s) [
  | inl same ↦ rw (entries_of, same, =s_self s, insert_here s m r.by_session) refl
  | inr other ↦
      rw (entries_of, =s_ne session_id s other, insert_other session_id s m r.by_session other) refl
]

-- The entries that a session has after an add, and after a removal.
pub get-add :
    (session_id s i : String) (e : ForwardEntry) (r : ForwardRegistry)
    → get s i (add session_id e r)
      ≡ (if (session_id =s s) && (e.id =s i) then some e else get s i r)
unfolding get add
get-add session_id s i e r =
    ap (lookup i) (
      entries_of-insert session_id s (insert e.id e (entries_of session_id r)) r
        (insert e.id session_id r.by_entry_id))
    ∙ elim (=s-cases session_id s) [
      | inl same ↦ rw (same, =s_self s) (lookup-insert e.id i e (entries_of s r))
      | inr other ↦ rw (=s_ne session_id s other) refl
    ]

pub get-remove :
    (session_id entry_id s i : String) (r : ForwardRegistry)
    → get s i (remove session_id entry_id r).0
      ≡ (if (session_id =s s) && (entry_id =s i) then none else get s i r)
unfolding get remove
get-remove session_id entry_id s i r = elim (Option-cases (get session_id entry_id r)) [
  | inl missing ↦
      rw (remove, missing)
        (elim (=s-cases session_id s) [
          | inr other ↦ rw (=s_ne session_id s other) refl
          | inl same ↦ elim (=s-cases entry_id i) [
            | inr differs ↦ rw (=s_ne entry_id i differs) (ground arith)
            | inl here ↦ rw (same, here, =s_self s, =s_self i) (rw (sym same, sym here) missing)
          ]
        ])
  | inr found ↦
      rw (remove, found.1)
        (ap (lookup i) (
            entries_of-insert session_id s (delete entry_id (entries_of session_id r)) r
              (delete entry_id r.by_entry_id))
          ∙ elim (=s-cases session_id s) [
            | inl same ↦ rw (same, =s_self s) (lookup-delete entry_id i (entries_of s r))
            | inr other ↦ rw (=s_ne session_id s other) refl
          ])
]

-- The registries that come about when every added entry has an id that is in use nowhere.
pub data Reach : ForwardRegistry → Type 0 where
  starts : Reach new_forward_registry
  adds :
      (session_id : String)
      → (e : ForwardEntry) → (r : ForwardRegistry) → lookup e.id r.by_entry_id ≡ none
      → Reach r
      → Reach (add session_id e r)
  removes :
      (session_id : String)
      → (entry_id : String) → (r : ForwardRegistry) → Reach r
      → Reach (remove session_id entry_id r).0

-- Both maps have the same entries, each under its own id.
pub record Agrees (r : ForwardRegistry) : Type 0 where
  pub indexed :
      (s i : String)
      → (e : ForwardEntry) → get s i r ≡ some e
      → (e.id ≡ i) × (lookup i r.by_entry_id ≡ some s)
  pub present :
      (s i : String) → lookup i r.by_entry_id ≡ some s → (e : ForwardEntry) × (get s i r ≡ some e)

get_add_found :
    (session_id s i : String) (e d : ForwardEntry) (r : ForwardRegistry)
    → get s i (add session_id e r) ≡ some d
    → ((session_id ≡ s) × (e.id ≡ i) × (e ≡ d)) ⊎ (get s i r ≡ some d)
get_add_found session_id s i e d r got = elim (=s-cases session_id s) [
  | inr other ↦ inr (sym (get-add session_id s i e r ∙ rw (=s_ne session_id s other) refl) ∙ got)
  | inl mine ↦ elim (=s-cases e.id i) [
    | inl same ↦ inl (
      mine,
      same,
      some_same
          (sym (get-add session_id s i e r ∙ rw (mine, same, =s_self s, =s_self i) refl) ∙ got),
    )
    | inr differs ↦
        inr
          (sym (get-add session_id s i e r ∙ rw (mine, =s_self s, =s_ne e.id i differs) refl) ∙ got)
  ]
]

get_remove_found :
    (session_id entry_id s i : String) (d : ForwardEntry) (r : ForwardRegistry)
    → get s i (remove session_id entry_id r).0 ≡ some d
    → ((session_id ≢ s) ⊎ (entry_id ≢ i)) × (get s i r ≡ some d)
get_remove_found session_id entry_id s i d r got = elim (=s-cases session_id s) [
  | inr other ↦ (
    inl other,
    sym (get-remove session_id entry_id s i r ∙ rw (=s_ne session_id s other) refl) ∙ got,
  )
  | inl mine ↦ elim (=s-cases entry_id i) [
    | inr differs ↦ (
      inr differs,
      sym (
            get-remove session_id entry_id s i r
            ∙ rw (mine, =s_self s, =s_ne entry_id i differs) refl)
          ∙ got,
    )
    | inl same ↦ absurd (
        none-some (
          sym (get-remove session_id entry_id s i r ∙ rw (mine, same, =s_self s, =s_self i) refl)
          ∙ got))
  ]
]

add-Agrees :
    (session_id : String) (e : ForwardEntry) (r : ForwardRegistry)
    → lookup e.id r.by_entry_id ≡ none
    → Agrees r
    → Agrees (add session_id e r)
unfolding add
add-Agrees session_id e r fresh a = record {
  indexed = λ s i d got. elim (get_add_found session_id s i e d r got) [
    | inl new ↦ (
      ap (λ f. f.id) (sym new.2) ∙ new.1,
      ap (λ k. lookup k (insert e.id session_id r.by_entry_id)) (sym new.1)
          ∙ insert_here e.id session_id r.by_entry_id
          ∙ ap some new.0,
    )
    | inr old ↦
        let before = a.indexed s i d old in
        (
          before.0,
          insert_other e.id i session_id r.by_entry_id
                (λ same. none-some (sym fresh ∙ ap (λ k. lookup k r.by_entry_id) same ∙ before.1))
              ∙ before.1,
        )
  ];
  present = λ s i got. elim (insert_found e.id i session_id r.by_entry_id got) [
    | inl new ↦ (
      e,
      get-add session_id s i e r ∙ rw (sym new.0, sym new.1, =s_self e.id, =s_self session_id) refl,
    )
    | inr old ↦
        let before = a.present s i old.1 in
        (before.0, get-add session_id s i e r ∙ rw (=s_ne e.id i old.0) (ground (arith, before.1)))
  ];
}

remove_found :
    (session_id entry_id : String) (e : ForwardEntry) (r : ForwardRegistry)
    → get session_id entry_id r ≡ some e
    → (remove session_id entry_id r).0.by_entry_id ≡ delete entry_id r.by_entry_id
unfolding remove
remove_found session_id entry_id e r there = rw (remove, there) refl

remove_missing :
    (session_id entry_id : String) (r : ForwardRegistry)
    → get session_id entry_id r ≡ none
    → (remove session_id entry_id r).0 ≡ r
unfolding remove
remove_missing session_id entry_id r missing = rw (remove, missing) refl

remove-Agrees :
    (session_id entry_id : String) (r : ForwardRegistry)
    → Agrees r
    → Agrees (remove session_id entry_id r).0
remove-Agrees session_id entry_id r a = elim (Option-cases (get session_id entry_id r)) [
  | inl missing ↦ subst Agrees (sym (remove_missing session_id entry_id r missing)) a
  | inr found ↦ record {
    indexed = λ s i d got.
        let before = get_remove_found session_id entry_id s i d r got in
        let was = a.indexed s i d before.1 in
        (
          was.0,
          ap (lookup i) (remove_found session_id entry_id found.0 r found.1)
              ∙ delete_other entry_id i r.by_entry_id (apart s i found d before.1 before.0)
              ∙ was.1,
        );
    present = λ s i got.
        let left =
          delete_found entry_id i r.by_entry_id
            (sym (ap (lookup i) (remove_found session_id entry_id found.0 r found.1)) ∙ got) in
        let before = a.present s i left.1 in
        (
          before.0,
          get-remove session_id entry_id s i r
              ∙ rw (=s_ne entry_id i left.0) (ground (arith, before.1)),
        );
  }
]
  where
    apart :
        (s i : String) (found : (e : ForwardEntry) × (get session_id entry_id r ≡ some e))
        (d : ForwardEntry)
        → get s i r ≡ some d
        → (session_id ≢ s) ⊎ (entry_id ≢ i)
        → entry_id ≢ i
    apart s i found d there (inr differs) = differs
    apart s i found d there (inl other) = λ same. other (
        some_same (
          sym (a.indexed session_id entry_id found.0 found.1).1
          ∙ ap (λ k. lookup k r.by_entry_id) same
          ∙ (a.indexed s i d there).1))

-- When every added entry has an id that is in use nowhere, the two maps of the registry agree after any
-- additions and removals: an entry found under a session and an id has that id, which the other map
-- gives to that session; and an id that the other map gives to a session is found there.
pub Reach-Agrees : (r : ForwardRegistry) → Reach r → Agrees r
unfolding lookup get entries_of
Reach-Agrees r starts = record { indexed = λ s i e. cc; present = λ s i. cc }
Reach-Agrees r (adds session_id e before fresh reach) =
    add-Agrees session_id e before fresh (Reach-Agrees before reach)
Reach-Agrees r (removes session_id entry_id before reach) =
    remove-Agrees session_id entry_id before (Reach-Agrees before reach)
