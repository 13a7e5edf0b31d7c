-- ===== src/Host/Index.antt =====
-- internal/host/host.go: the index from names to ids agrees with the records.
use gossh.Prelude.{
  ◌≡◌, ◌≢◌, sym, ap, ◌∙◌, ◌⊎◌, inl, inr, Bool, true, false, String, Option, none, some, ℕ, ◌=s◌,
  lookup, insert, insert_here, insert_other, insert_found, delete_other, delete_found, =s-cases,
  some_same, =s_self, =s→≡, Bool-cases,
}
use gossh.Host.{
  Host, Inventory, FileOutcome, all_done, mkdir_fails, write_fails, rename_fails, save, with_new,
  with_update, without, stored_new, stored_update, renamed,
}

-- Each index entry names a record of that name, each record is in the index under its name, and each
-- record stands under its own id.
pub record Indexed (inv : Inventory) : Type 0 where
  pub sound :
      (n id : String)
      → lookup n inv.by_name ≡ some id
      → (h : Host) × (lookup id inv.hosts ≡ some h) × (h.name ≡ n)
  pub complete :
      (id : String) (h : Host) → lookup id inv.hosts ≡ some h → lookup h.name inv.by_name ≡ some id
  pub keyed : (id : String) (h : Host) → lookup id inv.hosts ≡ some h → h.id ≡ id

pub taken {ℓ} : {A : Type ℓ} {o : Option A} {a : A} → o ≡ none → o ≡ some a → ⊥
taken p q = cc

-- Saving does not touch the two maps.
pub save-Indexed : (fs : FileOutcome) (inv : Inventory) → Indexed inv → Indexed (save fs inv).0
unfolding save
save-Indexed all_done inv i = elim (Bool-cases (inv.path =s "")) [
  | inl e ↦ rw e i
  | inr e ↦ rw e (record { sound = i.sound; complete = i.complete; keyed = i.keyed })
]
save-Indexed mkdir_fails inv i = elim (Bool-cases (inv.path =s "")) [
  | inl e ↦ rw e i
  | inr e ↦ rw e i
]
save-Indexed write_fails inv i = elim (Bool-cases (inv.path =s "")) [
  | inl e ↦ rw e i
  | inr e ↦ rw e i
]
save-Indexed rename_fails inv i = elim (Bool-cases (inv.path =s "")) [
  | inl e ↦ rw e i
  | inr e ↦ rw e i
]

pub with_new-Indexed :
    (now : ℕ) (h : Host) (inv : Inventory)
    → Indexed inv
    → lookup h.id inv.hosts ≡ none
    → lookup h.name inv.by_name ≡ none
    → Indexed (with_new now h inv)
with_new-Indexed now h inv i fresh free = record {
  sound = λ n id e. elim (insert_found h.name n h.id inv.by_name e) [
    | inl (name, same) ↦
        (stored_new now h, rw (← same) (insert_here h.id (stored_new now h) inv.hosts), name)
    | inr (_, old) ↦
        let (k, found, named) = i.sound n id old in
        (
          k,
          insert_other h.id id (stored_new now h) inv.hosts
                (λ q. taken fresh (ap (λ s. lookup s inv.hosts) q ∙ found))
              ∙ found,
          named,
        )
  ];
  complete = λ id k e. elim (insert_found h.id id (stored_new now h) inv.hosts e) [
    | inl (same, new) ↦
        rw (← ap (λ (x : Host). x.name) new, ← same) (insert_here h.name h.id inv.by_name)
    | inr (_, old) ↦
        insert_other h.name k.name h.id inv.by_name
          (λ q. taken free (ap (λ s. lookup s inv.by_name) q ∙ i.complete id k old))
        ∙ i.complete id k old
  ];
  keyed = λ id k e. elim (insert_found h.id id (stored_new now h) inv.hosts e) [
    | inl (same, new) ↦ rw (← ap (λ (x : Host). x.id) new) same
    | inr (_, old) ↦ i.keyed id k old
  ];
}

module _ (h old : Host) (inv : Inventory) where
  renamed_found :
      (n id : String)
      → lookup n (renamed h old inv) ≡ some id
      → ((h.name ≡ n) × (h.id ≡ id))
        ⊎ ((h.name ≢ n) × (old.name ≢ n) × (lookup n inv.by_name ≡ some id))
  unfolding renamed
  renamed_found n id e = elim (Bool-cases (old.name =s h.name)) [
    | inl same ↦ elim (insert_found h.name n h.id inv.by_name (rw same at e)) [
      | inl hit ↦ inl hit
      | inr (ne, found) ↦ inr (ne, (λ q. ne (sym (=s→≡ old.name h.name same) ∙ q)), found)
    ]
    | inr differ ↦
        let (gone, e') =
          delete_found old.name n (insert h.name h.id inv.by_name) (rw differ at e) in
        elim (insert_found h.name n h.id inv.by_name e') [
          | inl hit ↦ inl hit
          | inr (ne, found) ↦ inr (ne, gone, found)
        ]
  ]

  renamed_other :
      (n : String) → h.name ≢ n → old.name ≢ n → lookup n (renamed h old inv) ≡ lookup n inv.by_name
  unfolding renamed
  renamed_other n ne gone = elim (Bool-cases (old.name =s h.name)) [
    | inl same ↦ rw same (insert_other h.name n h.id inv.by_name ne)
    | inr differ ↦ rw differ (
        delete_other old.name n (insert h.name h.id inv.by_name) gone
        ∙ insert_other h.name n h.id inv.by_name ne)
  ]

  renamed_here : lookup h.name (renamed h old inv) ≡ some h.id
  unfolding renamed
  renamed_here = elim (Bool-cases (old.name =s h.name)) [
    | inl same ↦ rw same (insert_here h.name h.id inv.by_name)
    | inr differ ↦ rw differ (
        delete_other old.name h.name (insert h.name h.id inv.by_name)
          (λ q. differs (differ) (rw q (=s_self h.name)))
        ∙ insert_here h.name h.id inv.by_name)
  ]
    where
      differs : {x : Bool} → x ≡ false → x ≡ true → ⊥
      differs p q = cc

module _ (now : ℕ) (h old : Host) (inv : Inventory) (i : Indexed inv)
    (was : lookup h.id inv.hosts ≡ some old)
    (unique : h.name ≢ old.name
      → (id : String) → lookup h.name inv.by_name ≡ some id
      → id ≡ h.id) where
  -- A record of another id has neither the new name nor the old one.
  other_name :
      (id : String) (k : Host)
      → h.id ≢ id
      → lookup id inv.hosts ≡ some k
      → (h.name ≢ k.name) × (old.name ≢ k.name)
  other_name id k ne found = (new_differs, old_differs)
    where
      old_differs : old.name ≢ k.name
      old_differs q = ne (
          some_same (
            sym (i.complete h.id old was)
            ∙ ap (λ s. lookup s inv.by_name) q
            ∙ i.complete id k found))

      new_differs : h.name ≢ k.name
      new_differs q = elim (=s-cases h.name old.name) [
        | inl same ↦ old_differs (sym same ∙ q)
        | inr changed ↦
            ne (sym (unique changed id (ap (λ s. lookup s inv.by_name) q ∙ i.complete id k found)))
      ]

  pub with_update-Indexed : Indexed (with_update now h old inv)
  with_update-Indexed = record {
    sound = λ n id e. elim (renamed_found h old inv n id e) [
      | inl (name, same) ↦ (
        stored_update now h old,
        rw (← same) (insert_here h.id (stored_update now h old) inv.hosts),
        name,
      )
      | inr (_, gone, found) ↦
          let (k, at_id, named) = i.sound n id found in
          (
            k,
            insert_other h.id id (stored_update now h old) inv.hosts (λ q. gone (
                  ap (λ (x : Host). x.name)
                    (some_same (sym was ∙ ap (λ s. lookup s inv.hosts) q ∙ at_id))
                  ∙ named))
                ∙ at_id,
            named,
          )
    ];
    complete = λ id k e. elim (insert_found h.id id (stored_update now h old) inv.hosts e) [
      | inl (same, new) ↦ rw (← ap (λ (x : Host). x.name) new, ← same) (renamed_here h old inv)
      | inr (ne, found) ↦
          let (a, b) = other_name id k ne found in
          renamed_other h old inv k.name a b ∙ i.complete id k found
    ];
    keyed = λ id k e. elim (insert_found h.id id (stored_update now h old) inv.hosts e) [
      | inl (same, new) ↦ rw (← ap (λ (x : Host). x.id) new) same
      | inr (_, found) ↦ i.keyed id k found
    ];
  }

pub without-Indexed :
    (id : String) (h : Host) (inv : Inventory)
    → Indexed inv
    → lookup id inv.hosts ≡ some h
    → Indexed (without id h inv)
without-Indexed id h inv i was = record {
  sound = λ n j e.
      let (ne, found) = delete_found h.name n inv.by_name e in
      let (k, at_j, named) = i.sound n j found in
      (
        k,
        delete_other id j inv.hosts (λ q. ne (
              ap (λ (x : Host). x.name)
                (some_same (sym was ∙ ap (λ s. lookup s inv.hosts) q ∙ at_j))
              ∙ named))
            ∙ at_j,
        named,
      );
  complete = λ j k e.
      let (ne, found) = delete_found id j inv.hosts e in
      delete_other h.name k.name inv.by_name (λ q. ne (
        some_same
          (sym (i.complete id h was) ∙ ap (λ s. lookup s inv.by_name) q ∙ i.complete j k found)))
      ∙ i.complete j k found;
  keyed = λ j k e. i.keyed j k (delete_found id j inv.hosts e).1;
}
