-- ===== src/Host/Calls.antt =====
-- internal/host/host.go: what Add, Update and Remove do to the inventory.
use gossh.Prelude.{
  ◌≡◌, ◌≢◌, refl, sym, ap, ◌∙◌, ◌⊎◌, inl, inr, false, String, List, [], ◌∷◌, Option, none, some, ℕ,
  ◌=s◌, lookup, insert, insert_here, insert_other, none-some, some_same, eq_iff, arith, Bool-cases,
  Option-cases,
}
use gossh.Host.{
  Host, HostError, Inventory, FileOutcome, all_done, save, save_failed, id_exists, add, add_check,
  update, remove, with_new, with_update, without, stored_new, stored_update, name_taken, is_local,
  is_set, empty_inventory, Call, adds, updates, removes, calls,
}
use gossh.Host.Index.{Indexed, save-Indexed, with_new-Indexed, with_update-Indexed, without-Indexed}

is_set-false {ℓ} : {A : Type ℓ} (o : Option A) → is_set o ≡ false → o ≡ none
is_set-false none e = refl
is_set-false (some a) e = cc

-- What the guards of addLocked have seen when they let a record through.
pub add_check_passed :
    (h : Host) (inv : Inventory)
    → add_check h inv ≡ none
    → (lookup h.id inv.hosts ≡ none)
      × (lookup h.name inv.by_name ≡ none)
      × (is_local h.id ≡ false)
      × (h.name ≢ "")
unfolding add_check
add_check_passed h inv e = ground (
  arith,
  eq_iff h.name "",
  is_set-false (lookup h.id inv.hosts),
  is_set-false (lookup h.name inv.by_name),
)

add-Indexed :
    (now : ℕ) (fs : FileOutcome) (h : Host) (inv : Inventory)
    → Indexed inv
    → Indexed (add now fs h inv).0
unfolding add
add-Indexed now fs h inv i = elim (Option-cases (add_check h inv)) [
  | inl pass ↦
      let (id, name, _, _) = add_check_passed h inv pass in
      rw (pass, add) (save-Indexed fs (with_new now h inv) (with_new-Indexed now h inv i id name))
  | inr (e, fail) ↦ rw (fail, add) i
]

-- The guard on names, as `with_update-Indexed` wants it.
name_taken-false :
    (h old : Host) (inv : Inventory)
    → h.name ≢ ""
    → name_taken h old inv ≡ false
    → h.name ≢ old.name
    → (id : String) → lookup h.name inv.by_name ≡ some id
    → id ≡ h.id
unfolding name_taken
name_taken-false h old inv proper pass changed id found =
    ground (arith, eq_iff h.name "", eq_iff h.name old.name, eq_iff id h.id)

update-Indexed :
    (now : ℕ) (fs : FileOutcome) (h : Host) (inv : Inventory)
    → h.name ≢ ""
    → Indexed inv
    → Indexed (update now fs h inv).0
unfolding update
update-Indexed now fs h inv proper i = elim (Bool-cases (is_local h.id)) [
  | inl e ↦ rw e i
  | inr e ↦ rw e (elim (Option-cases (lookup h.id inv.hosts)) [
    | inl missing ↦ rw missing i
    | inr (old, was) ↦ rw was (elim (Bool-cases (name_taken h old inv)) [
      | inl dup ↦ rw dup i
      | inr pass ↦ rw pass (
          save-Indexed fs (with_update now h old inv)
            (with_update-Indexed now h old inv i was (name_taken-false h old inv proper pass)))
    ])
  ])
]

remove-Indexed :
    (fs : FileOutcome) (id : String) (inv : Inventory) → Indexed inv → Indexed (remove fs id inv).0
unfolding remove
remove-Indexed fs id inv i = elim (Bool-cases (is_local id)) [
  | inl e ↦ rw e i
  | inr e ↦ rw e (elim (Option-cases (lookup id inv.hosts)) [
    | inl missing ↦ rw missing i
    | inr (h, was) ↦ rw was (save-Indexed fs (without id h inv) (without-Indexed id h inv i was))
  ])
]

-- No update in the list sets an empty name.
abbrev pub NamesSet : List Call → Type 0
NamesSet [] = Unit {0}
NamesSet (updates now fs h ∷ cs) = (h.name ≢ "") × NamesSet cs
NamesSet (adds now fs h ∷ cs) = NamesSet cs
NamesSet (removes fs id ∷ cs) = NamesSet cs

calls-Indexed_from :
    (cs : List Call) (inv : Inventory) → NamesSet cs → Indexed inv → Indexed (calls cs inv)
unfolding calls
calls-Indexed_from [] inv n i = i
calls-Indexed_from (adds now fs h ∷ cs) inv n i =
    calls-Indexed_from cs (add now fs h inv).0 n (add-Indexed now fs h inv i)
calls-Indexed_from (updates now fs h ∷ cs) inv n i =
    calls-Indexed_from cs (update now fs h inv).0 n.1 (update-Indexed now fs h inv n.0 i)
calls-Indexed_from (removes fs id ∷ cs) inv n i =
    calls-Indexed_from cs (remove fs id inv).0 n (remove-Indexed fs id inv i)

-- After any calls of Add, Update and Remove on an empty inventory, whatever the file operations do,
-- if no Update sets an empty name: the index names exactly the records under their names (so names
-- are unique), and each record stands under its id.
pub calls-Indexed :
    (path : String) (cs : List Call) → NamesSet cs → Indexed (calls cs (empty_inventory path))
unfolding empty_inventory lookup
calls-Indexed path cs n = calls-Indexed_from cs _ n (record {
  sound = λ n id e. absurd (none-some e);
  complete = λ id h e. absurd (none-some e);
  keyed = λ id h e. absurd (none-some e);
})

add_refused :
    (now : ℕ) (fs : FileOutcome) (h : Host) (inv : Inventory) (e : HostError)
    → add_check h inv ≡ some e
    → add now fs h inv ≡ (inv, some e)
unfolding add
add_refused now fs h inv e fail = rw (fail, add)

add_passed :
    (now : ℕ) (fs : FileOutcome) (h : Host) (inv : Inventory)
    → add_check h inv ≡ none
    → add now fs h inv ≡ save fs (with_new now h inv)
unfolding add
add_passed now fs h inv pass = rw (pass, add)

check_error :
    (h : Host) (inv : Inventory) (e : HostError) → add_check h inv ≡ some e → e ≢ save_failed
unfolding add_check
check_error h inv e fail = ground arith

save_cases :
    (fs : FileOutcome) (inv : Inventory)
    → (save fs inv ≡ (inv, some save_failed))
      ⊎ (((save fs inv).1 ≡ none)
          × ((save fs inv).0.hosts ≡ inv.hosts)
          × ((save fs inv).0.by_name ≡ inv.by_name)
          × ((inv.path =s "") ≡ false → (save fs inv).0.disk ≡ (save fs inv).0.hosts))
unfolding save
save_cases all_done inv = ground arith
save_cases _ inv = ground arith

save-hosts : (fs : FileOutcome) (inv : Inventory) → (save fs inv).0.hosts ≡ inv.hosts
unfolding save
save-hosts all_done inv = ground arith
save-hosts _ inv = ground arith

-- The three ways an Add ends: refused by a guard with the inventory as it was; refused by the file
-- system with the record in memory but not in the file; or done, with both maps extended, and the
-- file equal to the records where there is a file.
pub add_cases :
    (now : ℕ) (fs : FileOutcome) (h : Host) (inv : Inventory)
    → ((e : HostError) × (add now fs h inv ≡ (inv, some e)) × (e ≢ save_failed))
      ⊎ (add now fs h inv ≡ (with_new now h inv, some save_failed))
      ⊎ (((add now fs h inv).1 ≡ none)
          × ((add now fs h inv).0.hosts ≡ insert h.id (stored_new now h) inv.hosts)
          × ((add now fs h inv).0.by_name ≡ insert h.name h.id inv.by_name)
          × ((inv.path =s "") ≡ false → (add now fs h inv).0.disk ≡ (add now fs h inv).0.hosts))
add_cases now fs h inv = elim (Option-cases (add_check h inv)) [
  | inr (e, fail) ↦ inl (e, add_refused now fs h inv e fail, check_error h inv e fail)
  | inl pass ↦ elim (save_cases fs (with_new now h inv)) [
    | inl e ↦ inr (inl (add_passed now fs h inv pass ∙ e))
    | inr (ok_, hosts, names, disk) ↦
        rw (add_passed now fs h inv pass) (inr (inr (ok_, hosts, names, disk)))
  ]
]

id_taken :
    (h : Host) (inv inv' : Inventory) (k : Host)
    → add_check h inv ≡ none
    → lookup h.id inv'.hosts ≡ some k
    → add_check h inv' ≡ some id_exists
unfolding add_check
id_taken h inv inv' k pass found = ground arith

-- After an Add that failed to save, a second Add of the same record is refused because its id
-- exists: the failed call has left the record in memory.
pub add_save_failed_again :
    (now later : ℕ) (fs fs' : FileOutcome) (h : Host) (inv : Inventory)
    → (add now fs h inv).1 ≡ some save_failed
    → (add later fs' h (add now fs h inv).0).1 ≡ some id_exists
add_save_failed_again now later fs fs' h inv failed = elim (Option-cases (add_check h inv)) [
  | inr (e, fail) ↦ absurd (
      check_error h inv e fail (
        some_same (
          sym (ap (λ (x : Inventory × Option HostError). x.1) (add_refused now fs h inv e fail))
          ∙ failed)))
  | inl pass ↦
      ap (λ (x : Inventory × Option HostError). x.1)
        (add_refused later fs' h (add now fs h inv).0 id_exists (
          id_taken h inv (add now fs h inv).0 (stored_new now h) pass (
            ap (λ (x : Inventory × Option HostError). lookup h.id x.0.hosts)
              (add_passed now fs h inv pass)
            ∙ ap (λ m. lookup h.id m) (save-hosts fs (with_new now h inv))
            ∙ insert_here h.id (stored_new now h) inv.hosts)))
]

not_taken : (h old : Host) (inv : Inventory) → h.name ≡ "" → name_taken h old inv ≡ false
unfolding name_taken
not_taken h old inv empty = ground (arith, eq_iff h.name "")

update_stores :
    (now : ℕ) (fs : FileOutcome) (h old : Host) (inv : Inventory)
    → is_local h.id ≡ false
    → lookup h.id inv.hosts ≡ some old
    → name_taken h old inv ≡ false
    → update now fs h inv ≡ save fs (with_update now h old inv)
unfolding update
update_stores now fs h old inv remote was free = rw (remote, was, free, update)

-- An update to the empty name is stored, whoever else has that name.
update_empty-hosts :
    (now : ℕ) (fs : FileOutcome) (h old : Host) (inv : Inventory)
    → is_local h.id ≡ false
    → lookup h.id inv.hosts ≡ some old
    → h.name ≡ ""
    → (update now fs h inv).0.hosts ≡ insert h.id (stored_update now h old) inv.hosts
update_empty-hosts now fs h old inv remote was empty =
    ap (λ (x : Inventory × Option HostError). x.0.hosts) stored
    ∙ save-hosts fs (with_update now h old inv)
  where
    stored : update now fs h inv ≡ save fs (with_update now h old inv)
    stored = update_stores now fs h old inv remote was (not_taken h old inv empty)

-- Update does not refuse an empty name. Two records whose updates both set it leave an index that
-- does not agree with the records: the name of one of them leads to the other.
pub update_two_empty_names :
    (t1 t2 : ℕ) (f1 f2 : FileOutcome) (a b a0 b0 : Host) (inv : Inventory)
    → is_local a.id ≡ false
    → is_local b.id ≡ false
    → lookup a.id inv.hosts ≡ some a0
    → lookup b.id inv.hosts ≡ some b0
    → a.id ≢ b.id
    → a.name ≡ ""
    → b.name ≡ ""
    → ¬ Indexed (update t2 f2 b (update t1 f1 a inv).0).0
update_two_empty_names t1 t2 f1 f2 a b a0 b0 inv ra rb wa wb ne na nb i =
    let inv1 = (update t1 f1 a inv).0 in
    let inv2 = (update t2 f2 b inv1).0 in
    let e1 : inv1.hosts ≡ insert a.id (stored_update t1 a a0) inv.hosts =
      update_empty-hosts t1 f1 a a0 inv ra wa na in
    let wb1 : lookup b.id inv1.hosts ≡ some b0 =
      ap (λ m. lookup b.id m) e1
      ∙ insert_other a.id b.id (stored_update t1 a a0) inv.hosts ne
      ∙ wb in
    let e2 : inv2.hosts ≡ insert b.id (stored_update t2 b b0) inv1.hosts =
      update_empty-hosts t2 f2 b b0 inv1 rb wb1 nb in
    let la : lookup a.id inv2.hosts ≡ some (stored_update t1 a a0) =
      ap (λ m. lookup a.id m) e2
      ∙ insert_other b.id a.id (stored_update t2 b b0) inv1.hosts (λ q. ne (sym q))
      ∙ ap (λ m. lookup a.id m) e1
      ∙ insert_here a.id (stored_update t1 a a0) inv.hosts in
    let lb : lookup b.id inv2.hosts ≡ some (stored_update t2 b b0) =
      ap (λ m. lookup b.id m) e2 ∙ insert_here b.id (stored_update t2 b b0) inv1.hosts in
    ne (
      some_same (
        sym (i.complete a.id (stored_update t1 a a0) la)
        ∙ ap (λ n. lookup n inv2.by_name) (na ∙ sym nb)
        ∙ i.complete b.id (stored_update t2 b b0) lb))
