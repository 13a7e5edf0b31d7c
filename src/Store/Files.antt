-- ===== src/Store/Files.antt =====
-- internal/session/store.go: what a restart finds in the file.
use gossh.Prelude.{
  ℕ, ◌≡◌, refl, sym, ap, ◌∙◌, Bool, true, false, String, List, [], ◌∷◌, none, some, GoMap, lookup,
  insert, lookup-insert, insert_here, inl, inr, Option-cases, Result, ok, err, ◌⊎◌,
}
use mathlib.Core.Path.{subst}
use gossh.Store.{
  copy_map, Metadata, Codec, FileStore, File, text, WriteOutcome, mkdir_fails, write_fails,
  rename_fails, renamed, file_record, file_get, persist, written, StoreError, parse_failed,
  new_file_store, loaded, migrate, rewritten,
}
use gossh.Store.Laws.{persist-items}

-- What encoding/json promises of the store's own files: what it writes it reads back as a map with the
-- same value at every key; the order of a Go map's keys is not kept.
abbrev pub ReadsBack : Codec → Type 0
ReadsBack codec =
    (m : GoMap Metadata) (bs : List ℕ)
    → codec.marshal m ≡ some bs
    → (read : GoMap Metadata) × (codec.unmarshal bs ≡ some read)
      × ((id : String) → lookup id read ≡ lookup id m)

lookup-copy_map : (id : String) (m : GoMap Metadata) → lookup id (copy_map m) ≡ lookup id m
unfolding lookup
lookup-copy_map id [] = refl
lookup-copy_map id ((k, v) ∷ m) = lookup-insert k id v (copy_map m) ∙ rw (lookup-copy_map id m) refl

-- Loading the file of `before` gives the records of `before`.
abbrev pub Reloads : Codec → (ℕ → WriteOutcome) → FileStore → Type 0
Reloads codec writes before =
    (after : FileStore) × (new_file_store codec writes before.file ≡ ok after)
    × ((id : String) → file_get id after ≡ file_get id before)

written_cases :
    (o : WriteOutcome) (bs : List ℕ) (f : File)
    → (written o bs f ≡ (text bs, true)) ⊎ (written o bs f ≡ (f, false))
written_cases renamed bs f = inl refl
written_cases mkdir_fails bs f = inr refl
written_cases write_fails bs f = inr refl
written_cases rename_fails bs f = inr refl

-- A persist fails and leaves the file, or the file has the text of the records.
pub persist_cases :
    (codec : Codec) (s : FileStore)
    → (((persist codec s).1 ≡ false) × ((persist codec s).0.file ≡ s.file))
      ⊎ (((persist codec s).1 ≡ true)
          × (bs : List ℕ) × (codec.marshal (copy_map s.items) ≡ some bs)
          × ((persist codec s).0.file ≡ text bs))
unfolding persist
persist_cases codec s = elim (Option-cases (codec.marshal (copy_map s.items))) [
  | inl none_ ↦ inl (rw (none_, persist) (refl, refl))
  | inr (bs, made) ↦ elim (written_cases (s.writes s.writes_done) bs s.file) [
    | inl good ↦ inr (rw (made, persist) (ap (λ p. p.1) good, bs, refl, ap (λ p. p.0) good))
    | inr bad ↦ inl (rw (made, persist) (ap (λ p. p.1) bad, ap (λ p. p.0) bad))
  ]
]

new_file_store-text :
    (codec : Codec) (later : ℕ → WriteOutcome) (bs : List ℕ) (m : GoMap Metadata)
    → codec.unmarshal bs ≡ some m
    → new_file_store codec later (text bs) ≡ ok (loaded (copy_map m) (text bs) later)
unfolding new_file_store
new_file_store-text codec later bs m e = rw (e, new_file_store) refl

persist-Reloads :
    (codec : Codec) (later : ℕ → WriteOutcome) (s : FileStore)
    → ReadsBack codec
    → (persist codec s).1 ≡ true
    → Reloads codec later (persist codec s).0
unfolding file_get
persist-Reloads codec later s reads_back done = elim (persist_cases codec s) [
  | inl (failed, _) ↦ cc
  | inr (_, bs, made, wrote) ↦
      let (read, parsed, same) = reads_back (copy_map s.items) bs made in
      (
        loaded (copy_map read) (text bs) later,
        ap (new_file_store codec later) wrote ∙ new_file_store-text codec later bs read parsed,
        λ id.
            lookup-copy_map id read
            ∙ same id
            ∙ lookup-copy_map id s.items
            ∙ sym (ap (lookup id) (persist-items codec s)),
      )
]

-- After a Record that succeeds, whatever the store was and whatever writes follow, NewFileStore
-- loads the file, and every id has the record that it has in the running store, provided that
-- encoding/json reads back what it writes, in whatever order of the keys.
pub file_record-Reloads :
    (codec : Codec) (later : ℕ → WriteOutcome) (m : Metadata) (s : FileStore)
    → ReadsBack codec
    → (file_record codec m s).1 ≡ true
    → Reloads codec later (file_record codec m s).0
unfolding file_record
file_record-Reloads codec later m s reads_back done =
    persist-Reloads codec later (record s { items = insert m.id m s.items }) reads_back done

-- A Record that fails leaves the file as it was, yet the running store has the record: until the next
-- write that succeeds, a restart loses it.
pub file_record_failed :
    (codec : Codec) (m : Metadata) (s : FileStore)
    → (file_record codec m s).1 ≡ false
    → ((file_record codec m s).0.file ≡ s.file) × (file_get m.id (file_record codec m s).0 ≡ some m)
unfolding file_record file_get
file_record_failed codec m s failed =
    let s' = record s { items = insert m.id m s.items } in
    elim (persist_cases codec s') [
      | inl (_, kept) ↦
          (kept, ap (lookup m.id) (persist-items codec s') ∙ insert_here m.id m s.items)
      | inr (done, _, _, _) ↦ cc
    ]

rewritten_found :
    (r : FileStore × Bool) (s : FileStore) → rewritten r ≡ ok s → (r.1 ≡ true) × (r.0 ≡ s)
unfolding rewritten
rewritten_found (r, true) s e = (refl, cc)
rewritten_found (r, false) s e = cc

-- A legacy file that NewFileStore accepts is rewritten: the next NewFileStore reads it in the new
-- format, and every id has the record that the migration gave it, provided that encoding/json reads
-- back what it writes, in whatever order of the keys.
pub new_file_store-migrates_once :
    (codec : Codec) (now later : ℕ → WriteOutcome) (bs : List ℕ) (s : FileStore)
    → ReadsBack codec
    → codec.unmarshal bs ≡ none
    → new_file_store codec now (text bs) ≡ ok s
    → Reloads codec later s
unfolding new_file_store
new_file_store-migrates_once codec now later bs s reads_back old made =
    elim (Option-cases (codec.unmarshal_legacy bs)) [
      | inl bad ↦
          absurd
            (not_ok {x = parse_failed} {y = s} (sym (rw (old, bad, new_file_store) refl) ∙ made))
      | inr (ls, read) ↦
          let start = loaded (migrate ls []) (text bs) now in
          let found =
            rewritten_found (persist codec start) s
              (sym (rw (old, read, new_file_store) refl) ∙ made) in
          subst (Reloads codec later) found.1 (persist-Reloads codec later start reads_back found.0)
    ]
  where
    not_ok :
        {x : StoreError} {y : FileStore} → ◌≡◌ {A = Result StoreError FileStore} (err x) (ok y) → ⊥
    not_ok q = cc
