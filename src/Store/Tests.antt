-- ===== src/Store/Tests.antt =====
-- Runs of internal/session/store.go with a codec that sorts the keys, as encoding/json does, and knows
-- the maps of two records.
use gossh.Prelude.{
  ℕ, ◌≡◌, refl, Bool, true, String, List, [], ◌∷◌, Option, none, some, GoMap, insert, eq_iff, arith,
  ◌=s◌, ◌==◌, ◌&&◌, ◌||◌, lookup, Bool-cases, inl, inr, sym, some_same, none-some, bytes_eq,
  if◌then◌else◌,
}
use gossh.Store.{
  ConnectSpec, Metadata, Codec, FileStore, LegacyMetadata, absent, text, rename_fails, renamed,
  file_ops, file_record, persist, new_file_store, loaded,
}
use gossh.Store.Laws.{KeyedMap, StoreLaws, file_ops-StoreLaws}
use gossh.Store.Files.{ReadsBack, Reloads, file_record-Reloads, new_file_store-migrates_once}

abbrev spec_a : ConnectSpec
spec_a = record { host_id = ""; name = "bash"; addr = ""; user = "" }

abbrev meta_a : Metadata
meta_a = record {
  id = "a";
  spec = spec_a;
  title = "one";
  state = "idle";
  created_at = 7;
  run_count = 0;
}

abbrev meta_b : Metadata
meta_b = record {
  id = "b";
  spec = record { host_id = "h_1"; name = "web"; addr = "10.0.0.1:22"; user = "root" };
  title = "two";
  state = "running";
  created_at = 9;
  run_count = 4;
}

abbrev same_meta : Metadata → Metadata → Bool
same_meta m n =
    (m.id =s n.id)
    && ((m.spec.host_id =s n.spec.host_id)
        && ((m.spec.name =s n.spec.name)
            && ((m.spec.addr =s n.spec.addr)
                && ((m.spec.user =s n.spec.user)
                    && ((m.title =s n.title)
                        && ((m.state =s n.state)
                            && (m.created_at == n.created_at && m.run_count == n.run_count)))))))

abbrev same_entry : String × Metadata → String × Metadata → Bool
same_entry e f = (e.0 =s f.0) && same_meta e.1 f.1

abbrev entry_a : String × Metadata
entry_a = ("a", meta_a)

abbrev entry_b : String × Metadata
entry_b = ("b", meta_b)

abbrev in_order : String × Metadata → String × Metadata → Bool
in_order e f = same_entry e entry_a && same_entry f entry_b

abbrev marshal_two : GoMap Metadata → Option (List ℕ)
marshal_two [] = some (0 ∷ [])
marshal_two (e ∷ []) = if same_entry e entry_a then some (1 ∷ []) else none
marshal_two (e ∷ f ∷ []) = if in_order e f || in_order f e then some (2 ∷ []) else none
marshal_two (e ∷ f ∷ g ∷ rest) = none

abbrev unmarshal_two : List ℕ → Option (GoMap Metadata)
unmarshal_two bs =
    if bytes_eq bs (0 ∷ [])
    then some []
    else if bytes_eq bs (1 ∷ [])
    then some (entry_a ∷ [])
    else if bytes_eq bs (2 ∷ [])
    then some (entry_a ∷ entry_b ∷ [])
    else none

abbrev legacy_one : List LegacyMetadata
legacy_one =
    (record {
      id = "a";
      command = "bash";
      args = [];
      title = "one";
      state = "idle";
      created_at = 7;
      run_count = 0;
    })
    ∷ []

abbrev codec_two : Codec
codec_two = record {
  marshal = marshal_two;
  unmarshal = unmarshal_two;
  unmarshal_legacy = λ bs. some legacy_one;
}

same_entry→≡ : (e f : String × Metadata) → same_entry e f ≡ true → e ≡ f
same_entry→≡ (k, m) (j, n) h =
    let e1 : k ≡ j = ground (arith, eq_iff k j) in
    let e2 : m.id ≡ n.id = ground (arith, eq_iff m.id n.id) in
    let e3 : m.spec.host_id ≡ n.spec.host_id =
      ground (arith, eq_iff m.spec.host_id n.spec.host_id) in
    let e4 : m.spec.name ≡ n.spec.name = ground (arith, eq_iff m.spec.name n.spec.name) in
    let e5 : m.spec.addr ≡ n.spec.addr = ground (arith, eq_iff m.spec.addr n.spec.addr) in
    let e6 : m.spec.user ≡ n.spec.user = ground (arith, eq_iff m.spec.user n.spec.user) in
    let e7 : m.title ≡ n.title = ground (arith, eq_iff m.title n.title) in
    let e8 : m.state ≡ n.state = ground (arith, eq_iff m.state n.state) in
    let e9 : m.created_at ≡ n.created_at = ground arith in
    let e10 : m.run_count ≡ n.run_count = ground arith in
    λ i. (
      e1 i,
      record {
        id = e2 i;
        spec = record { host_id = e3 i; name = e4 i; addr = e5 i; user = e6 i };
        title = e7 i;
        state = e8 i;
        created_at = e9 i;
        run_count = e10 i;
      },
    )

-- The order of the two entries does not matter to a lookup.
lookup_swapped :
    (id : String) → lookup id (entry_a ∷ entry_b ∷ []) ≡ lookup id (entry_b ∷ entry_a ∷ [])
unfolding lookup
lookup_swapped id = ground (arith, eq_iff "a" id, eq_iff "b" id, eq_iff "a" "b")

both : (e f : String × Metadata) → in_order e f ≡ true → (e ≡ entry_a) × (f ≡ entry_b)
both e f h = (same_entry→≡ e entry_a (ground arith), same_entry→≡ f entry_b (ground arith))

codec_two-ReadsBack : ReadsBack codec_two
codec_two-ReadsBack [] bs e =
    let made : 0 ∷ [] ≡ bs = some_same e in rw (sym made) ([], refl, (λ id. refl))
codec_two-ReadsBack (e ∷ []) bs h = elim (Bool-cases (same_entry e entry_a)) [
  | inr other ↦ absurd (none-some {a = bs} (rw other at h))
  | inl same ↦
      let made : 1 ∷ [] ≡ bs = some_same (rw same at h) in
      rw (sym made, same_entry→≡ e entry_a same) (entry_a ∷ [], refl, (λ id. refl))
]
codec_two-ReadsBack (e ∷ f ∷ []) bs h = elim (Bool-cases (in_order e f)) [
  | inl straight ↦
      let made : 2 ∷ [] ≡ bs = some_same (rw straight at h) in
      let is = both e f straight in
      rw (sym made, is.0, is.1) (entry_a ∷ entry_b ∷ [], refl, (λ id. refl))
  | inr not_straight ↦ elim (Bool-cases (in_order f e)) [
    | inl swapped ↦
        let made : 2 ∷ [] ≡ bs = some_same (rw (not_straight, swapped) at h) in
        let is = both f e swapped in
        rw (sym made, is.0, is.1) (entry_a ∷ entry_b ∷ [], refl, lookup_swapped)
    | inr other ↦ absurd (none-some {a = bs} (rw (not_straight, other) at h))
  ]
]
codec_two-ReadsBack (x ∷ y ∷ z ∷ rest) bs e = cc

-- A store that has the second record already.
abbrev store_with : Bool → FileStore
store_with good = loaded (entry_b ∷ []) absent (λ n. if good then renamed else rename_fails)

file_record-Reloads_example :
    Reloads codec_two (λ n. renamed) (file_record codec_two meta_a (store_with true)).0
file_record-Reloads_example =
    file_record-Reloads codec_two (λ n. renamed) meta_a (store_with true) codec_two-ReadsBack
      (unfold file_record persist insert in refl)

-- A file in the old format, whose text the codec does not read in the new one.
new_file_store-migrates_once_example :
    Reloads codec_two
      (λ n. renamed)
      (record {
        items = entry_a ∷ [];
        file = text (1 ∷ []);
        writes = λ n. renamed;
        writes_done = 1;
      })
new_file_store-migrates_once_example =
    new_file_store-migrates_once codec_two (λ n. renamed) (λ n. renamed) (3 ∷ []) _
      codec_two-ReadsBack refl (unfold new_file_store insert in refl)

file_ops-StoreLaws_example : StoreLaws (file_ops codec_two) (λ s. KeyedMap s.items)
file_ops-StoreLaws_example = file_ops-StoreLaws codec_two
