-- ===== src/Store/Laws.antt =====
-- internal/session/store.go: what both stores promise to the manager.
use gossh.Prelude.{
  ◌≡◌, refl, Bool, true, false, String, List, [], ◌∷◌, Option, none, some, ◌=s◌, if◌then◌else◌,
  GoMap, lookup, insert, delete, lookup-insert, lookup-delete, inl, inr, Option-cases,
}
use gossh.Store.{
  copy_map, Metadata, StoreOps, memory_ops, memory_record, memory_forget, memory_get, memory_all,
  values, Codec, FileStore, file_ops, file_record, file_forget, file_get, file_all, persist,
}

-- The first record with the id.
abbrev pub find_meta : String → List Metadata → Option Metadata
find_meta id [] = none
find_meta id (m ∷ ms) = let later = find_meta id ms in if m.id =s id then some m else later

-- A store is a map from ids to records: whether or not a write succeeds, the record is there for
-- later calls; and the list of all records agrees with it while each stands at its own id.
pub record StoreLaws {S : Type 0} (ops : StoreOps S) (IsKeyed : S → Type 0) : Type 0 where
  pub record-IsKeyed : (m : Metadata) (s : S) → IsKeyed s → IsKeyed (ops.record_meta m s).0
  pub forget-IsKeyed : (id : String) (s : S) → IsKeyed s → IsKeyed (ops.forget id s).0
  pub get_record :
      (m : Metadata) (s : S) (id : String)
      → ops.get id (ops.record_meta m s).0 ≡ (if m.id =s id then some m else ops.get id s)
  pub get_forget :
      (gone : String) (s : S) (id : String)
      → ops.get id (ops.forget gone s).0 ≡ (if gone =s id then none else ops.get id s)
  pub find_all : (id : String) (s : S) → IsKeyed s → find_meta id (ops.all s) ≡ ops.get id s

abbrev pub KeyedMap : GoMap Metadata → Type 0
KeyedMap [] = Unit {0}
KeyedMap ((k, m) ∷ rest) = (k ≡ m.id) × KeyedMap rest

if-KeyedMap :
    (b : Bool) (x y : GoMap Metadata) → KeyedMap x → KeyedMap y → KeyedMap (if b then x else y)
if-KeyedMap true x y hx hy = hx
if-KeyedMap false x y hx hy = hy

insert-KeyedMap :
    (m : Metadata) (items : GoMap Metadata) → KeyedMap items → KeyedMap (insert m.id m items)
unfolding insert
insert-KeyedMap m [] h = (refl, tt)
insert-KeyedMap m (e ∷ rest) h =
    if-KeyedMap (e.0 =s m.id) _ _ (refl, h.1) (h.0, insert-KeyedMap m rest h.1)

delete-KeyedMap :
    (id : String) (items : GoMap Metadata) → KeyedMap items → KeyedMap (delete id items)
unfolding delete
delete-KeyedMap id [] h = tt
delete-KeyedMap id (e ∷ rest) h =
    let h' = delete-KeyedMap id rest h.1 in if-KeyedMap (e.0 =s id) _ _ h' (h.0, h')

find-values :
    (id : String) (items : GoMap Metadata)
    → KeyedMap items
    → find_meta id (values items) ≡ lookup id items
unfolding lookup
find-values id [] h = refl
find-values id ((k, m) ∷ rest) h = rw (h.0, find-values id rest h.1) refl

-- The memory store is a map from ids to records.
pub memory_ops-StoreLaws : StoreLaws memory_ops (λ s. KeyedMap s.items)
unfolding memory_record memory_forget memory_get memory_all
memory_ops-StoreLaws = record {
  record-IsKeyed = λ m s h. insert-KeyedMap m s.items h;
  forget-IsKeyed = λ id s h. delete-KeyedMap id s.items h;
  get_record = λ m s id. lookup-insert m.id id m s.items;
  get_forget = λ gone s id. lookup-delete gone id s.items;
  find_all = λ id s h. find-values id s.items h;
}

pub persist-items : (codec : Codec) (s : FileStore) → (persist codec s).0.items ≡ s.items
unfolding persist
persist-items codec s = elim (Option-cases (codec.marshal (copy_map s.items))) [
  | inl none_ ↦ rw (none_, persist) refl
  | inr (bs, made) ↦ rw (made, persist) refl
]

-- The file store is a map from ids to records as well, also when the file cannot be written: a
-- record whose write fails is there until the next restart.
pub file_ops-StoreLaws : (codec : Codec) → StoreLaws (file_ops codec) (λ s. KeyedMap s.items)
unfolding file_record file_forget file_get file_all
file_ops-StoreLaws codec = record {
  record-IsKeyed = λ m s h.
      rw (persist-items codec (record s { items = insert m.id m s.items }))
        (insert-KeyedMap m s.items h);
  forget-IsKeyed = λ id s h.
      rw (persist-items codec (record s { items = delete id s.items }))
        (delete-KeyedMap id s.items h);
  get_record = λ m s id.
      rw (persist-items codec (record s { items = insert m.id m s.items }))
        (lookup-insert m.id id m s.items);
  get_forget = λ gone s id.
      rw (persist-items codec (record s { items = delete gone s.items }))
        (lookup-delete gone id s.items);
  find_all = λ id s h. find-values id s.items h;
}
