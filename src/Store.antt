-- ===== src/Store.antt =====
-- internal/session/store.go: session records, in memory or in a JSON file. The mutex makes each
-- method atomic. The JSON library and the file's text are parameters (`Codec`); the n-th write of a
-- store succeeds or fails as `writes` says. Times and counts are natural numbers.
pub mod Laws
pub mod Files
pub mod Tests
use gossh.Prelude.{
  ℕ, suc, Bool, true, false, String, List, [], ◌∷◌, Option, none, some, map, ◌=s◌, if◌then◌else◌,
  GoMap, lookup, insert, delete, Result, ok, err,
}

-- ConnectSpec of internal/session/manager.go.
pub record ConnectSpec : Type 0 where
  pub host_id : String
  pub name : String
  pub addr : String
  pub user : String

pub record Metadata : Type 0 where
  pub id : String
  pub spec : ConnectSpec
  pub title : String
  pub state : String
  pub created_at : ℕ
  pub run_count : ℕ

-- The interface Store: a method that writes also says whether it succeeded.
pub record StoreOps (S : Type 0) : Type 0 where
  pub record_meta : Metadata → S → S × Bool
  pub forget : String → S → S × Bool
  pub get : String → S → Option Metadata
  pub all : S → List Metadata

abbrev pub values {ℓ} : {V : Type ℓ} → GoMap V → List V
values [] = []
values ((k, v) ∷ m) = v ∷ values m

pub record MemoryStore : Type 0 where
  pub items : GoMap Metadata

abbrev pub new_memory_store : MemoryStore
new_memory_store = record { items = [] }

unfoldable pub memory_record : Metadata → MemoryStore → MemoryStore × Bool
memory_record m s = (record { items = insert m.id m s.items }, true)

unfoldable pub memory_forget : String → MemoryStore → MemoryStore × Bool
memory_forget id s = (record { items = delete id s.items }, true)

unfoldable pub memory_get : String → MemoryStore → Option Metadata
memory_get id s = lookup id s.items

unfoldable pub memory_all : MemoryStore → List Metadata
memory_all s = values s.items

abbrev pub memory_ops : StoreOps MemoryStore
memory_ops = record {
  record_meta = memory_record;
  forget = memory_forget;
  get = memory_get;
  all = memory_all;
}

pub record LegacyMetadata : Type 0 where
  pub id : String
  pub command : String
  pub args : List String
  pub title : String
  pub state : String
  pub created_at : ℕ
  pub run_count : ℕ

-- encoding/json at the three types that the store reads and writes. A list of entries stands for the Go
-- map with these values: `marshal` may write them in any order, and `unmarshal` give them in any.
pub record Codec : Type 0 where
  pub marshal : GoMap Metadata → Option (List ℕ)
  pub unmarshal : List ℕ → Option (GoMap Metadata)
  pub unmarshal_legacy : List ℕ → Option (List LegacyMetadata)

-- What os.ReadFile of the store's file finds.
pub data File : Type 0 where
  absent unreadable : File
  text : List ℕ → File

-- The n-th write of the file: a step before the rename fails, the rename fails, or all succeed.
pub data WriteOutcome : Type 0 where
  mkdir_fails write_fails rename_fails renamed : WriteOutcome

pub record FileStore : Type 0 where
  pub items : GoMap Metadata
  pub file : File
  pub writes : ℕ → WriteOutcome
  pub writes_done : ℕ

pub data StoreError : Type 0 where
  read_failed parse_failed migrate_failed : StoreError

-- A loop over a Go map that copies it; the order in which it ranges is any.
abbrev pub copy_map {ℓ} : {V : Type ℓ} → GoMap V → GoMap V
copy_map [] = []
copy_map ((k, v) ∷ m) = insert k v (copy_map m)

abbrev pub written : WriteOutcome → List ℕ → File → File × Bool
written renamed bs f = (text bs, true)
written _ bs f = (f, false)

-- persist.
unfoldable pub persist : Codec → FileStore → FileStore × Bool
persist codec s = elim (codec.marshal (copy_map s.items)) [
  | none ↦ (s, false)
  | some bs ↦
      let (file', good) = written (s.writes s.writes_done) bs s.file in
      (record s { file = file'; writes_done = suc s.writes_done }, good)
]

unfoldable pub file_record : Codec → Metadata → FileStore → FileStore × Bool
unfolding persist
file_record codec m s = persist codec (record s { items = insert m.id m s.items })

unfoldable pub file_forget : Codec → String → FileStore → FileStore × Bool
unfolding persist
file_forget codec id s = persist codec (record s { items = delete id s.items })

unfoldable pub file_get : String → FileStore → Option Metadata
file_get id s = lookup id s.items

unfoldable pub file_all : FileStore → List Metadata
file_all s = values s.items

abbrev pub file_ops : Codec → StoreOps FileStore
file_ops codec = record {
  record_meta = file_record codec;
  forget = file_forget codec;
  get = file_get;
  all = file_all;
}

-- A legacy record: the command is kept as the display name, and there is no host.
unfoldable pub migrated : LegacyMetadata → Metadata
migrated l = record {
  id = l.id;
  spec = record { host_id = ""; name = l.command; addr = ""; user = "" };
  title = l.title;
  state = l.state;
  created_at = l.created_at;
  run_count = l.run_count;
}

-- The loop over the legacy array: a later record replaces an earlier one with its id.
unfoldable pub migrate : List LegacyMetadata → GoMap Metadata → GoMap Metadata
unfolding migrated
migrate [] m = m
migrate (l ∷ ls) m = migrate ls (insert l.id (migrated l) m)

abbrev pub loaded : GoMap Metadata → File → (ℕ → WriteOutcome) → FileStore
loaded items f writes = record { items = items; file = f; writes = writes; writes_done = 0 }

unfoldable pub rewritten : FileStore × Bool → Result StoreError FileStore
rewritten (s, true) = ok s
rewritten (s, false) = err migrate_failed

-- NewFileStore.
unfoldable pub new_file_store : Codec → (ℕ → WriteOutcome) → File → Result StoreError FileStore
unfolding migrate persist rewritten
new_file_store codec writes absent = ok (loaded [] absent writes)
new_file_store codec writes unreadable = err read_failed
new_file_store codec writes (text bs) = elim (codec.unmarshal bs) [
  | some m ↦ ok (loaded (copy_map m) (text bs) writes)
  | none ↦ elim (codec.unmarshal_legacy bs) [
    | none ↦ err parse_failed
    | some ls ↦ rewritten (persist codec (loaded (migrate ls []) (text bs) writes))
  ]
]
