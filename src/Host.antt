-- ===== src/Host.antt =====
-- internal/host/host.go: the host inventory, a map of host records with an index from names to ids,
-- written to a JSON file after each change. The mutex makes each method atomic. Times are arguments,
-- the OS user's name is a parameter, and the outcome of the file operations of saveLocked is an
-- argument of each method that saves. cloneHost copies a record; records are values here.
pub mod Index
pub mod Calls
pub mod Tests
use gossh.Prelude.{
  ℕ, Bool, true, false, String, List, [], ◌∷◌, Option, none, some, ◌||◌, ◌&&◌, not, ◌=s◌, ◌==◌,
  if◌then◌else◌, lookup, insert, delete, Result, ok, err,
}

abbrev pub default_port : ℕ
default_port = 22

abbrev pub local_id : String
local_id = "local"

pub data HostError : Type 0 where
  not_found id_exists name_dup argument builtin save_failed : HostError

unfoldable pub is_local : String → Bool
is_local id = id =s local_id

pub data CredentialKind : Type 0 where
  cred_default cred_key cred_agent cred_password : CredentialKind

pub record Credential : Type 0 where
  pub kind : CredentialKind
  pub key_path : String

pub record Forward : Type 0 where
  pub kind : String
  pub bind : String
  pub target : String
  pub enabled : Option Bool

unfoldable pub is_enabled : Forward → Bool
is_enabled f = elim f.enabled [ none ↦ true | some b ↦ b ]

pub record Host : Type 0 where
  pub id : String
  pub name : String
  pub address : String
  pub port : ℕ
  pub user : String
  pub credential : Credential
  pub forwards : List Forward
  pub created_at : ℕ
  pub updated_at : ℕ
  pub is_builtin : Bool

-- The port of `Addr`; the code joins it to the address.
unfoldable pub addr_port : Host → ℕ
addr_port h = if h.port == 0 then default_port else h.port

-- The built-in record, for the current user's name.
unfoldable pub local_host : String → Host
local_host current_user = record {
  id = local_id;
  name = "Local";
  address = "127.0.0.1";
  port = 0;
  user = current_user;
  credential = record { kind = cred_default; key_path = "" };
  forwards = [];
  created_at = 0;
  updated_at = 0;
  is_builtin = true;
}

-- `disk` is what the inventory file holds.
pub record Inventory : Type 0 where
  pub path : String
  pub hosts : List (String × Host)
  pub by_name : List (String × String)
  pub disk : List (String × Host)

-- What the file operations of saveLocked do: one of the steps before the rename fails, the rename
-- fails, or all succeed.
pub data FileOutcome : Type 0 where
  mkdir_fails write_fails rename_fails all_done : FileOutcome

unfoldable pub save : FileOutcome → Inventory → Inventory × Option HostError
save all_done inv = if inv.path =s "" then (inv, none) else (record inv { disk = inv.hosts }, none)
save _ inv = if inv.path =s "" then (inv, none) else (inv, some save_failed)

unfoldable pub get : String → String → Inventory → Result HostError Host
unfolding is_local local_host
get current_user id inv =
    if is_local id
    then ok (local_host current_user)
    else elim (lookup id inv.hosts) [ none ↦ err not_found | some h ↦ ok h ]

abbrev pub is_set {ℓ} : {A : Type ℓ} → Option A → Bool
is_set none = false
is_set (some a) = true

-- The guards of addLocked, in order.
unfoldable pub add_check : Host → Inventory → Option HostError
unfolding is_local
add_check h inv =
    if h.id =s ""
    then some argument
    else if is_local h.id
    then some builtin
    else if is_set (lookup h.id inv.hosts)
    then some id_exists
    else if h.name =s "" || (h.address =s "" || h.user =s "")
    then some argument
    else if is_set (lookup h.name inv.by_name)
    then some name_dup
    else none

abbrev pub stored_new : ℕ → Host → Host
stored_new now h = record h { created_at = now; updated_at = now }

abbrev pub with_new : ℕ → Host → Inventory → Inventory
with_new now h inv = record inv {
  hosts = insert h.id (stored_new now h) inv.hosts;
  by_name = insert h.name h.id inv.by_name;
}

unfoldable pub add : ℕ → FileOutcome → Host → Inventory → Inventory × Option HostError
unfolding add_check save
add now fs h inv = elim (add_check h inv) [
  | some e ↦ (inv, some e)
  | none ↦ save fs (with_new now h inv)
]

-- `if id, dup := inv.byName[h.Name]; dup && id != h.ID`, reached for a new name that is not empty.
unfoldable pub name_taken : Host → Host → Inventory → Bool
name_taken h old inv =
    not (h.name =s "")
    && (not (h.name =s old.name)
        && elim (lookup h.name inv.by_name) [ none ↦ false | some id ↦ not (id =s h.id) ])

abbrev pub stored_update : ℕ → Host → Host → Host
stored_update now h old = record h { created_at = old.created_at; updated_at = now }

-- The index after an update: the new name, and the old one gone if it differs.
unfoldable pub renamed : Host → Host → Inventory → List (String × String)
renamed h old inv =
    let named = insert h.name h.id inv.by_name in
    if old.name =s h.name then named else delete old.name named

abbrev pub with_update : ℕ → Host → Host → Inventory → Inventory
with_update now h old inv = record inv {
  hosts = insert h.id (stored_update now h old) inv.hosts;
  by_name = renamed h old inv;
}

unfoldable pub update : ℕ → FileOutcome → Host → Inventory → Inventory × Option HostError
unfolding is_local name_taken save
update now fs h inv = if is_local h.id then (inv, some builtin) else elim (lookup h.id inv.hosts) [
  | none ↦ (inv, some not_found)
  | some old ↦
      if name_taken h old inv then (inv, some name_dup) else save fs (with_update now h old inv)
]

abbrev pub without : String → Host → Inventory → Inventory
without id h inv = record inv { hosts = delete id inv.hosts; by_name = delete h.name inv.by_name }

unfoldable pub remove : FileOutcome → String → Inventory → Inventory × Option HostError
unfolding is_local save
remove fs id inv = if is_local id then (inv, some builtin) else elim (lookup id inv.hosts) [
  | none ↦ (inv, some not_found)
  | some h ↦ save fs (without id h inv)
]

unfoldable pub empty_inventory : String → Inventory
empty_inventory path = record { path = path; hosts = []; by_name = []; disk = [] }

-- A call that changes the inventory, with its time and the outcome of its file operations.
pub data Call : Type 0 where
  adds updates : ℕ → FileOutcome → Host → Call
  removes : FileOutcome → String → Call

unfoldable pub call : Call → Inventory → Inventory
unfolding add update remove
call (adds now fs h) inv = (add now fs h inv).0
call (updates now fs h) inv = (update now fs h inv).0
call (removes fs id) inv = (remove fs id inv).0

unfoldable pub calls : List Call → Inventory → Inventory
unfolding call
calls [] inv = inv
calls (c ∷ cs) inv = calls cs (call c inv)
