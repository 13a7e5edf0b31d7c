-- ===== src/Forwards/Supervised.antt =====
-- internal/api/forward_host.go: the forwards of a host on a connection of their own. A function is one
-- critical section under st.mu; what a dial, a launch and the current configuration give it is its
-- `HostEnv`. The connections and the running listeners are numbered as they are made.
pub mod Sound
pub mod Open
pub mod Loops
pub mod Applied
pub mod Launched
pub mod Tests
pub mod Events
pub mod Reconciled
use Prim.Native.String.{◌++◌ as text_append}
use gossh.Prelude.{
  ℕ, suc, zero, ◌*◌, min, Bool, true, false, String, List, [], ◌∷◌, Option, none, some, ◌=s◌, ◌==◌,
  ◌&&◌, ◌||◌, not, if◌then◌else◌, GoMap, lookup, insert, delete, Result, ok, err,
}
use gossh.Host.{Forward, is_enabled, is_local}
use gossh.Forwards.{ForwardEntry}

-- `failed` has the message of each forward that did not start; `running` and `next_handle` are the
-- listeners of this host: which are open, and the number of the next.
pub record ForwardHostState : Type 0 where
  pub host_id : String
  pub dial : Option ℕ
  pub last_prov : Option ℕ
  pub entries : GoMap ForwardEntry
  pub failed : GoMap String
  pub last_err : String
  pub stopped : Bool
  pub supervising : Bool
  pub running : ℕ → Bool
  pub next_handle : ℕ

-- The configuration of the host, and how the n-th launch ends: with a message, or with an entry.
pub record HostEnv : Type 0 where
  pub specs : List Forward
  pub launch : ℕ → Forward → Result String ForwardEntry

unfoldable pub forward_key : Forward → String
forward_key f = text_append f.kind (text_append "|" (text_append f.bind (text_append "|" f.target)))

unfoldable pub new_state : String → ForwardHostState
new_state host_id = record {
  host_id = host_id;
  dial = none;
  last_prov = none;
  entries = [];
  failed = [];
  last_err = "";
  stopped = false;
  supervising = false;
  running = λ n. false;
  next_handle = 0;
}

unfoldable pub has_enabled_forwards : List Forward → Bool
unfolding is_enabled
has_enabled_forwards [] = false
has_enabled_forwards (f ∷ fs) = is_enabled f || has_enabled_forwards fs

abbrev pub provide : Option ℕ → ForwardHostState → ForwardHostState
provide none st = st
provide (some p) st = record st { last_prov = some p }

-- The section of resume: whether a supervisor is to be started.
unfoldable pub resume : HostEnv → ForwardHostState → ForwardHostState × Bool
unfolding has_enabled_forwards
resume env st =
    if st.supervising || not (has_enabled_forwards env.specs)
    then (st, false)
    else (record st { supervising = true }, true)

-- `entry.cancel()`: the listener is closed.
abbrev pub cancel : ℕ → (ℕ → Bool) → ℕ → Bool
cancel h running n = if n == h then false else running n

abbrev pub open_listener : ℕ → (ℕ → Bool) → ℕ → Bool
open_listener h running n = if n == h then true else running n

-- The keys over which a loop ranges.
abbrev pub keys {ℓ} : {V : Type ℓ} → GoMap V → List String
keys [] = []
keys ((k, v) ∷ m) = k ∷ keys m

-- Whether the key is in `wanted`.
unfoldable pub is_wanted : List Forward → String → Bool
unfolding is_enabled forward_key
is_wanted [] key = false
is_wanted (f ∷ fs) key = (is_enabled f && (forward_key f =s key)) || is_wanted fs key

-- The forward of a key is closed and forgotten.
abbrev pub drop_entry : String → ForwardEntry → ForwardHostState → ForwardHostState
drop_entry key e st = record st {
  running = cancel e.handle st.running;
  entries = delete key st.entries;
}

unfoldable pub revoke_key : List Forward → String → ForwardHostState → ForwardHostState
unfolding is_wanted
revoke_key specs key st = elim (lookup key st.entries) [
  | none ↦ st
  | some e ↦
      if is_wanted specs key
      then st
      else record (drop_entry key e st) { failed = delete key st.failed }
]

-- The first loop of reconcileLocked.
unfoldable pub revoke : List Forward → List String → ForwardHostState → ForwardHostState
unfolding revoke_key
revoke specs [] st = st
revoke specs (k ∷ ks) st = revoke specs ks (revoke_key specs k st)

-- A launch of the forward, with the next handle.
unfoldable pub launched : HostEnv → Forward → ForwardHostState → ForwardHostState
unfolding forward_key
launched env f st = elim (env.launch st.next_handle f) [
  | err msg ↦ record st {
    failed = insert (forward_key f) msg st.failed;
    next_handle = suc st.next_handle;
  }
  | ok e ↦ record st {
    entries = insert (forward_key f) (record e { handle = st.next_handle }) st.entries;
    failed = delete (forward_key f) st.failed;
    running = open_listener st.next_handle st.running;
    next_handle = suc st.next_handle;
  }
]

unfoldable pub apply_forward : HostEnv → Forward → ForwardHostState → ForwardHostState
unfolding is_enabled launched
apply_forward env f st =
    if is_enabled f
    then elim (lookup (forward_key f) st.entries) [ none ↦ launched env f st | some e ↦ st ]
    else st

-- The second loop of reconcileLocked.
unfoldable pub apply : HostEnv → List Forward → ForwardHostState → ForwardHostState
unfolding apply_forward
apply env [] st = st
apply env (f ∷ fs) st = apply env fs (apply_forward env f st)

unfoldable pub reconcile_locked : HostEnv → ForwardHostState → ForwardHostState
unfolding revoke apply
reconcile_locked env st = apply env env.specs (revoke env.specs (keys st.entries) st)

-- A new connection is installed and the forwards started on it.
unfoldable pub connected : HostEnv → ℕ → ForwardHostState → ForwardHostState
unfolding reconcile_locked
connected env c st = reconcile_locked env (record st { dial = some c; last_err = "" })

-- The section of ensure, which dials under the lock only if there is no connection; whether resume
-- follows.
unfoldable pub ensure :
    HostEnv → Result String ℕ → Option ℕ → ForwardHostState → ForwardHostState × Bool
unfolding has_enabled_forwards connected reconcile_locked
ensure env dialed prov st0 =
    let st = provide prov st0 in
    if has_enabled_forwards env.specs
    then elim st.dial [
      | some c ↦ (reconcile_locked env st, false)
      | none ↦ elim dialed [
        | err msg ↦ (record st { last_err = msg }, true)
        | ok c ↦ (connected env c st, true)
      ]
    ]
    else (st0, false)

-- The section of reconcile.
unfoldable pub reconcile : HostEnv → ForwardHostState → ForwardHostState
unfolding reconcile_locked
reconcile env st = elim st.dial [ none ↦ st | some c ↦ reconcile_locked env st ]

-- What supervise does after a section: it ends, goes round again, or sleeps for its backoff first.
pub data Verdict : Type 0 where
  exits goes_on sleeps : Verdict

-- supervise, after its dial without the lock has ended.
unfoldable pub supervise_dialed :
    HostEnv → Result String ℕ → ForwardHostState → ForwardHostState × Verdict
unfolding connected
supervise_dialed env (err msg) st = elim st.dial [
  | none ↦ (record st { last_err = msg }, sleeps)
  | some c ↦ (st, sleeps)
]
supervise_dialed env (ok c) st = elim st.dial [
  | some other ↦ (st, goes_on)
  | none ↦ if st.stopped then (st, exits) else (connected env c st, goes_on)
]

-- The loop of handleLost over the entries.
unfoldable pub lose_keys : List String → ForwardHostState → ForwardHostState
lose_keys [] st = st
lose_keys (k ∷ ks) st = elim (lookup k st.entries) [
  | none ↦ lose_keys ks st
  | some e ↦
      lose_keys ks (record (drop_entry k e st) { failed = insert k "connection lost" st.failed })
]

unfoldable pub handle_lost : ForwardHostState → ForwardHostState
unfolding lose_keys
handle_lost st =
    lose_keys (keys st.entries) (record st { dial = none; last_err = "connection lost" })

-- The loop of release over the entries, which cancels them and leaves the map.
unfoldable pub cancel_all : List String → ForwardHostState → ForwardHostState
cancel_all [] st = st
cancel_all (k ∷ ks) st = elim (lookup k st.entries) [
  | none ↦ cancel_all ks st
  | some e ↦ cancel_all ks (record st { running = cancel e.handle st.running })
]

-- The section of release.
unfoldable pub release : ForwardHostState → ForwardHostState
unfolding cancel_all
release st = record (cancel_all (keys st.entries) st) {
  supervising = false;
  entries = [];
  failed = [];
  dial = none;
  stopped = true;
}

-- `min(backoff*2, maxB)`, in any unit of time.
unfoldable pub next_backoff : ℕ → ℕ → ℕ
next_backoff max_backoff backoff = min (backoff * 2) max_backoff

pub data Status : Type 0 where
  disabled pending running_as running_unstarted : Status
  failed_with : String → Status

-- The status that list shows for one forward, with the id of a running one left to the entry.
unfoldable pub status : ForwardHostState → Forward → Status
unfolding is_enabled forward_key
status st f = if not (is_enabled f) then disabled else elim st.dial [
  | none ↦ if st.last_err =s "" then pending else failed_with st.last_err
  | some c ↦ elim (lookup (forward_key f) st.entries) [
    | some e ↦ running_as
    | none ↦ elim (lookup (forward_key f) st.failed) [
      | some msg ↦ failed_with msg
      | none ↦ running_unstarted
    ]
  ]
]
