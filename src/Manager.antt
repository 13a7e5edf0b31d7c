-- ===== src/Manager.antt =====
-- internal/session/manager.go: the registry of sessions. The mutex makes each method atomic, save that
-- Destroy gives it up while it closes the session. The store is a parameter with its laws
-- (Store/Laws); the terminal factory, random ids and clocks are arguments. A session is its lifecycle
-- (Session/Attach) with what the registry reads of it; times are natural numbers. A session is shared
-- by pointer: `handle` is its identity, and a change of it is a change of the entry with its handle.
pub mod Registry
pub mod Resurrect
pub mod Sweep
pub mod History
pub mod Tests
use gossh.Prelude.{
  ℕ, suc, ◌-◌, Bool, true, false, String, List, [], ◌∷◌, Option, none, some, ◌=s◌, ◌==◌, ◌&&◌, ◌||◌,
  not, ltb, leb, if◌then◌else◌, length, GoMap, lookup, insert, delete, Result, ok, err,
}
use gossh.Session.Attach.{State, idle, running, destroyed, Life, new_life, destroy, is_destroyed}
use gossh.Store.{ConnectSpec, Metadata, StoreOps, values}

pub data ManagerError : Type 0 where
  not_found too_many_sessions no_host factory_failed store_failed close_failed : ManagerError

-- Session, as the registry sees it. `exited` is what the terminal says.
pub record Session : Type 0 where
  pub handle : ℕ
  pub id : String
  pub spec : ConnectSpec
  pub title : String
  pub created_at : ℕ
  pub life : Life
  pub exited : Bool

-- A limit or timeout of 0 is none.
pub record Manager (S : Type 0) : Type 0 where
  pub sessions : GoMap Session
  pub store : S
  pub max_session : ℕ
  pub idle_timeout : ℕ
  pub next_handle : ℕ

-- New, of session.go.
unfoldable pub new_session : ℕ → String → ConnectSpec → ℕ → Session
unfolding new_life
new_session handle id spec now = record {
  handle = handle;
  id = id;
  spec = spec;
  title = "";
  created_at = now;
  life = new_life now;
  exited = false;
}

-- State.String.
unfoldable pub state_text : State → String
state_text idle = "idle"
state_text running = "running"
state_text destroyed = "destroyed"

-- What the caller and its environment give to one CreateWithID.
pub record Request : Type 0 where
  pub id : String
  pub spec : ConnectSpec
  pub random_id : String
  pub now : ℕ
  pub factory : ConnectSpec → Bool

-- The id and the spec of the session to make, with the record that it resurrects.
pub record Plan : Type 0 where
  pub id : String
  pub spec : ConnectSpec
  pub recorded : Option Metadata

-- The record of a session just made.
unfoldable pub created_meta : Plan → Session → Metadata
unfolding state_text
created_meta p s = elim p.recorded [
  | none ↦ record {
    id = s.id;
    spec = p.spec;
    title = "";
    state = state_text s.life.state;
    created_at = s.created_at;
    run_count = 0;
  }
  | some old ↦ record {
    id = s.id;
    spec = p.spec;
    title = old.title;
    state = state_text s.life.state;
    created_at = old.created_at;
    run_count = suc old.run_count;
  }
]

abbrev pub is_fresh : Plan → Bool
is_fresh p = elim p.recorded [ none ↦ true | some meta ↦ false ]

abbrev pub is_alive : Session → Bool
is_alive s = not (is_destroyed s.life.state) && not s.exited

-- A change of the session with the handle.
abbrev pub changed : ℕ → (Session → Session) → GoMap Session → GoMap Session
changed h f [] = []
changed h f ((k, s) ∷ rest) = (k, if s.handle == h then f s else s) ∷ changed h f rest

abbrev pub torn : Session → Session
torn s = record s { life = destroy s.life }

abbrev pub not_among : GoMap Session → List Metadata → List Metadata
not_among live [] = []
not_among live (meta ∷ metas) =
    let rest = not_among live metas in
    elim (lookup meta.id live) [ none ↦ meta ∷ rest | some s ↦ rest ]

abbrev pub retitled : String → String → GoMap Session → GoMap Session
retitled id title live = elim (lookup id live) [
  | none ↦ live
  | some s ↦ insert id (record s { title = title }) live
]

-- Whether the sweep at `now` destroys an idle session.
unfoldable pub is_timed_out : ℕ → ℕ → Session → Bool
is_timed_out now timeout s = ltb 0 timeout && leb timeout (now - s.life.last_touched)

-- Whether the sweep at `now` removes the session.
unfoldable pub is_expired : ℕ → ℕ → Session → Bool
unfolding is_timed_out
is_expired now timeout s = elim s.life.state [
  | destroyed ↦ true
  | running ↦ s.exited
  | idle ↦ s.exited || is_timed_out now timeout s
]

-- The loop of DestroyExpired: it deletes as it ranges.
unfoldable pub sweep : ℕ → ℕ → GoMap Session → GoMap Session
unfolding is_expired
sweep now timeout [] = []
sweep now timeout ((id, s) ∷ rest) =
    let later = sweep now timeout rest in
    if is_expired now timeout s then delete id later else (id, s) ∷ later

-- The sessions that the sweep destroys, as they are then: idle, not exited and timed out.
unfoldable pub swept : ℕ → ℕ → List Session → List Session
unfolding is_timed_out
swept now timeout [] = []
swept now timeout (s ∷ rest) =
    let later = swept now timeout rest in
    elim s.life.state [
      | destroyed ↦ later
      | running ↦ later
      | idle ↦ if not s.exited && is_timed_out now timeout s then torn s ∷ later else later
    ]

module _ {S : Type 0} where
  unfoldable pub empty_manager : ℕ → ℕ → S → Manager S
  empty_manager limit timeout store = record {
    sessions = [];
    store = store;
    max_session = limit;
    idle_timeout = timeout;
    next_handle = 0;
  }

  -- The session of the id, unless its terminal has exited; none for an empty id.
  unfoldable pub alive : String → Manager S → Option Session
  alive id m = elim (lookup id m.sessions) [
    | none ↦ none
    | some s ↦ if not (id =s "") && not s.exited then some s else none
  ]

  unfoldable pub is_full : Manager S → Bool
  is_full m = ltb 0 m.max_session && leb m.max_session (length m.sessions)

  unfoldable pub plan : StoreOps S → Request → Manager S → Plan
  plan ops r m =
      if r.id =s ""
      then record { id = r.random_id; spec = r.spec; recorded = none }
      else elim (ops.get r.id m.store) [
        | none ↦ record { id = r.id; spec = r.spec; recorded = none }
        | some meta ↦ record { id = r.id; spec = meta.spec; recorded = some meta }
      ]

  -- The session of the plan is registered and recorded; an error of the store is dropped.
  unfoldable pub start : StoreOps S → ℕ → Plan → Manager S → Manager S
  unfolding new_session created_meta
  start ops now p m =
      let s = new_session m.next_handle p.id p.spec now in
      record m {
        next_handle = suc m.next_handle;
        sessions = insert s.id s m.sessions;
        store = (ops.record_meta (created_meta p s) m.store).0;
      }

  -- CreateWithID: the manager after it, and the session with whether it was created.
  unfoldable pub create_with_id :
      StoreOps S → Request → Manager S → Manager S × Result ManagerError (Session × Bool)
  unfolding alive is_full plan start
  create_with_id ops r m = elim (alive r.id m) [
    | some s ↦ (m, ok (s, false))
    | none ↦
        let p = plan ops r m in
        if is_full m
        then (m, err too_many_sessions)
        else if is_fresh p && (p.spec.host_id =s "")
        then (m, err no_host)
        else if not (r.factory p.spec)
        then (m, err factory_failed)
        else (start ops r.now p m, ok (new_session m.next_handle p.id p.spec r.now, true))
  ]

  -- Status: the sessions among the ids that are neither destroyed nor exited.
  unfoldable pub status : List String → Manager S → List Session
  status [] m = []
  status (id ∷ ids) m =
      let rest = status ids m in
      elim (lookup id m.sessions) [ none ↦ rest | some s ↦ if is_alive s then s ∷ rest else rest ]

  unfoldable pub get : String → Manager S → Result ManagerError Session
  get id m = elim (lookup id m.sessions) [ none ↦ err not_found | some s ↦ ok s ]

  unfoldable pub list : Manager S → List Session
  list m = values m.sessions

  unfoldable pub count : Manager S → ℕ
  count m = length m.sessions

  abbrev pub change_session : ℕ → (Session → Session) → Manager S → Manager S
  change_session h f m = record m { sessions = changed h f m.sessions }

  abbrev pub without_session : String → Manager S → Manager S
  without_session id m = record m { sessions = delete id m.sessions }

  -- Destroy in its three sections: the session is looked up; it is destroyed without the manager's
  -- lock, where closing the terminal may fail; and whatever the id stands for then is removed.
  unfoldable pub destroy_find : String → Manager S → Result ManagerError Session
  unfolding get
  destroy_find id m = get id m

  unfoldable pub destroy_close : Session → Manager S → Manager S
  destroy_close s m = change_session s.handle torn m

  unfoldable pub destroy_remove : String → Manager S → Manager S
  destroy_remove id m = without_session id m

  -- Destroy, when no other call comes between its sections; `closes` says whether the terminal of a
  -- session that was not destroyed before closes without an error.
  unfoldable pub destroy_session : Bool → String → Manager S → Manager S × Option ManagerError
  unfolding destroy_find destroy_close destroy_remove
  destroy_session closes id m = elim (destroy_find id m) [
    | err e ↦ (m, some e)
    | ok s ↦
        let m' = destroy_close s m in
        if closes || is_destroyed s.life.state
        then (destroy_remove id m', none)
        else (m', some close_failed)
  ]

  -- History: the records whose id is not registered.
  unfoldable pub history : StoreOps S → Manager S → List Metadata
  history ops m = not_among m.sessions (ops.all m.store)

  -- The loop of UpdateTitle over the records.
  abbrev pub retitle_record :
      StoreOps S → String → String → List Metadata → S → S × Option ManagerError
  retitle_record ops id title [] store = (store, some not_found)
  retitle_record ops id title (meta ∷ metas) store =
      let rest = retitle_record ops id title metas store in
      let (store', good) = ops.record_meta (record meta { title = title }) store in
      if meta.id =s id then (store', if good then none else some store_failed) else rest

  unfoldable pub update_title :
      StoreOps S → String → String → Manager S → Manager S × Option ManagerError
  update_title ops id title m =
      let (store', e) = retitle_record ops id title (ops.all m.store) m.store in
      (record m { sessions = retitled id title m.sessions; store = store' }, e)

  -- DestroyExpired, with the sessions that it destroys.
  unfoldable pub destroy_expired : ℕ → Manager S → Manager S × List Session
  unfolding sweep swept
  destroy_expired now m = (
    record m { sessions = sweep now m.idle_timeout m.sessions },
    swept now m.idle_timeout (values m.sessions),
  )
