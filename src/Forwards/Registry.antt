-- ===== src/Forwards/Registry.antt =====
-- internal/api/forward_handler.go: the forwards of the sessions, their registry and its handlers. The
-- mutex makes each method atomic; a handler is several sections. The listener of an entry is a number,
-- and closing one that is closed panics, as its `close(stop)` does; only a dynamic forward has no such
-- channel. What launchOnClient listens on, the session's client and the random id are `Launch`.
pub mod Agreement
pub mod Overlap
pub mod Tests
use gossh.Prelude.{
  ℕ, suc, Bool, true, false, String, List, [], ◌∷◌, Option, none, some, ◌=s◌, ◌==◌, ◌&&◌, ◌||◌, not,
  if◌then◌else◌, GoMap, lookup, insert, delete, Result, ok, err, map,
}
use gossh.Forwards.{ForwardEntry}

pub record ForwardRegistry : Type 0 where
  pub by_session : GoMap (GoMap ForwardEntry)
  pub by_entry_id : GoMap String

abbrev pub new_forward_registry : ForwardRegistry
new_forward_registry = record { by_session = []; by_entry_id = [] }

-- A read of the inner map, nil where there is none.
abbrev pub or_nil : Option (GoMap ForwardEntry) → GoMap ForwardEntry
or_nil none = []
or_nil (some m) = m

unfoldable pub entries_of : String → ForwardRegistry → GoMap ForwardEntry
entries_of session_id r = or_nil (lookup session_id r.by_session)

unfoldable pub add : String → ForwardEntry → ForwardRegistry → ForwardRegistry
unfolding entries_of
add session_id entry r = record {
  by_session = insert session_id (insert entry.id entry (entries_of session_id r)) r.by_session;
  by_entry_id = insert entry.id session_id r.by_entry_id;
}

abbrev pub list : String → ForwardRegistry → List ForwardEntry
list session_id r = map (λ p. p.1) (entries_of session_id r)

unfoldable pub get : String → String → ForwardRegistry → Option ForwardEntry
unfolding entries_of
get session_id entry_id r = lookup entry_id (entries_of session_id r)

unfoldable pub remove : String → String → ForwardRegistry → ForwardRegistry × Bool
unfolding get entries_of
remove session_id entry_id r = elim (get session_id entry_id r) [
  | none ↦ (r, false)
  | some e ↦ (
    record {
      by_session = insert session_id (delete entry_id (entries_of session_id r)) r.by_session;
      by_entry_id = delete entry_id r.by_entry_id;
    },
    true,
  )
]

-- The request of handleAddForward; `none` is a body that does not decode.
pub record ForwardRequest : Type 0 where
  pub kind : String
  pub bind : String
  pub target : String

pub data Refusal : Type 0 where
  bind_required target_required kind_unknown : Refusal
  not_started : String → Refusal

unfoldable pub check_request : Option ForwardRequest → Result Refusal ForwardRequest
check_request none = err bind_required
check_request (some req) =
    if req.bind =s ""
    then err bind_required
    else if (req.kind =s "local") || (req.kind =s "remote")
    then (if req.target =s "" then err target_required else ok req)
    else if req.kind =s "dynamic"
    then ok req
    else err kind_unknown

-- handleAddForward, with what startForward gives for the request.
unfoldable pub handle_add_forward :
    String
    → Option ForwardRequest
    → (ForwardRequest → Result String ForwardEntry)
    → ForwardRegistry
    → ForwardRegistry × Result Refusal ForwardEntry
unfolding check_request add
handle_add_forward session_id body start r = elim (check_request body) [
  | err refused ↦ (r, err refused)
  | ok req ↦ elim (start req) [
    | err msg ↦ (r, err (not_started msg))
    | ok entry ↦ (add session_id entry r, ok entry)
  ]
]

-- The channel and the listener behind an entry are closed.
pub data Cancelled : Type 0 where
  closed : (ℕ → Bool) → Cancelled
  panics : Cancelled

unfoldable pub cancel_entry : ForwardEntry → (ℕ → Bool) → Cancelled
cancel_entry e running =
    let after = closed (λ n. if n == e.handle then false else running n) in
    if e.kind =s "dynamic" then after else if running e.handle then after else panics

-- The three sections of handleDeleteForward: it finds the entry, closes it and removes it.
pub data DeleteState : Type 0 where
  asked gone_404 panicked deleted_204 : DeleteState
  found cancelled : ForwardEntry → DeleteState

pub record Deletion : Type 0 where
  pub registry : ForwardRegistry
  pub running : ℕ → Bool

unfoldable pub delete_step : String → String → DeleteState → Deletion → Deletion × DeleteState
unfolding get cancel_entry remove
delete_step session_id entry_id asked d = elim (get session_id entry_id d.registry) [
  | none ↦ (d, gone_404)
  | some e ↦ (d, found e)
]
delete_step session_id entry_id (found e) d = elim (cancel_entry e d.running) [
  | closed after ↦ (record d { running = after }, cancelled e)
  | panics ↦ (d, panicked)
]
delete_step session_id entry_id (cancelled e) d =
    (record d { registry = (remove session_id entry_id d.registry).0 }, deleted_204)
delete_step session_id entry_id gone_404 d = (d, gone_404)
delete_step session_id entry_id panicked d = (d, panicked)
delete_step session_id entry_id deleted_204 d = (d, deleted_204)
