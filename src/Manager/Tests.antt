-- ===== src/Manager/Tests.antt =====
-- Runs of internal/session/manager.go on the memory store.
use gossh.Prelude.{
  ◌≡◌, ◌≢◌, refl, true, false, String, [], ◌∷◌, lookup, insert, ok, err, arith, eq_iff,
}
use gossh.Session.Attach.{destroy, new_life}
use gossh.Store.{
  ConnectSpec, Metadata, MemoryStore, memory_ops, new_memory_store, memory_record, memory_get,
}
use gossh.Store.Laws.{memory_ops-StoreLaws}
use gossh.Manager.{
  Manager, Request, Session, create_with_id, destroy_expired, destroy_close, destroy_find,
  destroy_remove, destroy_session, empty_manager, get, is_alive, new_session, not_found,
}
use gossh.Manager.Sweep.{IsSwept, destroy_expired-IsSwept}
use gossh.Manager.Registry.{Registered, calls, creates, retitles, lives, sweeps, removes}
use gossh.Manager.Registry.Calls.{calls-Registered}
use gossh.Manager.Resurrect.{
  Resurrected, closed, create-destroy, create_again, destroy_removes_new_session,
}

abbrev spec_web : ConnectSpec
spec_web = record { host_id = "h_1"; name = "web"; addr = "10.0.0.1:22"; user = "root" }

abbrev ask : String → Request
ask id = record { id = id; spec = spec_web; random_id = "r"; now = 5; factory = λ spec. true }

-- One session at most, and a timeout of 60.
abbrev fresh : Manager MemoryStore
fresh = empty_manager 1 60 new_memory_store

abbrev one : Manager MemoryStore
one = (create_with_id memory_ops (ask "a") fresh).0

abbrev session_a : Session
session_a = new_session 0 "a" spec_web 5

abbrev meta_a : Metadata
meta_a = record {
  id = "a";
  spec = spec_web;
  title = "";
  state = "idle";
  created_at = 5;
  run_count = 0;
}

a_proper : ◌≢◌ {A = String} "a" ""
a_proper = ground (arith, eq_iff "a" "")

calls-Registered_example : Registered memory_ops memory_ops-StoreLaws (
    calls memory_ops memory_ops-StoreLaws
      (creates (ask "a")
        ∷ retitles "a" "mine"
        ∷ lives 0 (new_life 9) true
        ∷ sweeps 70
        ∷ creates (ask "")
        ∷ removes "r"
        ∷ [])
      fresh)
calls-Registered_example =
    calls-Registered memory_ops memory_ops-StoreLaws 1 60 new_memory_store
      (creates (ask "a")
        ∷ retitles "a" "mine"
        ∷ lives 0 (new_life 9) true
        ∷ sweeps 70
        ∷ creates (ask "")
        ∷ removes "r"
        ∷ [])
      tt

fresh-Registered : Registered memory_ops memory_ops-StoreLaws fresh
fresh-Registered = calls-Registered memory_ops memory_ops-StoreLaws 1 60 new_memory_store [] tt

one-Registered : Registered memory_ops memory_ops-StoreLaws one
one-Registered =
    calls-Registered memory_ops memory_ops-StoreLaws 1 60 new_memory_store (creates (ask "a") ∷ [])
      tt

create_again_example : create_with_id memory_ops (ask "a") one ≡ (one, ok (session_a, false))
create_again_example =
    create_again memory_ops memory_ops-StoreLaws (ask "a") (ask "a") fresh one session_a true
      fresh-Registered (unfold create_with_id lookup memory_get empty_manager in refl)
      (unfold new_session in refl) (unfold new_session in a_proper)

create-destroy_example :
    Resurrected memory_ops memory_ops-StoreLaws session_a meta_a
      (create_with_id memory_ops (ask "a") (destroy_session true "a" one).0)
create-destroy_example =
    create-destroy memory_ops memory_ops-StoreLaws (ask "a") one session_a meta_a one-Registered
      (unfold create_with_id lookup insert memory_get empty_manager new_session in refl)
      (unfold create_with_id lookup insert memory_get memory_record empty_manager new_session in
        refl)
      a_proper refl

-- The registry of `one` has room for two here.
abbrev roomy : Manager MemoryStore
roomy = (create_with_id memory_ops (ask "a") (empty_manager 2 60 new_memory_store)).0

abbrev raced : Manager MemoryStore
raced =
    (create_with_id memory_ops (ask "a") (closed memory_ops memory_ops-StoreLaws session_a roomy)).0

destroy_removes_new_session_example :
    (is_alive (new_session 1 "a" spec_web 5) ≡ true)
    × (get "a" raced ≡ ok (new_session 1 "a" spec_web 5))
    × (get "a" (destroy_remove "a" raced) ≡ err not_found)
destroy_removes_new_session_example =
    destroy_removes_new_session memory_ops memory_ops-StoreLaws (ask "a") roomy raced session_a
      (new_session 1 "a" spec_web 5)
      (unfold destroy_find get create_with_id lookup insert memory_get empty_manager new_session in
        refl)
      a_proper
      (unfold create_with_id lookup insert memory_get memory_record empty_manager new_session
          destroy_close destroy in
        refl)

destroy_expired-IsSwept_example :
    IsSwept 70 one.idle_timeout
      (lookup "a" one.sessions)
      (lookup "a" (destroy_expired 70 one).0.sessions)
destroy_expired-IsSwept_example = destroy_expired-IsSwept 70 "a" one
