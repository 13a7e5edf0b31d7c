-- ===== src/Forwards/Registry/Tests.antt =====
-- internal/api/forward_handler.go: the theorems on concrete entries.
use gossh.Prelude.{◌≡◌, refl, true, lookup, insert}
use gossh.Forwards.{ForwardEntry}
use gossh.Forwards.Registry.{
  ForwardRegistry, Deletion, new_forward_registry, entries_of, add, get, delete_step, asked, found,
  cancelled, panicked,
}
use gossh.Forwards.Registry.Overlap.{overlapping_deletes}

abbrev web_entry : ForwardEntry
web_entry = record { handle = 7; id = "k3j5"; kind = "local"; bind = "8080"; target = "web:80" }

abbrev with_web : ForwardRegistry
with_web = add "s_1" web_entry new_forward_registry

abbrev one_open : Deletion
one_open = record { registry = with_web; running = λ n. true }

overlapping_deletes_example :
    (delete_step "s_1" "k3j5" asked one_open ≡ (one_open, found web_entry))
    × ((delete_step "s_1" "k3j5" (found web_entry) one_open).1 ≡ cancelled web_entry)
    × ((delete_step "s_1" "k3j5"
          (found web_entry)
          (delete_step "s_1" "k3j5" (found web_entry) one_open).0).1
        ≡ panicked)
overlapping_deletes_example =
    overlapping_deletes "s_1" "k3j5" web_entry one_open
      (unfold get entries_of add insert lookup in refl) refl refl
