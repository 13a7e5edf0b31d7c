-- ===== src/Host/Tests.antt =====
-- Runs of internal/host/host.go at concrete records.
use gossh.Prelude.{◌≡◌, refl, String, List, [], ◌∷◌, ok, arith, Bool, eq_iff}
use gossh.Host.{
  Host, Inventory, Call, adds, updates, removes, all_done, rename_fails, calls, cred_default,
  empty_inventory, get, local_host,
}
use gossh.Host.Index.{Indexed}
use gossh.Host.Calls.{calls-Indexed}

abbrev plain : String → String → Host
plain id name = record {
  id = id;
  name = name;
  address = "10.0.0.1";
  port = 0;
  user = "root";
  credential = record { kind = cred_default; key_path = "" };
  forwards = [];
  created_at = 0;
  updated_at = 0;
  is_builtin = Bool.false;
}

abbrev history : List Call
history =
    adds 1 all_done (plain "h_1" "web")
    ∷ adds 2 rename_fails (plain "h_2" "db")
    ∷ updates 3 all_done (plain "h_1" "www")
    ∷ removes all_done "h_2"
    ∷ []

calls-Indexed_example : Indexed (calls history (empty_inventory "hosts.json"))
calls-Indexed_example =
    calls-Indexed "hosts.json" history ((λ e. ground (arith, Bool, eq_iff "www" "")), tt)

abbrev two : Inventory
two = record {
  path = "";
  hosts = ("h_1", plain "h_1" "web") ∷ ("h_2", plain "h_2" "db") ∷ [];
  by_name = ("web", "h_1") ∷ ("db", "h_2") ∷ [];
  disk = [];
}

local_found : (get "ann" "local" two) ≡ ok (local_host "ann")
unfolding get
local_found = refl
