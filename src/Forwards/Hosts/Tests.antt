-- ===== src/Forwards/Hosts/Tests.antt =====
-- internal/api/forward_host.go: the theorem on concrete calls.
use gossh.Prelude.{◌<◌, ◌≡◌, false, List, [], ◌∷◌, none, ok, lookup, insert, delete, arith}
use gossh.Host.{Forward}
use gossh.Forwards.Supervised.{HostEnv}
use gossh.Forwards.Hosts.{
  new_forward_host_manager, resume_host, on_state, state_of, release_host, close_all, release_each,
}
use gossh.Forwards.Hosts.Closing.{
  HostCall, resumes, dials, releases, closes_all, host_call, host_calls, closes_all_closed,
}

abbrev tunnel : Forward
tunnel = record { kind = "local"; bind = "8080"; target = "web:80"; enabled = none }

abbrev always_starts : HostEnv
always_starts = record {
  specs = tunnel ∷ [];
  launch = λ n f.
      ok (record { handle = 0; id = "fwd"; kind = f.kind; bind = f.bind; target = f.target });
}

-- A supervisor whose dial ends after its host was released.
abbrev late_dial : List HostCall
late_dial = resumes always_starts none "h_1" ∷ releases "h_1" ∷ dials 0 always_starts (ok 7) ∷ []

one_made : 0 < (host_call closes_all (host_calls late_dial new_forward_host_manager)).made
unfolding host_call host_calls resume_host on_state state_of release_host close_all release_each
    insert lookup delete
one_made = omega arith

closes_all_closed_example :
    let after = host_call closes_all (host_calls late_dial new_forward_host_manager) in
    (lookup "h_1" after.states ≡ none)
    × ((after.objects 0).dial ≡ none)
    × ((after.objects 0).running 0 ≡ false)
closes_all_closed_example = closes_all_closed late_dial "h_1" 0 0 one_made
