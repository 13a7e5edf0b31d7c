-- ===== src/Forwards/Supervised/Open.antt =====
-- internal/api/forward_host.go: the loops keep the listeners tracked, and leave the connection.
use gossh.Prelude.{
  ◌≡◌, refl, ◌∙◌, inl, inr, String, List, [], ◌∷◌, none, lookup, insert, Result-cases, arith,
  Bool-cases, Option-cases,
}
use gossh.Host.{Forward, is_enabled}
use gossh.Forwards.Supervised.{
  ForwardHostState, HostEnv, keys, forward_key, is_wanted, drop_entry, revoke_key, revoke, launched,
  apply_forward, apply, reconcile_locked, lose_keys,
}
use gossh.Forwards.Supervised.Sound.{IsTracked, drop-Tracked, skip-Tracked, launch-Tracked}

revoke_key-Tracked :
    (specs : List Forward) (key : String) (st : ForwardHostState)
    → IsTracked st
    → IsTracked (revoke_key specs key st)
unfolding revoke_key
revoke_key-Tracked specs key st t = elim (Option-cases (lookup key st.entries)) [
  | inl missing ↦ rw (revoke_key, missing) t
  | inr found ↦ elim (Bool-cases (is_wanted specs key)) [
    | inl wanted ↦ rw (revoke_key, found.1, wanted) t
    | inr unwanted ↦
        rw (revoke_key, found.1, unwanted)
          (drop-Tracked st.running st.entries st.next_handle key found.0 found.1 t)
  ]
]

revoke-Tracked :
    (specs : List Forward) (ks : List String) (st : ForwardHostState)
    → IsTracked st
    → IsTracked (revoke specs ks st)
unfolding revoke
revoke-Tracked specs [] st t = t
revoke-Tracked specs (k ∷ ks) st t =
    revoke-Tracked specs ks (revoke_key specs k st) (revoke_key-Tracked specs k st t)

launched-Tracked :
    (env : HostEnv) (f : Forward) (st : ForwardHostState)
    → lookup (forward_key f) st.entries ≡ none
    → IsTracked st
    → IsTracked (launched env f st)
unfolding launched
launched-Tracked env f st absent t = elim (Result-cases (env.launch st.next_handle f)) [
  | inl started ↦
      rw (launched, started.1)
        (launch-Tracked st.running st.entries st.next_handle (forward_key f)
          (record started.0 { handle = st.next_handle }) absent refl t)
  | inr failed ↦ rw (launched, failed.1) (skip-Tracked st.running st.entries st.next_handle t)
]

apply_forward-Tracked :
    (env : HostEnv) (f : Forward) (st : ForwardHostState)
    → IsTracked st
    → IsTracked (apply_forward env f st)
unfolding apply_forward
apply_forward-Tracked env f st t = elim (Bool-cases (is_enabled f)) [
  | inr off ↦ rw off t
  | inl on ↦ elim (Option-cases (lookup (forward_key f) st.entries)) [
    | inr there ↦ rw (on, there.1) t
    | inl absent ↦ rw (on, absent) (launched-Tracked env f st absent t)
  ]
]

apply-Tracked :
    (env : HostEnv) (fs : List Forward) (st : ForwardHostState)
    → IsTracked st
    → IsTracked (apply env fs st)
unfolding apply
apply-Tracked env [] st t = t
apply-Tracked env (f ∷ fs) st t =
    apply-Tracked env fs (apply_forward env f st) (apply_forward-Tracked env f st t)

pub reconcile_locked-Tracked :
    (env : HostEnv) (st : ForwardHostState) → IsTracked st → IsTracked (reconcile_locked env st)
unfolding reconcile_locked
reconcile_locked-Tracked env st t =
    apply-Tracked env env.specs (revoke env.specs (keys st.entries) st)
      (revoke-Tracked env.specs (keys st.entries) st t)

pub lose_keys-Tracked :
    (ks : List String) (st : ForwardHostState) → IsTracked st → IsTracked (lose_keys ks st)
unfolding lose_keys
lose_keys-Tracked [] st t = t
lose_keys-Tracked (k ∷ ks) st t = elim (Option-cases (lookup k st.entries)) [
  | inl missing ↦ rw (lose_keys, missing) (lose_keys-Tracked ks st t)
  | inr found ↦
      rw (lose_keys, found.1)
        (lose_keys-Tracked ks
          (record (drop_entry k found.0 st) { failed = insert k "connection lost" st.failed })
          (drop-Tracked st.running st.entries st.next_handle k found.0 found.1 t))
]

-- Connections are not touched by the loops.
revoke_key-dial :
    (specs : List Forward) (key : String) (st : ForwardHostState)
    → (revoke_key specs key st).dial ≡ st.dial
unfolding revoke_key
revoke_key-dial specs key st = ground arith

revoke-dial :
    (specs : List Forward) (ks : List String) (st : ForwardHostState)
    → (revoke specs ks st).dial ≡ st.dial
unfolding revoke
revoke-dial specs [] st = refl
revoke-dial specs (k ∷ ks) st =
    revoke-dial specs ks (revoke_key specs k st) ∙ revoke_key-dial specs k st

apply_forward-dial :
    (env : HostEnv) (f : Forward) (st : ForwardHostState) → (apply_forward env f st).dial ≡ st.dial
unfolding apply_forward launched
apply_forward-dial env f st = ground arith

apply-dial :
    (env : HostEnv) (fs : List Forward) (st : ForwardHostState) → (apply env fs st).dial ≡ st.dial
unfolding apply
apply-dial env [] st = refl
apply-dial env (f ∷ fs) st =
    apply-dial env fs (apply_forward env f st) ∙ apply_forward-dial env f st

pub reconcile_locked-dial :
    (env : HostEnv) (st : ForwardHostState) → (reconcile_locked env st).dial ≡ st.dial
unfolding reconcile_locked
reconcile_locked-dial env st =
    apply-dial env env.specs (revoke env.specs (keys st.entries) st)
    ∙ revoke-dial env.specs (keys st.entries) st
