-- ===== src/Forwards/Supervised/Launched.antt =====
-- internal/api/forward_host.go: what reconcileLocked leaves for a forward that it had to start.
use gossh.Prelude.{
  ℕ, ◌≤◌, ◌≡◌, refl, ap, ◌∙◌, ◌⊎◌, inl, inr, true, String, List, [], ◌∷◌, none, some, ok, err,
  lookup, Result-cases, arith, Bool-cases, =s→≡, insert_here, lookup-delete, =s_self,
}
use gossh.Host.{Forward, is_enabled}
use gossh.Forwards.{ForwardEntry}
use gossh.Forwards.Supervised.{
  ForwardHostState, HostEnv, forward_key, is_wanted, drop_entry, revoke_key, revoke, launched,
  apply_forward, apply,
}
use gossh.Forwards.Supervised.Applied.{asks, apply_forward-unasked}

abbrev pub Among : Forward → List Forward → Type 0
Among f [] = ⊥
Among f (g ∷ gs) = (f ≡ g) ⊎ Among f gs

-- A launch of a forward with the key, numbered from the given handle on, has left its entry and no
-- message, or its message and no entry.
pub data IsLaunched (env : HostEnv) (fs : List Forward) (from : ℕ) (j : String)
    (after : ForwardHostState) : Type 0 where
  came_up :
      (f : Forward) (n : ℕ) (e : ForwardEntry)
      → Among f fs
      → asks f j ≡ true
      → from ≤ n
      → env.launch n f ≡ ok e
      → lookup j after.entries ≡ some (record e { handle = n })
      → lookup j after.failed ≡ none
      → IsLaunched env fs from j after
  went_wrong :
      (f : Forward) (n : ℕ) (msg : String)
      → Among f fs
      → asks f j ≡ true
      → from ≤ n
      → env.launch n f ≡ err msg
      → lookup j after.entries ≡ none
      → lookup j after.failed ≡ some msg
      → IsLaunched env fs from j after

module _ (env : HostEnv) (fs : List Forward) (from : ℕ) (j : String) where
  launched-IsLaunched :
      (f : Forward) (st : ForwardHostState)
      → Among f fs
      → asks f j ≡ true
      → forward_key f ≡ j
      → from ≤ st.next_handle
      → lookup j st.entries ≡ none
      → IsLaunched env fs from j (launched env f st)
  unfolding launched
  launched-IsLaunched f st among asked same later absent =
      elim (Result-cases (env.launch st.next_handle f)) [
        | inl (e, started) ↦
            rw (launched, started)
              (came_up f st.next_handle e among asked later started
                (rw same (insert_here j _ st.entries))
                (rw same (lookup-delete j j st.failed ∙ rw (=s_self j) refl)))
        | inr (msg, wrong) ↦
            rw (launched, wrong)
              (went_wrong f st.next_handle msg among asked later wrong absent
                (rw same (insert_here j msg st.failed)))
      ]

  -- A forward that asks for a key without an entry is launched, whatever message the key has.
  apply_forward-IsLaunched :
      (f : Forward) (st : ForwardHostState)
      → Among f fs
      → asks f j ≡ true
      → from ≤ st.next_handle
      → lookup j st.entries ≡ none
      → IsLaunched env fs from j (apply_forward env f st)
  unfolding apply_forward
  apply_forward-IsLaunched f st among asked later absent =
      let on : is_enabled f ≡ true = ground arith in
      let same = =s→≡ (forward_key f) j (ground arith) in
      rw (apply_forward, on, ap (λ k. lookup k st.entries) same ∙ absent)
        (launched-IsLaunched f st among asked same later absent)

  apply_forward-next_handle :
      (f : Forward) (st : ForwardHostState)
      → from ≤ st.next_handle
      → from ≤ (apply_forward env f st).next_handle
  unfolding apply_forward launched
  apply_forward-next_handle f st later = ground arith

  -- A forward that has an entry is not launched again.
  apply_forward_there :
      (f : Forward) (st : ForwardHostState) (e : ForwardEntry)
      → asks f j ≡ true
      → lookup j st.entries ≡ some e
      → apply_forward env f st ≡ st
  unfolding apply_forward
  apply_forward_there f st e asked there =
      let on : is_enabled f ≡ true = ground arith in
      let same = =s→≡ (forward_key f) j (ground arith) in
      rw (apply_forward, on, ap (λ k. lookup k st.entries) same ∙ there) refl

  apply_forward_again :
      (f : Forward) (st : ForwardHostState)
      → Among f fs
      → from ≤ st.next_handle
      → IsLaunched env fs from j st
      → IsLaunched env fs from j (apply_forward env f st)
  apply_forward_again f st among later (came_up g n e in_fs asks_g high made there said) =
      elim (Bool-cases (asks f j)) [
        | inl asked ↦
            rw (apply_forward_there f st _ asked there)
              (came_up g n e in_fs asks_g high made there said)
        | inr other ↦
            let same = apply_forward-unasked env j f st other in
            came_up g n e in_fs asks_g high made (same.0 ∙ there) (same.1 ∙ said)
      ]
  apply_forward_again f st among later (went_wrong g n msg in_fs asks_g high made absent said) =
      elim (Bool-cases (asks f j)) [
        | inl asked ↦ apply_forward-IsLaunched f st among asked later absent
        | inr other ↦
            let same = apply_forward-unasked env j f st other in
            went_wrong g n msg in_fs asks_g high made (same.0 ∙ absent) (same.1 ∙ said)
      ]

  apply_again :
      (gs : List Forward) (st : ForwardHostState)
      → ((g : Forward) → Among g gs → Among g fs)
      → from ≤ st.next_handle
      → IsLaunched env fs from j st
      → IsLaunched env fs from j (apply env gs st)
  unfolding apply
  apply_again [] st sub later l = l
  apply_again (g ∷ gs) st sub later l =
      apply_again gs (apply_forward env g st) (λ f among. sub f (inr among))
        (apply_forward-next_handle g st later) (apply_forward_again g st (sub g (inl refl)) later l)

  pub apply-IsLaunched :
      (gs : List Forward) (st : ForwardHostState)
      → ((g : Forward) → Among g gs → Among g fs)
      → is_wanted gs j ≡ true
      → from ≤ st.next_handle
      → lookup j st.entries ≡ none
      → IsLaunched env fs from j (apply env gs st)
  unfolding apply is_wanted
  apply-IsLaunched [] st sub wanted later absent = cc
  apply-IsLaunched (g ∷ gs) st sub wanted later absent = elim (Bool-cases (asks g j)) [
    | inl asked ↦
        apply_again gs (apply_forward env g st) (λ f among. sub f (inr among))
          (apply_forward-next_handle g st later)
          (apply_forward-IsLaunched g st (sub g (inl refl)) asked later absent)
    | inr other ↦
        apply-IsLaunched gs (apply_forward env g st) (λ f among. sub f (inr among)) (ground arith)
          (apply_forward-next_handle g st later)
          ((apply_forward-unasked env j g st other).0 ∙ absent)
  ]

revoke_key-next_handle :
    (specs : List Forward) (key : String) (st : ForwardHostState)
    → (revoke_key specs key st).next_handle ≡ st.next_handle
unfolding revoke_key drop_entry
revoke_key-next_handle specs key st = ground arith

pub revoke-next_handle :
    (specs : List Forward) (ks : List String) (st : ForwardHostState)
    → (revoke specs ks st).next_handle ≡ st.next_handle
unfolding revoke
revoke-next_handle specs [] st = refl
revoke-next_handle specs (k ∷ ks) st =
    revoke-next_handle specs ks (revoke_key specs k st) ∙ revoke_key-next_handle specs k st
