-- ===== src/Forwards/Supervised/Applied.antt =====
-- internal/api/forward_host.go: what the two loops of reconcileLocked do to one key.
use gossh.Prelude.{
  ◌≡◌, ◌≢◌, refl, sym, ap, ◌∙◌, ◌⊎◌, inl, inr, Bool, true, false, String, List, [], ◌∷◌, none, some,
  ◌=s◌, ◌&&◌, not, if◌then◌else◌, lookup, Result-cases, arith, Bool-cases, Option-cases, =s-cases,
  =s_ne, =s→≡, none-some, lookup-delete, insert_here, insert_other, delete_other, eq_iff,
}
use gossh.Host.{Forward, is_enabled}
use gossh.Forwards.{ForwardEntry}
use gossh.Forwards.Supervised.{
  ForwardHostState, HostEnv, forward_key, is_wanted, revoke_key, revoke, launched, apply_forward,
  apply,
}
use gossh.Forwards.Supervised.Loops.{has}

revoke_key-lookup :
    (specs : List Forward) (key j : String) (st : ForwardHostState)
    → lookup j (revoke_key specs key st).entries
      ≡ (if (key =s j) && not (is_wanted specs key) then none else lookup j st.entries)
unfolding revoke_key
revoke_key-lookup specs key j st = elim (Option-cases (lookup key st.entries)) [
  | inl missing ↦
      rw (revoke_key, missing)
        (elim (=s-cases key j) [
          | inl same ↦ rw (sym same, missing) (ground arith)
          | inr other ↦ rw (=s_ne key j other) refl
        ])
  | inr found ↦ elim (Bool-cases (is_wanted specs key)) [
    | inl wanted ↦ rw (revoke_key, found.1, wanted) (ground arith)
    | inr unwanted ↦
        rw (revoke_key, found.1, unwanted) (lookup-delete key j st.entries ∙ (ground arith))
  ]
]

pub revoke-lookup :
    (specs : List Forward) (ks : List String) (j : String) (st : ForwardHostState)
    → lookup j (revoke specs ks st).entries
      ≡ (if has j ks && not (is_wanted specs j) then none else lookup j st.entries)
unfolding revoke
revoke-lookup specs [] j st = refl
revoke-lookup specs (k ∷ ks) j st = ground (
  arith,
  eq_iff k j,
  revoke-lookup specs ks j (revoke_key specs k st),
  revoke_key-lookup specs k j st,
)

-- A forward that is applied, or whose last launch failed.
abbrev pub IsSettled : String → ForwardHostState → Type 0
IsSettled j st =
    ((e : ForwardEntry) × (lookup j st.entries ≡ some e))
    ⊎ ((msg : String) × (lookup j st.failed ≡ some msg))

-- Whether the forward asks for the key.
abbrev pub asks : Forward → String → Bool
asks f j = is_enabled f && (forward_key f =s j)

module _ (env : HostEnv) (j : String) where
  launched-keeps :
      (f : Forward) (e : ForwardEntry) (st : ForwardHostState)
      → forward_key f ≢ j
      → lookup j st.entries ≡ some e
      → lookup j (launched env f st).entries ≡ some e
  unfolding launched
  launched-keeps f e st ne found = elim (Result-cases (env.launch st.next_handle f)) [
    | inl started ↦
        rw (launched, started.1) (insert_other (forward_key f) j _ st.entries ne ∙ found)
    | inr failed ↦ rw (launched, failed.1) found
  ]

  launched-other :
      (f : Forward) (st : ForwardHostState)
      → forward_key f ≢ j
      → lookup j (launched env f st).entries ≡ lookup j st.entries
  unfolding launched
  launched-other f st ne = elim (Result-cases (env.launch st.next_handle f)) [
    | inl started ↦ rw (launched, started.1) (insert_other (forward_key f) j _ st.entries ne)
    | inr failed ↦ rw (launched, failed.1) refl
  ]

  launched-failed :
      (f : Forward) (st : ForwardHostState)
      → forward_key f ≢ j
      → lookup j (launched env f st).failed ≡ lookup j st.failed
  unfolding launched
  launched-failed f st ne = elim (Result-cases (env.launch st.next_handle f)) [
    | inl started ↦ rw (launched, started.1) (delete_other (forward_key f) j st.failed ne)
    | inr failed ↦ rw (launched, failed.1) (insert_other (forward_key f) j _ st.failed ne)
  ]

  launched-settles :
      (f : Forward) (st : ForwardHostState) → forward_key f ≡ j → IsSettled j (launched env f st)
  unfolding launched
  launched-settles f st same = elim (Result-cases (env.launch st.next_handle f)) [
    | inl started ↦
        rw (launched, started.1, sym same) (inl (_, insert_here (forward_key f) _ st.entries))
    | inr failed ↦
        rw (launched, failed.1, sym same) (inr (_, insert_here (forward_key f) _ st.failed))
  ]

  apply_forward-keeps :
      (f : Forward) (e : ForwardEntry) (st : ForwardHostState)
      → lookup j st.entries ≡ some e
      → lookup j (apply_forward env f st).entries ≡ some e
  unfolding apply_forward
  apply_forward-keeps f e st found = elim (Bool-cases (is_enabled f)) [
    | inr off ↦ rw off found
    | inl on ↦ elim (Option-cases (lookup (forward_key f) st.entries)) [
      | inr there ↦ rw (apply_forward, on, there.1) found
      | inl absent ↦
          rw (apply_forward, on, absent)
            (launched-keeps f e st
              (λ same. none-some (sym absent ∙ ap (λ k. lookup k st.entries) same ∙ found)) found)
    ]
  ]

  pub apply_forward-unasked :
      (f : Forward) (st : ForwardHostState)
      → asks f j ≡ false
      → (lookup j (apply_forward env f st).entries ≡ lookup j st.entries)
        × (lookup j (apply_forward env f st).failed ≡ lookup j st.failed)
  unfolding apply_forward
  apply_forward-unasked f st not_asked = elim (Bool-cases (is_enabled f)) [
    | inr off ↦ rw off (refl, refl)
    | inl on ↦ elim (Option-cases (lookup (forward_key f) st.entries)) [
      | inr there ↦ rw (apply_forward, on, there.1) (refl, refl)
      | inl absent ↦
          let ne = differs (ground arith) in
          rw (apply_forward, on, absent) (launched-other f st ne, launched-failed f st ne)
    ]
  ]
    where
      differs : (forward_key f =s j) ≡ false → forward_key f ≢ j
      differs e = ground (arith, eq_iff (forward_key f) j)

  apply_forward-asked :
      (f : Forward) (st : ForwardHostState) → asks f j ≡ true → IsSettled j (apply_forward env f st)
  unfolding apply_forward
  apply_forward-asked f st asked = elim (Bool-cases (is_enabled f)) [
    | inr off ↦ absurd (ground arith)
    | inl on ↦
        let same = =s→≡ (forward_key f) j (ground arith) in
        elim (Option-cases (lookup (forward_key f) st.entries)) [
          | inr there ↦
              rw (apply_forward, on, there.1)
                (inl (there.0, ap (λ k. lookup k st.entries) (sym same) ∙ there.1))
          | inl absent ↦ rw (apply_forward, on, absent) (launched-settles f st same)
        ]
  ]

  apply_forward-IsSettled :
      (f : Forward) (st : ForwardHostState) → IsSettled j st → IsSettled j (apply_forward env f st)
  apply_forward-IsSettled f st settled = elim (Bool-cases (asks f j)) [
    | inl asked ↦ apply_forward-asked f st asked
    | inr other ↦
        let same = apply_forward-unasked f st other in
        elim settled [
          | inl there ↦ inl (there.0, same.0 ∙ there.1)
          | inr said ↦ inr (said.0, same.1 ∙ said.1)
        ]
  ]

  pub apply-keeps :
      (fs : List Forward) (e : ForwardEntry) (st : ForwardHostState)
      → lookup j st.entries ≡ some e
      → lookup j (apply env fs st).entries ≡ some e
  unfolding apply
  apply-keeps [] e st found = found
  apply-keeps (f ∷ fs) e st found =
      apply-keeps fs e (apply_forward env f st) (apply_forward-keeps f e st found)

  pub apply-unwanted :
      (fs : List Forward) (st : ForwardHostState)
      → is_wanted fs j ≡ false
      → lookup j (apply env fs st).entries ≡ lookup j st.entries
  unfolding apply is_wanted
  apply-unwanted [] st h = refl
  apply-unwanted (f ∷ fs) st h =
      apply-unwanted fs (apply_forward env f st) (ground arith)
      ∙ (apply_forward-unasked f st (ground arith)).0

  apply-IsSettled :
      (fs : List Forward) (st : ForwardHostState) → IsSettled j st → IsSettled j (apply env fs st)
  unfolding apply
  apply-IsSettled [] st settled = settled
  apply-IsSettled (f ∷ fs) st settled =
      apply-IsSettled fs (apply_forward env f st) (apply_forward-IsSettled f st settled)

  pub apply-settles :
      (fs : List Forward) (st : ForwardHostState)
      → is_wanted fs j ≡ true
      → IsSettled j (apply env fs st)
  unfolding apply is_wanted
  apply-settles [] st h = cc
  apply-settles (f ∷ fs) st h = elim (Bool-cases (asks f j)) [
    | inl asked ↦ apply-IsSettled fs (apply_forward env f st) (apply_forward-asked f st asked)
    | inr other ↦ apply-settles fs (apply_forward env f st) (ground arith)
  ]
