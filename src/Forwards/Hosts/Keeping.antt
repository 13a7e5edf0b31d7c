-- ===== src/Forwards/Hosts/Keeping.antt =====
-- internal/api/forward_host.go: every open listener belongs to a host that has a state.
use mathlib.Core.Path.{subst}
use gossh.Prelude.{
  ℕ, ◌<◌, ◌≡◌, ◌≢◌, refl, sym, ap, ◌∙◌, ◌⊎◌, inl, inr, true, String, none, some, ◌==◌, GoMap,
  lookup, arith, Bool-cases, Option-cases, ==_iff, insert_here, insert_other, insert_found,
  delete_found, delete_other, some_same, none-some,
}
use gossh.Forwards.Supervised.{ForwardHostState, new_state, release}
use gossh.Forwards.Supervised.Events.{IsSound, release-IsSound, new_state-IsSound}
use gossh.Forwards.Hosts.{ForwardHostManager, at_object, state_of, on_state, release_host}

-- A state that was released.
abbrev pub IsDown : ForwardHostState → Type 0
IsDown st = (st.dial ≡ none) × (st.stopped ≡ true)

pub record Keeps (states : GoMap ℕ) (objects : ℕ → ForwardHostState) (made : ℕ) : Type 0 where
  pub sound : (h : ℕ) → IsSound (objects h)
  pub fresh : (k : String) (h : ℕ) → lookup k states ≡ some h → h < made
  pub unique : (k j : String) (h : ℕ) → lookup k states ≡ some h → lookup j states ≡ some h → k ≡ j
  pub reached :
      (h : ℕ) → h < made → ((k : String) × (lookup k states ≡ some h)) ⊎ IsDown (objects h)

abbrev pub IsKept : ForwardHostManager → Type 0
IsKept m = Keeps m.states m.objects m.made

at_object_here :
    (h : ℕ) (f : ForwardHostState → ForwardHostState) (objects : ℕ → ForwardHostState)
    → at_object h f objects h ≡ f (objects h)
at_object_here h f objects = rw ((==_iff h h).1 refl) refl

at_object_other :
    (h n : ℕ) (f : ForwardHostState → ForwardHostState) (objects : ℕ → ForwardHostState)
    → n ≢ h
    → at_object h f objects n ≡ objects n
at_object_other h n f objects ne = elim (Bool-cases (n == h)) [
  | inl same ↦ absurd (ne ((==_iff n h).0 same))
  | inr other ↦ rw other refl
]

at_object-IsSound :
    (h : ℕ) (f : ForwardHostState → ForwardHostState) (objects : ℕ → ForwardHostState)
    → ((st : ForwardHostState) → IsSound st → IsSound (f st))
    → ((n : ℕ) → IsSound (objects n))
    → (n : ℕ) → IsSound (at_object h f objects n)
at_object-IsSound h f objects keeps sound n = elim (Bool-cases (n == h)) [
  | inl same ↦ rw same (keeps (objects n) (sound n))
  | inr other ↦ rw other (sound n)
]

equal-cases : (a b : ℕ) → (a ≡ b) ⊎ (a ≢ b)
equal-cases a b = ground arith

-- A state that the map has is changed.
changed-Keeps :
    (states : GoMap ℕ) (objects : ℕ → ForwardHostState) (made : ℕ) (host_id : String) (h : ℕ)
    (f : ForwardHostState → ForwardHostState)
    → ((st : ForwardHostState) → IsSound st → IsSound (f st))
    → lookup host_id states ≡ some h
    → Keeps states objects made
    → Keeps states (at_object h f objects) made
changed-Keeps states objects made host_id h f keeps there k = record {
  sound = at_object-IsSound h f objects keeps k.sound;
  fresh = k.fresh;
  unique = k.unique;
  reached = λ n made_before. elim (equal-cases n h) [
    | inl same ↦ inl (host_id, there ∙ ap some (sym same))
    | inr other ↦ elim (k.reached n made_before) [
      | inl registered ↦ inl registered
      | inr down ↦ inr (subst IsDown (sym (at_object_other h n f objects other)) down)
    ]
  ];
}

pub state_of-IsKept :
    (host_id : String) (m : ForwardHostManager)
    → IsKept m
    → IsKept (state_of host_id m).0
      × (lookup host_id (state_of host_id m).0.states ≡ some (state_of host_id m).1)
unfolding state_of
state_of-IsKept host_id m k = elim (Option-cases (lookup host_id m.states)) [
  | inr there ↦ rw (state_of, there.1) (k, there.1)
  | inl missing ↦
      rw (state_of, missing)
        (
          record {
            sound =
                at_object-IsSound m.made (λ old. new_state host_id) m.objects
                  (λ st s. new_state-IsSound host_id) k.sound;
            fresh = λ j h found. elim (insert_found host_id j m.made m.states found) [
              | inl new ↦ omega (arith, new.1)
              | inr old ↦ omega (arith, k.fresh j h old.1)
            ];
            unique = λ a b h at_a at_b. elim (insert_found host_id a m.made m.states at_a) [
              | inl new ↦ elim (insert_found host_id b m.made m.states at_b) [
                | inl also ↦ sym new.0 ∙ also.0
                | inr old ↦ absurd (omega (arith, new.1, k.fresh b h old.1))
              ]
              | inr was ↦ elim (insert_found host_id b m.made m.states at_b) [
                | inl also ↦ absurd (omega (arith, also.1, k.fresh a h was.1))
                | inr old ↦ k.unique a b h was.1 old.1
              ]
            ];
            reached = λ n made_before. elim (equal-cases n m.made) [
              | inl same ↦ inl (host_id, insert_here host_id m.made m.states ∙ ap some (sym same))
              | inr other ↦ elim (k.reached n (omega (arith, made_before, other))) [
                | inl registered ↦ inl (
                  registered.0,
                  insert_other host_id registered.0 m.made m.states (λ same.
                        none-some (sym missing ∙ ap (λ j. lookup j m.states) same ∙ registered.1))
                      ∙ registered.1,
                )
                | inr down ↦ inr (
                    subst IsDown
                      (sym (at_object_other m.made n (λ old. new_state host_id) m.objects other))
                      down)
              ]
            ];
          },
          insert_here host_id m.made m.states,
        )
]

pub on_state-IsKept :
    (host_id : String) (f : ForwardHostState → ForwardHostState) (m : ForwardHostManager)
    → ((st : ForwardHostState) → IsSound st → IsSound (f st))
    → IsKept m
    → IsKept (on_state host_id f m)
unfolding on_state
on_state-IsKept host_id f m keeps k =
    let got = state_of-IsKept host_id m k in
    changed-Keeps (state_of host_id m).0.states (state_of host_id m).0.objects
      (state_of host_id m).0.made host_id (state_of host_id m).1 f keeps got.1 got.0

released-IsDown : (st : ForwardHostState) → IsDown (release st)
unfolding release
released-IsDown st = (refl, refl)

pub release_host-IsKept :
    (host_id : String) (m : ForwardHostManager) → IsKept m → IsKept (release_host host_id m)
unfolding release_host
release_host-IsKept host_id m k = elim (Option-cases (lookup host_id m.states)) [
  | inl missing ↦ rw (release_host, missing) k
  | inr there ↦
      rw (release_host, there.1)
        (record {
          sound = at_object-IsSound there.0 release m.objects release-IsSound k.sound;
          fresh = λ j h found. k.fresh j h (delete_found host_id j m.states found).1;
          unique = λ a b h at_a at_b.
              k.unique a b h (delete_found host_id a m.states at_a).1
                (delete_found host_id b m.states at_b).1;
          reached = λ n made_before. elim (equal-cases n there.0) [
            | inl same ↦ inr (
                subst IsDown
                  (sym (
                    ap (at_object there.0 release m.objects) same
                    ∙ at_object_here there.0 release m.objects))
                  (released-IsDown (m.objects there.0)))
            | inr other ↦ elim (k.reached n made_before) [
              | inl registered ↦ inl (
                registered.0,
                delete_other host_id registered.0 m.states (λ same. other (
                      some_same
                        (sym registered.1 ∙ ap (λ j. lookup j m.states) (sym same) ∙ there.1)))
                    ∙ registered.1,
              )
              | inr down ↦
                  inr (subst IsDown (sym (at_object_other there.0 n release m.objects other)) down)
            ]
          ];
        })
]

-- A section of a supervisor, whose state the map may have lost: one that leaves a released state down.
pub supervised-IsKept :
    (h : ℕ) (f : ForwardHostState → ForwardHostState) (m : ForwardHostManager)
    → ((st : ForwardHostState) → IsSound st → IsSound (f st))
    → ((st : ForwardHostState) → IsDown st → IsDown (f st))
    → IsKept m
    → IsKept (record m { objects = at_object h f m.objects })
supervised-IsKept h f m keeps stays k = record {
  sound = at_object-IsSound h f m.objects keeps k.sound;
  fresh = k.fresh;
  unique = k.unique;
  reached = λ n made_before. elim (k.reached n made_before) [
    | inl registered ↦ inl registered
    | inr down ↦ elim (equal-cases n h) [
      | inl same ↦ inr (
          subst IsDown (sym (ap (at_object h f m.objects) same ∙ at_object_here h f m.objects))
            (stays (m.objects h) (subst (λ i. IsDown (m.objects i)) same down)))
      | inr other ↦ inr (subst IsDown (sym (at_object_other h n f m.objects other)) down)
    ]
  ];
}
