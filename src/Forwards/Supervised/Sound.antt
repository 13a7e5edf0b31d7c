-- ===== src/Forwards/Supervised/Sound.antt =====
-- internal/api/forward_host.go: which listeners are open after any sections on the state of a host.
use gossh.Prelude.{
  ℕ, suc, ◌<◌, ◌≡◌, ◌≢◌, sym, ap, ◌∙◌, ◌⊎◌, inl, inr, Bool, true, String, none, some, GoMap, lookup,
  insert, delete, arith, ==_iff, insert_here, insert_other, insert_found, delete_found,
  delete_other, some_same, none-some,
}
use gossh.Forwards.{ForwardEntry}
use gossh.Forwards.Supervised.{ForwardHostState, cancel, open_listener}

-- The open listeners are those of the entries, each entry has one of its own, and numbers are given
-- out in order.
pub record Tracked (running : ℕ → Bool) (entries : GoMap ForwardEntry) (next : ℕ) : Type 0 where
  pub fresh : (i : ℕ) → running i ≡ true → i < next
  pub held : (k : String) (e : ForwardEntry) → lookup k entries ≡ some e → running e.handle ≡ true
  pub owned :
      (i : ℕ)
      → running i ≡ true
      → (k : String) × (e : ForwardEntry) × (lookup k entries ≡ some e) × (e.handle ≡ i)
  pub unique :
      (k j : String) (e d : ForwardEntry)
      → lookup k entries ≡ some e
      → lookup j entries ≡ some d
      → e.handle ≡ d.handle
      → k ≡ j

abbrev pub IsTracked : ForwardHostState → Type 0
IsTracked st = Tracked st.running st.entries st.next_handle

pub cancel_keeps :
    (h i : ℕ) (running : ℕ → Bool) → i ≢ h → running i ≡ true → cancel h running i ≡ true
cancel_keeps h i running ne e = ground (arith, ==_iff i h)

pub cancel_open :
    (h i : ℕ) (running : ℕ → Bool) → cancel h running i ≡ true → (i ≢ h) × (running i ≡ true)
cancel_open h i running e = ground (arith, ==_iff i h)

open_cases :
    (h i : ℕ) (running : ℕ → Bool)
    → open_listener h running i ≡ true
    → (i ≡ h) ⊎ ((i ≢ h) × (running i ≡ true))
open_cases h i running e = ground (arith, ==_iff i h)

open_listener_here : (h : ℕ) (running : ℕ → Bool) → open_listener h running h ≡ true
open_listener_here h running = ground (arith, ==_iff h h)

open_keeps : (h i : ℕ) (running : ℕ → Bool) → running i ≡ true → open_listener h running i ≡ true
open_keeps h i running e = ground (arith, ==_iff i h)

module _ (running : ℕ → Bool) (entries : GoMap ForwardEntry) (next : ℕ) where
  pub drop-Tracked :
      (key : String) (e : ForwardEntry)
      → lookup key entries ≡ some e
      → Tracked running entries next
      → Tracked (cancel e.handle running) (delete key entries) next
  drop-Tracked key e found t = record {
    fresh = λ i r. t.fresh i (cancel_open e.handle i running r).1;
    held = λ k d there.
        let left = delete_found key k entries there in
        cancel_keeps e.handle d.handle running
          (λ same. left.0 (t.unique key k e d found left.1 (sym same))) (t.held k d left.1);
    owned = λ i r.
        let stays = cancel_open e.handle i running r in
        let owner = t.owned i stays.1 in
        (
          owner.0,
          owner.1,
          delete_other key owner.0 entries (λ same. stays.0 (
                sym owner.3
                ∙ ap (λ d. d.handle)
                    (some_same (sym owner.2 ∙ ap (λ k. lookup k entries) (sym same) ∙ found))))
              ∙ owner.2,
          owner.3,
        );
    unique = λ k j d f there yonder same.
        t.unique k j d f (delete_found key k entries there).1 (delete_found key j entries yonder).1
          same;
  }

  pub skip-Tracked : Tracked running entries next → Tracked running entries (suc next)
  skip-Tracked t = record {
    fresh = λ i r. ground (arith, t.fresh i r);
    held = t.held;
    owned = t.owned;
    unique = t.unique;
  }

  unopened :
      Tracked running entries next
      → (k : String) (d : ForwardEntry) → lookup k entries ≡ some d
      → d.handle ≡ next
      → ⊥
  unopened t k d there same = omega (arith, t.fresh d.handle (t.held k d there))

  pub launch-Tracked :
      (key : String) (e : ForwardEntry)
      → lookup key entries ≡ none
      → e.handle ≡ next
      → Tracked running entries next
      → Tracked (open_listener next running) (insert key e entries) (suc next)
  launch-Tracked key e absent at t = record {
    fresh = λ i r. elim (open_cases next i running r) [
      | inl same ↦ omega arith
      | inr older ↦ omega (arith, t.fresh i older.1)
    ];
    held = λ k d there. elim (insert_found key k e entries there) [
      | inl same ↦
          ap (open_listener next running) (ap (λ f. f.handle) (sym same.1) ∙ at)
          ∙ open_listener_here next running
      | inr older ↦ open_keeps next d.handle running (t.held k d older.1)
    ];
    owned = λ i r. elim (open_cases next i running r) [
      | inl same ↦ (key, e, insert_here key e entries, at ∙ sym same)
      | inr older ↦
          let owner = t.owned i older.1 in
          (
            owner.0,
            owner.1,
            insert_other key owner.0 e entries
                  (λ same. none-some (sym absent ∙ ap (λ k. lookup k entries) same ∙ owner.2))
                ∙ owner.2,
            owner.3,
          )
    ];
    unique = λ k j d f there yonder same. elim (insert_found key k e entries there) [
      | inl here ↦ elim (insert_found key j e entries yonder) [
        | inl also ↦ sym here.0 ∙ also.0
        | inr older ↦
            absurd (unopened t j f older.1 (sym same ∙ ap (λ g. g.handle) (sym here.1) ∙ at))
      ]
      | inr old ↦ elim (insert_found key j e entries yonder) [
        | inl also ↦ absurd (unopened t k d old.1 (same ∙ ap (λ g. g.handle) (sym also.1) ∙ at))
        | inr older ↦ t.unique k j d f old.1 older.1 same
      ]
    ];
  }
