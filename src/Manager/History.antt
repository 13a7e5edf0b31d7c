-- ===== src/Manager/History.antt =====
-- internal/session/manager.go: History, the records of sessions that are not registered.
use gossh.Prelude.{
  true, false, ◌≡◌, refl, ap, ◌∙◌, String, List, [], ◌∷◌, Option, none, some, ◌=s◌, GoMap, lookup,
  inl, inr, Option-cases, =s-cases, =s_self, =s_ne, sym,
}
use gossh.Store.{Metadata, StoreOps}
use gossh.Store.Laws.{StoreLaws, find_meta}
use gossh.Manager.{Session, Manager, history, not_among}

-- The record, unless there is a session.
abbrev pub unless_registered : Option Session → Option Metadata → Option Metadata
unless_registered none meta = meta
unless_registered (some s) meta = none

listed :
    (live : GoMap Session) (meta : Metadata) (metas : List Metadata)
    → lookup meta.id live ≡ none
    → not_among live (meta ∷ metas) ≡ meta ∷ not_among live metas
listed live meta metas e = rw (e, not_among) refl

passed_over :
    (live : GoMap Session) (meta : Metadata) (metas : List Metadata) (s : Session)
    → lookup meta.id live ≡ some s
    → not_among live (meta ∷ metas) ≡ not_among live metas
passed_over live meta metas s e = rw (e, not_among) refl

find_here :
    (id : String) (meta : Metadata) (metas : List Metadata)
    → (meta.id =s id) ≡ true
    → find_meta id (meta ∷ metas) ≡ some meta
find_here id meta metas e = rw (e, find_meta) refl

find_later :
    (id : String) (meta : Metadata) (metas : List Metadata)
    → (meta.id =s id) ≡ false
    → find_meta id (meta ∷ metas) ≡ find_meta id metas
find_later id meta metas e = rw (e, find_meta) refl

find-not_among :
    (id : String) (live : GoMap Session) (metas : List Metadata)
    → find_meta id (not_among live metas) ≡ unless_registered (lookup id live) (find_meta id metas)
find-not_among id live [] = elim (Option-cases (lookup id live)) [
  | inl none_ ↦ rw none_ refl
  | inr (s, found) ↦ rw found refl
]
find-not_among id live (meta ∷ metas) = elim (=s-cases meta.id id) [
  | inl here ↦
      let own : lookup meta.id live ≡ lookup id live = ap (λ x. lookup x live) here in
      let is_it : (meta.id =s id) ≡ true = ap (λ x. x =s id) here ∙ =s_self id in
      let at_ = find_here id meta metas is_it in
      elim (Option-cases (lookup id live)) [
        | inl none_ ↦
            ap (find_meta id) (listed live meta metas (own ∙ none_))
            ∙ find_here id meta (not_among live metas) is_it
            ∙ sym (ap (λ o. unless_registered o (find_meta id (meta ∷ metas))) none_ ∙ at_)
        | inr (s, found) ↦
            ap (find_meta id) (passed_over live meta metas s (own ∙ found))
            ∙ find-not_among id live metas
            ∙ ap (λ o. unless_registered o (find_meta id metas)) found
            ∙ sym (ap (λ o. unless_registered o (find_meta id (meta ∷ metas))) found)
      ]
  | inr there ↦
      let other = =s_ne meta.id id there in
      let rest =
        find-not_among id live metas
        ∙ ap (unless_registered (lookup id live)) (sym (find_later id meta metas other)) in
      elim (Option-cases (lookup meta.id live)) [
        | inl none_ ↦
            ap (find_meta id) (listed live meta metas none_)
            ∙ find_later id meta (not_among live metas) other
            ∙ rest
        | inr (s, found) ↦ ap (find_meta id) (passed_over live meta metas s found) ∙ rest
      ]
]

-- History has the record of an id exactly if the store has one and no session is registered under the
-- id, on a store whose records stand at their ids.
pub find-history :
    {S : Type 0} (ops : StoreOps S) {IsKeyed : S → Type 0} (laws : StoreLaws ops IsKeyed)
    (id : String) (m : Manager S)
    → IsKeyed m.store
    → find_meta id (history ops m) ≡ unless_registered (lookup id m.sessions) (ops.get id m.store)
unfolding history
find-history ops laws id m keyed =
    find-not_among id m.sessions (ops.all m.store)
    ∙ ap (unless_registered (lookup id m.sessions)) (laws.find_all id m.store keyed)
