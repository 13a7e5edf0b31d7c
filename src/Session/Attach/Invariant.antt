-- ===== src/Session/Attach/Invariant.antt =====
-- internal/session/session.go: what holds between any two critical sections of a session.
use mathlib.Core.List.{Memᴰ}
use gossh.Prelude.{
  ℕ, suc, ◌≤◌, ◌<◌, ◌≡◌, ◌≢◌, refl, ap, ◌∙◌, ◌⊎◌, inl, inr, List, [], ◌∷◌, Option, none, some, ◌==◌,
  arith, Result, ok, err, true, false, Bool-cases, ==_iff, ==_self,
}
use gossh.Session.Attach.{
  Attachment, Life, Outcome, idle, running, session_destroyed, attach_begin, attach_end, detach,
  destroy, new_life, Step, begins, ends, detaches, destroys, Reach, here, next, remove_epoch,
  close_old, clear_conn, is_destroyed, left, taken_over, torn_down,
}

-- The epochs fall along the list and stay below the bound.
abbrev pub Below : ℕ → List Attachment → Type 0
Below n [] = Unit {0}
Below n (a ∷ rest) = (a.my_epoch < n) × Below a.my_epoch rest

-- Every attach in progress owns the session's current epoch and connection, or has lost its own
-- connection to a Close.
abbrev pub Accounted : Life → List Attachment → Type 0
Accounted w [] = Unit {0}
Accounted w (a ∷ rest) =
    (((a.my_epoch ≡ w.attach_epoch) × (w.state ≡ running) × (w.conn ≡ some a.conn))
      ⊎ ((a.my_epoch < w.attach_epoch) × Memᴰ a.conn w.closing))
    × Accounted w rest

abbrev pub Owned : ℕ → List Attachment → Type 0
Owned n [] = ⊥
Owned n (a ∷ rest) = a.my_epoch ≡ n

pub record Inv (w : Life) : Type 0 where
  pub fresh : Below (suc w.attach_epoch) w.attached
  pub accounted : Accounted w w.attached
  pub owned : w.state ≡ running → Owned w.attach_epoch w.attached
  pub free : w.state ≢ running → w.conn ≡ none

Below-mono : {m n : ℕ} (xs : List Attachment) → m ≤ n → Below m xs → Below n xs
Below-mono [] h b = tt
Below-mono (a ∷ xs) h b = (omega arith, b.1)

remove_epoch-Below : (e n : ℕ) (xs : List Attachment) → Below n xs → Below n (remove_epoch e xs)
unfolding remove_epoch
remove_epoch-Below e n [] b = tt
remove_epoch-Below e n (a ∷ xs) b =
    ground (arith, remove_epoch-Below e a.my_epoch xs b.1, Below-mono {m = a.my_epoch} {n = n} xs)

remove_epoch-Accounted :
    (e : ℕ) (w : Life) (xs : List Attachment) → Accounted w xs → Accounted w (remove_epoch e xs)
unfolding remove_epoch
remove_epoch-Accounted e w [] h = tt
remove_epoch-Accounted e w (a ∷ xs) h = ground (arith, remove_epoch-Accounted e w xs h.1)

mem-close_old : (o : Option ℕ) {x : ℕ} {l : List ℕ} → Memᴰ x l → Memᴰ x (close_old o l)
mem-close_old none m = m
mem-close_old (some c) m = Memᴰ.tail m

-- Once the epoch has moved on and the old connection is being closed, everyone in progress is
-- accounted for, whoever comes next.
Accounted-advance :
    (w w' : Life) (xs : List Attachment)
    → w.attach_epoch < w'.attach_epoch
    → w'.closing ≡ close_old w.conn w.closing
    → Accounted w xs
    → Accounted w' xs
Accounted-advance w w' [] lt e h = tt
Accounted-advance w w' (a ∷ xs) lt e ((inl (now, r, c)), rest) =
    (inr (omega arith, rw (e, c) (Memᴰ.head refl)), Accounted-advance w w' xs lt e rest)
Accounted-advance w w' (a ∷ xs) lt e ((inr (old, m)), rest) =
    (inr (omega arith, rw e (mem-close_old w.conn m)), Accounted-advance w w' xs lt e rest)

abbrev Account : Life → Attachment → Type 0
Account w a =
    ((a.my_epoch ≡ w.attach_epoch) × (w.state ≡ running) × (w.conn ≡ some a.conn))
    ⊎ ((a.my_epoch < w.attach_epoch) × Memᴰ a.conn w.closing)

pub Account-of :
    (w : Life) (xs : List Attachment) {a : Attachment} → Memᴰ a xs → Accounted w xs → Account w a
Account-of w [] m h = elim m [ ]
Account-of w (x ∷ xs) (Memᴰ.head e) h = rw e h.0
Account-of w (x ∷ xs) (Memᴰ.tail m) h = Account-of w xs m h.1

-- The parts of the state that an account reads.
Accounted-same :
    (w w' : Life) (xs : List Attachment)
    → w'.attach_epoch ≡ w.attach_epoch
    → w'.state ≡ w.state
    → w'.conn ≡ w.conn
    → w'.closing ≡ w.closing
    → Accounted w xs
    → Accounted w' xs
Accounted-same w w' [] e s c l h = tt
Accounted-same w w' (a ∷ xs) e s c l h = (rw (e, s, c, l) h.0, Accounted-same w w' xs e s c l h.1)

-- With nobody left at the current epoch, state and connection do not matter.
Accounted-old :
    (w w' : Life) (n : ℕ) (xs : List Attachment)
    → n ≤ w.attach_epoch
    → Below n xs
    → w'.attach_epoch ≡ w.attach_epoch
    → w'.closing ≡ w.closing
    → Accounted w xs
    → Accounted w' xs
Accounted-old w w' n [] le b e l h = tt
Accounted-old w w' n (a ∷ xs) le b e l ((inl (now, r, c)), rest) = absurd (omega arith)
Accounted-old w w' n (a ∷ xs) le b e l ((inr (old, m)), rest) =
    (inr (omega arith, rw l m), Accounted-old w w' a.my_epoch xs (omega arith) b.1 e l rest)

remove_epoch-last : (n : ℕ) (xs : List Attachment) → Below (suc n) xs → Below n (remove_epoch n xs)
unfolding remove_epoch
remove_epoch-last n [] b = tt
remove_epoch-last n (a ∷ xs) b = elim (Bool-cases (a.my_epoch == n)) [
  | inl hit ↦ rw hit (Below-mono xs (ground arith) b.1)
  | inr miss ↦ rw miss (ground arith, remove_epoch-Below n a.my_epoch xs b.1)
]

remove_epoch-Owned :
    (e n : ℕ) (xs : List Attachment) → (n == e) ≡ false → Owned n xs → Owned n (remove_epoch e xs)
unfolding remove_epoch
remove_epoch-Owned e n (a ∷ xs) ne o = rw (ap (λ k. k == e) o ∙ ne) o
remove_epoch-Owned e n [] ne o = elim o [ ]

attach_begin-Inv : (now c : ℕ) (w w' : Life) → Inv w → attach_begin now c w ≡ ok w' → Inv w'
unfolding attach_begin
attach_begin-Inv now c w w' h e = elim (Bool-cases (is_destroyed w.state)) [
  | inl dead ↦ absurd (refused (rw dead at e))
  | inr live ↦ rw (← ok_of (rw live at e)) (record {
    fresh = (omega arith, h.fresh);
    accounted = (
      inl (refl, refl, refl),
      Accounted-advance w (taken_over now c w) w.attached (omega arith) refl h.accounted,
    );
    owned = λ _. refl;
    free = λ ne. absurd (ne refl);
  })
]
  where
    refused : {x : Life} → ◌≡◌ {A = Result Outcome Life} (err session_destroyed) (ok x) → ⊥
    refused q = cc

    ok_of : {x y : Life} → ◌≡◌ {A = Result Outcome Life} (ok x) (ok y) → x ≡ y
    ok_of q = cc

Accounted-detach : (w : Life) (xs : List Attachment) → Accounted w xs → Accounted (detach w) xs
unfolding detach
Accounted-detach w [] h = tt
Accounted-detach w (a ∷ xs) ((inl current), rest) = (inl current, Accounted-detach w xs rest)
Accounted-detach w (a ∷ xs) ((inr (old, m)), rest) =
    (inr (old, mem-close_old w.conn m), Accounted-detach w xs rest)

detach-Inv : (w : Life) → Inv w → Inv (detach w)
unfolding detach
detach-Inv w h = record {
  fresh = h.fresh;
  accounted = Accounted-detach w w.attached h.accounted;
  owned = h.owned;
  free = h.free;
}

destroy-Inv : (w : Life) → Inv w → Inv (destroy w)
unfolding destroy
destroy-Inv w h = elim (Bool-cases (is_destroyed w.state)) [
  | inl dead ↦ rw dead h
  | inr live ↦ rw live (record {
    fresh = Below-mono w.attached (omega arith) h.fresh;
    accounted = Accounted-advance w (torn_down w) w.attached (omega arith) refl h.accounted;
    owned = λ r. cc;
    free = λ _. refl;
  })
]

left-Inv :
    (now : ℕ) (a : Attachment) (w : Life)
    → (w.state ≡ running → (w.attach_epoch == a.my_epoch) ≡ false)
    → Inv w
    → Inv (left now a w)
left-Inv now a w lost h = record {
  fresh = remove_epoch-Below a.my_epoch (suc w.attach_epoch) w.attached h.fresh;
  accounted =
      Accounted-same w (left now a w) (remove_epoch a.my_epoch w.attached) refl refl refl refl
        (remove_epoch-Accounted a.my_epoch w w.attached h.accounted);
  owned = λ r. remove_epoch-Owned a.my_epoch w.attach_epoch w.attached (lost r) (h.owned r);
  free = h.free;
}

-- The owner's connection is the session's, so the inner test of the second section never fails.
pub owner-conn :
    (a : Attachment) (w : Life)
    → Memᴰ a w.attached
    → Inv w
    → (w.attach_epoch == a.my_epoch) ≡ true
    → (w.state ≡ running) × (w.conn ≡ some a.conn)
owner-conn a w m h mine = elim (Account-of w w.attached m h.accounted) [
  | inl (_, r, c) ↦ (r, c)
  | inr (old, _) ↦ absurd (ground arith)
]

released-Inv :
    (now : ℕ) (a : Attachment) (w : Life)
    → Memᴰ a w.attached
    → Inv w
    → (w.attach_epoch == a.my_epoch) ≡ true
    → Inv (record (left now a w) { state = idle; conn = clear_conn w.conn a.conn })
released-Inv now a w m h mine =
    let e : w.attach_epoch ≡ a.my_epoch = (==_iff w.attach_epoch a.my_epoch).0 mine in
    let b : Below w.attach_epoch (remove_epoch a.my_epoch w.attached) =
      rw (← e) (remove_epoch-last w.attach_epoch w.attached h.fresh) in
    record {
      fresh = Below-mono (remove_epoch a.my_epoch w.attached) (omega arith) b;
      accounted =
          Accounted-old w (record (left now a w) { state = idle; conn = clear_conn w.conn a.conn })
            w.attach_epoch (remove_epoch a.my_epoch w.attached) (omega arith) b refl refl
            (remove_epoch-Accounted a.my_epoch w w.attached h.accounted);
      owned = λ r. cc;
      free = λ _. rw (owner-conn a w m h mine).1 (rw (==_self a.conn) refl);
    }

attach_end-Inv :
    (now : ℕ) (a : Attachment) (e : Outcome) (w : Life)
    → Memᴰ a w.attached
    → Inv w
    → Inv (attach_end now a e w).0
unfolding attach_end
attach_end-Inv now a e w m h = elim (Bool-cases (is_destroyed w.state)) [
  | inl dead ↦ rw dead (left-Inv now a w (λ r. ground arith) h)
  | inr live ↦ rw live (elim (Bool-cases (w.attach_epoch == a.my_epoch)) [
    | inl mine ↦ rw mine (released-Inv now a w m h mine)
    | inr lost ↦ rw lost (left-Inv now a w (λ _. lost) h)
  ])
]

-- Every critical section of every call keeps the invariant.
pub Step-Inv : {w w' : Life} → Step w w' → Inv w → Inv w'
Step-Inv {w} {w'} (begins now c e) h = attach_begin-Inv now c w w' h e
Step-Inv {w} (ends now a e m) h = attach_end-Inv now a e w m h
Step-Inv {w} detaches h = detach-Inv w h
Step-Inv {w} destroys h = destroy-Inv w h

new_life-Inv : (now : ℕ) → Inv (new_life now)
unfolding new_life
new_life-Inv now = record { fresh = tt; accounted = tt; owned = λ r. cc; free = λ _. refl }

Reach-Inv_from : {w w' : Life} → Inv w → Reach w w' → Inv w'
Reach-Inv_from h here = h
Reach-Inv_from h (next r s) = Step-Inv s (Reach-Inv_from h r)

-- After any interleaving of attaches, detaches and destroys of a new session: epochs are distinct
-- and at most the current one; every attach in progress either owns epoch, state and connection, or
-- had its connection closed; a running session has an owner; no other holds a connection.
pub Reach-Inv : (now : ℕ) {w : Life} → Reach (new_life now) w → Inv w
Reach-Inv now r = Reach-Inv_from (new_life-Inv now) r
