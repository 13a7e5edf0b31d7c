-- ===== src/Manager/Sweep.antt =====
-- internal/session/manager.go: what the loops over the registry leave in it.
use gossh.Prelude.{
  ℕ, suc, ◌+◌, ◌-◌, ◌≤◌, ◌<◌, ◌≡◌, ◌⊎◌, refl, ap, ◌∙◌, true, false, ◌&&◌, ltb, leb, String, [], ◌∷◌,
  Option, none, some, ◌==◌, if◌then◌else◌, length, GoMap, lookup, insert, delete, lookup-delete,
  arith, inl, inr, Bool-cases, =s-cases, =s_self, =s_ne,
}
use gossh.Session.Attach.{State, idle, running, destroyed}
use gossh.Manager.{Session, Manager, changed, sweep, is_expired, is_timed_out, destroy_expired}

-- What of a session stays after the sweep.
abbrev pub kept : ℕ → ℕ → Option Session → Option Session
kept now timeout none = none
kept now timeout (some s) = if is_expired now timeout s then none else some s

lookup-sweep :
    (now timeout : ℕ) (id : String) (live : GoMap Session)
    → lookup id (sweep now timeout live) ≡ kept now timeout (lookup id live)
unfolding sweep lookup
lookup-sweep now timeout id [] = refl
lookup-sweep now timeout id ((k, s) ∷ rest) = elim (Bool-cases (is_expired now timeout s)) [
  | inl gone ↦ elim (=s-cases k id) [
    | inl same ↦ rw (gone, same, =s_self id, gone) (lookup-delete id id _ ∙ rw (=s_self id) refl)
    | inr other ↦
        rw (gone, =s_ne k id other)
          (lookup-delete k id _ ∙ rw (=s_ne k id other) (lookup-sweep now timeout id rest))
  ]
  | inr stays ↦ elim (=s-cases k id) [
    | inl same ↦ rw (stays, same, =s_self id, stays) refl
    | inr other ↦ rw (stays, =s_ne k id other) (lookup-sweep now timeout id rest)
  ]
]

-- What a session is before the sweep and after it: it goes when it was destroyed, when it had exited, or
-- when it was idle and its last touch is the timeout or longer ago; it stays when it had not exited and
-- runs, or is idle with no timeout, or with a last touch that is not so long ago.
pub data IsSwept (now timeout : ℕ) (before after : Option Session) : Type 0 where
  no_session : before ≡ none → after ≡ none → IsSwept now timeout before after
  destroyed_goes :
      (s : Session)
      → before ≡ some s
      → s.life.state ≡ destroyed
      → after ≡ none
      → IsSwept now timeout before after
  exited_goes :
      (s : Session)
      → before ≡ some s
      → s.exited ≡ true
      → after ≡ none
      → IsSwept now timeout before after
  timed_out_goes :
      (s : Session)
      → before ≡ some s
      → s.life.state ≡ idle
      → 0 < timeout
      → s.life.last_touched + timeout ≤ now
      → after ≡ none
      → IsSwept now timeout before after
  running_stays :
      (s : Session)
      → before ≡ some s
      → s.life.state ≡ running
      → s.exited ≡ false
      → after ≡ some s
      → IsSwept now timeout before after
  idle_stays :
      (s : Session)
      → before ≡ some s
      → s.life.state ≡ idle
      → s.exited ≡ false
      → (timeout ≡ 0) ⊎ (now < s.life.last_touched + timeout)
      → after ≡ some s
      → IsSwept now timeout before after

state_cases : (x : State) → (x ≡ destroyed) ⊎ ((x ≡ running) ⊎ (x ≡ idle))
state_cases destroyed = inl refl
state_cases running = inr (inl refl)
state_cases idle = inr (inr refl)

timed_out_cases :
    (now timeout touched : ℕ)
    → (((ltb 0 timeout && leb timeout (now - touched)) ≡ true)
        × (0 < timeout)
        × (touched + timeout ≤ now))
      ⊎ (((ltb 0 timeout && leb timeout (now - touched)) ≡ false)
          × ((timeout ≡ 0) ⊎ (now < touched + timeout)))
timed_out_cases now timeout touched = ground arith

kept-IsSwept :
    (now timeout : ℕ) (s : Session) → IsSwept now timeout (some s) (kept now timeout (some s))
unfolding is_expired is_timed_out
kept-IsSwept now timeout s = elim (state_cases s.life.state) [
  | inl gone ↦ destroyed_goes s refl gone (rw (is_expired, gone) refl)
  | inr (inl runs) ↦ elim (Bool-cases s.exited) [
    | inl out ↦ exited_goes s refl out (rw (is_expired, runs, out) refl)
    | inr here ↦ running_stays s refl runs here (rw (is_expired, runs, here) refl)
  ]
  | inr (inr idles) ↦ elim (Bool-cases s.exited) [
    | inl out ↦ exited_goes s refl out (rw (is_expired, idles, out) refl)
    | inr here ↦ elim (timed_out_cases now timeout s.life.last_touched) [
      | inl (old, on, late) ↦
          timed_out_goes s refl idles on late (rw (is_expired, idles, here, is_timed_out, old) refl)
      | inr (young, soon) ↦
          idle_stays s refl idles here soon (rw (is_expired, idles, here, is_timed_out, young) refl)
    ]
  ]
]

pub lookup-destroy_expired :
    {S : Type 0} (now : ℕ) (id : String) (m : Manager S)
    → lookup id (destroy_expired now m).0.sessions ≡ kept now m.idle_timeout (lookup id m.sessions)
unfolding destroy_expired
lookup-destroy_expired now id m = lookup-sweep now m.idle_timeout id m.sessions

-- After the sweep an id that had no session has none, and one that had a session has none when the
-- session was destroyed, had exited, or was idle with its last touch a timeout or longer ago; in every
-- other case it has the session that it had: one that runs and has not exited, or one that is idle,
-- has not exited, and was touched less than the timeout ago or has no timeout.
pub destroy_expired-IsSwept :
    {S : Type 0} (now : ℕ) (id : String) (m : Manager S)
    → IsSwept now m.idle_timeout
        (lookup id m.sessions)
        (lookup id (destroy_expired now m).0.sessions)
destroy_expired-IsSwept now id m =
    rw (lookup-destroy_expired now id m) (from (lookup id m.sessions))
  where
    from :
        (before : Option Session)
        → IsSwept now m.idle_timeout before (kept now m.idle_timeout before)
    from none = no_session refl refl
    from (some s) = kept-IsSwept now m.idle_timeout s

pub length-delete {ℓ} : {V : Type ℓ} (id : String) (m : GoMap V) → length (delete id m) ≤ length m
unfolding delete
length-delete id [] = omega arith
length-delete id (e ∷ rest) = ground (arith, length-delete id rest)

pub length-sweep :
    (now timeout : ℕ) (live : GoMap Session) → length (sweep now timeout live) ≤ length live
unfolding sweep
length-sweep now timeout [] = omega arith
length-sweep now timeout ((k, s) ∷ rest) =
    ground (arith, length-sweep now timeout rest, length-delete k (sweep now timeout rest))

pub length-insert {ℓ} :
    {V : Type ℓ} (id : String) (v : V) (m : GoMap V) → length (insert id v m) ≤ suc (length m)
unfolding insert
length-insert id v [] = omega arith
length-insert id v (e ∷ rest) = ground (arith, length-insert id v rest)

pub length-insert_known {ℓ} :
    {V : Type ℓ} (id : String) (v w : V) (m : GoMap V)
    → lookup id m ≡ some w
    → length (insert id v m) ≡ length m
unfolding insert lookup
length-insert_known id v w [] h = cc
length-insert_known id v w (e ∷ rest) h = ground (arith, length-insert_known id v w rest)

pub length-delete_known {ℓ} :
    {V : Type ℓ} (id : String) (w : V) (m : GoMap V)
    → lookup id m ≡ some w
    → length (delete id m) < length m
unfolding delete lookup
length-delete_known id w [] h = cc
length-delete_known id w (e ∷ rest) h =
    ground (arith, length-delete_known id w rest, length-delete id rest)

pub length-changed :
    (h : ℕ) (f : Session → Session) (live : GoMap Session) → length (changed h f live) ≡ length live
length-changed h f [] = refl
length-changed h f ((k, s) ∷ rest) = ap suc (length-changed h f rest)

abbrev pub changed_at : ℕ → (Session → Session) → Option Session → Option Session
changed_at h f none = none
changed_at h f (some s) = some (if s.handle == h then f s else s)

pub lookup-changed :
    (h : ℕ) (f : Session → Session) (id : String) (live : GoMap Session)
    → lookup id (changed h f live) ≡ changed_at h f (lookup id live)
unfolding lookup
lookup-changed h f id [] = refl
lookup-changed h f id ((k, s) ∷ rest) = elim (=s-cases k id) [
  | inl same ↦ rw (same, =s_self id) refl
  | inr other ↦ rw (=s_ne k id other) (lookup-changed h f id rest)
]
