-- ===== src/Session/Replay/Align.antt =====
-- internal/session/session.go: where alignTailStart lets the replayed tail begin.
use gossh.Prelude.{
  ℕ, zero, suc, ◌+◌, ◌-◌, ◌≤◌, ◌<◌, ◌≡◌, ◌≢◌, refl, ap, ◌∙◌, ◌⊎◌, true, false, List, inl, inr,
  Option, none, some, length, get_or, arith, Bool-cases, length-drop, ltb, leb, leb→le,
  lt→leb_false, ltb→lt, ◌==◌, ==_iff,
}
use gossh.Session.Replay.{
  skip_continuation, find_esc, align_tail_start, is_continuation, esc, or_else, rewind_limit,
  replay_tail, attach_replay_tail_bytes,
}

-- `s` is the first position from `start` on that is no continuation byte, or the end.
pub record IsSkipped (b : List ℕ) (start s : ℕ) : Type 0 where
  pub after : start ≤ s
  pub within : s ≤ length b
  pub passed : (i : ℕ) → start ≤ i → i < s → is_continuation (get_or b i 0) ≡ true
  pub stopped : (s ≡ length b) ⊎ (is_continuation (get_or b s 0) ≡ false)

not_equal : (a b : ℕ) → (a == b) ≡ false → a ≢ b
not_equal a b h = ground arith

get_or_at : (b : List ℕ) {i j : ℕ} → i ≡ j → get_or b i 0 ≡ get_or b j 0
get_or_at b e = ap (λ k. get_or b k 0) e

IsSkipped-here :
    (b : List ℕ) (s : ℕ)
    → s ≤ length b
    → (s ≡ length b) ⊎ (is_continuation (get_or b s 0) ≡ false)
    → IsSkipped b s s
IsSkipped-here b s w h = record {
  after = omega arith;
  within = w;
  passed = λ i p q. absurd (omega arith);
  stopped = h;
}

IsSkipped-next :
    (b : List ℕ) (start s : ℕ)
    → is_continuation (get_or b start 0) ≡ true
    → IsSkipped b (start + 1) s
    → IsSkipped b start s
IsSkipped-next b start s c h = record {
  after = omega arith;
  within = h.within;
  passed = λ i p q. elim (Bool-cases (ltb start i)) [
    | inl later ↦ h.passed i (ground arith) q
    | inr same ↦ ap is_continuation (get_or_at b {i = i} {j = start} (ground arith)) ∙ c
  ];
  stopped = h.stopped;
}

skip_continuation-IsSkipped :
    (fuel : ℕ) (b : List ℕ) (start : ℕ)
    → start ≤ length b
    → length b - start ≤ fuel
    → IsSkipped b start (skip_continuation fuel b start)
unfolding skip_continuation
skip_continuation-IsSkipped zero b start h enough = IsSkipped-here b start h (inl (omega arith))
skip_continuation-IsSkipped (suc fuel) b start h enough = elim (Bool-cases (ltb start (length b))) [
  | inl inside ↦ rw inside (elim (Bool-cases (is_continuation (get_or b start 0))) [
    | inl c ↦ rw c (
        IsSkipped-next b start _ c
          (skip_continuation-IsSkipped fuel b (start + 1) (ground arith) (omega arith)))
    | inr c ↦ rw c (IsSkipped-here b start h (inr c))
  ])
  | inr outside ↦ rw outside (IsSkipped-here b start h (inl (ground arith)))
]

-- The result of the search back from `s`, `d` bytes behind it and further.
data Found (b : List ℕ) (s fuel d : ℕ) (o : Option ℕ) : Type 0 where
  at :
      (k : ℕ)
      → o ≡ some (s - k)
      → d ≤ k
      → k < d + fuel
      → k ≤ s
      → get_or b (s - k) 0 ≡ esc
      → ((j : ℕ) → d ≤ j → j < k → get_or b (s - j) 0 ≢ esc)
      → Found b s fuel d o
  nowhere :
      o ≡ none
      → ((j : ℕ) → d ≤ j → j < d + fuel → j ≤ s → get_or b (s - j) 0 ≢ esc)
      → Found b s fuel d o

-- One round further back.
Found-next :
    (b : List ℕ) (s fuel d : ℕ) {o : Option ℕ}
    → get_or b (s - d) 0 ≢ esc
    → Found b s fuel (d + 1) o
    → Found b s (suc fuel) d o
Found-next b s fuel d miss (at k e far near inside hit clear) =
    at k e (omega arith) (omega arith) inside hit (λ j p q. none_between b s d k miss clear j p q)
  where
    none_between :
        (b : List ℕ) (s d k : ℕ)
        → get_or b (s - d) 0 ≢ esc
        → ((j : ℕ) → d + 1 ≤ j → j < k → get_or b (s - j) 0 ≢ esc)
        → (j : ℕ) → d ≤ j
        → j < k
        → get_or b (s - j) 0 ≢ esc
    none_between b s d k miss clear j p q = elim (Bool-cases (ltb d j)) [
      | inl later ↦ clear j (ground arith) q
      | inr same ↦ λ e. miss (get_or_at b {i = s - d} {j = s - j} (ground arith) ∙ e)
    ]
Found-next b s fuel d miss (nowhere e clear) = nowhere e (λ j p q r. elim (Bool-cases (ltb d j)) [
  | inl later ↦ clear j (ground arith) (omega arith) r
  | inr same ↦ λ e. miss (get_or_at b {i = s - d} {j = s - j} (ground arith) ∙ e)
])

find_esc-Found : (b : List ℕ) (s fuel d : ℕ) → Found b s fuel d (find_esc b s fuel d)
unfolding find_esc
find_esc-Found b s zero d = nowhere refl (λ j p q r. absurd (omega arith))
find_esc-Found b s (suc fuel) d = elim (Bool-cases (leb d s)) [
  | inl inside ↦ rw inside (elim (Bool-cases (get_or b (s - d) 0 == esc)) [
    | inl hit ↦ rw hit (
        at d refl (omega arith) (omega arith) (leb→le d s inside)
          ((==_iff (get_or b (s - d) 0) esc).0 hit) (λ j p q. absurd (omega arith)))
    | inr miss ↦ rw miss (
        Found-next b s fuel d (not_equal (get_or b (s - d) 0) esc miss)
          (find_esc-Found b s fuel (d + 1)))
  ])
  | inr outside ↦ rw outside (nowhere refl (λ j p q r. absurd (ground arith)))
]

-- Where a tail that would begin at `start` begins instead: `s` is the first position from `start`
-- on that is no continuation byte.
pub record IsAligned (b : List ℕ) (start r : ℕ) : Type 0 where
  pub s : ℕ
  pub first : IsSkipped b start s
  pub landed :
      ((r < s)
        × (s ≤ r + rewind_limit)
        × (get_or b r 0 ≡ esc)
        × ((i : ℕ) → r < i → i < s → get_or b i 0 ≢ esc))
      ⊎ ((r ≡ s) × ((i : ℕ) → i < s → s ≤ i + rewind_limit → get_or b i 0 ≢ esc))

Found-IsAligned :
    (b : List ℕ) (start s : ℕ) (o : Option ℕ)
    → IsSkipped b start s
    → Found b s rewind_limit 1 o
    → IsAligned b start (or_else o s)
Found-IsAligned b start s o k (at d e far near inside hit clear) = rw e (record {
  s = s;
  first = k;
  landed = inl (
    omega arith,
    omega arith,
    hit,
    λ i p q h.
        clear (s - i) (omega arith) (omega arith)
          (get_or_at b {i = s - (s - i)} {j = i} (omega arith) ∙ h),
  );
})
Found-IsAligned b start s o k (nowhere e clear) = rw e (record {
  s = s;
  first = k;
  landed = inr (
    refl,
    λ i p q h.
        clear (s - i) (omega arith) (omega arith) (omega arith)
          (get_or_at b {i = s - (s - i)} {j = i} (omega arith) ∙ h),
  );
})

-- Cut inside the buffer, the tail begins after the continuation bytes at the cut, or at the nearest
-- ESC among the 1024 bytes before that place, if there is one; no later ESC is before that place.
pub align_tail_start-IsAligned :
    (b : List ℕ) (start : ℕ) → start < length b → IsAligned b start (align_tail_start b start)
unfolding align_tail_start
align_tail_start-IsAligned b start h = rw (lt→leb_false (length b) start h) (
    Found-IsAligned b start (skip_continuation (length b - start) b start) _
      (skip_continuation-IsSkipped (length b - start) b start (omega arith) (omega arith))
      (find_esc-Found b (skip_continuation (length b - start) b start) rewind_limit 1))

IsAligned-near :
    (b : List ℕ) (start r : ℕ) → IsAligned b start r → (start ≤ r + rewind_limit) × (r ≤ length b)
IsAligned-near b start r h = elim h.landed [
  | inl l ↦ (omega (arith, h.first.after), omega (arith, h.first.within))
  | inr l ↦ (omega (arith, h.first.after), omega (arith, h.first.within))
]

-- A replay is longer than `attachReplayTailBytes` by at most the 1024 bytes of the rewind.
pub length-replay_tail :
    (snapshot : List ℕ) → length (replay_tail snapshot) ≤ attach_replay_tail_bytes + rewind_limit
unfolding replay_tail
length-replay_tail snapshot = elim (Bool-cases (ltb attach_replay_tail_bytes (length snapshot))) [
  | inl long ↦
      let start : ℕ = length snapshot - attach_replay_tail_bytes in
      rw long (
        omega (
          arith,
          ltb→lt attach_replay_tail_bytes (length snapshot) long,
          length-drop {0} (align_tail_start snapshot start) snapshot,
          (IsAligned-near snapshot start (align_tail_start snapshot start) (
              align_tail_start-IsAligned snapshot start
                (omega (arith, ltb→lt attach_replay_tail_bytes (length snapshot) long)))).0,
        ))
  | inr short ↦ rw short (ground arith)
]
