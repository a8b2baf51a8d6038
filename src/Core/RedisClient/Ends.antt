-- ===== src/Core/RedisClient/Ends.antt =====
-- Every call of `get_redis` ends.
use face_recognition.Prelude.{
  ℕ, zero, suc, ◌+◌, ◌*◌, ◌≤◌, ◌<◌, ◌≡◌, refl, ◌⊎◌, Bool, true, false, Option, arith, Bool-cases,
  inl, inr, ltb,
}
use face_recognition.Core.RedisClient.{
  Globals, Pc, called, known, waiting, entered, connecting, connected, assigned, leaving, done,
  Move, unconfigured, see, miss, answer, acquire, late, claim, connect, refused, assign, release,
  finish, System, Step, turn, Run, start, later,
}
use face_recognition.Prelude.Threads.{sum_below, sum_below-put, weight-le-sum_below, sum_below_pos}
use face_recognition.Core.RedisClient.Once.{holding, Counts, Run-Counts}

module _ {C : Type 0} where
  -- A bound on the moves that a call has left.
  abbrev left : Pc C → ℕ
  left called = 7
  left waiting = 6
  left entered = 5
  left connecting = 4
  left (connected o) = 3
  left assigned = 2
  left leaving = 1
  left known = 1
  left (done o) = 0

  Move-left :
      {has_url : Bool} {m m' : Globals C} {p p' : Pc C} → Move has_url m p m' p' → left p' < left p
  Move-left (connect c) = omega arith
  Move-left _ = omega arith

  sum_left_called :
      (pc : ℕ → Pc C) → ((i : ℕ) → pc i ≡ called) → (n : ℕ) → sum_below left n pc ≡ 7 * n
  unfolding sum_below
  sum_left_called pc h zero = refl
  sum_left_called pc h (suc n) = ground (arith, h n, sum_left_called pc h n)

  Run-left :
      {has_url : Bool} {n k : ℕ} {s : System C}
      → Run has_url n k s
      → k + sum_below left n s.pc ≤ 7 * n
  Run-left {n = n} start = omega (arith, sum_left_called (λ _. called) (λ _. refl) n)
  Run-left {n = n} (later {s = s} r (turn i {p = p} lt mv)) =
      omega (arith, Run-left r, Move-left mv, sum_below-put left i p s.pc n lt)

  left-zero : (p : Pc C) → left p ≡ 0 → (o : Option C) × (p ≡ done o)
  left-zero (done o) e = (o, refl)
  left-zero _ e = absurd (omega arith)

  -- A call that is not over can move, unless it waits for the lock.
  can_move :
      (has_url : Bool) (m : Globals C) (p : Pc C)
      → 0 < left p
      → (p ≡ waiting → m.is_locked ≡ false)
      → (m' : Globals C) × (p' : Pc C) × Move has_url m p m' p'
  can_move false m called h free = (_, _, unconfigured refl)
  can_move true m called h free = elim (Bool-cases m.attempted) [
    | inl tried ↦ (_, _, see refl tried)
    | inr fresh ↦ (_, _, miss refl fresh)
  ]
  can_move b m known h free = (_, _, answer)
  can_move b m waiting h free = (_, _, acquire (free refl))
  can_move b m entered h free = elim (Bool-cases m.attempted) [
    | inl tried ↦ (_, _, late tried)
    | inr fresh ↦ (_, _, claim fresh)
  ]
  can_move b m connecting h free = (_, _, refused)
  can_move b m (connected o) h free = (_, _, assign o)
  can_move b m assigned h free = (_, _, release)
  can_move b m leaving h free = (_, _, finish)
  can_move b m (done o) h free = absurd (omega arith)

  -- A thread that holds the lock is not over, and does not wait for it.
  holding_left : (p : Pc C) → 0 < holding p → (0 < left p) × (p ≡ waiting → ⊥)
  holding_left called h = absurd (omega arith)
  holding_left known h = absurd (omega arith)
  holding_left waiting h = absurd (omega arith)
  holding_left leaving h = absurd (omega arith)
  holding_left (done o) h = absurd (omega arith)
  holding_left _ h = (omega arith, λ e. cc e)

  -- In any state that is reached, all calls are over or one can move.
  progress :
      (has_url : Bool) (n : ℕ) (s : System C)
      → Counts n s.memory s.pc
      → (sum_below left n s.pc ≡ 0) ⊎ ((t : System C) × Step has_url n s t)
  progress has_url n s c = elim (Bool-cases (ltb 0 (sum_below left n s.pc))) [
    | inr over ↦ inl (ground arith)
    | inl more ↦ elim (Bool-cases s.memory.is_locked) [
      | inl locked ↦
          let (i, lt, holds) = sum_below_pos holding s.pc n (ground arith) in
          let (going, apart) = holding_left (s.pc i) holds in
          let (m', p', mv) = can_move has_url s.memory (s.pc i) going (λ e. absurd (apart e)) in
          inr (_, turn i lt mv)
      | inr free ↦
          let (i, lt, going) = sum_below_pos left s.pc n (ground arith) in
          let (m', p', mv) = can_move has_url s.memory (s.pc i) going (λ e. free) in
          inr (_, turn i lt mv)
    ]
  ]

  -- However `n` threads that call `get_redis` interleave, and whether the connection succeeds or fails:
  -- they take at most `7 * n` steps together, and where no step is left, each of them has its answer.
  pub calls_end :
      {has_url : Bool} {n k : ℕ} {s : System C}
      → Run has_url n k s
      → (k ≤ 7 * n)
        × (((i : ℕ) → i < n → (o : Option C) × (s.pc i ≡ done o))
            ⊎ ((t : System C) × Step has_url n s t))
  calls_end {has_url} {n} {s = s} r = (
    omega (arith, Run-left r),
    elim (progress has_url n s (Run-Counts r)) [
      | inl over ↦
          inl (λ i lt. left-zero (s.pc i) (omega (arith, weight-le-sum_below left s.pc n i lt)))
      | inr step ↦ inr step
    ],
  )
