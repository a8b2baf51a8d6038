-- ===== src/Core/RedisClient/Once.antt =====
-- One attempt to connect, whatever the order of the threads.
use face_recognition.Prelude.{
  ℕ, zero, suc, ◌+◌, ◌≤◌, ◌<◌, ◌≡◌, refl, ◌∙◌, ◌⊎◌, Bool, false, Option, none, some, arith, nat_beq,
  if◌then◌else◌, Bool-cases, Option-cases, inl, inr,
}
use face_recognition.Core.RedisClient.{
  Globals, Pc, called, entered, connecting, connected, assigned, done, Move, answer, acquire, late,
  claim, assign, finish, System, put, turn, Run, start, later,
}
use face_recognition.Prelude.Threads.{put, sum_below, sum_below-put, weight-le-sum_below}

abbrev pub bit : Bool → ℕ
bit b = if b then 1 else 0

module _ {C : Type 0} where
  -- Whether a thread holds the lock, and whether it is at the attempt.
  abbrev pub holding : Pc C → ℕ
  holding entered = 1
  holding connecting = 1
  holding (connected o) = 1
  holding assigned = 1
  holding _ = 0

  abbrev pub trying : Pc C → ℕ
  trying connecting = 1
  trying (connected o) = 1
  trying _ = 0

  abbrev has_client : Option C → ℕ
  has_client none = 0
  has_client (some c) = 1

  -- A client that was answered is the one that is set.
  abbrev Answers : Globals C → Pc C → Type 0
  Answers m (done (some c)) = m.client ≡ some c
  Answers m _ = Unit

  -- One thread at most has the lock; an attempt is made once, and is either still going on or over.
  pub record Counts (n : ℕ) (m : Globals C) (pc : ℕ → Pc C) : Type 0 where
    pub lock : sum_below holding n pc ≡ bit m.is_locked
    pub once : m.connects ≡ bit m.attempted
    pub spent : has_client m.client + sum_below trying n pc ≤ m.connects

  -- What the sums are when thread `i` moves.
  record Moved (n i : ℕ) (pc : ℕ → Pc C) (p p' : Pc C) : Type 0 where
    held : sum_below holding n (put i p' pc) + holding p ≡ holding p' + sum_below holding n pc
    tried : sum_below trying n (put i p' pc) + trying p ≡ trying p' + sum_below trying n pc
    holds : holding p ≤ sum_below holding n pc
    tries : trying p ≤ sum_below trying n pc

  moved : (n i : ℕ) (pc : ℕ → Pc C) (p' : Pc C) → i < n → Moved n i pc (pc i) p'
  moved n i pc p' lt = record {
    held = sum_below-put holding i p' pc n lt;
    tried = sum_below-put trying i p' pc n lt;
    holds = weight-le-sum_below holding pc n i lt;
    tries = weight-le-sum_below trying pc n i lt;
  }

  Move-Counts :
      {has_url : Bool} (n i : ℕ) {m m' : Globals C} (pc : ℕ → Pc C) {p p' : Pc C}
      → Move has_url m p m' p'
      → Moved n i pc p p'
      → Counts n m pc
      → Counts n m' (put i p' pc)
  Move-Counts n i pc (acquire free) s c = ground arith
  Move-Counts n i pc (claim unset) s c = ground arith
  Move-Counts n i pc (assign none) s c = ground arith
  Move-Counts n i pc (assign (some client)) s c = ground arith
  Move-Counts n i pc _ s c = ground arith

  abbrev Answered : Globals C → (ℕ → Pc C) → Type 0
  Answered m pc = (i : ℕ) → Answers m (pc i)

  -- A move sets the client where there was none, or leaves it.
  Move-client :
      {has_url : Bool} (n i : ℕ) {m m' : Globals C} (pc : ℕ → Pc C) {p p' : Pc C}
      → Move has_url m p m' p'
      → Moved n i pc p p'
      → Counts n m pc
      → (m'.client ≡ m.client) ⊎ (m.client ≡ none)
  Move-client n i {m} pc (assign o) s c = elim (Option-cases m.client) [
    | inl none_yet ↦ inr none_yet
    | inr (client, set) ↦ absurd (ground (arith, set))
  ]
  Move-client n i pc _ s c = inl refl

  Answers-later :
      (m m' : Globals C) (p : Pc C)
      → (m'.client ≡ m.client) ⊎ (m.client ≡ none)
      → Answers m p
      → Answers m' p
  Answers-later m m' (done (some c)) (inl kept) a = kept ∙ a
  Answers-later m m' (done (some c)) (inr none_yet) a = absurd (ground (arith, none_yet, a))
  Answers-later m m' _ _ a = tt

  Answers-read : (m : Globals C) (o : Option C) → m.client ≡ o → Answers m (done o)
  Answers-read m none e = tt
  Answers-read m (some c) e = e

  Answers-moved :
      {has_url : Bool} {m m' : Globals C} {p p' : Pc C} → Move has_url m p m' p' → Answers m' p'
  Answers-moved {m = m} answer = Answers-read m m.client refl
  Answers-moved {m = m} (late e) = Answers-read (record m { is_locked = false }) m.client refl
  Answers-moved {m = m} finish = Answers-read m m.client refl
  Answers-moved _ = tt

  Move-Answered :
      {has_url : Bool} (n i : ℕ) {m m' : Globals C} (pc : ℕ → Pc C) {p p' : Pc C}
      → Move has_url m p m' p'
      → Moved n i pc p p'
      → Counts n m pc
      → Answered m pc
      → Answered m' (put i p' pc)
  Move-Answered n i {m} {m'} pc mv s c a j = elim (Bool-cases (nat_beq i j)) [
    | inl mine ↦ rw mine (Answers-moved mv)
    | inr other ↦ rw other (Answers-later m m' (pc j) (Move-client n i pc mv s c) (a j))
  ]

  sum_called :
      (weight : Pc C → ℕ) (n : ℕ) → weight called ≡ 0 → sum_below weight n (λ _. called) ≡ 0
  unfolding sum_below
  sum_called weight zero h = refl
  sum_called weight (suc n) h = omega (arith, sum_called weight n h)

  pub Run-Counts :
      {has_url : Bool} {n k : ℕ} {s : System C} → Run has_url n k s → Counts n s.memory s.pc
  Run-Counts {n = n} start = ground (arith, sum_called holding n refl, sum_called trying n refl)
  Run-Counts {n = n} (later {s = s} r (turn i {p = p} lt mv)) =
      Move-Counts n i s.pc mv (moved n i s.pc p lt) (Run-Counts r)

  Run-Answered :
      {has_url : Bool} {n k : ℕ} {s : System C} → Run has_url n k s → Answered s.memory s.pc
  Run-Answered start = λ i. tt
  Run-Answered {n = n} (later {s = s} r (turn i {p = p} lt mv)) =
      Move-Answered n i s.pc mv (moved n i s.pc p lt) (Run-Counts r) (Run-Answered r)

  -- However the threads that call `get_redis` interleave, a connection is attempted once at most, and
  -- any two of them that are answered a client are answered the same one.
  pub one_connection :
      {has_url : Bool} {n k : ℕ} {s : System C}
      → Run has_url n k s
      → (s.memory.connects ≤ 1)
        × ((i j : ℕ) (c c' : C) → s.pc i ≡ done (some c) → s.pc j ≡ done (some c') → c ≡ c')
  one_connection {s = s} r = (
    ground (arith, Run-Counts r),
    λ i j c c' e e'.
        let answers : Answers s.memory (done (some c)) = rw e at (Run-Answered r i) in
        let answers' : Answers s.memory (done (some c')) = rw e' at (Run-Answered r j) in
        cc (answers, answers'),
  )
