-- ===== src/Prelude/Threads.antt =====
-- Families indexed by threads: sums over the first threads, and how one thread's move changes them.
use Prim.Native.Nat.{ℕ, zero, suc, ◌+◌, ◌≤◌, ◌<◌}
use mathlib.Core.Path.{◌≡◌, refl}
use mathlib.Core.Logic.{inl, inr}
use native.Mathlib.Omega.{arith}
use face_recognition.Prelude.Tests.{Bool-cases, ltb, nat_beq, if◌then◌else◌}

-- The family with another value at one index.
abbrev pub put : {A : Type 0} → ℕ → A → (ℕ → A) → ℕ → A
put i a f j = if nat_beq i j then a else f j

module _ {A : Type 0} (weight : A → ℕ) where
  unfoldable pub sum_below : ℕ → (ℕ → A) → ℕ
  sum_below zero f = 0
  sum_below (suc n) f = weight (f n) + sum_below n f

  sum_below-put_beyond :
      (i : ℕ) (a : A) (f : ℕ → A) (n : ℕ) → n ≤ i → sum_below n (put i a f) ≡ sum_below n f
  unfolding sum_below
  sum_below-put_beyond i a f zero h = refl
  sum_below-put_beyond i a f (suc n) h = ground (arith, sum_below-put_beyond i a f n)

  pub sum_below-put :
      (i : ℕ) (a : A) (f : ℕ → A) (n : ℕ)
      → i < n
      → sum_below n (put i a f) + weight (f i) ≡ weight a + sum_below n f
  unfolding sum_below
  sum_below-put i a f zero h = absurd (omega arith)
  sum_below-put i a f (suc n) h = elim (Bool-cases (ltb i n)) [
    | inl inside ↦ ground (arith, sum_below-put i a f n)
    | inr top ↦ ground (arith, sum_below-put_beyond i a f n)
  ]

  -- A sum that is not zero has a thread that counts.
  pub sum_below_pos :
      (f : ℕ → A) (n : ℕ) → 0 < sum_below n f → (i : ℕ) × (i < n) × (0 < weight (f i))
  unfolding sum_below
  sum_below_pos f zero h = absurd (omega arith)
  sum_below_pos f (suc n) h = elim (Bool-cases (ltb 0 (weight (f n)))) [
    | inl here ↦ (n, omega arith, ground arith)
    | inr below ↦ let (i, lt, pos) = sum_below_pos f n (ground arith) in (i, omega arith, pos)
  ]

  pub weight-le-sum_below : (f : ℕ → A) (n i : ℕ) → i < n → weight (f i) ≤ sum_below n f
  unfolding sum_below
  weight-le-sum_below f zero i h = absurd (omega arith)
  weight-le-sum_below f (suc n) i h = elim (Bool-cases (ltb i n)) [
    | inl inside ↦ omega (arith, weight-le-sum_below f n i (ground arith))
    | inr top ↦ ground arith
  ]

pub sum_below_eq :
    {A B : Type 0} (weight : A → ℕ) (weight' : B → ℕ) (f : ℕ → A) (g : ℕ → B) (n : ℕ)
    → ((i : ℕ) → weight (f i) ≡ weight' (g i))
    → sum_below weight n f ≡ sum_below weight' n g
unfolding sum_below
sum_below_eq weight weight' f g zero h = refl
sum_below_eq weight weight' f g (suc n) h = omega (arith, h n, sum_below_eq weight weight' f g n h)

pub sum_below_add :
    {A : Type 0} (v w : A → ℕ) (f : ℕ → A) (n : ℕ)
    → sum_below (λ a. v a + w a) n f ≡ sum_below v n f + sum_below w n f
unfolding sum_below
sum_below_add v w f zero = refl
sum_below_add v w f (suc n) = omega (arith, sum_below_add v w f n)

pub sum_below_zero :
    {A : Type 0} (weight : A → ℕ) (f : ℕ → A) (n : ℕ)
    → ((i : ℕ) → i < n → weight (f i) ≡ 0)
    → sum_below weight n f ≡ 0
unfolding sum_below
sum_below_zero weight f zero h = refl
sum_below_zero weight f (suc n) h =
    omega (arith, h n (omega arith), sum_below_zero weight f n (λ i lt. h i (omega arith)))
