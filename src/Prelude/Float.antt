-- ===== src/Prelude/Float.antt =====
-- Python and numpy floats: a type with the operations that the code uses. What a theorem needs of
-- the order is a hypothesis, `IsOrdered`, which holds of floats other than NaN.
use Prim.Native.Nat.{◌+◌, ◌/◌}
use mathlib.Core.Path.{◌≡◌}
use mathlib.Core.Logic.{◌⊎◌}
use mathlib.Core.Bool.{Bool, true, not}
use native.Mathlib.Omega.{arith}
use face_recognition.Prelude.Int.{ℤ, pos, negsuc, ◌+ℤ◌, ◌-ℤ◌, ◌*ℤ◌, leb_ℤ, ltb_ℤ}
use face_recognition.Prelude.Tests.{if◌then◌else◌}

pub record Float (F : Type 0) : Type 0 where
  pub of_int : ℤ → F
  pub half : F → F
  pub add : F → F → F
  pub sub : F → F → F
  pub mul : F → F → F
  pub div : F → F → F
  -- `a <= b` and `a < b`; the second is not the negation of the first at NaN
  pub le : F → F → Bool
  pub lt : F → F → Bool
  -- `int(x)`
  pub trunc : F → ℤ
  -- `float(f"{x:.8f}")`, a number as the vector literal of a query holds it
  pub fixed8 : F → F
  -- `round(x, 6)` and `round(x, 4)`
  pub round6 : F → F
  pub round4 : F → F

pub record IsOrdered {F : Type 0} (fl : Float F) : Type 0 where
  pub le_refl : (a : F) → fl.le a a ≡ true
  pub le_trans : (a b c : F) → fl.le a b ≡ true → fl.le b c ≡ true → fl.le a c ≡ true
  pub le_total : (a b : F) → (fl.le a b ≡ true) ⊎ (fl.le b a ≡ true)
  pub lt_not : (a b : F) → fl.lt a b ≡ not (fl.le b a)

module _ {F : Type 0} (fl : Float F) where
  -- `np.maximum(a, b)` and `np.minimum(a, b)`
  abbrev pub fmax : F → F → F
  fmax a b = if fl.le a b then b else a

  abbrev pub fmin : F → F → F
  fmin a b = if fl.le a b then a else b

-- Whole numbers, for tests: division rounds towards zero, and rounding changes nothing.
unfoldable pub div_ℤ : ℤ → ℤ → ℤ
div_ℤ (pos a) (pos b) = pos (a / b)
div_ℤ (pos a) (negsuc b) = pos 0 -ℤ pos (a / (b + 1))
div_ℤ (negsuc a) (pos b) = pos 0 -ℤ pos ((a + 1) / b)
div_ℤ (negsuc a) (negsuc b) = pos ((a + 1) / (b + 1))

abbrev pub whole : Float ℤ
whole = record {
  of_int = λ n. n;
  half = λ n. div_ℤ n (pos 2);
  add = ◌+ℤ◌;
  sub = ◌-ℤ◌;
  mul = ◌*ℤ◌;
  div = div_ℤ;
  le = leb_ℤ;
  lt = ltb_ℤ;
  trunc = λ n. n;
  fixed8 = λ n. n;
  round6 = λ n. n;
  round4 = λ n. n;
}

pub whole-IsOrdered : IsOrdered whole
whole-IsOrdered = record {
  le_refl = λ a. ground arith;
  le_trans = λ a b c p q. ground arith;
  le_total = λ a b. ground arith;
  lt_not = λ a b. ground arith;
}
