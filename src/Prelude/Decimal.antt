-- ===== src/Prelude/Decimal.antt =====
-- Python's `str` of a number and its `int` of a text, for ASCII texts of at most 4300 digits, the
-- default bound past which Python raises.
use Prim.Native.Nat.{ℕ, zero, suc, ◌+◌, ◌*◌, ◌-◌, ◌/◌, ◌%◌, ◌<◌}
use Prim.Native.String.{String, ◌++◌ as str_append}
use mathlib.Core.Path.{◌≡◌, refl, ◌∙◌}
use mathlib.Core.Logic.{inl, inr}
use mathlib.Core.Bool.{Bool, true, false, ◌&&◌}
use mathlib.Core.List.{List, [], ◌∷◌, ◌++◌, append_assoc, append-nil, reverse, reverse-reverse}
use mathlib.Core.Option
use mathlib.Core.Option.{Option, none, some}
use native.Mathlib.Omega.{arith}
use face_recognition.Prelude.Int.{ℤ, pos, ◌-ℤ◌}
use face_recognition.Prelude.Tests.{if◌then◌else◌, ltb, nat_beq, Bool-cases}
use face_recognition.Prelude.Lists.{All}
use face_recognition.Prelude.Sort.{All-append, reverse-All}
use face_recognition.Prelude.Codes.{codes, codes-append, is_digit, strip, lstrip}

-- The text of a digit.
unfoldable pub digit_text : ℕ → String
digit_text d =
    if nat_beq d 0
    then "0"
    else if nat_beq d 1
    then "1"
    else if nat_beq d 2
    then "2"
    else if nat_beq d 3
    then "3"
    else if nat_beq d 4
    then "4"
    else if nat_beq d 5
    then "5"
    else if nat_beq d 6
    then "6"
    else if nat_beq d 7
    then "7"
    else if nat_beq d 8
    then "8"
    else "9"

-- The digits of a number of at most as many digits as the fuel.
unfoldable pub print_on : ℕ → ℕ → String
unfolding digit_text
print_on zero n = ""
print_on (suc fuel) n =
    let front = print_on fuel (n / 10) in
    if ltb n 10 then digit_text n else str_append front (digit_text (n % 10))

-- `str(n)`
unfoldable pub print : ℕ → String
print n = print_on (suc n) n

-- The rest of a number: whether a digit came last, and the value so far. Single underscores may
-- stand between digits.
unfoldable pub read_digits : Bool → ℕ → List ℕ → Option ℕ
read_digits last n [] = if last then some n else none
read_digits last n (c ∷ cs) =
    let more = read_digits true (10 * n + (c - 48)) cs in
    let apart = read_digits false n cs in
    if is_digit c then more else if nat_beq c b'_' && last then apart else none

unfoldable pub negate : ℕ → ℤ
negate n = pos 0 -ℤ pos n

unfoldable pub read_signed : List ℕ → Option ℤ
unfolding read_digits negate
read_signed [] = none
read_signed (c ∷ cs) =
    if nat_beq c b'-'
    then Option.map negate (read_digits false 0 cs)
    else if nat_beq c b'+'
    then Option.map pos (read_digits false 0 cs)
    else Option.map pos (read_digits false 0 (c ∷ cs))

-- `int(s)`; `none` is a `ValueError`.
unfoldable pub int_of : List ℕ → Option ℤ
unfolding strip read_signed
int_of cs = read_signed (strip cs)

codes-digit_text : (d : ℕ) → d < 10 → codes (digit_text d) ≡ (48 + d) ∷ []
unfolding digit_text
codes-digit_text zero h = refl
codes-digit_text (suc zero) h = refl
codes-digit_text (suc (suc zero)) h = refl
codes-digit_text (suc (suc (suc zero))) h = refl
codes-digit_text (suc (suc (suc (suc zero)))) h = refl
codes-digit_text (suc (suc (suc (suc (suc zero))))) h = refl
codes-digit_text (suc (suc (suc (suc (suc (suc zero)))))) h = refl
codes-digit_text (suc (suc (suc (suc (suc (suc (suc zero))))))) h = refl
codes-digit_text (suc (suc (suc (suc (suc (suc (suc (suc zero)))))))) h = refl
codes-digit_text (suc (suc (suc (suc (suc (suc (suc (suc (suc zero))))))))) h = refl
codes-digit_text (suc (suc (suc (suc (suc (suc (suc (suc (suc (suc d)))))))))) h =
    absurd (omega arith)

read-digit :
    (last : Bool) (m d : ℕ) (cs : List ℕ) {n : ℕ}
    → d < 10
    → 10 * m + d ≡ n
    → read_digits last m (codes (digit_text d) ++ cs) ≡ read_digits true n cs
unfolding read_digits
read-digit last m d cs h e = rw (codes-digit_text d h) (ground arith)

-- Reading the digits of a number goes on with that number.
read-print_on :
    (fuel n : ℕ) (last : Bool) (cs : List ℕ)
    → n < fuel
    → read_digits last 0 (codes (print_on fuel n) ++ cs) ≡ read_digits true n cs
unfolding print_on
read-print_on zero n last cs h = absurd (omega arith)
read-print_on (suc fuel) n last cs h = elim (Bool-cases (ltb n 10)) [
  | inl small ↦ rw small (read-digit last 0 n cs (ground arith) (omega arith))
  | inr large ↦
      rw (large, codes-append (print_on fuel (n / 10)) (digit_text (n % 10)), append_assoc)
        (read-print_on fuel (n / 10) last (codes (digit_text (n % 10)) ++ cs) (ground arith)
          ∙ read-digit true (n / 10) (n % 10) cs (omega arith) (omega arith))
]

-- The code points of a number's text.
abbrev pub IsDigits : List ℕ → Type 0
IsDigits = All (λ c. is_digit c ≡ true)

digit_text-IsDigits : (d : ℕ) → d < 10 → IsDigits (codes (digit_text d))
digit_text-IsDigits d h = rw (codes-digit_text d h) (ground arith, tt)

print_on-IsDigits : (fuel n : ℕ) → IsDigits (codes (print_on fuel n))
unfolding print_on
print_on-IsDigits zero n = tt
print_on-IsDigits (suc fuel) n = elim (Bool-cases (ltb n 10)) [
  | inl small ↦ rw small (digit_text-IsDigits n (ground arith))
  | inr large ↦
      rw (large, codes-append (print_on fuel (n / 10)) (digit_text (n % 10)))
        (All-append _ (codes (print_on fuel (n / 10))) _ (print_on-IsDigits fuel (n / 10))
          (digit_text-IsDigits (n % 10) (omega arith)))
]

pub print-IsDigits : (n : ℕ) → IsDigits (codes (print n))
unfolding print
print-IsDigits n = print_on-IsDigits (suc n) n

lstrip-IsDigits : (cs : List ℕ) → IsDigits cs → lstrip cs ≡ cs
lstrip-IsDigits [] h = refl
lstrip-IsDigits (c ∷ cs) h = let digit = h.0 in ground (arith, digit)

strip-IsDigits : (cs : List ℕ) → IsDigits cs → strip cs ≡ cs
unfolding strip
strip-IsDigits cs h =
    rw (lstrip-IsDigits cs h, lstrip-IsDigits (reverse cs) (reverse-All _ cs h))
      (reverse-reverse cs)

read_signed_digits :
    (cs : List ℕ) {n : ℕ}
    → IsDigits cs
    → read_digits false 0 cs ≡ some n
    → read_signed cs ≡ some (pos n)
unfolding read_signed
read_signed_digits [] h e = absurd (ground arith)
read_signed_digits (c ∷ cs) h e = let digit = h.0 in ground (arith, digit, e)

-- `int(str(n)) == n`
pub int_of-print : (n : ℕ) → int_of (codes (print n)) ≡ some (pos n)
unfolding int_of print
int_of-print n =
    let digits = codes (print_on (suc n) n) in
    rw (strip-IsDigits digits (print-IsDigits n)) (
      read_signed_digits digits (print-IsDigits n)
        (rw append-nil at (read-print_on (suc n) n false [] (omega arith))))
