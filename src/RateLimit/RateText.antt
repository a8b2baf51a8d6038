-- ===== src/RateLimit/RateText.antt =====
-- What `parse_rate` reads of a rate that is written as its documentation asks.
use mathlib.Core.List.{append-nil, reverse, reverse-append, reverse-reverse}
use face_recognition.Prelude.{
  ℕ, ◌≡◌, ◌≢◌, refl, sym, ap, ◌∙◌, Bool, true, false, String, List, [], ◌∷◌, ◌++◌, map, arith, All,
}
use face_recognition.Prelude.Sort.{All-map, All-append, reverse-All}
use face_recognition.Prelude.Int.{pos}
use face_recognition.Prelude.Codes.{codes, is_space, is_digit, strip, lstrip, lower_code}
use face_recognition.Prelude.Decimal.{print, int_of-print, print-IsDigits, IsDigits}
use face_recognition.RateLimit.Rate.{partition, seconds_of, parse_rate}

pub data Period : Type 0 where
  second minute hour : Period

-- A period's names, in small letters and with a capital, and its length.
abbrev pub name_of : Bool → Period → String
name_of false second = "second"
name_of false minute = "minute"
name_of false hour = "hour"
name_of true second = "Second"
name_of true minute = "Minute"
name_of true hour = "Hour"

abbrev pub length_of : Period → ℕ
length_of second = 1
length_of minute = 60
length_of hour = 3600

abbrev pub IsBlank : List ℕ → Type 0
IsBlank = All (λ c. is_space c ≡ true)

partition-append :
    (cs ds : List ℕ) → All (λ c. c ≢ b'/') cs → partition (cs ++ b'/' ∷ ds) ≡ (cs, ds)
unfolding partition
partition-append [] ds h = refl
partition-append (c ∷ cs) ds h =
    let apart = h.0 in let rest = partition-append cs ds h.1 in ground (arith, apart, rest)

lstrip-IsBlank : (bs cs : List ℕ) → IsBlank bs → lstrip (bs ++ cs) ≡ lstrip cs
lstrip-IsBlank [] cs h = refl
lstrip-IsBlank (b ∷ bs) cs h = let blank = h.0 in rw blank (lstrip-IsBlank bs cs h.1)

abbrev IsSolid : List ℕ → Type 0
IsSolid = All (λ c. is_space c ≡ false)

lstrip-IsSolid : (cs : List ℕ) → IsSolid cs → lstrip cs ≡ cs
lstrip-IsSolid [] h = refl
lstrip-IsSolid (c ∷ cs) h = rw (h.0) refl

lstrip-append :
    (cs bs : List ℕ) → IsSolid cs → IsBlank bs → reverse (lstrip (reverse (lstrip (cs ++ bs)))) ≡ cs
lstrip-append [] bs h k = rw (sym (append-nil bs), lstrip-IsBlank bs [] k) refl
lstrip-append (c ∷ cs) bs h k =
    let solid = c ∷ cs in
    rw (h.0) (
      ap (λ l. reverse (lstrip l)) (reverse-append solid bs)
      ∙ ap reverse (
          lstrip-IsBlank (reverse bs) (reverse solid) (reverse-All _ bs k)
          ∙ lstrip-IsSolid (reverse solid) (reverse-All _ solid h))
      ∙ reverse-reverse solid)

strip-IsBlank :
    (ws cs bs : List ℕ) → IsBlank ws → IsSolid cs → IsBlank bs → strip (ws ++ (cs ++ bs)) ≡ cs
unfolding strip
strip-IsBlank ws cs bs ha h hb = rw (lstrip-IsBlank ws (cs ++ bs) ha) (lstrip-append cs bs h hb)

-- A name with a capital is read as its small letters.
lower-name_of :
    (b : Bool) (p : Period) → seconds_of (map lower_code (codes (name_of b p))) ≡ length_of p
unfolding seconds_of
lower-name_of false second = refl
lower-name_of false minute = refl
lower-name_of false hour = refl
lower-name_of true second = refl
lower-name_of true minute = refl
lower-name_of true hour = refl

name_of-IsSolid : (b : Bool) (p : Period) → IsSolid (codes (name_of b p))
name_of-IsSolid false second = ground arith
name_of-IsSolid false minute = ground arith
name_of-IsSolid false hour = ground arith
name_of-IsSolid true second = ground arith
name_of-IsSolid true minute = ground arith
name_of-IsSolid true hour = ground arith

digits-IsSolid : (cs : List ℕ) → IsDigits cs → IsSolid cs
digits-IsSolid cs h = All-map _ _ cs (λ c digit. ground (arith, digit)) h

-- The number and its blanks have no slash.
number_plain :
    (n : ℕ) (w1 w2 : List ℕ)
    → IsBlank w1
    → IsBlank w2
    → All (λ c. c ≢ b'/') (w1 ++ (codes (print n) ++ w2))
number_plain n w1 w2 h1 h2 = All-append _ w1 _ (blank_plain w1 h1) (
    All-append _ (codes (print n)) w2
      (All-map (λ c. is_digit c ≡ true) _ (codes (print n)) (λ c digit e. ground (arith, digit, e))
        (print-IsDigits n))
      (blank_plain w2 h2))
  where
    blank_plain : (w : List ℕ) → IsBlank w → All (λ c. c ≢ b'/') w
    blank_plain w h = All-map (λ c. is_space c ≡ true) _ w (λ c blank e. ground (arith, blank, e)) h

-- A rate as its documentation writes it, with blanks around the number and the period.
abbrev pub written : ℕ → Bool → Period → List ℕ → List ℕ → List ℕ → List ℕ → List ℕ
written n b p w1 w2 w3 w4 =
    (w1 ++ (codes (print n) ++ w2)) ++ b'/' ∷ (w3 ++ (codes (name_of b p) ++ w4))

-- Every rate of the form "N/period", with any blanks around its parts and the period's name with or
-- without a capital, is read as the limit N and the window of that period.
pub parse_rate-written :
    (n : ℕ) (b : Bool) (p : Period) (w1 w2 w3 w4 : List ℕ)
    → IsBlank w1
    → IsBlank w2
    → IsBlank w3
    → IsBlank w4
    → parse_rate (written n b p w1 w2 w3 w4) ≡ (pos n, length_of p)
unfolding parse_rate
parse_rate-written n b p w1 w2 w3 w4 h1 h2 h3 h4 =
    rw
      (
        partition-append (w1 ++ (codes (print n) ++ w2)) (w3 ++ (codes (name_of b p) ++ w4))
            (number_plain n w1 w2 h1 h2),
        strip-IsBlank w1 (codes (print n)) w2 h1
            (digits-IsSolid (codes (print n)) (print-IsDigits n)) h2,
        int_of-print n,
        strip-IsBlank w3 (codes (name_of b p)) w4 h3 (name_of-IsSolid b p) h4,
        lower-name_of b p,
      )
      refl
