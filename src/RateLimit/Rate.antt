-- ===== src/RateLimit/Rate.antt =====
-- app/core/rate_limit.py, `parse_rate`, on the code points of an ASCII text.
use face_recognition.Prelude.{
  ℕ, Bool, true, false, Option, none, some, List, [], ◌∷◌, map, ◌&&◌, nat_beq, if◌then◌else◌,
}
use face_recognition.Prelude.Int.{ℤ, pos}
use face_recognition.Prelude.Codes.{codes, strip, lower_code}
use face_recognition.Prelude.Decimal.{int_of}

-- `spec.partition("/")`, without the separator.
unfoldable pub partition : List ℕ → List ℕ × List ℕ
partition [] = ([], [])
partition (c ∷ cs) =
    let (before, behind) = partition cs in if nat_beq c b'/' then ([], cs) else (c ∷ before, behind)

abbrev pub same_codes : List ℕ → List ℕ → Bool
same_codes [] [] = true
same_codes (c ∷ cs) (d ∷ ds) = nat_beq c d && same_codes cs ds
same_codes _ _ = false

-- The dict of periods, with its default.
unfoldable pub seconds_of : List ℕ → ℕ
seconds_of period =
    if same_codes period (codes "second")
    then 1
    else if same_codes period (codes "minute")
    then 60
    else if same_codes period (codes "hour")
    then 3600
    else 60

-- The limit, or the default rate where it is no number, and the window in seconds.
abbrev pub rate_of : Option ℤ → List ℕ → ℤ × ℕ
rate_of none period = (pos 60, 60)
rate_of (some limit) period = (limit, seconds_of (map lower_code (strip period)))

unfoldable pub parse_rate : List ℕ → ℤ × ℕ
unfolding partition seconds_of
parse_rate spec = let (count, period) = partition spec in rate_of (int_of (strip count)) period
