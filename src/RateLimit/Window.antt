-- ===== src/RateLimit/Window.antt =====
-- app/core/rate_limit.py, `InProcessKeyRateLimiter`. The clock `time.monotonic()` is an argument,
-- and times are whole nanoseconds. The lock makes a call atomic.
use face_recognition.Prelude.{
  ℕ, ◌+◌, Bool, true, false, String, none, some, leb, string_eq, if◌then◌else◌,
}
use face_recognition.Prelude.Int.{ℤ, pos, leb_ℤ}
use face_recognition.Prelude.Dict.{Dict, lookup, insert}

-- The list `[window_start, count]`.
pub record Bucket : Type 0 where
  pub window_start : ℕ
  pub count : ℕ

abbrev pub Buckets : Type 0
Buckets = Dict String Bucket

-- `self._buckets[key] = [now, 1]; return True`
abbrev pub open_window : ℕ → String → Buckets → Bool × Buckets
open_window now key buckets = (true, insert key (record { window_start = now; count = 1 }) buckets)

-- `now - bucket[0] >= window`
abbrev pub is_over : ℕ → ℕ → Bucket → Bool
is_over now window bucket = leb (bucket.window_start + window) now

unfoldable pub allow : ℕ → String → ℤ → ℕ → Buckets → Bool × Buckets
allow now key limit window buckets = elim (lookup key buckets) [
  | none ↦ open_window now key buckets
  | some bucket ↦
      if is_over now window bucket
      then open_window now key buckets
      else if leb_ℤ limit (pos bucket.count)
      then (false, buckets)
      else (true, insert key (record bucket { count = bucket.count + 1 }) buckets)
]
