-- ===== src/RateLimit/Redis.antt =====
-- app/core/rate_limit.py, `RedisKeyRateLimiter`. Redis is an interface: each command answers or raises.
use face_recognition.Prelude.{ℕ, ◌/◌, Bool, true, String, max, nat_beq, if◌then◌else◌}
use face_recognition.Prelude.Int.{ℤ, pos, leb_ℤ, ltb_ℤ}
use face_recognition.Core.Errors.{Result, ok, raise}

-- The commands that the limiter uses; `ttl` is negative where the key has no expiry.
pub record Redis (R : Type 0) : Type 0 where
  pub incr : String → R → Result ℕ × R
  pub ttl : String → R → Result ℤ × R
  pub expire : String → ℕ → R → Result (Unit {0}) × R

-- `int(window)`: windows are in nanoseconds, as the clocks are.
abbrev pub whole_seconds : ℕ → ℕ
whole_seconds window = window / 1000000000

module _ {R : Type 0} (redis : Redis R) (prefixed : String → String) where
  abbrev pub is_negative : Result ℤ × R → Result Bool × R
  is_negative (ok t, r) = (ok (ltb_ℤ t (pos 0)), r)
  is_negative (raise e, r) = (raise e, r)

  -- `current == 1 or self._redis.ttl(bucket) < 0`
  abbrev pub lacks_expiry : String → ℕ → R → Result Bool × R
  lacks_expiry bucket current r =
      if nat_beq current 1 then (ok true, r) else is_negative (redis.ttl bucket r)

  abbrev pub set_expiry : String → ℕ → Result Bool × R → Result (Unit {0}) × R
  set_expiry bucket window (raise e, r) = (raise e, r)
  set_expiry bucket window (ok b, r) =
      if b then redis.expire bucket (max 1 (whole_seconds window)) r else (ok tt, r)

  -- `return current <= limit`, or `True` after an error.
  abbrev pub answer_of : ℤ → ℕ → Result (Unit {0}) × R → Bool × R
  answer_of limit current (raise e, r) = (true, r)
  answer_of limit current (ok u, r) = (leb_ℤ (pos current) limit, r)

  abbrev pub counted : String → ℤ → ℕ → Result ℕ × R → Bool × R
  counted bucket limit window (raise e, r) = (true, r)
  counted bucket limit window (ok current, r) =
      answer_of limit current (set_expiry bucket window (lacks_expiry bucket current r))

  -- `prefixed` puts `_PREFIX` before the key.
  unfoldable pub allow : String → ℤ → ℕ → R → Bool × R
  allow key limit window r = counted (prefixed key) limit window (redis.incr (prefixed key) r)
