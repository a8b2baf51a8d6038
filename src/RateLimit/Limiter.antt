-- ===== src/RateLimit/Limiter.antt =====
-- app/core/rate_limit.py, `KeyRateLimiter` and `build_key_rate_limiter`.
use face_recognition.Prelude.{ℕ, Bool, String, Option, none, some}
use face_recognition.Prelude.Int.{ℤ}
use face_recognition.RateLimit.Window
use face_recognition.RateLimit.Window.{Buckets}
use face_recognition.RateLimit.Redis
use face_recognition.RateLimit.Redis.{Redis}

-- The state of a limiter, and `allow` at the time of its clock.
pub record KeyRateLimiter (B : Type 0) : Type 0 where
  pub allow : ℕ → String → ℤ → ℕ → B → Bool × B

-- `InProcessKeyRateLimiter`
abbrev pub in_process : KeyRateLimiter Buckets
in_process = record { allow = Window.allow }

-- `RedisKeyRateLimiter`, which reads no clock.
abbrev pub in_redis : {R : Type 0} → Redis R → (String → String) → KeyRateLimiter R
in_redis redis prefixed = record {
  allow = λ now key limit window r. Redis.allow redis prefixed key limit window r;
}

module _ {B C : Type 0} where
  -- A limiter on its part of a state.
  abbrev pub on_first : KeyRateLimiter B → KeyRateLimiter (B × C)
  on_first l = record {
    allow = λ now key limit window s.
        let (answer, b) = l.allow now key limit window s.0 in (answer, (b, s.1));
  }

  abbrev pub on_second : KeyRateLimiter C → KeyRateLimiter (B × C)
  on_second l = record {
    allow = λ now key limit window s.
        let (answer, c) = l.allow now key limit window s.1 in (answer, (s.0, c));
  }

-- The state is that of the process and that of Redis; `get_redis` has given a client or none.
unfoldable pub build_key_rate_limiter :
    {R : Type 0} → (String → String) → Option (Redis R) → KeyRateLimiter (Buckets × R)
build_key_rate_limiter prefixed none = on_first in_process
build_key_rate_limiter prefixed (some redis) = on_second (in_redis redis prefixed)
