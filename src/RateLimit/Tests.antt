-- ===== src/RateLimit/Tests.antt =====
-- A limit of 2 in 60.
use face_recognition.RateLimit.Redis.{Redis}
use face_recognition.RateLimit.Counted.{IsCounting}
use face_recognition.RateLimit.Limiter.{build_key_rate_limiter}
use face_recognition.RateLimit.Agree.{answers, built_limiters_agree}
use face_recognition.RateLimit.Window
use face_recognition.Core.Errors.{ok}
use face_recognition.Prelude.{
  refl, true, false, none, some, ℕ, suc, ◌*◌, ◌≤◌, ◌≡◌, List, [], ◌∷◌, min, arith,
}
use face_recognition.Prelude.Int.{pos, negsuc, ◌-ℤ◌}
use face_recognition.Prelude.Codes.{codes}
use face_recognition.Prelude.Decimal.{int_of}
use face_recognition.RateLimit.Rate.{parse_rate}
use face_recognition.RateLimit.RateText.{hour, written, parse_rate-written}
use face_recognition.Prelude.Dict.{lookup, insert}
use face_recognition.RateLimit.Bounds.{Request, budget, allowed, serve, requests_of, allowed_window}
use face_recognition.RateLimit.Interval.{allowed_interval}

abbrev requests : List Request
requests = (101, "a") ∷ (102, "b") ∷ (103, "a") ∷ []

allowed_window_example :
    allowed (pos 2) 60 "a" ((100, "a") ∷ requests) []
    ≡ min (suc (requests_of "a" requests)) (budget (pos 2))
unfolding lookup
allowed_window_example = allowed_window (pos 2) 60 100 "a" requests [] tt (ground arith)

allowed_interval_example :
    allowed (pos 2) 60 "a" requests (serve (pos 2) 60 ((50, "a") ∷ []) []) ≤ 2 * budget (pos 2)
allowed_interval_example =
    allowed_interval (pos 2) 60 "a" ((50, "a") ∷ []) requests 100 (ground arith)

-- A Redis with one key, which is its count.
abbrev one_key : Redis ℕ
one_key = record {
  incr = λ k r. (ok (suc r), suc r);
  ttl = λ k r. (ok (pos 60), r);
  expire = λ k seconds r. (ok tt, r);
}

abbrev itself : ℕ → ℕ
itself n = n

one_key-IsCounting : IsCounting one_key "fr:ratelimit:a" itself
one_key-IsCounting = record {
  incr_counts = λ r. (refl, refl);
  ttl_keeps = λ r. (pos 60, refl, refl);
  expire_keeps = λ seconds r. (refl, refl);
}

built_limiters_agree_example :
    answers
      (build_key_rate_limiter {R = ℕ} (λ k. "fr:ratelimit:a") none)
      "a"
      (pos 2)
      60
      (100 ∷ 101 ∷ 159 ∷ [])
      ([], 0)
    ≡ answers
        (build_key_rate_limiter {R = ℕ} (λ k. "fr:ratelimit:a") (some one_key))
        "a"
        (pos 2)
        60
        (100 ∷ 101 ∷ 159 ∷ [])
        ([], 0)
unfolding lookup
built_limiters_agree_example =
    built_limiters_agree one_key (λ k. "fr:ratelimit:a") "a" 2 60 itself one_key-IsCounting 100
      (101 ∷ 159 ∷ []) [] 0 (omega arith) tt refl (omega arith, (omega arith, tt))

third_refused :
    answers
      (build_key_rate_limiter {R = ℕ} (λ k. "fr:ratelimit:a") none)
      "a"
      (pos 2)
      60
      (100 ∷ 101 ∷ 159 ∷ [])
      ([], 0)
    ≡ true ∷ true ∷ false ∷ []
unfolding build_key_rate_limiter Window.allow lookup insert
third_refused = refl

-- "1200/ Hour", and texts that are no rate.
parse_rate-written_example :
    parse_rate (written 1200 true hour [] [] (b' ' ∷ []) []) ≡ (pos 1200, 3600)
parse_rate-written_example =
    parse_rate-written 1200 true hour [] [] (b' ' ∷ []) [] tt tt (refl, tt) tt

no_number : parse_rate (codes "many/hour") ≡ (pos 60, 60)
unfolding parse_rate int_of
no_number = refl

no_period : parse_rate (codes " +1_000") ≡ (pos 1000, 60)
unfolding parse_rate int_of
no_period = refl

negative : parse_rate (codes "-5/second/x") ≡ (negsuc 4, 60)
unfolding parse_rate int_of ◌-ℤ◌
negative = refl
