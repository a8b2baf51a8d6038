-- ===== src/RateLimit/Counted.antt =====
-- What the limiter in Redis lets through.
use face_recognition.Prelude.{
  ℕ, zero, suc, ◌+◌, ◌≡◌, refl, inl, inr, false, String, min, max, nat_beq, arith, if◌then◌else◌,
  Bool-cases,
}
use face_recognition.Prelude.Int.{ℤ, pos, pos_part, leb_ℤ}
use face_recognition.Core.Errors.{Result, ok, raise}
use face_recognition.RateLimit.Redis.{
  whole_seconds, Redis, allow, counted, set_expiry, lacks_expiry, answer_of,
}

-- A Redis that answers, seen at one key that does not expire meanwhile: INCR adds one to the key's
-- count and returns it, and the other commands leave it.
pub record IsCounting {R : Type 0} (redis : Redis R) (bucket : String) (count : R → ℕ)
    : Type 0 where
  pub incr_counts :
      (r : R)
      → ((redis.incr bucket r).0 ≡ ok (suc (count r)))
        × (count (redis.incr bucket r).1 ≡ suc (count r))
  pub ttl_keeps :
      (r : R) → (t : ℤ) × ((redis.ttl bucket r).0 ≡ ok t) × (count (redis.ttl bucket r).1 ≡ count r)
  pub expire_keeps :
      (seconds : ℕ) (r : R)
      → ((redis.expire bucket seconds r).0 ≡ ok tt)
        × (count (redis.expire bucket seconds r).1 ≡ count r)

module _ {R : Type 0} (redis : Redis R) (prefixed : String → String) (key : String) (limit : ℤ)
    (window : ℕ) where
  answer_refused :
      (current : ℕ) (p : Result (Unit {0}) × R)
      → (answer_of redis prefixed limit current p).0 ≡ false
      → leb_ℤ (pos current) limit ≡ false
  answer_refused current (raise e, r) h = absurd (ground arith)
  answer_refused current (ok u, r) h = h

  counted_refused :
      (bucket : String) (p : Result ℕ × R)
      → (counted redis prefixed bucket limit window p).0 ≡ false
      → (current : ℕ) × (p.0 ≡ ok current) × (leb_ℤ (pos current) limit ≡ false)
  counted_refused bucket (raise e, r) h = absurd (ground arith)
  counted_refused bucket (ok current, r) h = (current, refl, answer_refused current _ h)

  -- A request is refused only where INCR has answered with a count above the limit: an error of Redis
  -- lets the request through.
  pub refused_over_limit :
      (r : R)
      → (allow redis prefixed key limit window r).0 ≡ false
      → (current : ℕ) × ((redis.incr (prefixed key) r).0 ≡ ok current)
        × (leb_ℤ (pos current) limit ≡ false)
  unfolding allow
  refused_over_limit r h = counted_refused (prefixed key) (redis.incr (prefixed key) r) h

  -- How many of some requests pass.
  unfoldable pub passed : ℕ → R → ℕ
  unfolding allow
  passed zero r = 0
  passed (suc n) r =
      let (allowed, r1) = allow redis prefixed key limit window r in
      (if allowed then 1 else 0) + passed n r1

  module _ (count : R → ℕ) (counting : IsCounting redis (prefixed key) count) where
    expiry_lem :
        (c : ℕ) (r : R)
        → ((set_expiry redis prefixed
              (prefixed key)
              window
              (lacks_expiry redis prefixed (prefixed key) c r)).0
            ≡ ok tt)
          × (count
                (set_expiry redis prefixed
                  (prefixed key)
                  window
                  (lacks_expiry redis prefixed (prefixed key) c r)).1
              ≡ count r)
    expiry_lem c r = elim (Bool-cases (nat_beq c 1)) [
      | inl first ↦ rw first (counting.expire_keeps (max 1 (whole_seconds window)) r)
      | inr later ↦
          let (t, e, kept) = counting.ttl_keeps r in
          let set =
            counting.expire_keeps (max 1 (whole_seconds window)) (redis.ttl (prefixed key) r).1 in
          ground (arith, e, kept, set)
    ]

    pub allow_lem :
        (r : R)
        → ((allow redis prefixed key limit window r).0 ≡ leb_ℤ (pos (suc (count r))) limit)
          × (count (allow redis prefixed key limit window r).1 ≡ suc (count r))
    unfolding allow
    allow_lem r =
        let hit = counting.incr_counts r in
        let set = expiry_lem (suc (count r)) (redis.incr (prefixed key) r).1 in
        ground (arith, hit, set)

    passed_from :
        (n : ℕ) (r : R)
        → min (count r + n) (pos_part limit) ≡ min (count r) (pos_part limit) + passed n r
    unfolding passed
    passed_from zero r = omega arith
    passed_from (suc n) r =
        ground (arith, allow_lem r, passed_from n (allow redis prefixed key limit window r).1)

    -- On a Redis that answers, as long as the key lives, exactly the first `limit` of a key's requests pass,
    -- counted from the key's creation; none does where the limit is not positive.
    pub passed_window : (n : ℕ) (r : R) → count r ≡ 0 → passed n r ≡ min n (pos_part limit)
    passed_window n r fresh = ground (arith, passed_from n r)
