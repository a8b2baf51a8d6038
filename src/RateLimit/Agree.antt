-- ===== src/RateLimit/Agree.antt =====
-- The limiter that is built with Redis and the one that is built without it, side by side.
use face_recognition.Prelude.{
  ℕ, suc, ◌+◌, ◌≤◌, ◌<◌, ◌≡◌, refl, ap, Bool, true, false, String, none, some, List, [], ◌∷◌, min,
  All, arith, string_eq, Bool-cases, inl, inr,
}
use face_recognition.Prelude.Int.{ℤ, pos, leb_ℤ}
use face_recognition.Prelude.Dict.{lookup}
use face_recognition.RateLimit.Window
use face_recognition.RateLimit.Redis
use face_recognition.RateLimit.Window.{Bucket, Buckets}
use face_recognition.RateLimit.Bounds.{allow_inside, allow_closed, IsClosed}
use face_recognition.RateLimit.Redis.{Redis}
use face_recognition.RateLimit.Counted.{IsCounting, allow_lem}
use face_recognition.RateLimit.Limiter.{KeyRateLimiter, build_key_rate_limiter}

-- The answers to a key's requests at some times.
abbrev pub answers : {B : Type 0} → KeyRateLimiter B → String → ℤ → ℕ → List ℕ → B → List Bool
answers l key limit window [] b = []
answers l key limit window (now ∷ times) b =
    let (answer, next) = l.allow now key limit window b in
    answer ∷ answers l key limit window times next

module _ {R : Type 0} (redis : Redis R) (prefixed : String → String) (key : String) (n window : ℕ)
    (count : R → ℕ) (counting : IsCounting redis (prefixed key) count) where
  -- Inside the window the process has counted what passed, and Redis all requests.
  agree_inside :
      (times : List ℕ) (b c : Buckets) (q r : R) (bucket : Bucket)
      → lookup key b ≡ some bucket
      → bucket.count ≡ min (count r) n
      → All (λ t. t < bucket.window_start + window) times
      → answers (build_key_rate_limiter prefixed none) key (pos n) window times (b, q)
        ≡ answers (build_key_rate_limiter prefixed (some redis)) key (pos n) window times (c, r)
  unfolding build_key_rate_limiter
  agree_inside [] b c q r bucket found same inside = refl
  agree_inside (t ∷ times) b c q r bucket found same inside =
      let hit = allow_inside (pos n) window t key b {bucket = bucket} found inside.0 in
      let counted = allow_lem redis prefixed key (pos n) window count counting r in
      let b' = (Window.allow t key (pos n) window b).1 in
      let r' = (Redis.allow redis prefixed key (pos n) window r).1 in
      elim (Bool-cases (leb_ℤ (pos n) (pos bucket.count))) [
        | inl full ↦
            let rest =
              agree_inside times b' c q r' bucket (rw full at hit.1) (ground (arith, counted, full))
                inside.1 in
            let e : leb_ℤ (pos (suc (count r))) (pos n) ≡ false = ground (arith, full) in
            rw (hit.0, full, counted.0, e) (ap (◌∷◌ false) rest)
        | inr room ↦
            let rest =
              agree_inside times b' c q r' (record bucket { count = bucket.count + 1 })
                (rw room at hit.1) (ground (arith, counted, room)) inside.1 in
            let e : leb_ℤ (pos (suc (count r))) (pos n) ≡ true = ground (arith, room) in
            rw (hit.0, room, counted.0, e) (ap (◌∷◌ true) rest)
      ]

  -- With a positive limit, the requests of a key from the one that opens a window until the window's
  -- end get the same answers, one by one, from the limiter that is built with Redis and from
  -- the one that is built without it: where Redis answers and has not counted the key yet, and its key
  -- does not expire meanwhile.
  pub built_limiters_agree :
      (now : ℕ) (times : List ℕ) (b : Buckets) (r : R)
      → 1 ≤ n
      → IsClosed now window (lookup key b)
      → count r ≡ 0
      → All (λ t. t < now + window) times
      → answers (build_key_rate_limiter prefixed none) key (pos n) window (now ∷ times) (b, r)
        ≡ answers
            (build_key_rate_limiter prefixed (some redis))
            key
            (pos n)
            window
            (now ∷ times)
            (b, r)
  unfolding build_key_rate_limiter
  built_limiters_agree now times b r some_pass closed fresh inside =
      let opened = allow_closed (pos n) window now key b closed in
      let counted = allow_lem redis prefixed key (pos n) window count counting r in
      let b' = (Window.allow now key (pos n) window b).1 in
      let r' = (Redis.allow redis prefixed key (pos n) window r).1 in
      let rest =
        agree_inside times b' b r r' (record { window_start = now; count = 1 }) opened.1
          (ground (arith, counted, fresh)) inside in
      let e : leb_ℤ (pos (suc (count r))) (pos n) ≡ true = ground (arith, fresh) in
      rw (opened.0, counted.0, e) (ap (◌∷◌ true) rest)
