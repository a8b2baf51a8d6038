-- ===== src/RateLimit/Bounds.antt =====
-- How many requests of one key the in-process limiter lets through, among the requests of all keys.
use face_recognition.Prelude.{
  ℕ, suc, ◌+◌, ◌≤◌, ◌<◌, ◌≡◌, ◌⊎◌, true, false, String, Option, none, some, List, [], ◌∷◌,
  string_eq, ◌==◌, if◌then◌else◌, max, min, All, arith, Option-cases, Bool-cases, inl, inr,
}
use text.Mathlib.TextEquality.{eq_iff}
use face_recognition.Prelude.Int.{ℤ, pos, leb_ℤ, pos_part}
use face_recognition.Prelude.Dict.{lookup, lookup-insert}
use face_recognition.RateLimit.Window.{Bucket, Buckets, allow}

-- A request: the time of the clock, and the key.
abbrev pub Request : Type 0
Request = ℕ × String

-- The budget of one window. The request that opens a window is let through whatever the limit is.
abbrev pub budget : ℤ → ℕ
budget limit = max 1 (pos_part limit)

module _ (limit : ℤ) (window : ℕ) where
  -- The state after some requests.
  unfoldable pub serve : List Request → Buckets → Buckets
  serve [] b = b
  serve ((now, key) ∷ requests) b = serve requests (allow now key limit window b).1

  -- How many requests of the key were allowed.
  unfoldable pub allowed : String → List Request → Buckets → ℕ
  allowed k [] b = 0
  allowed k ((now, key) ∷ requests) b =
      (if key == k then (if (allow now key limit window b).0 then 1 else 0) else 0)
      + allowed k requests (allow now key limit window b).1

-- How many requests are the key's.
abbrev pub requests_of : String → List Request → ℕ
requests_of k [] = 0
requests_of k ((now, key) ∷ requests) = (if key == k then 1 else 0) + requests_of k requests

module _ (limit : ℤ) (window : ℕ) where
  -- A request of another key leaves the bucket alone.
  pub lookup-allow_ne :
      (now : ℕ) (key k : String) (b : Buckets)
      → (key == k) ≡ false
      → lookup k (allow now key limit window b).1 ≡ lookup k b
  unfolding allow
  lookup-allow_ne now key k b ne = elim (Option-cases (lookup key b)) [
    | inl missing ↦ ground (arith, lookup-insert key k (record { window_start = now; count = 1 }) b)
    | inr (bucket, found) ↦ ground (
      arith,
      lookup-insert key k (record { window_start = now; count = 1 }) b,
      lookup-insert key k (record bucket { count = bucket.count + 1 }) b,
    )
  ]

  -- Inside the window of the bucket.
  pub allow_inside :
      (now : ℕ) (key : String) (b : Buckets) {bucket : Bucket}
      → lookup key b ≡ some bucket
      → now < bucket.window_start + window
      → ((allow now key limit window b).0
          ≡ (if leb_ℤ limit (pos bucket.count) then false else true))
        × (lookup key (allow now key limit window b).1
            ≡ some (
                if leb_ℤ limit (pos bucket.count)
                then bucket
                else record bucket { count = bucket.count + 1 }))
  unfolding allow
  allow_inside now key b {bucket} found inside =
      ground (
        arith,
        lookup-insert key key (record bucket { count = bucket.count + 1 }) b,
        eq_iff key key,
      )

  -- A window opens: there is no bucket, or its window is over.
  allow_open :
      (now : ℕ) (key : String) (b : Buckets)
      → (lookup key b ≡ none)
        ⊎ ((bucket : Bucket) × (lookup key b ≡ some bucket) × (bucket.window_start + window ≤ now))
      → ((allow now key limit window b).0 ≡ true)
        × (lookup key (allow now key limit window b).1
            ≡ some (record { window_start = now; count = 1 }))
  unfolding allow
  allow_open now key b (inl missing) =
      ground
        (arith, lookup-insert key key (record { window_start = now; count = 1 }) b, eq_iff key key)
  allow_open now key b (inr (bucket, found, over)) =
      ground
        (arith, lookup-insert key key (record { window_start = now; count = 1 }) b, eq_iff key key)

  -- Inside one window, as many requests pass as the limit leaves room for, and no more.
  allowed_inside :
      (k : String) (requests : List Request) (b : Buckets) (bucket : Bucket)
      → lookup k b ≡ some bucket
      → All (λ r. r.0 < bucket.window_start + window) requests
      → allowed limit window k requests b + bucket.count
        ≡ min (requests_of k requests + bucket.count) (max bucket.count (pos_part limit))
  unfolding allowed
  allowed_inside k [] b bucket found inside = omega arith
  allowed_inside k ((now, key) ∷ requests) b bucket found inside = elim (Bool-cases (key == k)) [
    | inl same ↦
        let e = (eq_iff key k).0 same in
        let b' = (allow now key limit window b).1 in
        let hit = allow_inside now key b {bucket = bucket} (rw e found) inside.0 in
        ground (
          arith,
          hit,
          allowed_inside k requests b' bucket,
          allowed_inside k requests b' (record bucket { count = bucket.count + 1 }),
        )
    | inr other ↦ rw other (
        ground (
          arith,
          allowed_inside k requests (allow now key limit window b).1 bucket,
          lookup-allow_ne now key k b,
        ))
  ]

-- The bucket of the key, if there is one, has not counted more than the budget.
abbrev pub FitsBudget : ℤ → Option Bucket → Type 0
FitsBudget limit none = Unit
FitsBudget limit (some bucket) = bucket.count ≤ budget limit

abbrev pub spent : Option Bucket → ℕ
spent none = 0
spent (some bucket) = bucket.count

abbrev pub IsClosed : ℕ → ℕ → Option Bucket → Type 0
IsClosed now window none = Unit
IsClosed now window (some bucket) = bucket.window_start + window ≤ now

module _ (limit : ℤ) (window : ℕ) where
  pub later :
      (from now : ℕ) (requests : List Request)
      → from ≤ now
      → All (λ r. (from ≤ r.0) × (r.0 < from + window)) requests
      → All (λ r. r.0 < now + window) requests
  later from now [] le h = tt
  later from now (r ∷ requests) le h = (omega (arith, h.0.1), later from now requests le h.1)

  pub allow_closed :
      (now : ℕ) (k : String) (b : Buckets)
      → IsClosed now window (lookup k b)
      → ((allow now k limit window b).0 ≡ true)
        × (lookup k (allow now k limit window b).1
            ≡ some (record { window_start = now; count = 1 }))
  allow_closed now k b closed = elim (Option-cases (lookup k b)) [
    | inl missing ↦ allow_open limit window now k b (inl missing)
    | inr (bucket, found) ↦
        allow_open limit window now k b (inr (bucket, found, rw found at closed))
  ]

  -- A request of a key that has no bucket, or whose window is over, opens a window; of that
  -- request and the key's others in the window, among those of all keys, exactly the first
  -- `limit` pass, but always the first.
  pub allowed_window :
      (now : ℕ) (k : String) (requests : List Request) (b : Buckets)
      → IsClosed now window (lookup k b)
      → All (λ r. r.0 < now + window) requests
      → allowed limit window k ((now, k) ∷ requests) b
        ≡ min (suc (requests_of k requests)) (budget limit)
  unfolding allowed
  allowed_window now k requests b closed inside =
      let opened = allow_closed now k b closed in
      let b' = (allow now k limit window b).1 in
      ground (
        arith,
        eq_iff k k,
        opened,
        allowed_inside limit window k requests b' (record { window_start = now; count = 1 })
            opened.1 inside,
      )
