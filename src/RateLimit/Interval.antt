-- ===== src/RateLimit/Interval.antt =====
-- How many requests of one key pass in an interval that starts anywhere.
use face_recognition.Prelude.{
  ℕ, ◌+◌, ◌*◌, ◌≤◌, ◌<◌, String, List, [], ◌∷◌, leb, string_eq, ◌==◌, All, arith, Option-cases,
  Bool-cases, leb→le, inl, inr,
}
use text.Mathlib.TextEquality.{eq_iff}
use face_recognition.Prelude.Int.{ℤ}
use face_recognition.Prelude.Dict.{lookup}
use face_recognition.RateLimit.Window.{Buckets, allow}
use face_recognition.RateLimit.Bounds.{
  Request, budget, serve, allowed, FitsBudget, spent, IsClosed, allow_inside, lookup-allow_ne,
  allow_closed, later, allowed_window,
}

module _ (limit : ℤ) (window : ℕ) where
  -- A request that opens a window: all that pass are counted in the new window.
  spent_open :
      (from now : ℕ) (k : String) (requests : List Request) (b : Buckets)
      → IsClosed now window (lookup k b)
      → from ≤ now
      → All (λ r. (from ≤ r.0) × (r.0 < from + window)) requests
      → allowed limit window k ((now, k) ∷ requests) b ≤ budget limit
  spent_open from now k requests b closed le inside = omega (
    arith,
    allowed_window limit window now k requests b closed
        (later limit window from now requests le inside),
  )

  spent_same :
      (k : String) (from now : ℕ) (requests : List Request) (b : Buckets)
      → ((b' : Buckets)
          → FitsBudget limit (lookup k b')
          → allowed limit window k requests b' + spent (lookup k b') ≤ 2 * budget limit)
      → FitsBudget limit (lookup k b)
      → from ≤ now
      → All (λ r. (from ≤ r.0) × (r.0 < from + window)) requests
      → allowed limit window k ((now, k) ∷ requests) b + spent (lookup k b) ≤ 2 * budget limit
  unfolding allowed
  spent_same k from now requests b ih fits le inside = elim (Option-cases (lookup k b)) [
    | inl missing ↦
        rw missing (omega (arith, spent_open from now k requests b (rw missing tt) le inside))
    | inr (bucket, found) ↦ elim (Bool-cases (leb (bucket.window_start + window) now)) [
      | inl over ↦ rw found (
          omega (
            arith,
            rw found at fits,
            spent_open from now k requests b (rw found (leb→le _ _ over)) le inside,
          ))
      | inr within ↦
          let hit = allow_inside limit window now k b {bucket = bucket} found (ground arith) in
          ground (arith, hit, fits, eq_iff k k, ih (allow now k limit window b).1)
    ]
  ]

  spent_bound :
      (k : String) (from : ℕ) (requests : List Request) (b : Buckets)
      → FitsBudget limit (lookup k b)
      → All (λ r. (from ≤ r.0) × (r.0 < from + window)) requests
      → allowed limit window k requests b + spent (lookup k b) ≤ 2 * budget limit
  unfolding allowed
  spent_bound k from [] b fits inside = ground arith
  spent_bound k from ((now, key) ∷ requests) b fits inside = elim (Bool-cases (key == k)) [
    | inl same ↦ rw ((eq_iff key k).0 same) (
        spent_same k from now requests b (λ b' fits'. spent_bound k from requests b' fits' inside.1)
          fits inside.0.0 inside.1)
    | inr other ↦
        let kept = lookup-allow_ne limit window now key k b other in
        rw (other, ← kept)
          (omega (
            arith,
            spent_bound k from requests (allow now key limit window b).1 (rw kept fits) inside.1,
          ))
  ]

  allow_self-FitsBudget :
      (now : ℕ) (k : String) (b : Buckets)
      → FitsBudget limit (lookup k b)
      → FitsBudget limit (lookup k (allow now k limit window b).1)
  allow_self-FitsBudget now k b fits = elim (Option-cases (lookup k b)) [
    | inl missing ↦ rw (allow_closed limit window now k b (rw missing tt)).1 (omega arith)
    | inr (bucket, found) ↦ elim (Bool-cases (leb (bucket.window_start + window) now)) [
      | inl over ↦
          rw (allow_closed limit window now k b (rw found (leb→le _ _ over))).1 (omega arith)
      | inr within ↦
          let hit = allow_inside limit window now k b {bucket = bucket} found (ground arith) in
          rw hit.1 (ground (arith, rw found at fits))
    ]
  ]

  allow-FitsBudget :
      (now : ℕ) (key k : String) (b : Buckets)
      → FitsBudget limit (lookup k b)
      → FitsBudget limit (lookup k (allow now key limit window b).1)
  allow-FitsBudget now key k b fits = elim (Bool-cases (key == k)) [
    | inl same ↦ rw ((eq_iff key k).0 same) (allow_self-FitsBudget now k b fits)
    | inr other ↦ rw (lookup-allow_ne limit window now key k b other) fits
  ]

  serve-FitsBudget :
      (k : String) (requests : List Request) (b : Buckets)
      → FitsBudget limit (lookup k b)
      → FitsBudget limit (lookup k (serve limit window requests b))
  unfolding serve
  serve-FitsBudget k [] b fits = fits
  serve-FitsBudget k ((now, key) ∷ requests) b fits =
      serve-FitsBudget k requests (allow now key limit window b).1
        (allow-FitsBudget now key k b fits)

  -- Whatever was served before, and whatever other keys ask for: in any interval as long as the
  -- window, wherever it starts, at most twice the budget of the key's requests pass, where the
  -- budget is the limit or 1 if the limit is less.
  pub allowed_interval :
      (k : String) (history requests : List Request) (from : ℕ)
      → All (λ r. (from ≤ r.0) × (r.0 < from + window)) requests
      → allowed limit window k requests (serve limit window history []) ≤ 2 * budget limit
  unfolding lookup
  allowed_interval k history requests from inside = omega (
    arith,
    spent_bound k from requests (serve limit window history []) (serve-FitsBudget k history [] tt)
        inside,
  )
