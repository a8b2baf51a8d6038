-- ===== src/Jobs/Holds/Outcome.antt =====
-- What the recording of an outcome makes of the job that stands in Redis.
use text.Mathlib.Text.{◌==◌ as str_eq}
use face_recognition.Prelude.{
  ℕ, ◌+◌, ◌≡◌, refl, Bool, true, false, String, Option, none, some, [], ◌∷◌, string_eq, Bool-cases,
  inl, inr,
}
use face_recognition.Prelude.Dict.{lookup}
use face_recognition.Prelude.Decimal.{print}
use face_recognition.Core.Errors.{ok}
use face_recognition.Jobs.Defs.{
  Uuid, ImportJob, push_if_truthy as push_if_true, count_outcome, outcome,
}
use face_recognition.Jobs.Commands.{Command, Commands, View, IsRedis, after_of_ok, ◌>>=◌}
use face_recognition.Jobs.Keys.{IsFormats}
use face_recognition.Jobs.Redis.{Formats, push_if_truthy, record_outcome}
use face_recognition.Jobs.Holds.{
  key, Holds, hash_of, overwritten, overwrite-Holds, hincrby-Overwrites, pushed-Holds,
}

module _ {R : Type 0} (redis : Commands R) (view : View R) (lawful : IsRedis view redis)
    (formats : Formats) (good : IsFormats formats) (ttl : ℕ) where
  abbrev Stored : Uuid → ImportJob → R → Type 0
  Stored = Holds redis view lawful formats good ttl

  -- A counter that goes up by one: the command is answered, and the job has the new count.
  pub increment-Holds :
      (id : Uuid) (f : String) (v : ℕ) (job job' : ImportJob) (r : R)
      → Stored id job r
      → view.field r (key redis view lawful formats good ttl id) f ≡ some (print v)
      → hash_of redis view lawful formats good ttl job'
        ≡ overwritten redis view lawful formats good ttl
            ((f, print (v + 1)) ∷ [])
            (hash_of redis view lawful formats good ttl job)
      → job'.errors ≡ job.errors
      → ((redis.hincrby (key redis view lawful formats good ttl id) f 1 r).0 ≡ ok tt)
        × Stored id job' (redis.hincrby (key redis view lawful formats good ttl id) f 1 r).1
  increment-Holds id f v job job' r h e new kept = (
    (lawful.hincrby_adds (key redis view lawful formats good ttl id) f 1 v r h.plain e).0,
    overwrite-Holds redis view lawful formats good ttl id ((f, print (v + 1)) ∷ []) job job'
        (hincrby-Overwrites redis view lawful formats good ttl id f v r h.plain e) new kept h,
  )

  -- A counter that goes up by one, and what comes after.
  counted-Holds :
      (id : Uuid) (f : String) (v : ℕ) (job job' job'' : ImportJob)
      → hash_of redis view lawful formats good ttl job'
        ≡ overwritten redis view lawful formats good ttl
            ((f, print (v + 1)) ∷ [])
            (hash_of redis view lawful formats good ttl job)
      → job'.errors ≡ job.errors
      → (k : Unit {0} → Command R (Unit {0})) (r : R) → Stored id job r
      → view.field r (key redis view lawful formats good ttl id) f ≡ some (print v)
      → ((r' : R) → Stored id job' r' → Stored id job'' (k tt r').1)
      → Stored id job'' ((redis.hincrby (key redis view lawful formats good ttl id) f 1 >>= k) r).1
  counted-Holds id f v job job' job'' new kept k r h e rest =
      let done = increment-Holds id f v job job' r h e new kept in
      rw (after_of_ok (redis.hincrby (key redis view lawful formats good ttl id) f 1 r) k done.0)
        (rest _ done.1)

  if_truthy-Holds :
      (id : Uuid) (job : ImportJob) (r : R) (error : Option String)
      → Stored id job r
      → Stored id (push_if_true error job) (push_if_truthy redis formats ttl id error r).1
  if_truthy-Holds id job r none h = h
  if_truthy-Holds id job r (some msg) h = elim (Bool-cases (str_eq msg "")) [
    | inl empty ↦ rw empty h
    | inr full ↦ rw full (pushed-Holds redis view lawful formats good ttl id job r h msg)
  ]

  pub outcome-Holds :
      (id : Uuid) (job : ImportJob) (r : R) (b : Bool) (error : Option String)
      → Stored id job r
      → Stored id (outcome b error job) (record_outcome redis formats ttl id b error r).1
  unfolding record_outcome outcome lookup
  outcome-Holds id job r true error h =
      let one = record job { processed = job.processed + 1 } in
      let two = count_outcome true job in
      counted-Holds id "processed" job.processed job one _ refl refl _ r h h.fields.1.1.0 (λ r1 h1.
        counted-Holds id "succeeded" job.succeeded one two _ refl refl _ r1 h1 h1.fields.1.1.1.0
          (λ r2 h2. if_truthy-Holds id two r2 error h2))
  outcome-Holds id job r false error h =
      let one = record job { processed = job.processed + 1 } in
      let two = count_outcome false job in
      counted-Holds id "processed" job.processed job one _ refl refl _ r h h.fields.1.1.0 (λ r1 h1.
        counted-Holds id "failed" job.failed one two _ refl refl _ r1 h1 h1.fields.1.1.1.1.0
          (λ r2 h2. if_truthy-Holds id two r2 error h2))
