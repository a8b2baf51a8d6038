-- ===== src/Jobs/Workers/Kept.antt =====
-- What one command makes of the job that stands in Redis, and that the methods are their commands.
use face_recognition.Prelude.{
  ℕ, ◌+◌, ◌≡◌, ◌≢◌, refl, sym, true, false, String, Option, none, some, List, [], ◌∷◌, Bool-cases,
  inl, inr, string_eq,
}
use text.Mathlib.Text.{◌==◌ as str_eq}
use face_recognition.Prelude.Dict.{lookup}
use face_recognition.Core.Errors.{Result, ok, raise}
use face_recognition.Jobs.Defs.{Uuid, ImportJob, start, finish, push_error as push_message}
use face_recognition.Jobs.Calls.{Call, mark_running, mark_finished, record_outcome, add_error}
use face_recognition.Jobs.Commands.{Command, Commands, View, IsRedis, after, ◌>>◌, pure}
use face_recognition.Jobs.Keys.{IsFormats}
use face_recognition.Jobs.Redis
use face_recognition.Jobs.Redis.{
  Formats, running_fields, finished_fields, pushes, hash_key, errors_key,
}
use face_recognition.Jobs.Holds.{Holds, running-Holds, finished-Holds, pushed-Holds}
use face_recognition.Jobs.Holds.Outcome.{increment-Holds}
use face_recognition.Jobs.Others.{Leaves, hset-Leaves, hincrby-Leaves, push-Leaves}
use face_recognition.Jobs.Workers.{
  Sent, pushed, set_running, set_finished, increase_processed, increase_succeeded, increase_failed,
  push, program, send,
}

-- The commands of a call, one after the other, until one raises.
abbrev pub perform :
    {R : Type 0} (redis : Commands R) (formats : Formats) (ttl : ℕ)
    → Uuid
    → List Sent
    → Command R (Unit {0})
perform redis formats ttl id [] = pure tt
perform redis formats ttl id (s ∷ rest) =
    send redis formats ttl id s >> perform redis formats ttl id rest

after-pure : {R : Type 0} (p : Result (Unit {0}) × R) → after p (λ _. pure tt) ≡ p
after-pure (ok tt, r) = refl
after-pure (raise e, r) = refl

after-same :
    {R : Type 0} (p : Result (Unit {0}) × R) (f g : Command R (Unit {0}))
    → ((r : R) → f r ≡ g r)
    → after p (λ _. f) ≡ after p (λ _. g)
after-same (ok tt, r) f g h = h r
after-same (raise e, r) f g h = refl

module _ {R : Type 0} (redis : Commands R) (formats : Formats) (ttl : ℕ) where
  pushed-perform :
      (id : Uuid) (error : Option String) (r : R)
      → Redis.push_if_truthy redis formats ttl id error r
        ≡ perform redis formats ttl id (pushed error) r
  unfolding Redis.push_error send
  pushed-perform id none r = refl
  pushed-perform id (some msg) r = elim (Bool-cases (str_eq msg "")) [
    | inl empty ↦ rw empty refl
    | inr full ↦ rw full (sym (after-pure _))
  ]

  -- A method of the store is the series of its commands.
  pub call-perform :
      (c : Call) (r : R)
      → Redis.call redis formats ttl c r ≡ perform redis formats ttl (program c).0 (program c).1 r
  unfolding Redis.call Redis.mark_running Redis.mark_finished Redis.record_outcome Redis.add_error
      Redis.push_error send
  call-perform (mark_running id total now) r = sym (after-pure _)
  call-perform (mark_finished id b now) r = sym (after-pure _)
  call-perform (record_outcome id true error) r =
      after-same (redis.hincrby (hash_key redis formats ttl id) "processed" 1 r) _ _ (λ r1.
        after-same (redis.hincrby (hash_key redis formats ttl id) "succeeded" 1 r1) _ _
          (pushed-perform id error))
  call-perform (record_outcome id false error) r =
      after-same (redis.hincrby (hash_key redis formats ttl id) "processed" 1 r) _ _ (λ r1.
        after-same (redis.hincrby (hash_key redis formats ttl id) "failed" 1 r1) _ _
          (pushed-perform id error))
  call-perform (add_error id msg) r = sym (after-pure _)

-- What a command makes of its job.
abbrev pub applied : Sent → ImportJob → ImportJob
applied (set_running total now) job = start total now job
applied (set_finished b now) job = finish b now job
applied increase_processed job = record job { processed = job.processed + 1 }
applied increase_succeeded job = record job { succeeded = job.succeeded + 1 }
applied increase_failed job = record job { failed = job.failed + 1 }
applied (push msg) job = push_message msg job

module _ {R : Type 0} (redis : Commands R) (view : View R) (lawful : IsRedis view redis)
    (formats : Formats) (good : IsFormats formats) (ttl : ℕ) where
  abbrev Stored : Uuid → ImportJob → R → Type 0
  Stored = Holds redis view lawful formats good ttl

  -- A command on the job's own keys is answered, and does what it says.
  pub send-Holds :
      (id : Uuid) (s : Sent) (job : ImportJob) (r : R)
      → Stored id job r
      → ((send redis formats ttl id s r).0 ≡ ok tt)
        × Stored id (applied s job) (send redis formats ttl id s r).1
  unfolding send lookup Redis.mark_running Redis.mark_finished Redis.push_error
  send-Holds id (set_running total now) job r h = (
    (lawful.hset_sets (hash_key redis formats ttl id) _ r h.plain).0,
    running-Holds redis view lawful formats good ttl id job r h total now,
  )
  send-Holds id (set_finished b now) job r h = (
    (lawful.hset_sets (hash_key redis formats ttl id) _ r h.plain).0,
    finished-Holds redis view lawful formats good ttl id job r h b now,
  )
  send-Holds id increase_processed job r h =
      increment-Holds redis view lawful formats good ttl id "processed" job.processed job _ r h
        h.fields.1.1.0 refl refl
  send-Holds id increase_succeeded job r h =
      increment-Holds redis view lawful formats good ttl id "succeeded" job.succeeded job _ r h
        h.fields.1.1.1.0 refl refl
  send-Holds id increase_failed job r h =
      increment-Holds redis view lawful formats good ttl id "failed" job.failed job _ r h
        h.fields.1.1.1.1.0 refl refl
  send-Holds id (push msg) job r h = (
    (lawful.execute_effects (errors_key redis formats ttl id) _ r h.unhashed).0,
    pushed-Holds redis view lawful formats good ttl id job r h msg,
  )

  pub send-Leaves :
      (id j : Uuid)
      → j ≢ id
      → (s : Sent) → Leaves redis view lawful formats good ttl id (send redis formats ttl j s)
  unfolding send Redis.push_error
  send-Leaves id j other (set_running total now) =
      hset-Leaves redis view lawful formats good ttl id j other _
  send-Leaves id j other (set_finished b now) =
      hset-Leaves redis view lawful formats good ttl id j other _
  send-Leaves id j other increase_processed =
      hincrby-Leaves redis view lawful formats good ttl id j other "processed"
  send-Leaves id j other increase_succeeded =
      hincrby-Leaves redis view lawful formats good ttl id j other "succeeded"
  send-Leaves id j other increase_failed =
      hincrby-Leaves redis view lawful formats good ttl id j other "failed"
  send-Leaves id j other (push msg) = push-Leaves redis view lawful formats good ttl id j other msg
