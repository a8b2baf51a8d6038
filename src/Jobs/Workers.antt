-- ===== src/Jobs/Workers.antt =====
-- Workers that share the store in Redis: each call of `RedisJobStore` is a series of commands, and the
-- commands of several workers interleave.
pub mod Kept
pub mod Pending
pub mod Counted
use face_recognition.Prelude.{
  ℕ, ◌<◌, ◌≡◌, Bool, String, Option, none, some, List, [], ◌∷◌, map, if◌then◌else◌,
}
use text.Mathlib.Text.{◌==◌ as str_eq}
use face_recognition.Prelude.Threads.{put}
use face_recognition.Core.Errors.{Result, ok, raise, Exn}
use face_recognition.Jobs.Defs.{Uuid, Time}
use face_recognition.Jobs.Calls.{Call, mark_running, mark_finished, record_outcome, add_error}
use face_recognition.Jobs.Commands.{Command, Commands}
use face_recognition.Jobs.Redis.{
  Formats, hash_key, errors_key, running_fields, finished_fields, pushes,
}

-- A command of a call: `hset`, `hincrby`, or the pipeline of `_push_error`, which is one transaction.
pub data Sent : Type 0 where
  set_running : ℕ → Time → Sent
  set_finished : Bool → Time → Sent
  increase_processed increase_succeeded increase_failed : Sent
  push : String → Sent

-- The error of an outcome, if there is one.
abbrev pub pushed : Option String → List Sent
pushed none = []
pushed (some msg) = if str_eq msg "" then [] else push msg ∷ []

-- The job of a call, and the commands that are left of it.
abbrev pub Program : Type 0
Program = Uuid × List Sent

abbrev pub program : Call → Program
program (mark_running id total now) = (id, set_running total now ∷ [])
program (mark_finished id b now) = (id, set_finished b now ∷ [])
program (record_outcome id b error) =
    (id, increase_processed ∷ (if b then increase_succeeded else increase_failed) ∷ pushed error)
program (add_error id msg) = (id, push msg ∷ [])

-- A worker: the call that it is in, and its later calls.
abbrev pub Worker : Type 0
Worker = List Program

module _ {R : Type 0} (redis : Commands R) (formats : Formats) (ttl : ℕ) where
  unfoldable pub send : Uuid → Sent → Command R (Unit {0})
  send id (set_running total now) =
      redis.hset (hash_key redis formats ttl id) (running_fields redis formats ttl total now)
  send id (set_finished b now) =
      redis.hset (hash_key redis formats ttl id) (finished_fields redis formats ttl b now)
  send id increase_processed = redis.hincrby (hash_key redis formats ttl id) "processed" 1
  send id increase_succeeded = redis.hincrby (hash_key redis formats ttl id) "succeeded" 1
  send id increase_failed = redis.hincrby (hash_key redis formats ttl id) "failed" 1
  send id (push msg) =
      redis.execute (errors_key redis formats ttl id) (pushes redis formats ttl msg)

  -- One worker sends its next command; an exception ends the call that it is in.
  pub data Turn : R → Worker → R → Worker → Type 0 where
    answered :
        {r : R} {id : Uuid} {s : Sent} {rest : List Sent} {w : Worker}
        → (send id s r).0 ≡ ok tt
        → Turn r ((id, s ∷ rest) ∷ w) (send id s r).1 ((id, rest) ∷ w)
    raised :
        {r : R} {id : Uuid} {s : Sent} {rest : List Sent} {w : Worker} {e : Exn}
        → (send id s r).0 ≡ raise e
        → Turn r ((id, s ∷ rest) ∷ w) (send id s r).1 w
    returned : {r : R} {id : Uuid} {w : Worker} → Turn r ((id, []) ∷ w) r w

  -- `n` workers, in any order.
  pub data Turns (n : ℕ) : R → (ℕ → Worker) → R → (ℕ → Worker) → Type 0 where
    none_yet : {r : R} {w : ℕ → Worker} → Turns n r w r w
    next :
        {r r1 r2 : R} {w w1 : ℕ → Worker} {v : Worker} (i : ℕ)
        → i < n
        → Turns n r w r1 w1
        → Turn r1 (w1 i) r2 v
        → Turns n r w r2 (put i v w1)
