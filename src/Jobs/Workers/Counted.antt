-- ===== src/Jobs/Workers/Counted.antt =====
-- No update of a job is lost, however the commands of its workers interleave.
use face_recognition.Prelude.{
  ℕ, ◌+◌, ◌<◌, ◌≡◌, refl, sym, ap, true, false, none, some, List, [], ◌∷◌, map, arith, min,
  if◌then◌else◌, nat_beq, length, length-append,
}
use face_recognition.Prelude.Threads.{
  sum_below, sum_below-put, weight-le-sum_below, sum_below_eq, sum_below_add, sum_below_zero,
}
use face_recognition.Core.Errors.{ok}
use face_recognition.Jobs.Defs.{Uuid, ImportJob, new_job, error_cap}
use face_recognition.Jobs.Calls.{Call, record_outcome}
use face_recognition.Jobs.Counters.{counts, total_counts, message, messages}
use face_recognition.Jobs.Commands.{Commands, View, IsRedis}
use face_recognition.Jobs.Keys.{IsFormats}
use face_recognition.Jobs.Redis
use face_recognition.Jobs.Redis.{Formats}
use face_recognition.Jobs.Holds.{Holds}
use face_recognition.Jobs.Reads.{snapshot, get_lem}
use face_recognition.Jobs.Refines.{IsFresh, create-Holds}
use face_recognition.Jobs.Workers.{Sent, program, Worker, Turns, none_yet, next}
use face_recognition.Jobs.Workers.Pending.{
  is_processed, is_succeeded, is_failed, is_push, in_rest, pending, Turn-Goes,
}

-- What one call has to count.
abbrev due : (Sent → ℕ) → Uuid → Call → ℕ
due weight id c = if nat_beq (program c).0 id then in_rest weight (program c).1 else 0

due_success : (id : Uuid) (c : Call) → due is_succeeded id c ≡ counts id true c
due_success id (record_outcome j true none) = ground arith
due_success id (record_outcome j b (some msg)) = ground arith
due_success id (record_outcome j false none) = ground arith
due_success id _ = ground arith

due_failure : (id : Uuid) (c : Call) → due is_failed id c ≡ counts id false c
due_failure id (record_outcome j true none) = ground arith
due_failure id (record_outcome j b (some msg)) = ground arith
due_failure id (record_outcome j false none) = ground arith
due_failure id _ = ground arith

due_outcome : (id : Uuid) (c : Call) → due is_processed id c ≡ counts id true c + counts id false c
due_outcome id (record_outcome j true none) = ground arith
due_outcome id (record_outcome j b (some msg)) = ground arith
due_outcome id (record_outcome j false none) = ground arith
due_outcome id _ = ground arith

due_message : (id : Uuid) (c : Call) → due is_push id c ≡ length (message id c)
due_message id (record_outcome j b none) = ground arith
due_message id (record_outcome j b (some msg)) = ground arith
due_message id _ = ground arith

-- What the calls of a worker have to count.
calls_due :
    (weight : Sent → ℕ) (one : Call → ℕ) (all : List Call → ℕ) (id : Uuid)
    → all [] ≡ 0
    → ((c : Call) (cs : List Call) → all (c ∷ cs) ≡ one c + all cs)
    → ((c : Call) → due weight id c ≡ one c)
    → (cs : List Call) → pending weight id (map program cs) ≡ all cs
calls_due weight one all id none_due more h [] = sym none_due
calls_due weight one all id none_due more h (c ∷ cs) =
    omega (arith, more c cs, h c, calls_due weight one all id none_due more h cs)

module _ {R : Type 0} (redis : Commands R) (view : View R) (lawful : IsRedis view redis)
    (formats : Formats) (good : IsFormats formats) (ttl : ℕ) where
  -- A job in Redis, and what it comes to with all that is pending.
  record Balanced (n : ℕ) (id : Uuid) (w : ℕ → Worker) (r : R) (p s f e : ℕ) : Type 0 where
    job : ImportJob
    stored : Holds redis view lawful formats good ttl id job r
    processed : job.processed + sum_below (pending is_processed id) n w ≡ p
    succeeded : job.succeeded + sum_below (pending is_succeeded id) n w ≡ s
    failed : job.failed + sum_below (pending is_failed id) n w ≡ f
    errors :
        min error_cap (length job.errors + sum_below (pending is_push id) n w) ≡ min error_cap e

  Turns-Balanced :
      (n : ℕ) (id : Uuid) {r r' : R} {w w' : ℕ → Worker} (p s f e : ℕ)
      → Turns redis formats ttl n r w r' w'
      → Balanced n id w r p s f e
      → Balanced n id w' r' p s f e
  Turns-Balanced n id p s f e none_yet b = b
  Turns-Balanced n id p s f e (next {w1 = w1} {v = v} i lt before turn) b0 =
      let b = Turns-Balanced n id p s f e before b0 in
      let (job', stored, moves) =
        Turn-Goes redis view lawful formats good ttl id b.job turn b.stored in
      let at = λ (weight : Sent → ℕ). sum_below-put (pending weight id) i v w1 n lt in
      let some_left = weight-le-sum_below (pending is_push id) w1 n i lt in
      record {
        job = job';
        stored = stored;
        processed = omega (arith, moves.processed, b.processed, at is_processed);
        succeeded = omega (arith, moves.succeeded, b.succeeded, at is_succeeded);
        failed = omega (arith, moves.failed, b.failed, at is_failed);
        errors = omega (arith, moves.errors, moves.pushes, b.errors, at is_push, some_left);
      }

  sum_due :
      (weight : Sent → ℕ) (one : Call → ℕ) (all : List Call → ℕ) (id : Uuid) (n : ℕ)
      (calls : ℕ → List Call)
      → all [] ≡ 0
      → ((c : Call) (cs : List Call) → all (c ∷ cs) ≡ one c + all cs)
      → ((c : Call) → due weight id c ≡ one c)
      → sum_below (pending weight id) n (λ i. map program (calls i)) ≡ sum_below all n calls
  sum_due weight one all id n calls none_due more h =
      sum_below_eq (pending weight id) all (λ i. map program (calls i)) calls n
        (λ i. calls_due weight one all id none_due more h (calls i))

  created-Balanced :
      (n : ℕ) (id : Uuid) (calls : ℕ → List Call) (r : R)
      → IsFresh redis view lawful formats good ttl id r
      → Balanced n id
          (λ i. map program (calls i))
          (Redis.create redis formats ttl id r).1
          (sum_below (total_counts id true) n calls + sum_below (total_counts id false) n calls)
          (sum_below (total_counts id true) n calls)
          (sum_below (total_counts id false) n calls)
          (sum_below (λ cs. length (messages id cs)) n calls)
  created-Balanced n id calls r fresh = record {
    job = new_job id;
    stored = create-Holds redis view lawful formats good ttl id r fresh;
    processed = omega (
      arith,
      sum_due is_processed (λ c. counts id true c + counts id false c)
          (λ cs. total_counts id true cs + total_counts id false cs) id n calls refl
          (λ c cs. omega arith) (due_outcome id),
      sum_below_add (total_counts id true) (total_counts id false) calls n,
    );
    succeeded = omega (
      arith,
      sum_due is_succeeded (counts id true) (total_counts id true) id n calls refl (λ c cs. refl)
          (due_success id),
    );
    failed = omega (
      arith,
      sum_due is_failed (counts id false) (total_counts id false) id n calls refl (λ c cs. refl)
          (due_failure id),
    );
    errors = omega (
      arith,
      sum_due is_push (λ c. length (message id c)) (λ cs. length (messages id cs)) id n calls refl
          (λ c cs. length-append (message id c) (messages id cs)) (due_message id),
    );
  }

  -- Workers that share the store in Redis lose no update, however the commands of their calls
  -- interleave: when all are through, the created job is found, with exactly the successes and failures
  -- that were recorded for it, `processed` is their sum, and its error list is as long as the messages
  -- for it are many, up to 100. The keys of the new id must be unused, Redis be reached and no key
  -- expire, and texts of ids and times read back.
  pub no_lost_update :
      (n : ℕ) (id : Uuid) (calls : ℕ → List Call) (r : R) {r' : R} {w' : ℕ → Worker}
      → IsFresh redis view lawful formats good ttl id r
      → Turns redis formats ttl n
          (Redis.create redis formats ttl id r).1
          (λ i. map program (calls i))
          r'
          w'
      → ((i : ℕ) → i < n → w' i ≡ [])
      → (job : ImportJob) × ((Redis.get redis formats ttl id r').0 ≡ ok (some (snapshot id job)))
        × (job.succeeded ≡ sum_below (total_counts id true) n calls)
        × (job.failed ≡ sum_below (total_counts id false) n calls)
        × (job.processed ≡ job.succeeded + job.failed)
        × (length job.errors ≡ min error_cap (sum_below (λ cs. length (messages id cs)) n calls))
  no_lost_update n id calls r {r'} {w'} fresh turns through =
      let b = Turns-Balanced n id _ _ _ _ turns (created-Balanced n id calls r fresh) in
      let over = λ (weight : Sent → ℕ).
        sum_below_zero (pending weight id) w' n (λ i lt. ap (pending weight id) (through i lt)) in
      (
        b.job,
        get_lem redis view lawful formats good ttl id b.job r' b.stored,
        omega (arith, b.succeeded, over is_succeeded),
        omega (arith, b.failed, over is_failed),
        omega (
          arith,
          b.succeeded,
          b.failed,
          b.processed,
          over is_processed,
          over is_succeeded,
          over is_failed,
        ),
        omega (arith, b.errors, over is_push, b.stored.capped),
      )
