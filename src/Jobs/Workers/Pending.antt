-- ===== src/Jobs/Workers/Pending.antt =====
-- What the workers have still to count for a job, and what one turn takes of it.
use face_recognition.Prelude.{
  ℕ, ◌+◌, ◌≤◌, ◌≡◌, ◌≢◌, refl, sym, true, List, [], ◌∷◌, arith, min, if◌then◌else◌, Bool-cases, inl,
  inr, nat_beq, nat_beq_iff, length, length-append,
}
use mathlib.Core.Path.{subst}
use face_recognition.Jobs.Defs.{
  Uuid, ImportJob, error_cap, start, finish, push_error as push_message,
}
use face_recognition.Jobs.Commands.{Commands, View, IsRedis}
use face_recognition.Jobs.Keys.{IsFormats}
use face_recognition.Jobs.Redis.{Formats}
use face_recognition.Jobs.Holds.{Holds, Same-Holds}
use face_recognition.Jobs.Workers.{
  Sent, increase_processed, increase_succeeded, increase_failed, push, send, Worker, Turn, answered,
  raised, returned,
}
use face_recognition.Jobs.Workers.Kept.{applied, send-Holds, send-Leaves}

abbrev pub is_processed : Sent → ℕ
is_processed increase_processed = 1
is_processed _ = 0

abbrev pub is_succeeded : Sent → ℕ
is_succeeded increase_succeeded = 1
is_succeeded _ = 0

abbrev pub is_failed : Sent → ℕ
is_failed increase_failed = 1
is_failed _ = 0

abbrev pub is_push : Sent → ℕ
is_push (push msg) = 1
is_push _ = 0

abbrev pub in_rest : (Sent → ℕ) → List Sent → ℕ
in_rest weight [] = 0
in_rest weight (s ∷ rest) = weight s + in_rest weight rest

module _ (weight : Sent → ℕ) (id : Uuid) where
  -- What is left of a worker's calls on the job.
  abbrev pub pending : Worker → ℕ
  pending [] = 0
  pending ((j, rest) ∷ w) = (if nat_beq j id then in_rest weight rest else 0) + pending w

-- A turn counts what it takes away.
pub record Moves (id : Uuid) (job job' : ImportJob) (v v' : Worker) : Type 0 where
  pub processed :
      job'.processed + pending is_processed id v' ≡ job.processed + pending is_processed id v
  pub succeeded :
      job'.succeeded + pending is_succeeded id v' ≡ job.succeeded + pending is_succeeded id v
  pub failed : job'.failed + pending is_failed id v' ≡ job.failed + pending is_failed id v
  -- the errors beyond the cap are not kept
  pub added : ℕ
  pub errors : length job'.errors ≡ min error_cap (length job.errors + added)
  pub pushes : added + pending is_push id v' ≡ pending is_push id v

own-Moves :
    (id j : Uuid) (s : Sent) (rest : List Sent) (w : Worker) (job : ImportJob)
    → nat_beq j id ≡ true
    → length job.errors ≤ error_cap
    → Moves id job (applied s job) ((j, s ∷ rest) ∷ w) ((j, rest) ∷ w)
unfolding start finish push_message
own-Moves id j (push msg) rest w job mine h = record {
  processed = ground arith;
  succeeded = ground arith;
  failed = ground arith;
  added = 1;
  errors = ground (arith, length-append job.errors (msg ∷ []));
  pushes = ground arith;
}
own-Moves id j _ rest w job mine h = record {
  processed = ground arith;
  succeeded = ground arith;
  failed = ground arith;
  added = 0;
  errors = ground arith;
  pushes = ground arith;
}

-- A turn on another job, or the end of a call.
idle-Moves :
    (id : Uuid) (job : ImportJob) (v v' : Worker)
    → length job.errors ≤ error_cap
    → ((weight : Sent → ℕ) → pending weight id v' ≡ pending weight id v)
    → Moves id job job v v'
idle-Moves id job v v' h same = record {
  processed = omega (arith, same is_processed);
  succeeded = omega (arith, same is_succeeded);
  failed = omega (arith, same is_failed);
  added = 0;
  errors = omega arith;
  pushes = omega (arith, same is_push);
}

module _ {R : Type 0} (redis : Commands R) (view : View R) (lawful : IsRedis view redis)
    (formats : Formats) (good : IsFormats formats) (ttl : ℕ) where
  abbrev Stored : Uuid → ImportJob → R → Type 0
  Stored = Holds redis view lawful formats good ttl

  -- After a turn the job stands in Redis again, with what the turn took counted.
  abbrev pub Goes : Uuid → ImportJob → R → Worker → Worker → Type 0
  Goes id job r' v v' = (job' : ImportJob) × Stored id job' r' × Moves id job job' v v'

  other-Goes :
      (id j : Uuid) (s : Sent) (job : ImportJob) (r : R) (v v' : Worker)
      → j ≢ id
      → ((weight : Sent → ℕ) → pending weight id v' ≡ pending weight id v)
      → Stored id job r
      → Goes id job (send redis formats ttl j s r).1 v v'
  other-Goes id j s job r v v' other same h = (
    job,
    Same-Holds redis view lawful formats good ttl id job
        (send-Leaves redis view lawful formats good ttl id j other s r) h,
    idle-Moves id job v v' h.capped same,
  )

  own-Goes :
      (id j : Uuid) (s : Sent) (rest : List Sent) (w : Worker) (job : ImportJob) (r : R)
      → j ≡ id
      → Stored id job r
      → Goes id job (send redis formats ttl j s r).1 ((j, s ∷ rest) ∷ w) ((j, rest) ∷ w)
  own-Goes id j s rest w job r mine h = (
    applied s job,
    subst (λ i. Stored id (applied s job) (send redis formats ttl i s r).1) (sym mine)
        (send-Holds redis view lawful formats good ttl id s job r h).1,
    own-Moves id j s rest w job (ground (arith, mine)) h.capped,
  )

  pub Turn-Goes :
      (id : Uuid) (job : ImportJob) {r r' : R} {v v' : Worker}
      → Turn redis formats ttl r v r' v'
      → Stored id job r
      → Goes id job r' v v'
  Turn-Goes id job (answered {r} {id = j} {s} {rest} {w} e) h = elim (Bool-cases (nat_beq j id)) [
    | inl mine ↦ own-Goes id j s rest w job r (ground (arith, mine)) h
    | inr other ↦
        other-Goes id j s job r _ _ (λ e. ground (arith, e, other)) (λ weight. rw other refl) h
  ]
  Turn-Goes id job (raised {r} {id = j} {s} {rest} {w} e) h = elim (Bool-cases (nat_beq j id)) [
    | inl mine ↦ absurd (
        cc (
          e,
          (nat_beq_iff j id).0 mine,
          (send-Holds redis view lawful formats good ttl id s job r h).0,
        ))
    | inr other ↦
        other-Goes id j s job r _ _ (λ e. ground (arith, e, other))
          (λ weight. rw other (omega arith)) h
  ]
  Turn-Goes id job (returned {r} {id = j} {w}) h =
      (job, h, idle-Moves id job _ _ h.capped (λ weight. ground arith))
