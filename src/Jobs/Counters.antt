-- ===== src/Jobs/Counters.antt =====
-- The counters and the error list of a job, against the calls that it has seen.
use mathlib.Core.List.{append-nil, append_assoc}
use face_recognition.Prelude.{
  ℕ, ◌+◌, ◌≤◌, ◌≡◌, refl, sym, ap, ◌∙◌, Bool, true, false, not, ◌&&◌, none, some, List, [], ◌∷◌,
  ◌++◌, String, nat_eq, nat_beq, arith, if◌then◌else◌, length, length-append, take, take_all,
  push-take, take-take-append, ltb, Bool-cases, inl, inr,
}
use text.Mathlib.Text.{◌==◌ as str_eq}
use face_recognition.Jobs.Defs.{
  Uuid, ImportJob, new_job, start, finish, outcome, push_error, count_outcome, error_cap,
}
use face_recognition.Jobs.Calls.{
  Call, see, see_all, run, get-run, mark_running, mark_finished, record_outcome, add_error,
}
use face_recognition.Jobs.Memory
use face_recognition.Jobs.Memory.{Memory}
use face_recognition.Prelude.Dict.{lookup-insert_self}

-- Whether a call counts an outcome of the job, and which.
abbrev pub counts : Uuid → Bool → Call → ℕ
counts id success (record_outcome j b error) =
    if nat_beq j id && (if success then b else not b) then 1 else 0
counts id success _ = 0

abbrev pub total_counts : Uuid → Bool → List Call → ℕ
total_counts id success [] = 0
total_counts id success (c ∷ calls) = counts id success c + total_counts id success calls

-- The message that a call reports for the job.
abbrev pub message : Uuid → Call → List String
message id (record_outcome j b (some msg)) =
    if nat_beq j id && not (str_eq msg "") then msg ∷ [] else []
message id (add_error j msg) = if nat_beq j id then msg ∷ [] else []
message id _ = []

abbrev pub messages : Uuid → List Call → List String
messages id [] = []
messages id (c ∷ calls) = message id c ++ messages id calls

pub length-push :
    (msg : String) (job : ImportJob)
    → length job.errors ≤ error_cap
    → length (push_error msg job).errors ≤ error_cap
unfolding push_error
length-push msg job h = ground (arith, length-append job.errors (msg ∷ []))

push_keeps :
    (msg : String) (job : ImportJob)
    → ((push_error msg job).succeeded ≡ job.succeeded)
      × ((push_error msg job).failed ≡ job.failed)
      × ((push_error msg job).processed ≡ job.processed)
unfolding push_error
push_keeps msg job = ground arith

pub errors-push :
    (msg : String) (job : ImportJob)
    → length job.errors ≤ error_cap
    → (push_error msg job).errors ≡ take error_cap (job.errors ++ msg ∷ [])
unfolding push_error
errors-push msg job h = elim (Bool-cases (ltb (length job.errors) error_cap)) [
  | inl room ↦ rw room (rw room at (push-take error_cap job.errors msg h))
  | inr full ↦ rw full (rw full at (push-take error_cap job.errors msg h))
]

-- What one call adds to the counters and the list.
record Adds (job job' : ImportJob) (s f : ℕ) (msgs : List String) : Type 0 where
  succeeded : job'.succeeded ≡ job.succeeded + s
  failed : job'.failed ≡ job.failed + f
  processed : job'.processed ≡ job.processed + s + f
  errors : job'.errors ≡ take error_cap (job.errors ++ msgs)
  capped : length job'.errors ≤ error_cap

-- A job whose counters and errors are those of `job`.
same-Adds :
    (job job' : ImportJob)
    → length job.errors ≤ error_cap
    → job'.succeeded ≡ job.succeeded
    → job'.failed ≡ job.failed
    → job'.processed ≡ job.processed
    → job'.errors ≡ job.errors
    → Adds job job' 0 0 []
same-Adds job job' h s f p e = record {
  succeeded = omega arith;
  failed = omega arith;
  processed = omega arith;
  errors = rw (append-nil, e) (sym (take_all error_cap job.errors h));
  capped = rw e h;
}

-- An outcome counted, then one message, or none.
push-Adds :
    (msg : String) {job job' : ImportJob} {s f : ℕ}
    → length job.errors ≤ error_cap
    → Adds job job' s f []
    → Adds job (push_error msg job') s f (msg ∷ [])
push-Adds msg {job} {job'} h a = record {
  succeeded = (push_keeps msg job').0 ∙ a.succeeded;
  failed = (push_keeps msg job').1 ∙ a.failed;
  processed = (push_keeps msg job').2 ∙ a.processed;
  errors =
      errors-push msg job' a.capped
      ∙ rw (a.errors, append-nil) (take-take-append error_cap job.errors (msg ∷ []));
  capped = length-push msg job' a.capped;
}

count-Adds :
    (b : Bool) (job : ImportJob)
    → length job.errors ≤ error_cap
    → Adds job (count_outcome b job) (if b then 1 else 0) (if not b then 1 else 0) []
unfolding count_outcome
count-Adds true job h = record {
  succeeded = omega arith;
  failed = omega arith;
  processed = omega arith;
  errors = rw append-nil (sym (take_all error_cap job.errors h));
  capped = h;
}
count-Adds false job h = record {
  succeeded = omega arith;
  failed = omega arith;
  processed = omega arith;
  errors = rw append-nil (sym (take_all error_cap job.errors h));
  capped = h;
}

see-Adds :
    (id : Uuid) (c : Call) (job : ImportJob)
    → length job.errors ≤ error_cap
    → Adds job (see id c job) (counts id true c) (counts id false c) (message id c)
unfolding see outcome start finish
see-Adds id (mark_running j total now) job h = elim (Bool-cases (nat_beq j id)) [
  | inl mine ↦ rw mine (same-Adds job _ h refl refl refl refl)
  | inr other ↦ rw other (same-Adds job job h refl refl refl refl)
]
see-Adds id (mark_finished j b now) job h = elim (Bool-cases (nat_beq j id)) [
  | inl mine ↦ rw mine (same-Adds job _ h refl refl refl refl)
  | inr other ↦ rw other (same-Adds job job h refl refl refl refl)
]
see-Adds id (record_outcome j b none) job h = elim (Bool-cases (nat_beq j id)) [
  | inl mine ↦ rw mine (count-Adds b job h)
  | inr other ↦ rw other (same-Adds job job h refl refl refl refl)
]
see-Adds id (record_outcome j b (some msg)) job h = elim (Bool-cases (nat_beq j id)) [
  | inl mine ↦ elim (Bool-cases (str_eq msg "")) [
    | inl empty ↦ rw (mine, empty) (count-Adds b job h)
    | inr full ↦ rw (mine, full) (push-Adds msg h (count-Adds b job h))
  ]
  | inr other ↦ rw other (same-Adds job job h refl refl refl refl)
]
see-Adds id (add_error j msg) job h = elim (Bool-cases (nat_beq j id)) [
  | inl mine ↦ rw mine (push-Adds msg h (same-Adds job job h refl refl refl refl))
  | inr other ↦ rw other (same-Adds job job h refl refl refl refl)
]

total-Adds :
    (id : Uuid) (calls : List Call) (job : ImportJob)
    → length job.errors ≤ error_cap
    → Adds job
        (see_all id calls job)
        (total_counts id true calls)
        (total_counts id false calls)
        (messages id calls)
unfolding see_all
total-Adds id [] job h = same-Adds job job h refl refl refl refl
total-Adds id (c ∷ calls) job h =
    let one = see-Adds id c job h in
    let rest = total-Adds id calls (see id c job) one.capped in
    record {
      succeeded = omega (arith, one.succeeded, rest.succeeded);
      failed = omega (arith, one.failed, rest.failed);
      processed = omega (arith, one.processed, rest.processed);
      errors =
          rest.errors
          ∙ rw one.errors (
              take-take-append error_cap (job.errors ++ message id c) (messages id calls)
              ∙ ap (take error_cap) (append_assoc job.errors (message id c) (messages id calls)));
      capped = rest.capped;
    }

-- From its creation on, whatever calls any workers make and in whatever order, a job is found; it
-- counts exactly the outcomes that were recorded for it, `processed` is the sum of `succeeded` and
-- `failed`, and its error list holds the first 100 of the messages reported for it, in order.
pub created_job_counts :
    (id : Uuid) (jobs : Memory) (calls : List Call)
    → (job : ImportJob) × (Memory.get id (run calls (Memory.create id jobs).1) ≡ some job)
      × (job.succeeded ≡ total_counts id true calls)
      × (job.failed ≡ total_counts id false calls)
      × (job.processed ≡ job.succeeded + job.failed)
      × (job.errors ≡ take error_cap (messages id calls))
unfolding Memory.create Memory.get
created_job_counts id jobs calls =
    let all = total-Adds id calls (new_job id) (omega arith) in
    (
      see_all id calls (new_job id),
      get-run id calls _ (lookup-insert_self id (new_job id) jobs),
      omega (arith, all.succeeded),
      omega (arith, all.failed),
      omega (arith, all.succeeded, all.failed, all.processed),
      all.errors,
    )
