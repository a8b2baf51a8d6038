-- ===== src/Jobs/Calls.antt =====
-- Runs of the registry: a sequence of calls, and what one job sees of it.
use face_recognition.Prelude.{
  ℕ, ◌≡◌, Bool, Option, some, List, [], ◌∷◌, String, nat_eq, nat_beq, nat_beq_iff, arith,
  if◌then◌else◌, Option-cases, inl, inr,
}
use face_recognition.Prelude.Dict.{lookup, lookup-insert}
use face_recognition.Jobs.Defs.{Uuid, Time, ImportJob, start, finish, outcome, push_error}
use face_recognition.Jobs.Memory
use face_recognition.Jobs.Memory.{Memory}

-- One call of a method of `JobStore` other than `create`.
pub data Call : Type 0 where
  mark_running : Uuid → ℕ → Time → Call
  mark_finished : Uuid → Bool → Time → Call
  record_outcome : Uuid → Bool → Option String → Call
  add_error : Uuid → String → Call

unfoldable pub call : Call → Memory → Memory
call (mark_running id total now) = Memory.mark_running id total now
call (mark_finished id has_failed now) = Memory.mark_finished id has_failed now
call (record_outcome id success error) = Memory.record_outcome id success error
call (add_error id msg) = Memory.add_error id msg

unfoldable pub run : List Call → Memory → Memory
run [] jobs = jobs
run (c ∷ calls) jobs = run calls (call c jobs)

-- What a call does to the job with the given id.
unfoldable pub see : Uuid → Call → ImportJob → ImportJob
see id (mark_running j total now) job = if nat_beq j id then start total now job else job
see id (mark_finished j has_failed now) job =
    if nat_beq j id then finish has_failed now job else job
see id (record_outcome j success error) job =
    if nat_beq j id then outcome success error job else job
see id (add_error j msg) job = if nat_beq j id then push_error msg job else job

unfoldable pub see_all : Uuid → List Call → ImportJob → ImportJob
see_all id [] job = job
see_all id (c ∷ calls) job = see_all id calls (see id c job)

lookup-update :
    (id j : Uuid) (f : ImportJob → ImportJob) (jobs : Memory) {job : ImportJob}
    → lookup id jobs ≡ some job
    → lookup id (Memory.update j f jobs) ≡ some (if nat_beq j id then f job else job)
unfolding Memory.update
lookup-update id j f jobs {job} h = elim (Option-cases (lookup j jobs)) [
  | inl missing ↦ ground (arith, nat_beq_iff j id)
  | inr (old, found) ↦ ground (arith, nat_beq_iff j id, lookup-insert j id (f old) jobs)
]

lookup-call :
    (id : Uuid) (c : Call) (jobs : Memory) {job : ImportJob}
    → lookup id jobs ≡ some job
    → lookup id (call c jobs) ≡ some (see id c job)
unfolding call see Memory.mark_running Memory.mark_finished Memory.record_outcome Memory.add_error
lookup-call id (mark_running j total now) jobs h = lookup-update id j (start total now) jobs h
lookup-call id (mark_finished j b now) jobs h = lookup-update id j (finish b now) jobs h
lookup-call id (record_outcome j b error) jobs h = lookup-update id j (outcome b error) jobs h
lookup-call id (add_error j msg) jobs h = lookup-update id j (push_error msg) jobs h

-- A job sees the calls with its own id, in order, and no other call.
pub get-run :
    (id : Uuid) (calls : List Call) (jobs : Memory) {job : ImportJob}
    → Memory.get id jobs ≡ some job
    → Memory.get id (run calls jobs) ≡ some (see_all id calls job)
unfolding run see_all Memory.get
get-run id [] jobs h = h
get-run id (c ∷ calls) jobs h = get-run id calls (call c jobs) (lookup-call id c jobs h)
