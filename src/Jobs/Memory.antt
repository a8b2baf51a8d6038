-- ===== src/Jobs/Memory.antt =====
-- app/services/job_store.py, `InProcessJobStore`: a dict from ids to jobs. The lock makes each
-- call atomic, so a run of the store is a sequence of calls. `uuid4()` and `datetime.now(UTC)` are
-- arguments.
use face_recognition.Prelude.{ℕ, Bool, String, Option, none, some, nat_eq}
use face_recognition.Prelude.Dict.{Dict, lookup, insert}
use face_recognition.Jobs.Defs.{Uuid, Time, ImportJob, new_job, start, finish, outcome, push_error}

abbrev pub Memory : Type 0
Memory = Dict Uuid ImportJob

unfoldable pub create : Uuid → Memory → ImportJob × Memory
create id jobs = (new_job id, insert id (new_job id) jobs)

unfoldable pub get : Uuid → Memory → Option ImportJob
get id jobs = lookup id jobs

-- `if job := self._jobs.get(job_id): …`, an update of the job in place.
unfoldable pub update : Uuid → (ImportJob → ImportJob) → Memory → Memory
update id f jobs = elim (lookup id jobs) [ none ↦ jobs | some job ↦ insert id (f job) jobs ]

unfoldable pub mark_running : Uuid → ℕ → Time → Memory → Memory
unfolding update
mark_running id total now = update id (start total now)

unfoldable pub mark_finished : Uuid → Bool → Time → Memory → Memory
unfolding update
mark_finished id has_failed now = update id (finish has_failed now)

unfoldable pub record_outcome : Uuid → Bool → Option String → Memory → Memory
unfolding update
record_outcome id success error = update id (outcome success error)

unfoldable pub add_error : Uuid → String → Memory → Memory
unfolding update
add_error id msg = update id (push_error msg)
