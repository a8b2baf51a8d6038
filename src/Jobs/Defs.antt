-- ===== src/Jobs/Defs.antt =====
-- app/services/job_store.py: `ImportJob` and what one call does to the job that it finds.
use text.Mathlib.Text.{◌==◌ as str_eq}
use face_recognition.Prelude.{
  ℕ, ◌+◌, Bool, false, not, String, Option, none, some, List, [], ◌∷◌, ◌++◌, ltb, length,
  if◌then◌else◌,
}

-- `uuid.UUID`, which the code only draws and compares.
abbrev pub Uuid : Type 0
Uuid = ℕ

-- `datetime`
abbrev pub Time : Type 0
Time = ℕ

pub data JobState : Type 0 where
  pending running completed failed : JobState

abbrev pub error_cap : ℕ
error_cap = 100

pub record ImportJob : Type 0 where
  pub job_id : Uuid
  pub state : JobState
  pub total : ℕ
  pub processed : ℕ
  pub succeeded : ℕ
  pub failed : ℕ
  pub errors : List String
  pub started_at : Option Time
  pub finished_at : Option Time

-- The defaults of the dataclass.
abbrev pub new_job : Uuid → ImportJob
new_job id = record {
  job_id = id;
  state = JobState.pending;
  total = 0;
  processed = 0;
  succeeded = 0;
  failed = 0;
  errors = [];
  started_at = none;
  finished_at = none;
}

-- `if error and len(job.errors) < _ERROR_CAP: job.errors.append(error)`, without the test of
-- `error` itself.
unfoldable pub push_error : String → ImportJob → ImportJob
push_error msg job =
    if ltb (length job.errors) error_cap
    then record job { errors = job.errors ++ msg ∷ [] }
    else job

-- The truth of an optional text.
abbrev pub is_truthy : Option String → Bool
is_truthy none = false
is_truthy (some s) = not (str_eq s "")

abbrev pub push_if_truthy : Option String → ImportJob → ImportJob
push_if_truthy none job = job
push_if_truthy (some s) job = if str_eq s "" then job else push_error s job

unfoldable pub start : ℕ → Time → ImportJob → ImportJob
start total now job = record job { state = JobState.running; total = total; started_at = some now }

unfoldable pub finish : Bool → Time → ImportJob → ImportJob
finish has_failed now job = record job {
  state = if has_failed then JobState.failed else JobState.completed;
  finished_at = some now;
}

unfoldable pub count_outcome : Bool → ImportJob → ImportJob
count_outcome success job =
    if success
    then record job { processed = job.processed + 1; succeeded = job.succeeded + 1 }
    else record job { processed = job.processed + 1; failed = job.failed + 1 }

unfoldable pub outcome : Bool → Option String → ImportJob → ImportJob
unfolding count_outcome push_error
outcome success error job = push_if_truthy error (count_outcome success job)
