-- ===== src/Api/Imports.antt =====
-- app/api/v1/faces.py, `bulk_import` and `import_status`, on the in-process registry.
use face_recognition.Prelude.{
  ℕ, String, Option, none, some, List, [], nat_beq, if◌then◌else◌, nat_eq,
}
use face_recognition.Prelude.Int.{pos}
use face_recognition.Prelude.Float.{Float}
use face_recognition.Core.Role.{Role}
use face_recognition.Core.Errors.{domain, entity_not_found, Entity, Result, ok, raise}
use face_recognition.Jobs.Defs.{Uuid, Time, JobState, ImportJob}
use face_recognition.Jobs.Memory.{Memory, create, get}
use face_recognition.Access.Guards.{TokenPayload, require_role}

pub record ImportJobStatus : Type 0 where
  pub job_id : Uuid
  pub state : JobState
  pub total : ℕ
  pub processed : ℕ
  pub succeeded : ℕ
  pub failed : ℕ
  pub errors : List String
  pub started_at : Option Time
  pub finished_at : Option Time

-- `ImportJobStatus.progress`
unfoldable pub progress : {F : Type 0} → Float F → ImportJobStatus → F
progress fl s =
    if nat_beq s.total 0
    then fl.of_int (pos 0)
    else fl.round4 (fl.div (fl.of_int (pos s.processed)) (fl.of_int (pos s.total)))

-- The task that is added to run after the answer: `service.run(job, root_path)`.
pub record ImportTask : Type 0 where
  pub job : ImportJob
  pub root_path : String

-- The answer to the start of an import, without what the job has not had yet.
abbrev pub started_status : ImportJob → ImportJobStatus
started_status job = record {
  job_id = job.job_id;
  state = job.state;
  total = job.total;
  processed = job.processed;
  succeeded = job.succeeded;
  failed = job.failed;
  errors = [];
  started_at = none;
  finished_at = none;
}

-- `id` is what `uuid4()` draws.
unfoldable pub bulk_import :
    TokenPayload → String → Uuid → Memory → Result (ImportJobStatus × ImportTask) × Memory
bulk_import user root_path id jobs = elim (require_role Role.admin user) [
  | raise e ↦ (raise e, jobs)
  | ok admin ↦
      let (job, jobs') = create id jobs in
      (ok (started_status job, record { job = job; root_path = root_path }), jobs')
]

abbrev pub status_of : ImportJob → ImportJobStatus
status_of job = record {
  job_id = job.job_id;
  state = job.state;
  total = job.total;
  processed = job.processed;
  succeeded = job.succeeded;
  failed = job.failed;
  errors = job.errors;
  started_at = job.started_at;
  finished_at = job.finished_at;
}

unfoldable pub import_status : TokenPayload → Uuid → Memory → Result ImportJobStatus
import_status user job_id jobs = elim (require_role Role.admin user) [
  | raise e ↦ raise e
  | ok admin ↦ elim (get job_id jobs) [
    | none ↦ raise (domain (entity_not_found Entity.import_job job_id))
    | some job ↦ ok (status_of job)
  ]
]
