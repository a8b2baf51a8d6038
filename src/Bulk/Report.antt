-- ===== src/Bulk/Report.antt =====
-- What a poll of the job finds when the import has ended.
use face_recognition.Prelude.{
  ◌*◌, Option, ◌+◌, ◌≤◌, ◌≡◌, true, String, none, some, List, [], ◌∷◌, length, nat_eq,
}
use face_recognition.Store.Rows.{Uuid, Database}
use face_recognition.Recognition.Types.{Service}
use face_recognition.Jobs.Defs.{JobState, ImportJob}
use face_recognition.Jobs.Memory
use face_recognition.Jobs.Memory.{Memory}
use face_recognition.Jobs.Calls as Calls
use face_recognition.Jobs.Calls.{Call, mark_finished, add_error}
use face_recognition.Core.Errors.{Result, ok, raise, ◌>>=◌}
use face_recognition.Bulk.Discovery.{ImageFile, discover}
use face_recognition.Bulk.Progress.{batch_limit}
use face_recognition.Bulk.Import.{Host, import_all, run}
use face_recognition.Bulk.Counts.{failed_batches}

-- The images below a root, as far as listing does not raise; `none` where the root is no directory.
abbrev pub listing : Host → String → Option (Result (List ImageFile))
listing host root_path = elim (host.list_dir root_path) [
  | none ↦ none
  | some entries ↦ some (entries >>= discover)
]

module _ {F I : Type 0} (s : Service F I) (host : Host) (id : Uuid) (db : Database F) where
  -- A report of an import, for what the discovery gives: the database, the calls and how the task
  -- ends, and the job.
  abbrev pub Tells :
      Option (Result (List ImageFile))
      → Database F × List Call × Result (Unit {0})
      → ImportJob
      → Type 0
  Tells none r job =
      (job.state ≡ JobState.failed) × (job.processed ≡ 0) × (r.0 ≡ db) × (r.2 ≡ ok tt)
  Tells (some (raise e)) r job =
      (job.state ≡ JobState.pending) × (job.processed ≡ 0) × (r.0 ≡ db) × (r.2 ≡ raise e)
  Tells (some (ok files)) r job =
      (job.state ≡ JobState.completed)
      × (job.processed ≤ length files)
      × (length files ≤ job.processed * batch_limit host)
      × (length db.faces ≤ length r.0.faces)
      × (length r.0.faces ≤ length db.faces + job.succeeded)
      × (failed_batches id r.1 ≡ 0
          → (job.processed ≡ length files) × (length r.0.faces ≡ length db.faces + job.succeeded))
      × (r.2 ≡ ok tt)

  -- `run` after the discovery.
  abbrev pub after_discovery :
      String → Option (Result (List ImageFile)) → Database F × List Call × Result (Unit {0})
  after_discovery root_path none =
      (db, add_error id (host.not_found root_path) ∷ mark_finished id true host.clock ∷ [], ok tt)
  after_discovery root_path (some found) = import_all s host id found db

  module _ (root_path : String) (jobs : Memory) where
    abbrev pub result : Database F × List Call × Result (Unit {0})
    result = run s host id root_path db

    -- The registry after the job's creation and the import.
    abbrev pub registry : Memory
    registry = Calls.run result.1 (Memory.create id jobs).1
