-- ===== src/Jobs/Redis.antt =====
-- app/services/job_store.py, `RedisJobStore`. `uuid4()`, the time and the texts
-- that the library makes of an id and of a time are parameters.
use text.Mathlib.Text.{◌==◌ as str_eq}
use Prim.Native.String.{◌++◌ as str_append}
use face_recognition.Prelude.{
  ℕ, Bool, String, Option, none, some, List, [], ◌∷◌, if◌then◌else◌, string_eq, ◌-◌,
}
use face_recognition.Prelude.Int.{ℤ, pos}
use face_recognition.Prelude.Dict.{Dict, lookup}
use face_recognition.Prelude.Codes.{codes}
use face_recognition.Prelude.Decimal.{print, int_of}
use face_recognition.Core.Errors.{Result, ok, raise, fault, value_error}
use face_recognition.Jobs.Defs.{Uuid, Time, JobState, error_cap, ImportJob, new_job}
use face_recognition.Jobs.Commands.{
  Command, ◌>>=◌, ◌>>◌, pure, lift, Queued, rpush, ltrim, expire_in, Commands,
}
use face_recognition.Jobs.Calls.{Call}

-- The value of `state`.
abbrev pub state_text : JobState → String
state_text JobState.pending = "pending"
state_text JobState.running = "running"
state_text JobState.completed = "completed"
state_text JobState.failed = "failed"

-- `ImportJob` as the store in Redis reads it: the fields as the texts and numbers that are there.
pub record Snapshot : Type 0 where
  pub job_id : Uuid
  pub state : String
  pub total : ℤ
  pub processed : ℤ
  pub succeeded : ℤ
  pub failed : ℤ
  pub errors : List String
  pub started_at : Option Time
  pub finished_at : Option Time

-- The texts of ids and times: `str(job_id)`, `isoformat` and `fromisoformat`, where `none` is its
-- `ValueError`.
pub record Formats : Type 0 where
  pub uuid_text : Uuid → String
  pub isoformat : Time → String
  pub fromisoformat : String → Option Time

-- `data.get(name, default)`
abbrev pub get_or : String → String → Dict String String → String
get_or name default hash = elim (lookup name hash) [ none ↦ default | some v ↦ v ]

-- `int(data.get(name, 0))`; the default is read as the number that it is.
abbrev pub get_int : String → Dict String String → Result ℤ
get_int name hash = elim (lookup name hash) [
  | none ↦ ok (pos 0)
  | some v ↦ elim (int_of (codes v)) [ none ↦ raise (fault value_error) | some n ↦ ok n ]
]

abbrev pub default_ttl : ℕ
default_ttl = 86400

module _ {R : Type 0} (redis : Commands R) (formats : Formats) (ttl : ℕ) where
  -- `_h` and `_e`
  unfoldable pub hash_key : Uuid → String
  hash_key id = str_append "fr:import:job:" (formats.uuid_text id)

  unfoldable pub errors_key : Uuid → String
  errors_key id = str_append "fr:import:job:" (str_append (formats.uuid_text id) ":errors")

  -- `_parse_dt`
  abbrev pub parse_dt : Option String → Option Time
  parse_dt none = none
  parse_dt (some v) = if str_eq v "" then none else formats.fromisoformat v

  abbrev pub initial : Dict String String
  initial =
      ("state", "pending")
      ∷ ("total", "0")
      ∷ ("processed", "0")
      ∷ ("succeeded", "0")
      ∷ ("failed", "0")
      ∷ ("started_at", "")
      ∷ ("finished_at", "")
      ∷ []

  unfoldable pub create : Uuid → Command R ImportJob
  create id = do redis.hset (hash_key id) initial; redis.expire (hash_key id) ttl; pure (new_job id)

  -- The snapshot of a hash that is not empty.
  abbrev pub snapshot_of : Uuid → Dict String String → List String → Command R (Option Snapshot)
  snapshot_of id hash errors = do
    total ← lift (get_int "total" hash)
    processed ← lift (get_int "processed" hash)
    succeeded ← lift (get_int "succeeded" hash)
    failed ← lift (get_int "failed" hash)
    pure (
        some (record {
          job_id = id;
          state = get_or "state" "pending" hash;
          total = total;
          processed = processed;
          succeeded = succeeded;
          failed = failed;
          errors = errors;
          started_at = parse_dt (lookup "started_at" hash);
          finished_at = parse_dt (lookup "finished_at" hash);
        }))

  abbrev pub get_from : Uuid → Dict String String → Command R (Option Snapshot)
  get_from id [] = pure none
  get_from id (entry ∷ hash) = do
    errors ← redis.whole_list (errors_key id)
    snapshot_of id (entry ∷ hash) errors

  unfoldable pub get : Uuid → Command R (Option Snapshot)
  get id = do hash ← redis.hgetall (hash_key id); get_from id hash

  abbrev pub running_fields : ℕ → Time → Dict String String
  running_fields total now =
      ("state", "running") ∷ ("total", print total) ∷ ("started_at", formats.isoformat now) ∷ []

  unfoldable pub mark_running : Uuid → ℕ → Time → Command R (Unit {0})
  mark_running id total now = redis.hset (hash_key id) (running_fields total now)

  abbrev pub finished_fields : Bool → Time → Dict String String
  finished_fields has_failed now =
      ("state", if has_failed then "failed" else "completed")
      ∷ ("finished_at", formats.isoformat now)
      ∷ []

  unfoldable pub mark_finished : Uuid → Bool → Time → Command R (Unit {0})
  mark_finished id has_failed now = redis.hset (hash_key id) (finished_fields has_failed now)

  -- The commands that add an error: the list is cut to its cap, and expires with the hash.
  abbrev pub pushes : String → List Queued
  pushes msg = rpush msg ∷ ltrim (error_cap - 1) ∷ expire_in ttl ∷ []

  unfoldable pub push_error : Uuid → String → Command R (Unit {0})
  push_error id msg = redis.execute (errors_key id) (pushes msg)

  -- `if error: self._push_error(job_id, error)`
  abbrev pub push_if_truthy : Uuid → Option String → Command R (Unit {0})
  push_if_truthy id none = pure tt
  push_if_truthy id (some msg) = if str_eq msg "" then pure tt else push_error id msg

  unfoldable pub record_outcome : Uuid → Bool → Option String → Command R (Unit {0})
  record_outcome id success error = do
    redis.hincrby (hash_key id) "processed" 1
    redis.hincrby (hash_key id) (if success then "succeeded" else "failed") 1
    push_if_truthy id error

  unfoldable pub add_error : Uuid → String → Command R (Unit {0})
  add_error id msg = push_error id msg

  unfoldable pub call : Call → Command R (Unit {0})
  call (Call.mark_running id total now) = mark_running id total now
  call (Call.mark_finished id has_failed now) = mark_finished id has_failed now
  call (Call.record_outcome id success error) = record_outcome id success error
  call (Call.add_error id msg) = add_error id msg

  -- A call that raises does so in its own worker: the others go on.
  unfoldable pub run : List Call → R → R
  run [] r = r
  run (c ∷ calls) r = run calls (call c r).1
