-- ===== src/Jobs/Reads.antt =====
-- What `RedisJobStore.get` reads of a job that stands in Redis.
use face_recognition.Prelude.{
  ℕ, ◌≡◌, refl, ap, ◌∙◌, String, Option, none, some, [], ◌∷◌, arith, All, string_eq,
}
use text.Mathlib.TextEquality.{eq_iff}
use face_recognition.Prelude.Sort.{All-map}
use face_recognition.Prelude.Int.{pos}
use face_recognition.Prelude.Dict.{Dict, lookup}
use face_recognition.Prelude.Decimal.{print, int_of-print}
use face_recognition.Core.Errors.{ok}
use face_recognition.Jobs.Defs.{Uuid, Time, ImportJob}
use face_recognition.Jobs.Commands.{Commands, View, HoldsNoHash, IsRedis, after_of_ok}
use face_recognition.Jobs.Keys.{IsFormats}
use face_recognition.Jobs.Redis
use face_recognition.Jobs.Redis.{
  Formats, hash_key, errors_key, state_text, Snapshot, get_int, get_or, snapshot_of, get_from,
  parse_dt,
}
use face_recognition.Jobs.Holds.{Holds, time_text, hash_of}

-- A job as the store in Redis tells it.
abbrev pub snapshot : Uuid → ImportJob → Snapshot
snapshot id job = record {
  job_id = id;
  state = state_text job.state;
  total = pos job.total;
  processed = pos job.processed;
  succeeded = pos job.succeeded;
  failed = pos job.failed;
  errors = job.errors;
  started_at = job.started_at;
  finished_at = job.finished_at;
}

get_int_lem :
    (name : String) (hash : Dict String String) (n : ℕ)
    → lookup name hash ≡ some (print n)
    → get_int name hash ≡ ok (pos n)
get_int_lem name hash n e = rw (get_int, e, int_of-print n) refl

module _ {R : Type 0} (redis : Commands R) (view : View R) (lawful : IsRedis view redis)
    (formats : Formats) (good : IsFormats formats) (ttl : ℕ) where
  parse_dt-time_text :
      (o : Option Time)
      → parse_dt redis formats ttl (some (time_text redis view lawful formats good ttl o)) ≡ o
  parse_dt-time_text none = refl
  parse_dt-time_text (some t) =
      ground (arith, good.iso_reads t, good.iso_ne_empty t, eq_iff (formats.isoformat t) "")

  -- The fields that a job's hash has, read as they are stored.
  snapshot_of_lem :
      (id : Uuid) (job : ImportJob) (hash : Dict String String) (r : R)
      → All
          (λ entry. lookup entry.0 hash ≡ some entry.1)
          (hash_of redis view lawful formats good ttl job)
      → snapshot_of redis formats ttl id hash job.errors r ≡ (ok (some (snapshot id job)), r)
  snapshot_of_lem id job hash r e =
      rw
        (
          get_int_lem "total" hash job.total e.1.0,
          get_int_lem "processed" hash job.processed e.1.1.0,
          get_int_lem "succeeded" hash job.succeeded e.1.1.1.0,
          get_int_lem "failed" hash job.failed e.1.1.1.1.0,
          get_or,
          e.0,
          e.1.1.1.1.1.0,
          e.1.1.1.1.1.1.0,
          parse_dt-time_text job.started_at,
          parse_dt-time_text job.finished_at,
        )
        refl

  get_from_lem :
      (id : Uuid) (job : ImportJob) (hash : Dict String String) (r : R)
      → All
          (λ entry. lookup entry.0 hash ≡ some entry.1)
          (hash_of redis view lawful formats good ttl job)
      → HoldsNoHash view (errors_key redis formats ttl id) r
      → view.items r (errors_key redis formats ttl id) ≡ job.errors
      → (get_from redis formats ttl id hash r).0 ≡ ok (some (snapshot id job))
  unfolding lookup
  get_from_lem id job [] r e unhashed errors = absurd (ground (arith, e.0))
  get_from_lem id job (entry ∷ hash) r e unhashed errors =
      rw
        (
          after_of_ok (redis.whole_list (errors_key redis formats ttl id) r) _
              (lawful.whole_list_reads _ r unhashed),
          errors,
        )
        (ap (λ p. p.0) (snapshot_of_lem id job (entry ∷ hash) _ e))

  pub get_lem :
      (id : Uuid) (job : ImportJob) (r : R)
      → Holds redis view lawful formats good ttl id job r
      → (Redis.get redis formats ttl id r).0 ≡ ok (some (snapshot id job))
  unfolding Redis.get
  get_lem id job r h =
      let key = hash_key redis formats ttl id in
      let (hash, read, found) = lawful.hgetall_reads key r h.plain in
      let list_key = errors_key redis formats ttl id in
      let same = lawful.hgetall_keeps key list_key r in
      rw (after_of_ok (redis.hgetall key r) _ read) (
        get_from_lem id job hash _
          (All-map (λ entry. view.field r key entry.0 ≡ some entry.1)
            (λ entry. lookup entry.0 hash ≡ some entry.1)
            (hash_of redis view lawful formats good ttl job) (λ entry e. found entry.0 ∙ e)
            h.fields)
          (λ f. same.0 f ∙ h.unhashed f) (same.1 ∙ h.errors))
