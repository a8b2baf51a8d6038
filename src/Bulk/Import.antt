-- ===== src/Bulk/Import.antt =====
-- app/services/bulk_import_service.py, `BulkImportService`. The calls of the job registry that the
-- import makes are its output, in order: it never reads them back. The file system, the texts of the
-- messages and the clock are parameters.
use face_recognition.Prelude.{
  ℕ, true, false, String, Option, none, some, List, [], ◌∷◌, ◌++◌, length, leb, string_eq,
  if◌then◌else◌,
}
use face_recognition.Prelude.Dict.{Dict, lookup, insert}
use face_recognition.Core.Errors.{Exn, fault, value_error, Result, ok, raise, ◌>>=◌ as bind_result}
use face_recognition.Store.Rows.{Uuid, Time, Bytes, Person, RecognitionAction, Database}
use face_recognition.Store.Session.{Session, Action, pure, ◌>>=◌, open_session}
use face_recognition.Store.Persons.{get_by_name, add_person}
use face_recognition.Store.Faces.{NewFace, LogEntry, add_face, record_log}
use face_recognition.Vision.Types.{FaceResult}
use face_recognition.Vision.Pipeline.{process_largest}
use face_recognition.Vision.Thumbnail.{make_face_thumbnail}
use face_recognition.Recognition.Types.{Service}
use face_recognition.Bulk.Discovery.{ImageFile, DirEntry, discover}
use face_recognition.Jobs.Calls.{Call, mark_running, mark_finished, record_outcome, add_error}

-- `read_file` is `np.fromfile`; `message` the text of an exception at a path or a name, cut for the
-- log; `list_dir` the entries of a directory in any order, or what listing or testing them
-- raises, `none` where the path is no directory; `commit` the answer to the commit of the batch of these
-- images.
pub record Host : Type 0 where
  pub read_file : String → Result Bytes
  pub message : String → Exn → String
  pub log_message : String → Exn → String
  pub batch_failed : Exn → String
  pub not_found : String → String
  pub list_dir : String → Option (Result (List DirEntry))
  pub commit : List ImageFile → Result (Unit {0})
  pub import_batch_size : ℕ
  pub clock : Time

abbrev pub Cache : Type 0
Cache = Dict String Uuid

-- What a step leaves: how it ended, the session, the cache of persons, and the calls it made.
pub record Outcome (F : Type 0) : Type 0 where
  pub answer : Result (Unit {0})
  pub session : Session F
  pub cache : Cache
  pub calls : List Call

module _ {F I : Type 0} (s : Service F I) (host : Host) (job_id : Uuid) where
  -- `cv2.imdecode`, of which `None` is a `ValueError` here.
  abbrev pub decoded : Option I → Result I
  decoded none = raise (fault value_error)
  decoded (some image) = ok image

  -- The image and its most prominent face.
  unfoldable pub prepare : ImageFile → Result (I × FaceResult F)
  prepare file =
      bind_result (bind_result (host.read_file file.path) (λ bytes. decoded (s.cv.imdecode bytes)))
        (λ image.
          bind_result (process_largest s.float s.parts image) (λ result. ok (image, result)))

  -- Find or create, when the cache does not know the name.
  abbrev pub existing_or_new : String → Option Person → Action F Uuid
  existing_or_new name none = add_person none name "{}" >>= (λ p. pure p.id)
  existing_or_new name (some p) = pure p.id

  unfoldable pub locate : Cache → String → Action F Uuid
  locate cache name = elim (lookup name cache) [
    | some id ↦ pure id
    | none ↦ get_by_name name >>= existing_or_new name
  ]

  abbrev pub remember : String → Uuid → Cache → Cache
  remember name id cache = elim (lookup name cache) [
    | none ↦ insert name id cache
    | some old ↦ cache
  ]

  abbrev pub import_face : Uuid → ImageFile → I → FaceResult F → NewFace F
  import_face id file image result = record {
    person_id = id;
    embedding = result.embedding;
    det_score = result.detection.score;
    quality = some result.detection.score;
    image_path = some file.path;
    bbox = none;
    thumbnail =
        make_face_thumbnail s.float s.cv 220 s.settings.margin 85 image result.detection.bbox;
  }

  abbrev pub failure_entry : ImageFile → Exn → LogEntry F
  failure_entry file e = record {
    action = RecognitionAction.import_action;
    person_id = none;
    matched_face_id = none;
    similarity = none;
    success = false;
    user_id = none;
    client_ip = none;
    message = some (host.log_message file.name e);
  }

  abbrev pub without_value : {A : Type 0} → Result A → Result (Unit {0})
  without_value (ok a) = ok tt
  without_value (raise e) = raise e

  -- The handler of an image's exception; it may raise itself.
  unfoldable pub handle : ImageFile → Exn → Session F → Cache → Outcome F
  handle file e t cache =
      let (r, t1) = record_log (failure_entry file e) t in
      record {
        answer = without_value r;
        session = t1;
        cache = cache;
        calls = record_outcome job_id false (some (host.message file.path e)) ∷ [];
      }

  -- The face of a located person.
  unfoldable pub store_face : ImageFile → I → FaceResult F → Uuid → Session F → Cache → Outcome F
  unfolding handle
  store_face file image result id t cache =
      let (r, t1) = add_face (import_face id file image result) t in
      elim r [
        | raise e ↦ handle file e t1 cache
        | ok face ↦ record {
          answer = ok tt;
          session = t1;
          cache = cache;
          calls = record_outcome job_id true none ∷ [];
        }
      ]

  unfoldable pub process_one : ImageFile → Session F → Cache → Outcome F
  unfolding handle store_face
  process_one file t cache = elim (prepare file) [
    | raise e ↦ handle file e t cache
    | ok (image, result) ↦
        let (r, t1) = locate cache file.person_name t in
        elim r [
          | raise e ↦ handle file e t1 cache
          | ok id ↦ store_face file image result id t1 (remember file.person_name id cache)
        ]
  ]

  -- The images of a batch in turn, up to one whose handler raises.
  unfoldable pub process_all : List ImageFile → Session F → Cache → Outcome F
  unfolding process_one
  process_all [] t cache = record { answer = ok tt; session = t; cache = cache; calls = [] }
  process_all (file ∷ files) t cache =
      let first = process_one file t cache in
      let rest = process_all files first.session first.cache in
      elim first.answer [
        | raise e ↦ first
        | ok u ↦ record rest { calls = first.calls ++ rest.calls }
      ]

  -- How the batch ends: a handler's exception, or the answer to the commit.
  abbrev pub ended : List ImageFile → Outcome F → Result (Unit {0})
  ended files o = bind_result o.answer (λ u. host.commit files)

  -- The tables as before. An id that was drawn stays drawn: `uuid4` gives none twice, and the cache may
  -- hold it still.
  abbrev pub rolled_back : Database F → Outcome F → Database F
  rolled_back db o = record db { next_id = o.session.database.next_id }

  -- Commit, or roll back and report.
  unfoldable pub process_batch :
      List ImageFile → Database F → Cache → Database F × Cache × List Call
  unfolding process_all
  process_batch files db cache =
      let o = process_all files (open_session db) cache in
      elim (ended files o) [
        | ok u ↦ (o.session.database, o.cache, o.calls)
        | raise e ↦
            (rolled_back db o, o.cache, o.calls ++ add_error job_id (host.batch_failed e) ∷ [])
      ]

  abbrev pub last_batch : List ImageFile → Database F → Cache → Database F × List Call
  last_batch [] db cache = (db, [])
  last_batch (file ∷ files) db cache =
      let (db1, cache1, calls) = process_batch (file ∷ files) db cache in (db1, calls)

  -- The loop over the pairs, with the batch that is being gathered.
  unfoldable pub batches :
      List ImageFile → List ImageFile → Database F → Cache → Database F × List Call
  unfolding process_batch
  batches batch [] db cache = last_batch batch db cache
  batches batch (file ∷ files) db cache =
      let gathered = batch ++ file ∷ [] in
      let (db1, cache1, calls) = process_batch gathered db cache in
      let (db2, rest) = batches [] files db1 cache1 in
      let later = batches gathered files db cache in
      if leb host.import_batch_size (length gathered) then (db2, calls ++ rest) else later

  -- The rest of `run`, with the images or what the discovery raises, which escapes.
  unfoldable pub import_all :
      Result (List ImageFile) → Database F → Database F × List Call × Result (Unit {0})
  unfolding batches
  import_all (raise e) db = (db, [], raise e)
  import_all (ok files) db =
      let (db1, calls) = batches [] files db [] in
      (
        db1,
        mark_running job_id (length files) host.clock ∷ calls
            ++ mark_finished job_id false host.clock ∷ [],
        ok tt,
      )

  -- The database, the calls of the registry, and how the task ends.
  unfoldable pub run : String → Database F → Database F × List Call × Result (Unit {0})
  unfolding import_all discover
  run root_path db = elim (host.list_dir root_path) [
    | none ↦ (
      db,
      add_error job_id (host.not_found root_path) ∷ mark_finished job_id true host.clock ∷ [],
      ok tt,
    )
    | some entries ↦ import_all (bind_result entries discover) db
  ]
