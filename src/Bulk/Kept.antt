-- ===== src/Bulk/Kept.antt =====
-- What an import keeps: each property that every write to persons, faces and the log keeps.
use face_recognition.Prelude.{
  inl, inr, String, Option, none, some, List, [], ◌∷◌, ◌++◌, length, leb, string_eq, Bool-cases,
  Option-cases,
}
use face_recognition.Prelude.Dict.{lookup}
use face_recognition.Core.Errors.{Exn, Result, ok, raise, Result-cases, ◌>>=◌ as bind_result}
use face_recognition.Store.Rows.{Uuid, Person, Database}
use face_recognition.Store.Session.{Session, pure, ◌>>=◌, open_session}
use face_recognition.Store.Persons.{add_person, get_by_name}
use face_recognition.Store.Faces.{add_face, insert_face, record_log, insert_log}
use face_recognition.Store.Keeps.{Keeps, Keeps-flush, keep_rules}
use face_recognition.Store.Data.{DataWrites}
use face_recognition.Vision.Types.{FaceResult}
use face_recognition.Recognition.Types.{Service}
use face_recognition.Bulk.Discovery.{ImageFile, discover}
use face_recognition.Bulk.Import.{
  Host, Cache, handle, store_face, process_one, process_all, process_batch, batches, run, prepare,
  locate, existing_or_new, remember, import_face, failure_entry, ended, import_all,
}

module _ {F I : Type 0} (P : Database F → Type 0) (kept : DataWrites P) (s : Service F I)
    (host : Host) (id : Uuid) where
  existing_or_new-Keeps :
      (name : String) (found : Option Person)
      → Keeps {F = F} P (existing_or_new s host id name found)
  unfolding add_person
  existing_or_new-Keeps name none = search (keep_rules, kept.person_inserted) depth 12
  existing_or_new-Keeps name (some p) = search keep_rules

  find_or_create-Keeps :
      (name : String) → Keeps {F = F} P (get_by_name name >>= existing_or_new s host id name)
  unfolding get_by_name
  find_or_create-Keeps name = search (keep_rules, existing_or_new-Keeps) depth 12

  known-Keeps : (person : Uuid) → Keeps {F = F} P (pure person)
  known-Keeps person = search keep_rules

  locate-Keeps : (cache : Cache) (name : String) → Keeps {F = F} P (locate s host id cache name)
  unfolding locate
  locate-Keeps cache name = record {
    keep = λ t h. elim (Option-cases (lookup name cache)) [
      | inl unknown ↦ rw (locate, unknown) ((find_or_create-Keeps name).keep t h)
      | inr (person, known) ↦ rw (locate, known) ((known-Keeps person).keep t h)
    ];
  }

  handle-Keeps :
      (file : ImageFile) (e : Exn) (t : Session F) (cache : Cache)
      → P t.database
      → P (handle s host id file e t cache).session.database
  unfolding handle record_log
  handle-Keeps file e t cache h =
      (Keeps-flush P (insert_log (failure_entry s host id file e))
          (kept.log_inserted (failure_entry s host id file e))).keep
        t h

  store_face-Keeps :
      (file : ImageFile) (image : I) (result : FaceResult F) (person : Uuid) (t : Session F)
      (cache : Cache)
      → P t.database
      → P (store_face s host id file image result person t cache).session.database
  unfolding store_face add_face
  store_face-Keeps file image result person t cache h =
      let new = import_face s host id person file image result in
      let added = add_face new t in
      let kept = (Keeps-flush P (insert_face new) (kept.face_inserted new)).keep t h in
      elim (Result-cases added.0) [
        | inl (face, e) ↦ rw (store_face, e) kept
        | inr (x, e) ↦ rw (store_face, e) (handle-Keeps file x added.1 cache kept)
      ]

  process_one-Keeps :
      (file : ImageFile) (t : Session F) (cache : Cache)
      → P t.database
      → P (process_one s host id file t cache).session.database
  unfolding process_one
  process_one-Keeps file t cache h = elim (Result-cases (prepare s host id file)) [
    | inl (found, e) ↦
        let located = locate s host id cache file.person_name t in
        let kept = (locate-Keeps cache file.person_name).keep t h in
        elim (Result-cases located.0) [
          | inl (person, d) ↦
              rw (process_one, e, d)
                (store_face-Keeps file found.0 found.1 person located.1
                  (remember s host id file.person_name person cache) kept)
          | inr (x, d) ↦ rw (process_one, e, d) (handle-Keeps file x located.1 cache kept)
        ]
    | inr (x, e) ↦ rw (process_one, e) (handle-Keeps file x t cache h)
  ]

  process_all-Keeps :
      (files : List ImageFile) (t : Session F) (cache : Cache)
      → P t.database
      → P (process_all s host id files t cache).session.database
  unfolding process_all
  process_all-Keeps [] t cache h = h
  process_all-Keeps (file ∷ files) t cache h =
      let first = process_one s host id file t cache in
      let kept = process_one-Keeps file t cache h in
      elim (Result-cases first.answer) [
        | inl (u, e) ↦ rw (process_all, e) (process_all-Keeps files first.session first.cache kept)
        | inr (x, e) ↦ rw (process_all, e) kept
      ]

  process_batch-Keeps :
      (files : List ImageFile) (db : Database F) (cache : Cache)
      → P db
      → P (process_batch s host id files db cache).0
  unfolding process_batch
  process_batch-Keeps files db cache h =
      let o = process_all s host id files (open_session db) cache in
      elim (Result-cases (ended s host id files o)) [
        | inl (u, e) ↦ rw (process_batch, e) (process_all-Keeps files (open_session db) cache h)
        | inr (x, e) ↦ rw (process_batch, e) (kept.ids_drawn db o.session.database.next_id h)
      ]

  batches-Keeps :
      (batch files : List ImageFile) (db : Database F) (cache : Cache)
      → P db
      → P (batches s host id batch files db cache).0
  unfolding batches
  batches-Keeps [] [] db cache h = h
  batches-Keeps (file ∷ batch) [] db cache h = process_batch-Keeps (file ∷ batch) db cache h
  batches-Keeps batch (file ∷ files) db cache h =
      let gathered = batch ++ file ∷ [] in
      let step = process_batch s host id gathered db cache in
      elim (Bool-cases (leb host.import_batch_size (length gathered))) [
        | inl full ↦
            rw full (batches-Keeps [] files step.0 step.1 (process_batch-Keeps gathered db cache h))
        | inr room ↦ rw room (batches-Keeps gathered files db cache h)
      ]

  import_all-Keeps :
      (found : Result (List ImageFile)) (db : Database F)
      → P db
      → P (import_all s host id found db).0
  unfolding import_all
  import_all-Keeps (raise e) db h = h
  import_all-Keeps (ok files) db h = batches-Keeps [] files db [] h

  -- With the batches that failed rolled back and the others committed.
  pub run-Keeps : (root_path : String) (db : Database F) → P db → P (run s host id root_path db).0
  unfolding run
  run-Keeps root_path db h = elim (Option-cases (host.list_dir root_path)) [
    | inl missing ↦ rw (run, missing) h
    | inr (entries, found) ↦ rw (run, found) (import_all-Keeps (bind_result entries discover) db h)
  ]
