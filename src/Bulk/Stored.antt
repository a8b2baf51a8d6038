-- ===== src/Bulk/Stored.antt =====
-- How many faces an import stores, against what its job counts.
use face_recognition.Prelude.{
  ℕ, suc, ◌+◌, ◌≡◌, refl, inl, inr, ◌⊎◌, true, String, Option, none, some, List, [], ◌∷◌, ◌++◌,
  length, length-append, string_eq, arith, Bool-cases, Option-cases, nat_beq_iff,
}
use face_recognition.Prelude.Dict.{lookup}
use face_recognition.Core.Errors.{Exn, ok, raise, Result-cases}
use face_recognition.Store.Rows.{Uuid, Person, Face, Database}
use face_recognition.Store.Session.{Session, pure, flush, ◌>>=◌, open_session}
use face_recognition.Store.Persons.{add_person, insert_person, get_by_name, active_of}
use face_recognition.Store.Faces.{
  stored, NewFace, LogEntry, add_face, insert_face, record_log, insert_log,
}
use face_recognition.Store.Keeps.{Keeps, Keeps-flush, Writes, keep_rules}
use face_recognition.Vision.Types.{FaceResult}
use face_recognition.Recognition.Types.{Service}
use face_recognition.Jobs.Calls.{Call, add_error}
use face_recognition.Jobs.Counters.{total_counts}
use face_recognition.Bulk.Discovery.{ImageFile}
use face_recognition.Bulk.Import.{
  Host, Cache, handle, store_face, process_one, process_all, process_batch, prepare, locate,
  existing_or_new, remember, import_face, failure_entry,
}

module _ {F : Type 0} (n : ℕ) where
  -- There are n faces.
  abbrev pub Stores : Database F → Type 0
  Stores db = length db.faces ≡ n

  insert_person-Stores :
      (e : Option String) (name meta : String) → Writes Stores (insert_person e name meta)
  unfolding insert_person
  insert_person-Stores e name meta db a db' h k = ground arith

  insert_log-Stores : (l : LogEntry F) → Writes Stores (insert_log l)
  unfolding insert_log
  insert_log-Stores l db a db' h k = ground arith

  record_log-Stores : (l : LogEntry F) → Keeps Stores (record_log l)
  unfolding record_log
  record_log-Stores l = Keeps-flush Stores (insert_log l) (insert_log-Stores l)

module _ {F : Type 0} (new : NewFace F) (t : Session F) where
  -- A stored face is one more; a refused one is none.
  length-add_face :
      (f : Face F)
      → (add_face new t).0 ≡ ok f
      → length (add_face new t).1.database.faces ≡ suc (length t.database.faces)
  unfolding add_face flush insert_face
  length-add_face f e = elim (Bool-cases t.has_failed) [
    | inl failed ↦ absurd (ground arith)
    | inr live ↦ elim (Option-cases (active_of new.person_id t.database.persons)) [
      | inl missing ↦ absurd (ground arith)
      | inr (active, found) ↦ ground (
        arith,
        length-append t.database.faces (stored new active t.database.next_id t.database.now ∷ []),
      )
    ]
  ]

  length-add_face_refused :
      (e : Exn)
      → (add_face new t).0 ≡ raise e
      → length (add_face new t).1.database.faces ≡ length t.database.faces
  unfolding add_face flush insert_face
  length-add_face_refused x e = ground arith

pub successes-append :
    (id : Uuid) (cs ds : List Call)
    → total_counts id true (cs ++ ds) ≡ total_counts id true cs + total_counts id true ds
successes-append id [] ds = omega arith
successes-append id (c ∷ cs) ds = omega (arith, successes-append id cs ds)

module _ {F I : Type 0} (s : Service F I) (host : Host) (id : Uuid) where
  existing_or_new-Stores :
      (n : ℕ) (name : String) (found : Option Person)
      → Keeps {F = F} (Stores n) (existing_or_new s host id name found)
  unfolding add_person
  existing_or_new-Stores n name none = search (keep_rules, insert_person-Stores) depth 12
  existing_or_new-Stores n name (some p) = search keep_rules

  find_or_create-Stores :
      (n : ℕ) (name : String)
      → Keeps {F = F} (Stores n) (get_by_name name >>= existing_or_new s host id name)
  unfolding get_by_name
  find_or_create-Stores n name = search (keep_rules, existing_or_new-Stores) depth 12

  length-locate :
      (cache : Cache) (name : String) (t : Session F)
      → length (locate s host id cache name t).1.database.faces ≡ length t.database.faces
  unfolding locate pure
  length-locate cache name t = elim (Option-cases (lookup name cache)) [
    | inl unknown ↦
        rw (locate, unknown) ((find_or_create-Stores (length t.database.faces) name).keep t refl)
    | inr (person, known) ↦ rw (locate, known) refl
  ]

  length-handle :
      (file : ImageFile) (e : Exn) (t : Session F) (cache : Cache)
      → length (handle s host id file e t cache).session.database.faces
        ≡ length t.database.faces + total_counts id true (handle s host id file e t cache).calls
  unfolding handle
  length-handle file e t cache =
      let kept =
        (record_log-Stores (length t.database.faces) (failure_entry s host id file e)).keep t
          refl in
      ground (arith, kept)

  length-store_face :
      (file : ImageFile) (image : I) (result : FaceResult F) (person : Uuid) (t : Session F)
      (cache : Cache)
      → length (store_face s host id file image result person t cache).session.database.faces
        ≡ length t.database.faces
          + total_counts id true (store_face s host id file image result person t cache).calls
  unfolding store_face
  length-store_face file image result person t cache =
      let new = import_face s host id person file image result in
      elim (Result-cases (add_face new t).0) [
        | inl (f, e) ↦
            rw (store_face, e) (ground (arith, nat_beq_iff id id, length-add_face new t f e))
        | inr (x, e) ↦
            rw (store_face, e)
              (omega (
                arith,
                length-handle file x (add_face new t).1 cache,
                length-add_face_refused new t x e,
              ))
      ]

  length-process_one :
      (file : ImageFile) (t : Session F) (cache : Cache)
      → length (process_one s host id file t cache).session.database.faces
        ≡ length t.database.faces + total_counts id true (process_one s host id file t cache).calls
  unfolding process_one
  length-process_one file t cache = elim (Result-cases (prepare s host id file)) [
    | inl (found, e) ↦
        let located = locate s host id cache file.person_name t in
        elim (Result-cases located.0) [
          | inl (person, d) ↦
              rw (process_one, e, d)
                (omega (
                  arith,
                  length-store_face file found.0 found.1 person located.1
                      (remember s host id file.person_name person cache),
                  length-locate cache file.person_name t,
                ))
          | inr (x, d) ↦
              rw (process_one, e, d)
                (omega (
                  arith,
                  length-handle file x located.1 cache,
                  length-locate cache file.person_name t,
                ))
        ]
    | inr (x, e) ↦ rw (process_one, e) (length-handle file x t cache)
  ]

  pub length-process_all :
      (files : List ImageFile) (t : Session F) (cache : Cache)
      → length (process_all s host id files t cache).session.database.faces
        ≡ length t.database.faces + total_counts id true (process_all s host id files t cache).calls
  unfolding process_all
  length-process_all [] t cache = omega arith
  length-process_all (file ∷ files) t cache =
      let first = process_one s host id file t cache in
      let rest = process_all s host id files first.session first.cache in
      ground (
        arith,
        length-process_one file t cache,
        length-process_all files first.session first.cache,
        successes-append id first.calls rest.calls,
      )

  -- A batch is all or nothing. One that is committed has stored exactly as many faces as successes were
  -- recorded for the job; one of which a handler or the commit raises leaves every table as it was
  -- and reports that the batch failed, while the successes that were recorded in it stay
  -- recorded. Only the ids that it drew are not drawn again.
  pub process_batch_atomic :
      (files : List ImageFile) (db : Database F) (cache : Cache)
      → let o = process_all s host id files (open_session db) cache in
        let (db1, cache1, calls) = process_batch s host id files db cache in
        ((o.answer ≡ ok tt)
          × (host.commit files ≡ ok tt)
          × (length db1.faces ≡ length db.faces + total_counts id true calls))
        ⊎ ((e : Exn) × ((o.answer ≡ raise e) ⊎ ((o.answer ≡ ok tt) × (host.commit files ≡ raise e)))
            × (db1 ≡ record db { next_id = o.session.database.next_id })
            × (calls ≡ o.calls ++ add_error id (host.batch_failed e) ∷ []))
  unfolding process_batch
  process_batch_atomic files db cache =
      let o = process_all s host id files (open_session db) cache in
      elim (Result-cases o.answer) [
        | inr (x, e) ↦ inr (x, inl e, rw (process_batch, e) refl, rw (process_batch, e) refl)
        | inl (u, e) ↦ elim (Result-cases (host.commit files)) [
          | inl (v, d) ↦
              inl
                (e, d, rw (process_batch, e, d) (length-process_all files (open_session db) cache))
          | inr (x, d) ↦
              inr (x, inr (e, d), rw (process_batch, e, d) refl, rw (process_batch, e, d) refl)
        ]
      ]
