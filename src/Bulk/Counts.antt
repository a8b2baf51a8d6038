-- ===== src/Bulk/Counts.antt =====
-- What the job of an import reports.
use face_recognition.Prelude.{
  Bool-cases, leb, sym, ℕ, ◌+◌, ◌≤◌, ◌≡◌, refl, inl, inr, true, false, List, [], ◌∷◌, ◌++◌, length,
  length-append, nat_beq_iff, nat_beq, arith, if◌then◌else◌,
}
use native.Mathlib.Nat.{add-zero, zero-add}
use face_recognition.Core.Errors.{Exn, ok, Result-cases}
use face_recognition.Store.Rows.{Uuid, Database}
use face_recognition.Store.Session.{Session, open_session}
use face_recognition.Store.Faces.{add_face}
use face_recognition.Vision.Types.{FaceResult}
use face_recognition.Recognition.Types.{Service}
use face_recognition.Jobs.Calls.{Call, mark_running, mark_finished, record_outcome, add_error}
use face_recognition.Jobs.Counters.{total_counts}
use face_recognition.Bulk.Discovery.{ImageFile}
use face_recognition.Bulk.Stored.{successes-append, length-process_all}
use face_recognition.Bulk.Import.{
  Outcome, Host, Cache, handle, store_face, process_one, process_all, process_batch, last_batch,
  batches, prepare, import_face, locate, remember,
}

-- How many outcomes the calls record for the job.
abbrev pub recorded : Uuid → List Call → ℕ
recorded id calls = total_counts id true calls + total_counts id false calls

pub recorded-append :
    (id : Uuid) (cs ds : List Call) → recorded id (cs ++ ds) ≡ recorded id cs + recorded id ds
recorded-append id [] ds = omega arith
recorded-append id (c ∷ cs) ds = omega (arith, recorded-append id cs ds)

-- How many batches of the job are reported as failed.
abbrev pub failed_batches : Uuid → List Call → ℕ
failed_batches id [] = 0
failed_batches id (add_error j msg ∷ calls) =
    (if nat_beq j id then 1 else 0) + failed_batches id calls
failed_batches id (_ ∷ calls) = failed_batches id calls

pub failed_batches-append :
    (id : Uuid) (cs ds : List Call)
    → failed_batches id (cs ++ ds) ≡ failed_batches id cs + failed_batches id ds
failed_batches-append id [] ds = omega arith
failed_batches-append id (add_error j msg ∷ cs) ds = omega (arith, failed_batches-append id cs ds)
failed_batches-append id (mark_running j total now ∷ cs) ds = failed_batches-append id cs ds
failed_batches-append id (mark_finished j b now ∷ cs) ds = failed_batches-append id cs ds
failed_batches-append id (record_outcome j b e ∷ cs) ds = failed_batches-append id cs ds

-- What some calls tell of a number of images and of the faces stored for them: each is counted at most
-- once, as many faces come in as successes are counted, or fewer, and where no batch is reported as
-- failed all images are counted and all successes stored.
abbrev pub Accounts : Uuid → List Call → ℕ → ℕ → ℕ → Type 0
Accounts id calls images faces faces' =
    (recorded id calls ≤ images)
    × (faces' ≤ faces + total_counts id true calls)
    × (faces ≤ faces')
    × (failed_batches id calls ≡ 0
        → (recorded id calls ≡ images) × (faces' ≡ faces + total_counts id true calls))

Accounts-append :
    (id : Uuid) (cs ds : List Call) (m n a b c : ℕ)
    → Accounts id cs m a b
    → Accounts id ds n b c
    → Accounts id (cs ++ ds) (m + n) a c
Accounts-append id cs ds m n a b c h k =
    let e = recorded-append id cs ds in
    let f = failed_batches-append id cs ds in
    let g = successes-append id cs ds in
    (
      omega (arith, e, h.0, k.0),
      omega (arith, g, h.1, k.1),
      omega (arith, h.2, k.2),
      λ none_failed.
          let p = h.3 (omega (arith, f, none_failed)) in
          let q = k.3 (omega (arith, f, none_failed)) in
          (omega (arith, e, p.0, q.0), omega (arith, g, p.1, q.1)),
    )

module _ {F I : Type 0} (s : Service F I) (host : Host) (id : Uuid) where
  recorded-handle :
      (file : ImageFile) (e : Exn) (t : Session F) (cache : Cache)
      → recorded id (handle s host id file e t cache).calls ≡ 1
  unfolding handle
  recorded-handle file e t cache = ground (arith, nat_beq_iff id id)

  recorded-store_face :
      (file : ImageFile) (image : I) (result : FaceResult F) (person : Uuid) (t : Session F)
      (cache : Cache)
      → recorded id (store_face s host id file image result person t cache).calls ≡ 1
  unfolding store_face
  recorded-store_face file image result person t cache =
      let added = add_face (import_face s host id person file image result) t in
      elim (Result-cases added.0) [
        | inl (face, e) ↦ rw (store_face, e) (ground (arith, nat_beq_iff id id))
        | inr (x, e) ↦ rw (store_face, e) (recorded-handle file x added.1 cache)
      ]

  recorded-process_one :
      (file : ImageFile) (t : Session F) (cache : Cache)
      → recorded id (process_one s host id file t cache).calls ≡ 1
  unfolding process_one
  recorded-process_one file t cache = elim (Result-cases (prepare s host id file)) [
    | inl (found, e) ↦ elim (Result-cases (locate s host id cache file.person_name t).0) [
      | inl (person, d) ↦
          rw (process_one, e, d)
            (recorded-store_face file found.0 found.1 person
              (locate s host id cache file.person_name t).1
              (remember s host id file.person_name person cache))
      | inr (x, d) ↦
          rw (process_one, e, d)
            (recorded-handle file x (locate s host id cache file.person_name t).1 cache)
    ]
    | inr (x, e) ↦ rw (process_one, e) (recorded-handle file x t cache)
  ]

  recorded-process_all :
      (files : List ImageFile) (t : Session F) (cache : Cache)
      → (recorded id (process_all s host id files t cache).calls ≤ length files)
        × ((process_all s host id files t cache).answer ≡ ok tt
            → recorded id (process_all s host id files t cache).calls ≡ length files)
  unfolding process_all
  recorded-process_all [] t cache = (omega arith, λ e. refl)
  recorded-process_all (file ∷ files) t cache =
      let first = process_one s host id file t cache in
      let rest = process_all s host id files first.session first.cache in
      let ih = recorded-process_all files first.session first.cache in
      ground
        (arith, ih, recorded-append id first.calls rest.calls, recorded-process_one file t cache)

  pub one_recorded :
      (file : ImageFile) (files : List ImageFile) (t : Session F) (cache : Cache)
      → 1 ≤ recorded id (process_all s host id (file ∷ files) t cache).calls
  unfolding process_all
  one_recorded file files t cache =
      let first = process_one s host id file t cache in
      let rest = process_all s host id files first.session first.cache in
      ground (arith, recorded-append id first.calls rest.calls, recorded-process_one file t cache)

  undone :
      (o : Outcome F) (files : List ImageFile) (db : Database F)
      → recorded id o.calls ≤ length files
      → (x : Exn)
      → Accounts id
          (o.calls ++ add_error id (host.batch_failed x) ∷ [])
          (length files)
          (length db.faces)
          (length db.faces)
  undone o files db counted x =
      let report = add_error id (host.batch_failed x) ∷ [] in
      (
        omega (arith, recorded-append id o.calls report, counted),
        omega arith,
        omega arith,
        λ none_failed.
            absurd (ground (arith, failed_batches-append id o.calls report, nat_beq_iff id id)),
      )

  process_batch-Accounts :
      (files : List ImageFile) (db : Database F) (cache : Cache)
      → let (db1, cache1, calls) = process_batch s host id files db cache in
        Accounts id calls (length files) (length db.faces) (length db1.faces)
  unfolding process_batch
  process_batch-Accounts files db cache =
      let o = process_all s host id files (open_session db) cache in
      let counted = recorded-process_all files (open_session db) cache in
      let stored = length-process_all s host id files (open_session db) cache in
      elim (Result-cases o.answer) [
        | inl (u, e) ↦ elim (Result-cases (host.commit files)) [
          | inl (v, d) ↦
              rw (process_batch, e, d)
                (
                  counted.0,
                  omega (arith, stored),
                  omega (arith, stored),
                  λ none_failed. (counted.1 e, stored),
                )
          | inr (x, d) ↦ rw (process_batch, e, d) (undone o files db counted.0 x)
        ]
        | inr (x, e) ↦ rw (process_batch, e) (undone o files db counted.0 x)
      ]

  last_batch-Accounts :
      (files : List ImageFile) (db : Database F) (cache : Cache)
      → let (db1, calls) = last_batch s host id files db cache in
        Accounts id calls (length files) (length db.faces) (length db1.faces)
  last_batch-Accounts [] db cache =
      (omega arith, omega arith, omega arith, λ none_failed. (refl, omega arith))
  last_batch-Accounts (file ∷ files) db cache = process_batch-Accounts (file ∷ files) db cache

  pub batches-Accounts :
      (batch files : List ImageFile) (db : Database F) (cache : Cache)
      → let (db1, calls) = batches s host id batch files db cache in
        Accounts id calls (length batch + length files) (length db.faces) (length db1.faces)
  unfolding batches
  batches-Accounts batch [] db cache =
      rw (add-zero (length batch)) (last_batch-Accounts batch db cache)
  batches-Accounts batch (file ∷ files) db cache =
      let gathered = batch ++ file ∷ [] in
      let step = process_batch s host id gathered db cache in
      let rest = batches s host id [] files step.0 step.1 in
      let e : length gathered + length files ≡ length batch + length (file ∷ files) =
        omega (arith, length-append batch (file ∷ [])) in
      elim (Bool-cases (leb host.import_batch_size (length gathered))) [
        | inl full ↦
            rw (full, sym e)
              (Accounts-append id step.2 rest.1 (length gathered) (length files) (length db.faces)
                (length step.0.faces) (length rest.0.faces)
                (process_batch-Accounts gathered db cache)
                (rw zero-add at (batches-Accounts [] files step.0 step.1)))
        | inr room ↦ rw (room, sym e) (batches-Accounts gathered files db cache)
      ]
