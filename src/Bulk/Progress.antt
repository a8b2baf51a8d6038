-- ===== src/Bulk/Progress.antt =====
-- Every batch of an import counts one image at least.
use face_recognition.Prelude.{
  ℕ, zero, suc, ◌+◌, ◌*◌, ◌≤◌, ◌<◌, inl, inr, max, List, [], ◌∷◌, ◌++◌, length, length-append, leb,
  Bool-cases, arith,
}
use native.Mathlib.Nat.{add-mul}
use face_recognition.Core.Errors.{Result-cases}
use face_recognition.Store.Rows.{Uuid, Database}
use face_recognition.Store.Session.{open_session}
use face_recognition.Recognition.Types.{Service}
use face_recognition.Jobs.Calls.{add_error}
use face_recognition.Bulk.Discovery.{ImageFile}
use face_recognition.Bulk.Import.{
  Host, Cache, process_all, process_batch, last_batch, batches, ended,
}
use face_recognition.Bulk.Counts.{recorded, recorded-append, one_recorded}

-- The number of images after which a batch is processed.
abbrev pub batch_limit : Host → ℕ
batch_limit host = max 1 host.import_batch_size

at_least : (r m l : ℕ) → 1 ≤ r → l ≤ m → l ≤ r * m
at_least zero m l h k = absurd (omega (arith, h))
at_least (suc r) m l h k = omega (arith, add-mul 1 r m)

module _ {F I : Type 0} (s : Service F I) (host : Host) (id : Uuid) where
  batch_recorded :
      (file : ImageFile) (files : List ImageFile) (db : Database F) (cache : Cache)
      → 1 ≤ recorded id (process_batch s host id (file ∷ files) db cache).2
  unfolding process_batch
  batch_recorded file files db cache =
      let o = process_all s host id (file ∷ files) (open_session db) cache in
      let one = one_recorded s host id file files (open_session db) cache in
      elim (Result-cases (ended s host id (file ∷ files) o)) [
        | inl (u, e) ↦ rw (process_batch, e) one
        | inr (x, e) ↦
            rw (process_batch, e)
              (omega
                (arith, one, recorded-append id o.calls (add_error id (host.batch_failed x) ∷ [])))
      ]

  gathered_recorded :
      (batch : List ImageFile) (file : ImageFile) (db : Database F) (cache : Cache)
      → 1 ≤ recorded id (process_batch s host id (batch ++ file ∷ []) db cache).2
  gathered_recorded [] file db cache = batch_recorded file [] db cache
  gathered_recorded (b ∷ batch) file db cache = batch_recorded b (batch ++ file ∷ []) db cache

  recorded-last_batch :
      (files : List ImageFile) (db : Database F) (cache : Cache)
      → length files ≤ batch_limit host
      → length files ≤ recorded id (last_batch s host id files db cache).1 * batch_limit host
  recorded-last_batch [] db cache h = omega arith
  recorded-last_batch (file ∷ files) db cache h =
      at_least (recorded id (process_batch s host id (file ∷ files) db cache).2) (batch_limit host)
        (length (file ∷ files)) (batch_recorded file files db cache) h

  pub recorded-batches :
      (batch files : List ImageFile) (db : Database F) (cache : Cache)
      → length batch < batch_limit host
      → length batch + length files
        ≤ recorded id (batches s host id batch files db cache).1 * batch_limit host
  unfolding batches
  recorded-batches batch [] db cache h =
      omega (arith, recorded-last_batch batch db cache (omega (arith, h)))
  recorded-batches batch (file ∷ files) db cache h =
      let gathered = batch ++ file ∷ [] in
      let step = process_batch s host id gathered db cache in
      let rest = batches s host id [] files step.0 step.1 in
      let m = batch_limit host in
      let size = length-append batch (file ∷ []) in
      elim (Bool-cases (leb host.import_batch_size (length gathered))) [
        | inl full ↦
            let now =
              at_least (recorded id step.2) m (length gathered)
                (gathered_recorded batch file db cache) (omega (arith, size, h)) in
            let later = recorded-batches [] files step.0 step.1 (omega arith) in
            rw (full, recorded-append id step.2 rest.1)
              (omega (arith, add-mul (recorded id step.2) (recorded id rest.1) m, size, now, later))
        | inr room ↦
            let later = recorded-batches gathered files db cache (ground (arith, size, h, room)) in
            rw room (omega (arith, size, later))
      ]
