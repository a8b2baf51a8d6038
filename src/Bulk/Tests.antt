-- ===== src/Bulk/Tests.antt =====
-- An import of two files for Ann and one for a new person.
use face_recognition.Prelude.{◌⊎◌, ◌++◌, ◌+◌, ◌≡◌, refl, String, some, List, [], ◌∷◌, true, length}
use face_recognition.Core.Errors.{Exn, ok, raise}
use face_recognition.Store.Session.{open_session}
use face_recognition.Jobs.Calls.{add_error}
use face_recognition.Jobs.Counters.{total_counts}
use face_recognition.Bulk.Stored.{process_batch_atomic}
use face_recognition.Jobs.Memory
use face_recognition.Prelude.Sort.{sort_by}
use face_recognition.Bulk.Discovery.{ImageFile, FileEntry, DirEntry, discover}
use face_recognition.Bulk.Import.{Host, process_all, process_batch}
use face_recognition.Samples.{service, gallery}

abbrev file : String → FileEntry
file name = record { file_name = name; file_path = name; lower_suffix = ".jpg" }

abbrev entries : List DirEntry
entries =
    record { dir_name = "Cat"; is_dir = true; files = ok (file "c.jpg" ∷ []) }
    ∷ record { dir_name = "Ann"; is_dir = true; files = ok (file "b.jpg" ∷ file "a.jpg" ∷ []) }
    ∷ []

abbrev images : List ImageFile
images =
    let image : String → String → ImageFile =
      λ person path. record { person_name = person; path = path; name = path } in
    image "Ann" "a.jpg" ∷ image "Ann" "b.jpg" ∷ image "Cat" "c.jpg" ∷ []

found : discover entries ≡ ok images
unfolding discover sort_by
found = refl

abbrev host : Host
host = record {
  read_file = λ path. ok (3 ∷ []);
  message = λ path e. path;
  log_message = λ path e. path;
  batch_failed = λ e. "Batch failed";
  not_found = λ path. path;
  list_dir = λ path. some (ok entries);
  commit = λ files. ok tt;
  import_batch_size = 2;
  clock = 7;
}

process_batch_atomic_example :
    let o = process_all service host 30 images (open_session gallery) [] in
    let (db1, cache1, calls) = process_batch service host 30 images gallery [] in
    ((o.answer ≡ ok tt)
      × (host.commit images ≡ ok tt)
      × (length db1.faces ≡ length gallery.faces + total_counts 30 true calls))
    ⊎ ((e : Exn) × ((o.answer ≡ raise e) ⊎ ((o.answer ≡ ok tt) × (host.commit images ≡ raise e)))
        × (db1 ≡ record gallery { next_id = o.session.database.next_id })
        × (calls ≡ o.calls ++ add_error 30 (host.batch_failed e) ∷ []))
process_batch_atomic_example = process_batch_atomic service host 30 images gallery []
