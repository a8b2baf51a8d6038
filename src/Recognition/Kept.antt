-- ===== src/Recognition/Kept.antt =====
-- What the methods of the recognition service keep that write no face anew.
use face_recognition.Prelude.{ℕ, String, Option, none, some}
use face_recognition.Store.Rows.{Uuid, Bytes, Person, Face, Database}
use face_recognition.Store.Keeps.{keep_rules, Keeps, Writes, Keeps-flush}
use face_recognition.Store.Persons.{get_person, get_by_name, add_person, insert_person}
use face_recognition.Store.Faces.{
  NewFace, LogEntry, get_face, add_face, write_face, record_log, insert_log, insert_face,
}
use face_recognition.Store.Search.{ann_search, best_match_for_person}
use face_recognition.Recognition.Types.{Service, person_or_raise}
use face_recognition.Recognition.Enroll.{
  enroll, register, register_by_name, or_create, replace_image_of, replace_face_image,
  face_or_raise,
}
use face_recognition.Recognition.Match.{verify, search_gallery, identify_top1}
use face_recognition.Store.Data.{DataWrites}

module _ {F : Type 0} (P : Database F → Type 0) (kept : DataWrites P) where
  pub add_face-Keeps : (n : NewFace F) → Keeps P (add_face n)
  unfolding add_face
  add_face-Keeps n = Keeps-flush P (insert_face n) (kept.face_inserted n)

  pub record_log-Keeps : (l : LogEntry F) → Keeps P (record_log l)
  unfolding record_log
  record_log-Keeps l = Keeps-flush P (insert_log l) (kept.log_inserted l)

  pub add_person-Keeps :
      (e : Option String) (name meta : String) → Keeps {F = F} P (add_person e name meta)
  unfolding add_person
  add_person-Keeps e name meta =
      Keeps-flush P (insert_person e name meta) (kept.person_inserted e name meta)

module _ {F I : Type 0} (P : Database F → Type 0) (kept : DataWrites P) (s : Service F I) where
  enroll-Keeps :
      (person : Person) (bytes : Bytes) (path : Option String)
      → Keeps P (enroll s person bytes path)
  unfolding enroll
  enroll-Keeps person bytes path =
      search (keep_rules, add_face-Keeps P kept, record_log-Keeps P kept) depth 12

  person_or_raise-Keeps :
      (id : Uuid) (found : Option Person) → Keeps {F = F} P (person_or_raise id found)
  person_or_raise-Keeps id none = search keep_rules
  person_or_raise-Keeps id (some p) = search keep_rules

  or_create-Keeps : (name : String) (found : Option Person) → Keeps P (or_create s name found)
  or_create-Keeps name none = search (add_person-Keeps P kept)
  or_create-Keeps name (some p) = search keep_rules

  pub register-Keeps :
      (id : Uuid) (bytes : Bytes) (path : Option String) → Keeps P (register s id bytes path)
  unfolding register get_person
  register-Keeps id bytes path = search (keep_rules, person_or_raise-Keeps, enroll-Keeps)

  pub register_by_name-Keeps :
      (name : String) (bytes : Bytes) (path : Option String)
      → Keeps P (register_by_name s name bytes path)
  unfolding register_by_name get_by_name
  register_by_name-Keeps name bytes path = search (keep_rules, or_create-Keeps, enroll-Keeps)

  pub verify-Keeps : (id : Uuid) (bytes : Bytes) → Keeps P (verify s id bytes)
  unfolding verify get_person best_match_for_person
  verify-Keeps id bytes =
      search (keep_rules, person_or_raise-Keeps, record_log-Keeps P kept) depth 16

  pub search_gallery-Keeps : (bytes : Bytes) (k : Option ℕ) → Keeps P (search_gallery s bytes k)
  unfolding search_gallery ann_search
  search_gallery-Keeps bytes k = search (keep_rules, record_log-Keeps P kept) depth 12

  pub identify_top1-Keeps : (bytes : Bytes) → Keeps P (identify_top1 s bytes)
  unfolding identify_top1 ann_search
  identify_top1-Keeps bytes = search (keep_rules, record_log-Keeps P kept) depth 12

  -- Where rewriting a face keeps the property too.
  module _ (face_written : (f : Face F) → Writes P (write_face f)) where
    replace_image_of-Keeps :
        (f : Face F) (bytes : Bytes) (path : Option String)
        → Keeps P (replace_image_of s f bytes path)
    unfolding replace_image_of
    replace_image_of-Keeps f bytes path =
        search (keep_rules, record_log-Keeps P kept, face_written) depth 12

    face_or_raise-Keeps : (id : Uuid) (found : Option (Face F)) → Keeps P (face_or_raise s id found)
    face_or_raise-Keeps id none = search keep_rules
    face_or_raise-Keeps id (some f) = search keep_rules

    pub replace_face_image-Keeps :
        (id : Uuid) (bytes : Bytes) (path : Option String)
        → Keeps P (replace_face_image s id bytes path)
    unfolding replace_face_image get_face
    replace_face_image-Keeps id bytes path =
        search (keep_rules, face_or_raise-Keeps, replace_image_of-Keeps) depth 12
