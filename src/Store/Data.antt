-- ===== src/Store/Data.antt =====
-- Properties of the database that every write to persons, faces and the log keeps.
use face_recognition.Prelude.{ℕ, String, Option}
use face_recognition.Store.Rows.{Uuid, Person, Database}
use face_recognition.Store.Persons.{insert_person, write_person, remove_person}
use face_recognition.Store.Faces.{NewFace, LogEntry, insert_face, remove_face, insert_log}
use face_recognition.Store.Keeps.{Writes}

-- The statements on persons, faces and the log keep the property, and so does the drawing of ids.
pub record DataWrites {F : Type 0} (P : Database F → Type 0) : Type 0 where
  pub person_inserted :
      (external_id : Option String) (full_name meta : String)
      → Writes P (insert_person external_id full_name meta)
  pub person_written : (p : Person) → Writes P (write_person p)
  pub person_removed : (id : Uuid) → Writes P (remove_person id)
  pub face_inserted : (n : NewFace F) → Writes P (insert_face n)
  pub face_removed : (id : Uuid) → Writes P (remove_face id)
  pub log_inserted : (l : LogEntry F) → Writes P (insert_log l)
  pub ids_drawn : (db : Database F) (n : ℕ) → P db → P (record db { next_id = n })
