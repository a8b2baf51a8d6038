-- ===== src/Api/Directory.antt =====
-- What the requests on persons do to the directory and to the faces.
use face_recognition.Prelude.{ℕ, inl, inr, String, Option, none, some, arith, Bool-cases}
use text.Mathlib.Text.{◌==◌ as str_eq}
use face_recognition.Store.Rows.{Uuid, Person, Database}
use face_recognition.Store.Session.{get_db}
use face_recognition.Store.Persons as Repo
use face_recognition.Store.Persons.{
  add_person, insert_person, get_by_external_id, write_person, remove_person, text_is, any,
  external_id_taken, person_by_id, replace_row, person_is,
}
use face_recognition.Store.Keeps.{Keeps, get_db-Keeps, Keeps-flush, keep_rules}
use face_recognition.Store.Mirror.{Mirrors, data-Mirrors}
use face_recognition.Store.Data.{DataWrites}
use mathlib.Core.Path.{subst}
use face_recognition.Access.Guards.{TokenPayload}
use face_recognition.Api.Persons.{
  PersonCreate, PersonUpdate, Patch, unset, null, set, create_person, update_person, delete_person,
  get_person, found_or_raise, check_external_id, check_new_external_id, conflict_if_found, save,
  is_changed, list_persons,
}

-- A request on persons.
pub data PersonCall : Type 0 where
  create_call : PersonCreate → PersonCall
  list_call : ℕ → ℕ → PersonCall
  get_call : Uuid → PersonCall
  update_call : Uuid → PersonUpdate → PersonCall
  delete_call : Uuid → PersonCall

module _ {F : Type 0} where
  -- The database after a request.
  unfoldable pub after_call : TokenPayload → PersonCall → Database F → Database F
  after_call user (create_call payload) db = (get_db (create_person user payload) db).1
  after_call user (list_call limit offset) db = (get_db (list_persons user limit offset) db).1
  after_call user (get_call id) db = (get_db (get_person user id) db).1
  after_call user (update_call id payload) db = (get_db (update_person user id payload) db).1
  after_call user (delete_call id) db = (get_db (delete_person user id) db).1

module _ {F : Type 0} (P : Database F → Type 0) (kept : DataWrites P) where
  found_or_raise-Keeps :
      (id : Uuid) (found : Option Person) → Keeps {F = F} P (found_or_raise id found)
  found_or_raise-Keeps id none = search keep_rules
  found_or_raise-Keeps id (some p) = search keep_rules

  conflict-Keeps :
      (e : String) (found : Option Person) → Keeps {F = F} P (conflict_if_found e found)
  conflict-Keeps e none = search keep_rules
  conflict-Keeps e (some p) = search keep_rules

  check-Keeps : (e : Option String) → Keeps {F = F} P (check_external_id e)
  unfolding check_external_id get_by_external_id
  check-Keeps none = search keep_rules
  check-Keeps (some e) = elim (Bool-cases (str_eq e "")) [
    | inl blank ↦ rw blank (search keep_rules)
    | inr given ↦ rw given (search (keep_rules, conflict-Keeps))
  ]

  check_new-Keeps : (e : Patch String) (p : Person) → Keeps {F = F} P (check_new_external_id e p)
  unfolding check_new_external_id
  check_new-Keeps unset p = search keep_rules
  check_new-Keeps null p = search keep_rules
  check_new-Keeps (set e) p = elim (Bool-cases (text_is p.external_id e)) [
    | inl same ↦ rw same (search keep_rules)
    | inr new ↦ rw new (check-Keeps (some e))
  ]

  save-Keeps : (old : Person) (new : Option Person) → Keeps {F = F} P (save old new)
  unfolding save
  save-Keeps old none = Keeps-flush P _ (λ db a db' h e. absurd (ground arith))
  save-Keeps old (some new) = elim (Bool-cases (is_changed old new)) [
    | inl changed ↦ rw changed (Keeps-flush P _ (kept.person_written new))
    | inr same ↦ rw same (Keeps-flush P _ (λ db a db' h e. subst P (ground arith) h))
  ]

  create_person-Keeps :
      (user : TokenPayload) (payload : PersonCreate) → Keeps {F = F} P (create_person user payload)
  unfolding create_person add_person
  create_person-Keeps user payload =
      search (keep_rules, check-Keeps, kept.person_inserted, Keeps-flush) depth 14

  update_person-Keeps :
      (user : TokenPayload) (id : Uuid) (payload : PersonUpdate)
      → Keeps {F = F} P (update_person user id payload)
  unfolding update_person Repo.get_person
  update_person-Keeps user id payload =
      search (keep_rules, found_or_raise-Keeps, check_new-Keeps, save-Keeps) depth 14

  delete_person-Keeps : (user : TokenPayload) (id : Uuid) → Keeps {F = F} P (delete_person user id)
  unfolding delete_person Repo.delete_person Repo.get_person
  delete_person-Keeps user id =
      search (keep_rules, found_or_raise-Keeps, kept.person_removed, Keeps-flush) depth 14

  list_persons-Keeps :
      (user : TokenPayload) (limit offset : ℕ) → Keeps {F = F} P (list_persons user limit offset)
  unfolding list_persons Repo.list_persons
  list_persons-Keeps user limit offset = search keep_rules depth 12

  get_person-Keeps : (user : TokenPayload) (id : Uuid) → Keeps {F = F} P (get_person user id)
  unfolding get_person Repo.get_person
  get_person-Keeps user id = search (keep_rules, found_or_raise-Keeps) depth 12

  pub after_call-Keeps :
      (user : TokenPayload) (call : PersonCall) (db : Database F)
      → P db
      → P (after_call user call db)
  unfolding after_call
  after_call-Keeps user (create_call payload) db h =
      get_db-Keeps P (create_person user payload) (create_person-Keeps user payload) db h
  after_call-Keeps user (list_call limit offset) db h =
      get_db-Keeps P (list_persons user limit offset) (list_persons-Keeps user limit offset) db h
  after_call-Keeps user (get_call id) db h =
      get_db-Keeps P (get_person user id) (get_person-Keeps user id) db h
  after_call-Keeps user (update_call id payload) db h =
      get_db-Keeps P (update_person user id payload) (update_person-Keeps user id payload) db h
  after_call-Keeps user (delete_call id) db h =
      get_db-Keeps P (delete_person user id) (delete_person-Keeps user id) db h

module _ {F : Type 0} where
  -- After any request on persons, answered or refused, the flag of every face is still its person's.
  pub after_call-Mirrors :
      (user : TokenPayload) (call : PersonCall) (db : Database F)
      → Mirrors db
      → Mirrors (after_call user call db)
  after_call-Mirrors user call db h = after_call-Keeps Mirrors data-Mirrors user call db h
