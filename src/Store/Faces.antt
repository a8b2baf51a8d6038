-- ===== src/Store/Faces.antt =====
-- app/repositories/face_repo.py, but for the vector search, and app/repositories/log_repo.py.
-- The foreign key of a face and the trigger `faces_set_is_active` of
-- alembic/versions/0004_faces_is_active_partial_index.py are part of INSERT.
use face_recognition.Prelude.{
  ℕ, ◌+◌, Bool, not, String, Option, none, some, List, [], ◌∷◌, ◌++◌, nat_beq, leb, length, take,
  drop, select, find,
}
use mathlib.Core.List.{filter_map}
use face_recognition.Prelude.Sort.{sort_by}
use face_recognition.Core.Errors.{fault, integrity_error, Result, ok, raise}
use face_recognition.Store.Rows.{
  Uuid, Time, Bytes, Person, BoundingBox, Face, RecognitionAction, RecognitionLog, Database,
}
use face_recognition.Store.Persons.{active_of, person_by_id, replace_row}
use face_recognition.Store.Session.{Action, query, flush}

-- What the constructor `Face(…)` is given.
pub record NewFace (F : Type 0) : Type 0 where
  pub person_id : Uuid
  pub embedding : List F
  pub det_score : F
  pub quality : Option F
  pub image_path : Option String
  pub bbox : Option (BoundingBox F)
  pub thumbnail : Option Bytes

-- What `logs.record(…)` is given; the defaults are those of the model.
pub record LogEntry (F : Type 0) : Type 0 where
  pub action : RecognitionAction
  pub person_id : Option Uuid
  pub matched_face_id : Option Uuid
  pub similarity : Option F
  pub success : Bool
  pub user_id : Option String
  pub client_ip : Option String
  pub message : Option String

module _ {F : Type 0} where
  -- `is` for a row with the given primary key.
  abbrev pub face_is : Uuid → Face F → Bool
  face_is id f = nat_beq f.id id

  unfoldable pub get_face : Uuid → Action F (Option (Face F))
  get_face id = query (λ db. find (face_is id) db.faces)

  -- The row that INSERT stores, with the flag that the trigger gives it.
  abbrev pub stored : NewFace F → Bool → Uuid → Time → Face F
  stored n active id now = record {
    id = id;
    person_id = n.person_id;
    embedding = n.embedding;
    det_score = n.det_score;
    quality = n.quality;
    image_path = n.image_path;
    bbox = n.bbox;
    thumbnail = n.thumbnail;
    is_active = active;
    created_at = now;
  }

  -- INSERT of a face: without its person the foreign key refuses it.
  unfoldable pub insert_face : NewFace F → Database F → Result (Face F × Database F)
  insert_face n db = elim (active_of n.person_id db.persons) [
    | none ↦ raise (fault integrity_error)
    | some active ↦
        let f : Face F = stored n active db.next_id db.now in
        ok (f, record db { faces = db.faces ++ f ∷ []; next_id = db.next_id + 1 })
  ]

  unfoldable pub add_face : NewFace F → Action F (Face F)
  add_face n = flush (insert_face n)

  -- UPDATE of a face's own columns: the person stays, so no trigger fires.
  unfoldable pub write_face : Face F → Database F → Result (Face F × Database F)
  write_face f db = ok (f, record db { faces = replace_row (face_is f.id) f db.faces })

  unfoldable pub remove_face : Uuid → Database F → Result (Unit {0} × Database F)
  remove_face id db = ok (tt, record db { faces = select (λ f. not (face_is id f)) db.faces })

  unfoldable pub delete_face : Face F → Action F (Unit {0})
  delete_face f = flush (remove_face f.id)

  unfoldable pub list_by_person : Uuid → Action F (List (Face F))
  list_by_person id = query (λ db. select (λ f. nat_beq f.person_id id) db.faces)

  -- `WHERE person_id = …`, where a person is given.
  abbrev pub of_person : Option Uuid → List (Face F) → List (Face F)
  of_person none fs = fs
  of_person (some id) fs = select (λ f. nat_beq f.person_id id) fs

  -- `ORDER BY created_at DESC`
  abbrev pub newer : Face F → Face F → Bool
  newer f g = leb g.created_at f.created_at

  -- The join with the person's name.
  abbrev pub with_name : List Person → Face F → Option (Face F × String)
  with_name ps f = elim (person_by_id f.person_id ps) [
    | none ↦ none
    | some p ↦ some (f, p.full_name)
  ]

  unfoldable pub list_with_person : ℕ → ℕ → Option Uuid → Action F (List (Face F × String))
  list_with_person limit offset person_id = query (λ db. take limit (
      drop offset
        (filter_map (with_name db.persons) (sort_by newer (of_person person_id db.faces)))))

  unfoldable pub count_faces : Option Uuid → Action F ℕ
  count_faces person_id = query (λ db. length (of_person person_id db.faces))

  -- The audit log

  unfoldable pub insert_log : LogEntry F → Database F → Result (RecognitionLog F × Database F)
  insert_log e db =
      let l : RecognitionLog F = record {
        id = db.next_id;
        action = e.action;
        person_id = e.person_id;
        matched_face_id = e.matched_face_id;
        similarity = e.similarity;
        success = e.success;
        user_id = e.user_id;
        client_ip = e.client_ip;
        message = e.message;
        created_at = db.now;
      } in
      ok (l, record db { logs = db.logs ++ l ∷ []; next_id = db.next_id + 1 })

  unfoldable pub record_log : LogEntry F → Action F (RecognitionLog F)
  record_log e = flush (insert_log e)

  unfoldable pub recent_logs : ℕ → Action F (List (RecognitionLog F))
  recent_logs limit =
      query (λ db. take limit (sort_by (λ l m. leb m.created_at l.created_at) db.logs))

  unfoldable pub count_logs : Action F ℕ
  count_logs = query (λ db. length db.logs)

  unfoldable pub success_count : Action F ℕ
  success_count = query (λ db. length (select (λ l. l.success) db.logs))
