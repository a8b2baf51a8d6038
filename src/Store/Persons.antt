-- ===== src/Store/Persons.antt =====
-- app/repositories/person_repo.py and base.py over the table of persons. The constraints
-- of app/models (unique columns, the foreign key of a face, the cascade) and the triggers of
-- alembic/versions/0004_faces_is_active_partial_index.py are part of the statements.
use face_recognition.Prelude.{
  ℕ, ◌+◌, Bool, true, false, not, ◌&&◌, ◌||◌, String, Option, none, some, List, [], ◌∷◌, ◌++◌, map,
  nat_beq, differ, length, take, drop, select, find, if◌then◌else◌,
}
use text.Mathlib.Text.{◌==◌ as str_eq}
use face_recognition.Core.Errors.{fault, integrity_error, Result, ok, raise}
use face_recognition.Store.Rows.{Uuid, Person, Face, Database}
use face_recognition.Store.Session.{Action, query, flush}

-- `column = value` for a nullable text column.
abbrev pub text_is : Option String → String → Bool
text_is none s = false
text_is (some t) s = str_eq t s

-- `exists`
abbrev pub any : {A : Type 0} → (A → Bool) → List A → Bool
any p [] = false
any p (x ∷ xs) = p x || any p xs

-- The row with the given primary key is replaced.
unfoldable pub replace_row : {A : Type 0} → (A → Bool) → A → List A → List A
replace_row is row [] = []
replace_row is row (x ∷ xs) = if is x then row ∷ xs else x ∷ replace_row is row xs

abbrev pub person_is : Uuid → Person → Bool
person_is id p = nat_beq p.id id

-- `session.get(Person, id)`
unfoldable pub person_by_id : Uuid → List Person → Option Person
person_by_id id [] = none
person_by_id id (p ∷ ps) = if person_is id p then some p else person_by_id id ps

-- The subquery of the trigger `faces_set_is_active`.
unfoldable pub active_of : Uuid → List Person → Option Bool
active_of id [] = none
active_of id (p ∷ ps) = if person_is id p then some p.is_active else active_of id ps

-- Whether another row than the given one has the external id.
abbrev pub external_id_taken : Option String → Uuid → List Person → Bool
external_id_taken none id ps = false
external_id_taken (some e) id ps = any (λ p. text_is p.external_id e && not (nat_beq p.id id)) ps

module _ {F : Type 0} where
  unfoldable pub get_person : Uuid → Action F (Option Person)
  get_person id = query (λ db. person_by_id id db.persons)

  -- `BaseRepository.list`, with no order of its own.
  unfoldable pub list_persons : ℕ → ℕ → Action F (List Person)
  list_persons limit offset = query (λ db. take limit (drop offset db.persons))

  unfoldable pub get_by_external_id : String → Action F (Option Person)
  get_by_external_id e = query (λ db. find (λ p. text_is p.external_id e) db.persons)

  unfoldable pub get_by_name : String → Action F (Option Person)
  get_by_name name = query (λ db. find (λ p. str_eq p.full_name name) db.persons)

  unfoldable pub count_persons : Action F ℕ
  count_persons = query (λ db. length db.persons)

  -- INSERT with the defaults of the model.
  unfoldable pub insert_person :
      Option String → String → String → Database F → Result (Person × Database F)
  insert_person external_id full_name meta db =
      let p : Person = record {
        id = db.next_id;
        external_id = external_id;
        full_name = full_name;
        meta = meta;
        is_active = true;
        created_at = db.now;
        updated_at = db.now;
      } in
      if external_id_taken external_id db.next_id db.persons
      then raise (fault integrity_error)
      else ok (p, record db { persons = db.persons ++ p ∷ []; next_id = db.next_id + 1 })

  unfoldable pub add_person : Option String → String → String → Action F Person
  add_person external_id full_name meta = flush (insert_person external_id full_name meta)

  abbrev pub set_active : Uuid → Bool → List (Face F) → List (Face F)
  set_active id active faces =
      map (λ f. if nat_beq f.person_id id then record f { is_active = active } else f) faces

  -- The trigger `persons_propagate_is_active`, given the old value of the flag.
  abbrev pub propagate : Option Bool → Person → List (Face F) → List (Face F)
  propagate none new faces = faces
  propagate (some old) new faces =
      if differ old new.is_active then set_active new.id new.is_active faces else faces

  -- UPDATE of a person's row, with the trigger. `updated_at` is set by `onupdate`.
  unfoldable pub write_person : Person → Database F → Result (Person × Database F)
  write_person p db =
      let new : Person = record p { updated_at = db.now } in
      if external_id_taken p.external_id p.id db.persons
      then raise (fault integrity_error)
      else ok (
        new,
        record db {
          persons = replace_row (person_is p.id) new db.persons;
          faces = propagate (active_of p.id db.persons) new db.faces;
        },
      )

  -- DELETE of a person, which cascades to the person's faces.
  unfoldable pub remove_person : Uuid → Database F → Result (Unit {0} × Database F)
  remove_person id db = ok (
    tt,
    record db {
      persons = select (λ p. not (person_is id p)) db.persons;
      faces = select (λ f. not (nat_beq f.person_id id)) db.faces;
    },
  )

  unfoldable pub delete_person : Person → Action F (Unit {0})
  delete_person p = flush (remove_person p.id)
