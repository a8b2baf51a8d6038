-- ===== src/Api/Outcomes.antt =====
-- The answers of the requests on persons, and what a search finds afterwards.
use face_recognition.Prelude.{
  ℕ, ◌+◌, ◌≡◌, refl, ap, ◌≢◌, inl, inr, true, false, not, String, none, some, List, [], ◌∷◌, ◌++◌,
  All, select, find, nat_beq, nat_beq_iff, arith, if◌then◌else◌, Bool-cases,
}
use text.Mathlib.Text.{◌==◌ as str_eq}
use text.Mathlib.TextEquality.{eq_iff}
use face_recognition.Prelude.Float.{Float, IsOrdered}
use face_recognition.Prelude.Sort.{All-map}
use face_recognition.Core.Role.{Role, satisfies}
use face_recognition.Core.Errors.{
  domain, entity_conflict, entity_not_found, authorization_error, Entity, fault, integrity_error,
  ok, raise,
}
use face_recognition.Store.Rows.{Uuid, Person, Database}
use face_recognition.Store.Session.{get_db, run_session}
use face_recognition.Store.Persons as Repo
use face_recognition.Store.Persons.{
  add_person, insert_person, get_by_external_id, write_person, remove_person, text_is, any,
  external_id_taken, person_by_id, replace_row, person_is,
}
use face_recognition.Store.Mirror.{Mirrors}
use face_recognition.Store.Search.{Pgvector, IsSound, search_rows}
use face_recognition.Store.Ranking.{person_by_id-id, IsAntitone, search_rows_ranked}
use face_recognition.Access.Login.{find-last}
use face_recognition.Access.Guards.{TokenPayload, require_role}
use face_recognition.Api.Persons.{
  PersonCreate, PersonUpdate, unset, set, create_person, update_person, delete_person,
  check_external_id, check_new_external_id, save, patched, is_changed,
}
use face_recognition.Api.Directory.{after_call, update_call, after_call-Mirrors}

free_external_id :
    (e : String) (id : Uuid) (ps : List Person)
    → find (λ q. text_is q.external_id e) ps ≡ none
    → external_id_taken (some e) id ps ≡ false
free_external_id e id [] h = refl
free_external_id e id (p ∷ ps) h = ground (arith, free_external_id e id ps)

module _ {F : Type 0} (db : Database F) (user : TokenPayload) where
  abbrev pub created_person : PersonCreate → Person
  created_person payload = record {
    id = db.next_id;
    external_id = payload.external_id;
    full_name = payload.full_name;
    meta = payload.metadata;
    is_active = true;
    created_at = db.now;
    updated_at = db.now;
  }

  abbrev pub with_person : PersonCreate → Database F
  with_person payload = record db {
    persons = db.persons ++ created_person payload ∷ [];
    next_id = db.next_id + 1;
  }

  create_person_taken :
      (payload : PersonCreate) (e : String) (p : Person)
      → satisfies user.role Role.operator ≡ true
      → payload.external_id ≡ some e
      → str_eq e "" ≡ false
      → find (λ q. text_is q.external_id e) db.persons ≡ some p
      → get_db (create_person user payload) db ≡ (raise (domain (entity_conflict e)), db)
  unfolding create_person run_session require_role check_external_id get_by_external_id add_person
      insert_person
  create_person_taken payload e p strong given filled taken = ground arith

  create_person_free :
      (payload : PersonCreate) (e : String)
      → satisfies user.role Role.operator ≡ true
      → payload.external_id ≡ some e
      → find (λ q. text_is q.external_id e) db.persons ≡ none
      → get_db (create_person user payload) db ≡ (ok (created_person payload), with_person payload)
  unfolding create_person run_session require_role check_external_id get_by_external_id add_person
      insert_person
  create_person_free payload e strong given free =
      let unique = free_external_id e db.next_id db.persons free in
      elim (Bool-cases (str_eq e "")) [ inl blank ↦ ground arith | inr filled ↦ ground arith ]

module _ {F : Type 0} (db : Database F) (user : TokenPayload) where
  -- Creating a person is refused to a viewer, and as a conflict where the given external id is not empty
  -- and is another person's; an empty one that another person has fails in the database; none of
  -- these changes it. Else the person is stored as given, active. The lookup by a given external id
  -- then finds this person, and where the id is not empty, another creation with it is a conflict.
  pub create_person_outcomes :
      (payload : PersonCreate)
      → (satisfies user.role Role.operator ≡ false
          → get_db (create_person user payload) db
            ≡ (raise (domain (authorization_error Role.operator user.role)), db))
        × ((e : String) (p : Person)
            → satisfies user.role Role.operator ≡ true
            → payload.external_id ≡ some e
            → str_eq e "" ≡ false
            → find (λ q. text_is q.external_id e) db.persons ≡ some p
            → get_db (create_person user payload) db ≡ (raise (domain (entity_conflict e)), db))
        × ((e : String)
            → satisfies user.role Role.operator ≡ true
            → payload.external_id ≡ some e
            → str_eq e "" ≡ true
            → external_id_taken (some e) db.next_id db.persons ≡ true
            → get_db (create_person user payload) db ≡ (raise (fault integrity_error), db))
        × (satisfies user.role Role.operator ≡ true
            → payload.external_id ≡ none
            → get_db (create_person user payload) db
              ≡ (ok (created_person db user payload), with_person db user payload))
        × ((e : String)
            → satisfies user.role Role.operator ≡ true
            → payload.external_id ≡ some e
            → find (λ q. text_is q.external_id e) db.persons ≡ none
            → (get_db (create_person user payload) db
                ≡ (ok (created_person db user payload), with_person db user payload))
              × (get_db (get_by_external_id e) (get_db (create_person user payload) db).1
                  ≡ (ok (some (created_person db user payload)), with_person db user payload))
              × (str_eq e "" ≡ false
                  → (again : PersonCreate) → again.external_id ≡ some e
                  → get_db (create_person user again) (get_db (create_person user payload) db).1
                    ≡ (raise (domain (entity_conflict e)), with_person db user payload)))
  unfolding create_person run_session require_role check_external_id get_by_external_id add_person
      insert_person
  create_person_outcomes payload = (
    (λ weak. ground arith),
    (λ e p strong given filled taken.
        create_person_taken db user payload e p strong given filled taken),
    (λ e strong given blank taken. ground arith),
    (λ strong absent. ground arith),
    λ e strong given free.
        let unique = free_external_id e db.next_id db.persons free in
        let made : get_db (create_person user payload) db
            ≡ (ok (created_person db user payload), with_person db user payload) =
          create_person_free db user payload e strong given free in
        let known : find (λ q. text_is q.external_id e) (with_person db user payload).persons
            ≡ some (created_person db user payload) =
          find-last (λ q. text_is q.external_id e) db.persons (created_person db user payload) free
            (ground (arith, given, eq_iff e e)) in
        (
          made,
          rw made (rw known refl),
          λ filled again same. rw made (
              create_person_taken (with_person db user payload) user again e
                (created_person db user payload) strong same filled known),
        ),
  )

  module _ (id : Uuid) where
    -- Deleting a person on record, by an operator or an admin, removes that person and every face of
    -- that person, and no other person or face; a deletion of an unknown person changes nothing.
    pub delete_person_outcomes :
        satisfies user.role Role.operator ≡ true
        → ((p : Person)
            → person_by_id id db.persons ≡ some p
            → get_db (delete_person user id) db ≡ (
              ok tt,
              record db {
                persons = select (λ q. not (nat_beq q.id id)) db.persons;
                faces = select (λ f. not (nat_beq f.person_id id)) db.faces;
              },
            ))
          × (person_by_id id db.persons ≡ none
              → get_db (delete_person user id) db
                ≡ (raise (domain (entity_not_found Entity.person id)), db))
    unfolding delete_person run_session require_role Repo.get_person Repo.delete_person
        remove_person
    delete_person_outcomes strong = (
      (λ p found. ground (arith, person_by_id-id id db.persons {p = p})),
      λ missing. ground arith,
    )

replaced :
    (id : Uuid) (new : Person) (ps : List Person) {p : Person}
    → new.id ≡ id
    → person_by_id id ps ≡ some p
    → person_by_id id (replace_row (person_is id) new ps) ≡ some new
unfolding person_by_id replace_row
replaced id new [] {p} same e = absurd (cc e)
replaced id new (q ∷ ps) {p} same e =
    ground (arith, replaced id new ps {p = p} same, nat_beq_iff new.id id)

-- The update that switches a person off, and nothing else.
abbrev pub switch_off : PersonUpdate
switch_off = record {
  full_name = unset;
  external_id = unset;
  metadata = unset;
  is_active = set false;
}

module _ {F : Type 0} (db : Database F) (user : TokenPayload) (id : Uuid) (p : Person) where
  -- The row that the update assigns, and the row that it stores.
  abbrev off : Person
  off = record p { is_active = false }

  abbrev off_now : Person
  off_now = record off { updated_at = db.now }

  off_inactive : is_changed p off ≡ false → p.is_active ≡ false
  unfolding is_changed
  off_inactive same = ground arith

  update_lem :
      satisfies user.role Role.operator ≡ true
      → person_by_id id db.persons ≡ some p
      → external_id_taken p.external_id p.id db.persons ≡ false
      → (after_call user (update_call id switch_off) db).persons
        ≡ (if is_changed p off then replace_row (person_is p.id) off_now db.persons else db.persons)
  unfolding after_call update_person run_session require_role Repo.get_person check_new_external_id
      save write_person patched
  update_lem strong found unique = ground arith

  switched_off :
      satisfies user.role Role.operator ≡ true
      → person_by_id id db.persons ≡ some p
      → external_id_taken p.external_id p.id db.persons ≡ false
      → (new : Person) × (person_by_id id (after_call user (update_call id switch_off) db).persons
          ≡ some new)
        × (new.is_active ≡ false)
  switched_off strong found unique =
      let same = person_by_id-id id db.persons found in
      elim (Bool-cases (is_changed p off)) [
        | inl changed ↦ (
          off_now,
          ground (
            arith,
            update_lem strong found unique,
            replaced p.id off_now db.persons {p = p} refl,
          ),
          refl,
        )
        | inr unchanged ↦
            (p, ground (arith, update_lem strong found unique), off_inactive unchanged)
      ]

  -- After an operator or an admin has switched a person off, no search of the active faces
  -- returns that person, whatever the query. The person must be on record with an external id of
  -- its own, the faces carry their persons' flags, the index invent no row, and the floats be
  -- ordered.
  pub switched_off_not_found :
      satisfies user.role Role.operator ≡ true
      → person_by_id id db.persons ≡ some p
      → external_id_taken p.external_id p.id db.persons ≡ false
      → Mirrors db
      → (fl : Float F) (pg : Pgvector F) → IsOrdered fl
      → IsAntitone fl
      → IsSound pg
      → (ef top_k : ℕ) (q : List F)
      → All
          (λ r. r.person_id ≢ id)
          (search_rows fl pg ef q top_k true (after_call user (update_call id switch_off) db))
  switched_off_not_found strong found unique mirrors fl pg ordered antitone sound ef top_k q =
      let after = after_call user (update_call id switch_off) db in
      let (new, known, inactive) = switched_off strong found unique in
      let hits =
        search_rows_ranked fl pg ordered antitone sound ef top_k q after
          (after_call-Mirrors user (update_call id switch_off) db mirrors) in
      All-map _ _ (search_rows fl pg ef q top_k true after)
        (λ r h same. ground (arith, h.owned, h.active, ap (λ i. person_by_id i after.persons) same))
        hits.0
