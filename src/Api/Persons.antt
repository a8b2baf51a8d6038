-- ===== src/Api/Persons.antt =====
-- app/api/v1/persons.py, with the payloads of app/schemas/person.py.
use face_recognition.Prelude.{
  ℕ, Bool, true, false, not, ◌||◌, String, Option, none, some, List, differ, if◌then◌else◌,
}
use text.Mathlib.Text.{◌==◌ as str_eq}
use face_recognition.Core.Role.{Role}
use face_recognition.Core.Errors.{
  domain, fault, integrity_error, entity_conflict, entity_not_found, Entity, ok, raise,
}
use face_recognition.Store.Rows.{Uuid, Person}
use face_recognition.Store.Session.{Action, pure, throw, lift, flush, ◌>>=◌, ◌>>◌}
use face_recognition.Store.Persons as Repo
use face_recognition.Store.Persons.{add_person, get_by_external_id, write_person, text_is}
use face_recognition.Access.Guards.{TokenPayload, require_role}

pub record PersonCreate : Type 0 where
  pub full_name : String
  pub external_id : Option String
  pub metadata : String

-- A field of an update: left out, null, or given.
pub data Patch (A : Type 0) : Type 0 where
  unset null : Patch A
  set : A → Patch A

pub record PersonUpdate : Type 0 where
  pub full_name : Patch String
  pub external_id : Patch String
  pub metadata : Patch String
  pub is_active : Patch Bool

-- `setattr`, on a column that takes NULL.
abbrev pub patch_option : {A : Type 0} → Patch A → Option A → Option A
patch_option unset old = old
patch_option null old = none
patch_option (set a) old = some a

-- On a column that does not, where NULL is `none`.
abbrev pub patch_value : {A : Type 0} → Patch A → A → Option A
patch_value unset old = some old
patch_value null old = none
patch_value (set a) old = some a

-- The JSON value: a null becomes the JSON `null`.
abbrev pub patch_meta : Patch String → String → String
patch_meta unset old = old
patch_meta null old = "null"
patch_meta (set a) old = a

-- The row after the assignments, or `none` where the database has no NULL in a column.
unfoldable pub patched : Person → PersonUpdate → Option Person
patched p u = elim (patch_value u.full_name p.full_name) [
  | none ↦ none
  | some name ↦ elim (patch_value u.is_active p.is_active) [
    | none ↦ none
    | some active ↦ some (record p {
      full_name = name;
      external_id = patch_option u.external_id p.external_id;
      meta = patch_meta u.metadata p.meta;
      is_active = active;
    })
  ]
]

abbrev pub same_text : Option String → Option String → Bool
same_text none none = true
same_text none (some t) = false
same_text (some s) t = text_is t s

-- Whether SQLAlchemy finds a changed attribute.
unfoldable pub is_changed : Person → Person → Bool
is_changed p q =
    not (str_eq p.full_name q.full_name)
    || (not (same_text p.external_id q.external_id)
        || (not (str_eq p.meta q.meta) || differ p.is_active q.is_active))

module _ {F : Type 0} where
  -- A taken id.
  abbrev pub conflict_if_found : String → Option Person → Action F (Unit {0})
  conflict_if_found e none = pure tt
  conflict_if_found e (some p) = throw (domain (entity_conflict e))

  -- `if payload.external_id and await repo.get_by_external_id(…)`
  unfoldable pub check_external_id : Option String → Action F (Unit {0})
  check_external_id none = pure tt
  check_external_id (some e) =
      if str_eq e "" then pure tt else do found ← get_by_external_id e; conflict_if_found e found

  unfoldable pub create_person : TokenPayload → PersonCreate → Action F Person
  create_person user payload = do
    lift (require_role Role.operator user)
    check_external_id payload.external_id
    add_person payload.external_id payload.full_name payload.metadata

  unfoldable pub list_persons : TokenPayload → ℕ → ℕ → Action F (List Person)
  list_persons user limit offset = do
    lift (require_role Role.viewer user)
    Repo.list_persons limit offset

  abbrev pub found_or_raise : Uuid → Option Person → Action F Person
  found_or_raise id none = throw (domain (entity_not_found Entity.person id))
  found_or_raise id (some p) = pure p

  unfoldable pub get_person : TokenPayload → Uuid → Action F Person
  get_person user id = do
    lift (require_role Role.viewer user)
    found ← Repo.get_person id
    found_or_raise id found

  -- The check of an update: a new external id, other than the person's.
  unfoldable pub check_new_external_id : Patch String → Person → Action F (Unit {0})
  unfolding check_external_id
  check_new_external_id unset p = pure tt
  check_new_external_id null p = pure tt
  check_new_external_id (set e) p =
      if text_is p.external_id e then pure tt else check_external_id (some e)

  -- `db.flush()`
  unfoldable pub save : Person → Option Person → Action F Person
  save old none = flush (λ db. raise (fault integrity_error))
  save old (some new) =
      if is_changed old new then flush (write_person new) else flush (λ db. ok (old, db))

  unfoldable pub update_person : TokenPayload → Uuid → PersonUpdate → Action F Person
  update_person user id payload = do
    lift (require_role Role.operator user)
    found ← Repo.get_person id
    person ← found_or_raise id found
    check_new_external_id payload.external_id person
    save person (patched person payload)

  unfoldable pub delete_person : TokenPayload → Uuid → Action F (Unit {0})
  delete_person user id = do
    lift (require_role Role.operator user)
    found ← Repo.get_person id
    person ← found_or_raise id found
    Repo.delete_person person
