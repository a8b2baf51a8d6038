-- ===== src/System/Rights.antt =====
-- Whose requests may change users and keys: the admins', over everything that changes the database.
use face_recognition.Prelude.{
  ◌≡◌, ap, refl, true, false, ◌||◌, inl, inr, String, none, some, List, [], ◌∷◌, map, nat_beq,
  if◌then◌else◌, arith, Bool-cases,
}
use face_recognition.Core.Role.{Role, satisfies}
use face_recognition.Core.Errors.{Result, ok}
use face_recognition.Store.Rows.{Uuid, Time, User, ApiKey, Face, Database}
use face_recognition.Store.Session.{get_db, lift, ◌>>=◌, ◌>>◌}
use face_recognition.Store.Keeps.{Writes}
use face_recognition.Store.Data.{DataWrites}
use face_recognition.Store.Persons.{insert_person, write_person, remove_person}
use face_recognition.Store.Faces.{insert_face, remove_face, insert_log, write_face}
use face_recognition.Store.Accounts.{touch_key}
use face_recognition.Access.Security.{Crypto}
use face_recognition.Access.Guards.{Rated, TokenPayload, is_missing, require_role}
use face_recognition.Api.Admin.{create_user, create_key, revoke_key}
use face_recognition.Startup.{bootstrap}
use face_recognition.Recognition.Kept.{replace_face_image-Keeps}
use face_recognition.System.Kept.{ConcernsAccounts, Step-Keeps}
use face_recognition.System.{
  Step, start, login, new_user, new_key, key_revoked, person_request, registration, enrollment,
  replacement, verification, search_request, face_deletion, third_party, import_run, Reaches, stay,
  after,
}

-- A key but for the time of its last use.
abbrev pub unused : ApiKey → ApiKey
unused k = record k { last_used_at = none }

-- The users, and the keys but for the times of their last use.
abbrev pub accounts : {F : Type 0} → Database F → List User × List ApiKey
accounts db = (db.users, map unused db.api_keys)

touch-unused :
    (id : Uuid) (now : Time) (ks : List ApiKey)
    → map unused (map (λ k. if nat_beq k.id id then record k { last_used_at = some now } else k) ks)
      ≡ map unused ks
touch-unused id now [] = refl
touch-unused id now (k ∷ ks) = elim (Bool-cases (nat_beq k.id id)) [
  | inl here ↦ rw here (ap (◌∷◌ (unused k)) (touch-unused id now ks))
  | inr other ↦ rw other (ap (◌∷◌ (unused k)) (touch-unused id now ks))
]

module _ {F : Type 0} (a : List User × List ApiKey) where
  abbrev Leaves : Database F → Type 0
  Leaves db = accounts db ≡ a

  aside-Leaves :
      {A : Type 0} (w : Database F → Result (A × Database F))
      → ((db : Database F) (x : A) (db' : Database F)
          → w db ≡ ok (x, db')
          → (db'.users ≡ db.users) × (db'.api_keys ≡ db.api_keys))
      → Writes Leaves w
  aside-Leaves w aside db x db' h e = rw ((aside db x db' e).0, (aside db x db' e).1) h

  data-Leaves : DataWrites Leaves
  unfolding insert_person write_person remove_person insert_face remove_face insert_log
  data-Leaves = record {
    person_inserted = λ e n m. aside-Leaves _ (λ db x db' e. (ground arith, ground arith));
    person_written = λ p. aside-Leaves _ (λ db x db' e. (ground arith, ground arith));
    person_removed = λ id. aside-Leaves _ (λ db x db' e. (ground arith, ground arith));
    face_inserted = λ n. aside-Leaves _ (λ db x db' e. (ground arith, ground arith));
    face_removed = λ id. aside-Leaves _ (λ db x db' e. (ground arith, ground arith));
    log_inserted = λ l. aside-Leaves _ (λ db x db' e. (ground arith, ground arith));
    ids_drawn = λ db n h. h;
  }

  write_face-Leaves : (f : Face F) → Writes Leaves (write_face f)
  unfolding write_face
  write_face-Leaves f = aside-Leaves _ (λ db x db' e. (ground arith, ground arith))

  touch_key-Leaves : (id : Uuid) (now : Time) → Writes Leaves (touch_key id now)
  unfolding touch_key
  touch_key-Leaves id now db x db' h e =
      let users : db'.users ≡ db.users = ground arith in
      let keys : db'.api_keys
          ≡ map (λ k. if nat_beq k.id id then record k { last_used_at = some now } else k)
              db.api_keys =
        ground arith in
      rw (users, keys, touch-unused id now db.api_keys) h

-- A request that the checker of the role refuses leaves the database.
refused-rolled_back :
    {F A : Type 0} (user : TokenPayload) (m : _) (db : Database F)
    → satisfies user.role Role.admin ≡ false
    → (get_db {A = A} (lift (require_role Role.admin user) >> m) db).1 ≡ db
unfolding get_db lift require_role ◌>>◌ ◌>>=◌
refused-rolled_back user m db h = rw h refl

module _ {F B T : Type 0} (I : Type 0) (c : Crypto T) (rated : Rated B)
    (uuid_text : Uuid → String) where
  -- A step that is neither an admin's request on users or keys nor a start that is given a first admin.
  abbrev pub IsOrdinary : {db db1 : Database F} → Step I c rated uuid_text db db1 → Type 0
  IsOrdinary (start env salt db) =
      (is_missing env.bootstrap_admin_user || is_missing env.bootstrap_admin_password) ≡ true
  IsOrdinary (new_user user salt payload db) = satisfies user.role Role.admin ≡ false
  IsOrdinary (new_key user entropy name db) = satisfies user.role Role.admin ≡ false
  IsOrdinary (key_revoked user id db) = satisfies user.role Role.admin ≡ false
  IsOrdinary _ = Unit

  abbrev pub AreOrdinary : {db db1 : Database F} → Reaches I c rated uuid_text db db1 → Type 0
  AreOrdinary (stay db) = Unit
  AreOrdinary (after steps step) = AreOrdinary steps × IsOrdinary step

  ordinary_step-Leaves :
      (a : List User × List ApiKey) {db db1 : Database F} (step : Step I c rated uuid_text db db1)
      → IsOrdinary step
      → Leaves a db
      → ConcernsAccounts I c rated uuid_text step
      → Leaves a db1
  unfolding create_user create_key revoke_key bootstrap
  ordinary_step-Leaves a (start env salt db) o h u = rw o h
  ordinary_step-Leaves a (new_user user salt payload db) o h u =
      rw (refused-rolled_back user _ db o) h
  ordinary_step-Leaves a (new_key user entropy name db) o h u =
      rw (refused-rolled_back user _ db o) h
  ordinary_step-Leaves a (key_revoked user id db) o h u = rw (refused-rolled_back user _ db o) h
  ordinary_step-Leaves a (login now minutes name password db) o h u = absurd u
  ordinary_step-Leaves a (person_request user call db) o h u = absurd u
  ordinary_step-Leaves a (registration s user id image db) o h u = absurd u
  ordinary_step-Leaves a (enrollment s user limited name image db) o h u = absurd u
  ordinary_step-Leaves a (replacement s user id image db) o h u = absurd u
  ordinary_step-Leaves a (verification s user id image db) o h u = absurd u
  ordinary_step-Leaves a (search_request s user image top_k db) o h u = absurd u
  ordinary_step-Leaves a (face_deletion user id db) o h u = absurd u
  ordinary_step-Leaves a (third_party s clock now key image buckets db) o h u = absurd u
  ordinary_step-Leaves a (import_run s host id root db) o h u = absurd u

  -- However many starts, logins, requests and imports follow each other, in any order: where no request
  -- on users or keys comes from a role that satisfies admin, and no start is given a first admin,
  -- the users stay as they were, and so do the keys, but for the times of their last use.
  pub ordinary_reaches-accounts :
      {db db1 : Database F} (steps : Reaches I c rated uuid_text db db1)
      → AreOrdinary steps
      → accounts db1 ≡ accounts db
  ordinary_reaches-accounts (stay db) o = refl
  ordinary_reaches-accounts (after {db} steps step) o =
      Step-Keeps I c rated uuid_text (Leaves (accounts db)) (data-Leaves (accounts db))
        (touch_key-Leaves (accounts db))
        (λ s id bytes path.
          replace_face_image-Keeps (Leaves (accounts db)) (data-Leaves (accounts db)) s
            (write_face-Leaves (accounts db)) id bytes path)
        step (ordinary_reaches-accounts steps o.0)
        (ordinary_step-Leaves (accounts db) step o.1 (ordinary_reaches-accounts steps o.0))
