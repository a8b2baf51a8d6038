-- ===== src/System/Kept.antt =====
-- What the steps keep that are not about users and keys: each property that every write to persons,
-- faces and the log keeps.
use face_recognition.Prelude.{ℕ, inl, inr, String, Option, none, some, Bool-cases}
use face_recognition.Store.Rows.{Bytes, Uuid, Time, User, Database}
use face_recognition.Store.Keeps.{Keeps, get_db-Keeps, keep_rules, Writes}
use face_recognition.Store.Accounts.{touch_key, get_by_username}
use face_recognition.Store.Data.{DataWrites}
use face_recognition.Access.Security.{Crypto, verify_password}
use face_recognition.Access.Accounts.{authenticate, grant}
use face_recognition.Access.Guards.{Rated}
use face_recognition.Recognition.Types.{Service}
use face_recognition.Recognition.Enroll.{replace_face_image}
use face_recognition.Api.Directory.{after_call-Keeps}
use face_recognition.Bulk.Kept.{run-Keeps}
use face_recognition.System.{
  Step, start, login, new_user, new_key, key_revoked, person_request, registration, enrollment,
  replacement, verification, search_request, face_deletion, third_party, import_run,
}
use face_recognition.System.Requests.{
  register_face-Keeps, enroll_by_name-Keeps, replace_image-Keeps, verify_face-Keeps,
  search_faces-Keeps, delete_face-Keeps, external_request-Keeps,
}

module _ {F T : Type 0} (P : Database F → Type 0) (c : Crypto T) where
  grant-Keeps :
      (now : Time) (expire_minutes : ℕ) (password : String) (found : Option User)
      → Keeps {F = F} P (grant c now expire_minutes password found)
  grant-Keeps now expire_minutes password none = search keep_rules
  grant-Keeps now expire_minutes password (some user) =
      elim (Bool-cases (verify_password c password user.hashed_password)) [
        | inr wrong ↦ rw wrong (search keep_rules)
        | inl right ↦ elim (Bool-cases user.is_active) [
          | inl active ↦ rw (right, active) (search keep_rules)
          | inr disabled ↦ rw (right, disabled) (search keep_rules)
        ]
      ]

  pub authenticate-Keeps :
      (now : Time) (expire_minutes : ℕ) (username password : String)
      → Keeps {F = F} P (authenticate c now expire_minutes username password)
  unfolding authenticate get_by_username
  authenticate-Keeps now expire_minutes username password = search (keep_rules, grant-Keeps)

module _ {F B T : Type 0} (I : Type 0) (c : Crypto T) (rated : Rated B)
    (uuid_text : Uuid → String) where
  -- A step that may change users or keys.
  abbrev pub ConcernsAccounts : {db db1 : Database F} → Step I c rated uuid_text db db1 → Type 0
  ConcernsAccounts (start env salt db) = Unit
  ConcernsAccounts (new_user user salt payload db) = Unit
  ConcernsAccounts (new_key user entropy name db) = Unit
  ConcernsAccounts (key_revoked user id db) = Unit
  ConcernsAccounts _ = ⊥

  module _ (P : Database F → Type 0) (kept : DataWrites P)
      (touched : (id : Uuid) (now : Time) → Writes P (touch_key id now))
      (replaced : (s : Service F I) (id : Uuid) (bytes : Bytes) (path : Option String)
        → Keeps P (replace_face_image s id bytes path)) where
    pub Step-Keeps :
        {db db1 : Database F} (step : Step I c rated uuid_text db db1)
        → P db
        → (ConcernsAccounts step → P db1)
        → P db1
    Step-Keeps (start env salt db) h accounts = accounts tt
    Step-Keeps (new_user user salt payload db) h accounts = accounts tt
    Step-Keeps (new_key user entropy name db) h accounts = accounts tt
    Step-Keeps (key_revoked user id db) h accounts = accounts tt
    Step-Keeps (login now minutes name password db) h accounts =
        get_db-Keeps P _ (authenticate-Keeps P c now minutes name password) db h
    Step-Keeps (person_request user call db) h accounts = after_call-Keeps P kept user call db h
    Step-Keeps (registration s user id image db) h accounts =
        get_db-Keeps P _ (register_face-Keeps P kept s user id image) db h
    Step-Keeps (enrollment s user limited name image db) h accounts =
        get_db-Keeps P _ (enroll_by_name-Keeps P kept s user limited name image) db h
    Step-Keeps (replacement s user id image db) h accounts =
        get_db-Keeps P _ (replace_image-Keeps P kept s user (replaced s) id image) db h
    Step-Keeps (verification s user id image db) h accounts =
        get_db-Keeps P _ (verify_face-Keeps P kept s user id image) db h
    Step-Keeps (search_request s user image top_k db) h accounts =
        get_db-Keeps P _ (search_faces-Keeps P kept s user image top_k) db h
    Step-Keeps (face_deletion user id db) h accounts =
        get_db-Keeps P _ (delete_face-Keeps P kept user id) db h
    Step-Keeps (third_party s clock now key image buckets db) h accounts =
        get_db-Keeps P _
          (external_request-Keeps P kept touched c rated uuid_text s clock now key image buckets db)
          db h
    Step-Keeps (import_run s host id root db) h accounts = run-Keeps P kept s host id root db h
