-- ===== src/System/Accounts.antt =====
-- A start and the endpoints for users and keys keep the flags of the faces.
use face_recognition.Prelude.{ℕ, ◌||◌, ◌≡◌, inl, inr, String, Option, none, some, arith, Bool-cases}
use face_recognition.Core.Errors.{Result, ok}
use face_recognition.Store.Rows.{Uuid, Time, User, ApiKey, Database}
use face_recognition.Store.Session.{Action}
use face_recognition.Store.Keeps.{Keeps, get_db-Keeps, keep_rules, Writes}
use face_recognition.Store.Accounts.{
  insert_user, add_user, insert_key, add_key, remove_key, delete_key, touch_key, get_by_username,
  get_key,
}
use face_recognition.Store.Mirror.{Mirrors, Mirrors-intro}
use face_recognition.Access.Security.{Crypto}
use face_recognition.Access.Accounts as Accounts
use face_recognition.Access.Accounts.{
  UserCreate, authenticate, grant, unless_known, ensure_bootstrap_admin, revoke, delete_found,
}
use face_recognition.Access.Guards.{is_missing, text_of, TokenPayload}
use face_recognition.Api.Admin.{create_user, create_key, revoke_key}
use face_recognition.Startup.{Environment, bootstrap, create_admin}

module _ {F : Type 0} where
  -- A statement that leaves the persons and the faces alone.
  aside-Mirrors :
      {A : Type 0} (w : Database F → Result (A × Database F))
      → ((db : Database F) (a : A) (db' : Database F)
          → w db ≡ ok (a, db')
          → (db'.persons ≡ db.persons) × (db'.faces ≡ db.faces))
      → Writes Mirrors w
  aside-Mirrors w aside db a db' h e =
      Mirrors-intro db' db.persons db.faces (aside db a db' e).0 (aside db a db' e).1 h

  insert_user-Mirrors :
      (name hash : String) (role : _) → Writes Mirrors (insert_user {F = F} name hash role)
  unfolding insert_user
  insert_user-Mirrors name hash role = aside-Mirrors _ (λ db a db' e. (ground arith, ground arith))

  insert_key-Mirrors :
      (name hash prefix : String) (by : Option String)
      → Writes Mirrors (insert_key {F = F} name hash prefix by)
  unfolding insert_key
  insert_key-Mirrors name hash prefix by =
      aside-Mirrors _ (λ db a db' e. (ground arith, ground arith))

  remove_key-Mirrors : (id : Uuid) → Writes Mirrors (remove_key {F = F} id)
  unfolding remove_key
  remove_key-Mirrors id = aside-Mirrors _ (λ db a db' e. (ground arith, ground arith))

  pub touch_key-Mirrors : (id : Uuid) (now : Time) → Writes Mirrors (touch_key {F = F} id now)
  unfolding touch_key
  touch_key-Mirrors id now = aside-Mirrors _ (λ db a db' e. (ground arith, ground arith))

  delete_found-Mirrors :
      (id : Uuid) (found : Option ApiKey) → Keeps {F = F} Mirrors (delete_found id found)
  unfolding delete_key
  delete_found-Mirrors id none = search keep_rules
  delete_found-Mirrors id (some k) = search (keep_rules, remove_key-Mirrors)

module _ {F T : Type 0} (c : Crypto T) where
  unless_known-Mirrors :
      {A : Type 0} (known unknown : Action F A) (found : Option User)
      → Keeps Mirrors known
      → Keeps Mirrors unknown
      → Keeps Mirrors (unless_known c known unknown found)
  unless_known-Mirrors known unknown none k u = u
  unless_known-Mirrors known unknown (some user) k u = k

  ensure_bootstrap_admin-Mirrors :
      (salt : ℕ) (username password : String)
      → Keeps {F = F} Mirrors (ensure_bootstrap_admin c salt username password)
  unfolding ensure_bootstrap_admin get_by_username add_user
  ensure_bootstrap_admin-Mirrors salt username password =
      search (keep_rules, unless_known-Mirrors, insert_user-Mirrors) depth 12

  pub create_user-Mirrors :
      (user : TokenPayload) (salt : ℕ) (payload : UserCreate)
      → Keeps {F = F} Mirrors (create_user c user salt payload)
  unfolding create_user Accounts.create_user get_by_username add_user
  create_user-Mirrors user salt payload =
      search (keep_rules, unless_known-Mirrors, insert_user-Mirrors) depth 12

  pub create_key-Mirrors :
      (user : TokenPayload) (entropy : ℕ) (name : String)
      → Keeps {F = F} Mirrors (create_key c user entropy name)
  unfolding create_key Accounts.create_key add_key
  create_key-Mirrors user entropy name = search (keep_rules, insert_key-Mirrors) depth 12

  pub revoke_key-Mirrors :
      (user : TokenPayload) (id : Uuid) → Keeps {F = F} Mirrors (revoke_key user id)
  unfolding revoke_key revoke get_key
  revoke_key-Mirrors user id = search (keep_rules, delete_found-Mirrors) depth 12

  pub bootstrap-Mirrors :
      (env : Environment) (salt : ℕ) (db : Database F)
      → Mirrors db
      → Mirrors (bootstrap c env salt db).1
  unfolding bootstrap create_admin
  bootstrap-Mirrors env salt db h =
      elim (Bool-cases
        (is_missing env.bootstrap_admin_user || is_missing env.bootstrap_admin_password)) [
          | inl missing ↦ rw missing h
          | inr set ↦ rw set (
              get_db-Keeps Mirrors _
                (ensure_bootstrap_admin-Mirrors salt (text_of env.bootstrap_admin_user)
                  (text_of env.bootstrap_admin_password))
                db h)
        ]
