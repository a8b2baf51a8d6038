-- ===== src/Access/Accounts.antt =====
-- app/services/auth_service.py and app/services/api_key_service.py. The time of the clock, the salt
-- and the entropy that a call draws are arguments.
use face_recognition.Prelude.{ℕ, ◌*◌, not, String, Option, none, some, List, if◌then◌else◌}
use face_recognition.Core.Role.{Role}
use face_recognition.Core.Errors.{
  domain, authentication_error, AuthFault, entity_conflict, entity_not_found, Entity,
}
use face_recognition.Store.Rows.{Uuid, Time, User, ApiKey}
use face_recognition.Store.Session.{Action, pure, throw, ◌>>=◌, ◌>>◌}
use face_recognition.Store.Accounts.{
  get_by_username, add_user, list_keys as list_all, get_key, add_key, delete_key,
}
use face_recognition.Access.Security.{
  Crypto, hash_password, verify_password, create_access_token, generate_api_key,
}

-- app/schemas/auth.py; `token_type` is always "bearer".
pub record Token (T : Type 0) : Type 0 where
  pub access_token : T
  pub expires_in : ℕ

pub record UserCreate : Type 0 where
  pub username : String
  pub password : String
  pub role : Role

-- The answer of a key's creation: the stored key, and the raw key, shown once.
pub record ApiKeyCreated : Type 0 where
  pub entity : ApiKey
  pub key : String

module _ {F T : Type 0} (c : Crypto T) where
  -- The checks on the user, and the token.
  abbrev pub grant : Time → ℕ → String → Option User → Action F (Token T)
  grant now expire_minutes password none =
      throw (domain (authentication_error AuthFault.bad_credentials))
  grant now expire_minutes password (some user) =
      if not (verify_password c password user.hashed_password)
      then throw (domain (authentication_error AuthFault.bad_credentials))
      else if not user.is_active
      then throw (domain (authentication_error AuthFault.disabled_user))
      else pure (record {
        access_token = create_access_token c now expire_minutes user.username user.role none;
        expires_in = expire_minutes * 60;
      })

  unfoldable pub authenticate : Time → ℕ → String → String → Action F (Token T)
  authenticate now expire_minutes username password = do
    user ← get_by_username username
    grant now expire_minutes password user

  -- Unless the user is there.
  abbrev pub unless_known : {A : Type 0} → Action F A → Action F A → Option User → Action F A
  unless_known known unknown none = unknown
  unless_known known unknown (some user) = known

  unfoldable pub create_user : ℕ → UserCreate → Action F User
  create_user salt payload = do
    found ← get_by_username payload.username
    unless_known (throw (domain (entity_conflict payload.username)))
        (add_user payload.username (hash_password c salt payload.password) payload.role) found

  unfoldable pub ensure_bootstrap_admin : ℕ → String → String → Action F (Unit {0})
  ensure_bootstrap_admin salt username password = do
    found ← get_by_username username
    unless_known (pure tt) (add_user username (hash_password c salt password) Role.admin >> pure tt)
        found

  unfoldable pub create_key : ℕ → String → Option String → Action F ApiKeyCreated
  create_key entropy name created_by = do
    let (raw, key_hash, prefix) = generate_api_key c entropy
    entity ← add_key name key_hash prefix created_by
    pure (record { entity = entity; key = raw })

module _ {F : Type 0} where
  abbrev pub list_keys : Action F (List ApiKey)
  list_keys = list_all

  abbrev pub delete_found : Uuid → Option ApiKey → Action F (Unit {0})
  delete_found id none = throw (domain (entity_not_found Entity.api_key id))
  delete_found id (some entity) = delete_key entity

  unfoldable pub revoke : Uuid → Action F (Unit {0})
  revoke key_id = do found ← get_key key_id; delete_found key_id found
