-- ===== src/Api/Admin.antt =====
-- app/api/v1/auth.py and app/api/v1/api_keys.py: login, and the endpoints for admins only.
use face_recognition.Prelude.{ℕ, String, some, List}
use face_recognition.Core.Role.{Role}
use face_recognition.Store.Rows.{Uuid, Time, User, ApiKey}
use face_recognition.Store.Session.{Action, lift, ◌>>◌}
use face_recognition.Access.Security.{Crypto}
use face_recognition.Access.Accounts as Accounts
use face_recognition.Access.Accounts.{Token, UserCreate, ApiKeyCreated, authenticate, revoke}
use face_recognition.Access.Guards.{TokenPayload, require_role}

module _ {F T : Type 0} (c : Crypto T) where
  abbrev pub login : Time → ℕ → String → String → Action F (Token T)
  login now expire_minutes username password = authenticate c now expire_minutes username password

  unfoldable pub create_user : TokenPayload → ℕ → UserCreate → Action F User
  create_user user salt payload = do
    lift (require_role Role.admin user)
    Accounts.create_user c salt payload

  unfoldable pub create_key : TokenPayload → ℕ → String → Action F ApiKeyCreated
  create_key user entropy name = do
    lift (require_role Role.admin user)
    Accounts.create_key c entropy name (some user.sub)

module _ {F : Type 0} where
  unfoldable pub list_keys : TokenPayload → Action F (List ApiKey)
  list_keys user = do lift (require_role Role.admin user); Accounts.list_keys

  unfoldable pub revoke_key : TokenPayload → Uuid → Action F (Unit {0})
  revoke_key user key_id = do lift (require_role Role.admin user); revoke key_id
