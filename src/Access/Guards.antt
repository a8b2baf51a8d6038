-- ===== src/Access/Guards.antt =====
-- The guards of app/api/deps.py: the bearer token, the role, the API key with its rate limit, and
-- the rate limit of enrollment.
use face_recognition.Prelude.{
  ℕ, Bool, true, not, String, Option, none, some, if◌then◌else◌, string_eq,
}
use text.Mathlib.Text.{◌==◌ as str_eq}
use face_recognition.Prelude.Int.{ℤ}
use face_recognition.Core.Role.{Role, role_of, satisfies}
use face_recognition.Core.Errors.{
  domain, fault, value_error, authentication_error, authorization_error, rate_limit_exceeded,
  AuthFault, Result, ok, raise,
}
use face_recognition.RateLimit.Limiter.{KeyRateLimiter}
use face_recognition.Store.Rows.{Time, Uuid, ApiKey}
use face_recognition.Store.Session.{Action, Session, pure, throw, ◌>>=◌, ◌>>◌}
use face_recognition.Store.Accounts.{get_active_by_hash, touch}
use face_recognition.Access.Security.{Claims, Crypto, decode_access_token, hash_api_key}

-- app/schemas/auth.py
pub record TokenPayload : Type 0 where
  pub sub : String
  pub role : Role

-- `not text`, of a claim.
abbrev pub is_missing : Option String → Bool
is_missing none = true
is_missing (some s) = str_eq s ""

abbrev pub text_of : Option String → String
text_of none = ""
text_of (some s) = s

-- `TokenPayload(sub=sub, role=Role(role))`
abbrev pub payload_of : Claims → Result TokenPayload
payload_of claims =
    if is_missing claims.sub
    then raise (domain (authentication_error AuthFault.malformed_payload))
    else if is_missing claims.role
    then raise (domain (authentication_error AuthFault.malformed_payload))
    else elim (role_of (text_of claims.role)) [
      | none ↦ raise (fault value_error)
      | some role ↦ ok (record { sub = text_of claims.sub; role = role })
    ]

unfoldable pub get_current_user : {T : Type 0} → Crypto T → Time → T → Result TokenPayload
get_current_user c now token = elim (decode_access_token c now token) [
  | raise e ↦ raise e
  | ok claims ↦ payload_of claims
]

-- The checker that `require_role` makes.
unfoldable pub require_role : Role → TokenPayload → Result TokenPayload
require_role minimum user =
    if not (satisfies user.role minimum)
    then raise (domain (authorization_error minimum user.role))
    else ok user

-- A limiter, and the setting that it is used with.
pub record Rated (B : Type 0) : Type 0 where
  pub limiter : KeyRateLimiter B
  pub spec : String
  -- `parse_rate(spec)`, the window in nanoseconds
  pub limit : ℤ
  pub window : ℕ

module _ {F B T : Type 0} (c : Crypto T) (rated : Rated B) where
  abbrev pub key_or_raise : Option ApiKey → Action F ApiKey
  key_or_raise none = throw (domain (authentication_error AuthFault.bad_key))
  key_or_raise (some entity) = pure entity

  -- The key of the header, before the rate limit.
  unfoldable pub find_key : Option String → Action F ApiKey
  find_key key =
      if is_missing key
      then throw (domain (authentication_error AuthFault.missing_key))
      else do found ← get_active_by_hash (hash_api_key c (text_of key)); key_or_raise found

  -- What follows the limiter's answer.
  abbrev pub admit : Time → ApiKey → Bool → Action F ApiKey
  admit now entity allowed =
      if not allowed
      then throw (domain (rate_limit_exceeded rated.spec))
      else touch entity.id now >> pure entity

  -- The limiter's state is not the database's: no rollback undoes it. `uuid_text` is `str` of a
  -- UUID.
  unfoldable pub get_api_key :
      (Uuid → String) → ℕ → Time → Option String → B → Session F → (Result ApiKey × Session F) × B
  get_api_key uuid_text clock now key buckets s =
      let (found, s1) = find_key key s in
      elim found [
        | raise e ↦ ((raise e, s1), buckets)
        | ok entity ↦
            let (allowed, buckets1) =
              rated.limiter.allow clock (uuid_text entity.id) rated.limit rated.window buckets in
            (admit now entity allowed s1, buckets1)
      ]

module _ {B : Type 0} (rated : Rated B) where
  -- At the client's address.
  unfoldable pub enforce_enroll_rate_limit : ℕ → String → B → Result (Unit {0}) × B
  enforce_enroll_rate_limit clock address buckets =
      let (allowed, buckets1) =
        rated.limiter.allow clock address rated.limit rated.window buckets in
      if not allowed
      then (raise (domain (rate_limit_exceeded rated.spec)), buckets1)
      else (ok tt, buckets1)
