-- ===== src/Access/Security.antt =====
-- app/core/security.py: passwords, access tokens and API keys. The libraries (passlib, jose,
-- hashlib, secrets, the UTF-8 codec) are the fields of `Crypto`.
use face_recognition.Prelude.{
  ℕ, zero, suc, ◌+◌, ◌*◌, ◌<◌, Bool, true, String, Option, none, some, take, ◌≡◌,
}
use face_recognition.Core.Role.{Role, role_value}
use face_recognition.Core.Errors.{Result, ok, raise, domain, authentication_error, AuthFault}
use face_recognition.Store.Rows.{Bytes, Time}

-- The claims of a token, as `jwt.decode` returns them.
pub record Claims : Type 0 where
  pub sub : Option String
  pub role : Option String
  -- in seconds
  pub exp : Time

-- `T` is the type of tokens, texts that only jose looks into.
pub record Crypto (T : Type 0) : Type 0 where
  -- `str.encode("utf-8")`
  pub encode : String → Bytes
  -- `CryptContext.hash` with the salt of the call, and `CryptContext.verify`
  pub bcrypt_hash : ℕ → Bytes → String
  pub bcrypt_verify : Bytes → String → Bool
  -- `jwt.encode` and `jwt.decode` with the secret and the algorithm of the settings; the
  -- second is given the time of the clock, and is `none` where it raises `JWTError`
  pub jwt_encode : Claims → T
  pub jwt_decode : Time → T → Option Claims
  -- the hexadecimal SHA-256
  pub sha256 : Bytes → String
  -- `secrets.token_urlsafe(32)`, at the entropy of the call
  pub token_urlsafe : ℕ → String
  -- `a + b`, and `s[:n]`, on texts
  pub concat : String → String → String
  pub prefix_of : ℕ → String → String

-- What the code relies on: a password verifies against its own hash, and a token decodes until it
-- expires.
pub record IsSoundCrypto {T : Type 0} (c : Crypto T) : Type 0 where
  pub verify-hash :
      (salt : ℕ) (secret : Bytes) → c.bcrypt_verify secret (c.bcrypt_hash salt secret) ≡ true
  pub decode-encode :
      (now : Time) (claims : Claims)
      → now < claims.exp
      → c.jwt_decode now (c.jwt_encode claims) ≡ some claims

-- `_BCRYPT_MAX_BYTES`
abbrev pub bcrypt_max_bytes : ℕ
bcrypt_max_bytes = 72

module _ {T : Type 0} (c : Crypto T) where
  abbrev pub truncate : String → Bytes
  truncate secret = take bcrypt_max_bytes (c.encode secret)

  unfoldable pub hash_password : ℕ → String → String
  hash_password salt plain = c.bcrypt_hash salt (truncate plain)

  unfoldable pub verify_password : String → String → Bool
  verify_password plain hashed = c.bcrypt_verify (truncate plain) hashed

  -- `expires_minutes or settings.ACCESS_TOKEN_EXPIRE_MINUTES`
  abbrev pub minutes : Option ℕ → ℕ → ℕ
  minutes none default = default
  minutes (some zero) default = default
  minutes (some (suc n)) default = suc n

  -- At the time and the setting `ACCESS_TOKEN_EXPIRE_MINUTES`.
  unfoldable pub create_access_token : Time → ℕ → String → Role → Option ℕ → T
  create_access_token now expire_minutes subject role expires_minutes = c.jwt_encode (record {
    sub = some subject;
    role = some (role_value role);
    exp = now + minutes expires_minutes expire_minutes * 60;
  })

  unfoldable pub decode_access_token : Time → T → Result Claims
  decode_access_token now token = elim (c.jwt_decode now token) [
    | none ↦ raise (domain (authentication_error AuthFault.bad_token))
    | some claims ↦ ok claims
  ]

  unfoldable pub hash_api_key : String → String
  hash_api_key raw = c.sha256 (c.encode raw)

  abbrev pub raw_api_key : ℕ → String
  raw_api_key entropy = c.concat "frk_" (c.token_urlsafe entropy)

  -- The raw key, its hash and the prefix to display.
  unfoldable pub generate_api_key : ℕ → String × String × String
  unfolding hash_api_key
  generate_api_key entropy =
      let raw = raw_api_key entropy in (raw, hash_api_key raw, c.prefix_of 12 raw)
