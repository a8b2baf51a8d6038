-- ===== src/Access/Login.antt =====
-- Passwords, tokens and roles: from a user's creation over the login to the checks of a request.
use face_recognition.Prelude.{
  ℕ, ◌+◌, ◌*◌, ◌≤◌, ◌<◌, ◌≡◌, refl, ap, ◌∙◌, inl, inr, Bool, true, false, String, Option, none,
  some, List, [], ◌∷◌, ◌++◌, find, arith, leb→le, le→leb, Option-cases,
}
use text.Mathlib.Text.{◌==◌ as str_eq}
use text.Mathlib.TextEquality.{eq_iff}
use face_recognition.Core.Role.{Role, role_of, role_value, level, satisfies}
use face_recognition.Core.Errors.{
  domain, authentication_error, authorization_error, entity_conflict, AuthFault, Result, ok, raise,
}
use face_recognition.Store.Rows.{Time, User, Database}
use face_recognition.Store.Session.{get_db, run_session}
use face_recognition.Store.Persons.{any}
use face_recognition.Store.Accounts.{get_by_username, add_user, insert_user}
use face_recognition.Access.Security.{
  Claims, Crypto, IsSoundCrypto, create_access_token, decode_access_token, hash_password,
  verify_password,
}
use face_recognition.Access.Accounts.{Token, UserCreate, authenticate, create_user}
use face_recognition.Access.Guards.{TokenPayload, get_current_user, require_role}

-- `Role(role.value)` is the role.
role_of-role_value : (r : Role) → role_of (role_value r) ≡ some r
unfolding role_of role_value
role_of-role_value Role.admin = refl
role_of-role_value Role.operator = refl
role_of-role_value Role.viewer = refl

role_value-text : (r : Role) → str_eq (role_value r) "" ≡ false
unfolding role_value
role_value-text Role.admin = refl
role_value-text Role.operator = refl
role_value-text Role.viewer = refl

-- The check of a minimum role lets a user through, unchanged, exactly when the user's role is at
-- that level or above, and else answers with the error that names both roles.
pub require_role_iff :
    (minimum : Role) (user : TokenPayload)
    → ((level minimum ≤ level user.role) → require_role minimum user ≡ ok user)
      × ((level user.role < level minimum)
          → require_role minimum user ≡ raise (domain (authorization_error minimum user.role)))
unfolding require_role satisfies
require_role_iff minimum user = (
  (λ enough. rw (le→leb (level minimum) (level user.role) enough) refl),
  λ less. ground (arith, leb→le (level minimum) (level user.role)),
)

module _ {T : Type 0} (c : Crypto T) (sound : IsSoundCrypto c) where
  decode_access_token-jwt_encode :
      (now : Time) (claims : Claims)
      → now < claims.exp
      → decode_access_token c now (c.jwt_encode claims) ≡ ok claims
  unfolding decode_access_token
  decode_access_token-jwt_encode now claims live =
      ground (arith, sound.decode-encode now claims live)

  -- A token made for a non-empty subject and a role gives just these back until it expires, where
  -- tokens decode until they expire.
  pub get_current_user-create_access_token :
      (made now : Time) (expire_minutes : ℕ) (subject : String) (role : Role)
      → str_eq subject "" ≡ false
      → now < made + expire_minutes * 60
      → get_current_user c now (create_access_token c made expire_minutes subject role none)
        ≡ ok (record { sub = subject; role = role })
  unfolding get_current_user create_access_token
  get_current_user-create_access_token made now expire_minutes subject role named live =
      let claims : Claims = record {
        sub = some subject;
        role = some (role_value role);
        exp = made + expire_minutes * 60;
      } in
      ground (
        arith,
        decode_access_token-jwt_encode now claims live,
        role_of-role_value role,
        role_value-text role,
      )

module _ {F T : Type 0} (c : Crypto T) (db : Database F) where
  -- The answer of a login for the user found.
  abbrev pub IsLoginAnswer : Time → ℕ → String → Option User → Result (Token T) → Type 0
  IsLoginAnswer now expire_minutes password none answer =
      answer ≡ raise (domain (authentication_error AuthFault.bad_credentials))
  IsLoginAnswer now expire_minutes password (some user) answer =
      (verify_password c password user.hashed_password ≡ false
        → answer ≡ raise (domain (authentication_error AuthFault.bad_credentials)))
      × (verify_password c password user.hashed_password ≡ true
          → user.is_active ≡ false
          → answer ≡ raise (domain (authentication_error AuthFault.disabled_user)))
      × (verify_password c password user.hashed_password ≡ true
          → user.is_active ≡ true
          → answer
            ≡ ok (record {
              access_token = create_access_token c now expire_minutes user.username user.role none;
              expires_in = expire_minutes * 60;
            }))

  -- A login leaves the database as it is. It answers an unknown name and a wrong password with
  -- the same error, the right password of a disabled user with another one, and the right password
  -- of an active user with a token for that user's name and role.
  pub authenticate_outcomes :
      (now : Time) (expire_minutes : ℕ) (username password : String)
      → IsLoginAnswer now expire_minutes password
          (find (λ u. str_eq u.username username) db.users)
          (get_db (authenticate c now expire_minutes username password) db).0
        × ((get_db (authenticate c now expire_minutes username password) db).1 ≡ db)
  unfolding authenticate run_session get_by_username
  authenticate_outcomes now expire_minutes username password =
      elim (Option-cases (find (λ u. str_eq u.username username) db.users)) [
        | inl missing ↦ ground arith
        | inr (user, found) ↦ ground arith
      ]

pub any-find : {A : Type 0} (p : A → Bool) (xs : List A) → any p xs ≡ false → find p xs ≡ none
any-find p [] h = refl
any-find p (x ∷ xs) h = ground (arith, any-find p xs)

pub find-any : {A : Type 0} (p : A → Bool) (xs : List A) → find p xs ≡ none → any p xs ≡ false
find-any p [] h = refl
find-any p (x ∷ xs) h = ground (arith, find-any p xs)

pub find-last :
    {A : Type 0} (p : A → Bool) (xs : List A) (y : A)
    → find p xs ≡ none
    → p y ≡ true
    → find p (xs ++ y ∷ []) ≡ some y
find-last p [] y h k = ground arith
find-last p (x ∷ xs) y h k = ground (arith, find-last p xs y)

module _ {F T : Type 0} (c : Crypto T) (db : Database F) where
  authenticate_found :
      (now : Time) (expire_minutes : ℕ) (username password : String) (user : User)
      → find (λ u. str_eq u.username username) db.users ≡ some user
      → verify_password c password user.hashed_password ≡ true
      → user.is_active ≡ true
      → (get_db (authenticate c now expire_minutes username password) db).0
        ≡ ok (record {
          access_token = create_access_token c now expire_minutes user.username user.role none;
          expires_in = expire_minutes * 60;
        })
  unfolding authenticate run_session get_by_username
  authenticate_found now expire_minutes username password user found right active = ground arith

module _ {F T : Type 0} (c : Crypto T) (db : Database F) (salt : ℕ) (payload : UserCreate) where
  -- The row of the new user, and the database with it.
  abbrev pub created_user : User
  created_user = record {
    id = db.next_id;
    username = payload.username;
    hashed_password = hash_password c salt payload.password;
    role = payload.role;
    is_active = true;
  }

  abbrev pub with_user : Database F
  with_user = record db { users = db.users ++ created_user ∷ []; next_id = db.next_id + 1 }

  -- A new user's name is refused as a conflict exactly when a user has it, and nothing changes then;
  -- else the user is stored, active, with the hash of the password.
  pub create_user_outcomes :
      (any (λ u. str_eq u.username payload.username) db.users ≡ true
        → get_db (create_user c salt payload) db
          ≡ (raise (domain (entity_conflict payload.username)), db))
      × (any (λ u. str_eq u.username payload.username) db.users ≡ false
          → get_db (create_user c salt payload) db ≡ (ok created_user, with_user))
  unfolding create_user run_session get_by_username add_user insert_user
  create_user_outcomes = (
    (λ taken. elim (Option-cases (find (λ u. str_eq u.username payload.username) db.users)) [
      | inl free ↦
          absurd (cc (find-any (λ u. str_eq u.username payload.username) db.users free, taken))
      | inr (user, found) ↦ ground arith
    ]),
    λ free. ground (arith, any-find (λ u. str_eq u.username payload.username) db.users free),
  )

  -- Where passwords verify against their own hash and tokens decode until they expire: a user who
  -- was created under a free, non-empty name logs in with the password of the creation, and until
  -- it expires the token proves that name and the role that was given.
  pub create_user_login :
      IsSoundCrypto c
      → (now later : Time) (expire_minutes : ℕ)
      → any (λ u. str_eq u.username payload.username) db.users ≡ false
      → str_eq payload.username "" ≡ false
      → later < now + expire_minutes * 60
      → (token : Token T) × ((get_db
            (authenticate c now expire_minutes payload.username payload.password)
            (get_db (create_user c salt payload) db).1).0
          ≡ ok token)
        × (get_current_user c later token.access_token
            ≡ ok (record { sub = payload.username; role = payload.role }))
  unfolding verify_password hash_password
  create_user_login sound now later expire_minutes free named live =
      let e : (get_db (create_user c salt payload) db).1 ≡ with_user =
        ap (λ r. r.1) (create_user_outcomes.1 free) in
      (
        _,
        ap (λ d. (get_db (authenticate c now expire_minutes payload.username payload.password) d).0)
              e
            ∙ authenticate_found c with_user now expire_minutes payload.username payload.password
                created_user
                (find-last (λ u. str_eq u.username payload.username) db.users created_user
                  (any-find (λ u. str_eq u.username payload.username) db.users free)
                  (ground (arith, eq_iff payload.username payload.username)))
                (sound.verify-hash salt _) refl,
        get_current_user-create_access_token c sound now later expire_minutes payload.username
            payload.role named live,
      )
