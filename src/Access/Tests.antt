-- ===== src/Access/Tests.antt =====
-- Logins, tokens and keys on the sample data.
use face_recognition.Prelude.{
  ◌≡◌, refl, true, false, ◌&&◌, none, some, [], ◌∷◌, find, map, nat_beq, if◌then◌else◌, arith,
}
use text.Mathlib.Text.{◌==◌ as str_eq}
use face_recognition.Prelude.Int.{ℤ}
use face_recognition.Core.Role.{Role}
use face_recognition.Core.Errors.{
  domain, authentication_error, rate_limit_exceeded, AuthFault, ok, raise,
}
use face_recognition.Store.Rows.{ApiKey, Database}
use face_recognition.Store.Session.{get_db, open_session}
use face_recognition.Access.Security.{Claims, create_access_token, hash_api_key}
use face_recognition.Access.Accounts.{
  Token, UserCreate, ApiKeyCreated, authenticate, create_user, create_key, revoke,
}
use face_recognition.Access.Guards.{get_current_user, get_api_key, is_missing, text_of}
use face_recognition.Access.Login.{
  get_current_user-create_access_token, IsLoginAnswer, authenticate_outcomes, create_user_login,
}
use face_recognition.Access.Keys.{guarded, created_key, get_api_key_outcomes}
use face_recognition.Access.Keys.Life.{present, admissions, api_key_lifecycle}
use face_recognition.Prelude.{ℕ, List}
use face_recognition.Prelude.Dict.{lookup, insert}
use face_recognition.RateLimit.Window.{allow}
use face_recognition.Store.Rows.{Time}
use face_recognition.Samples.{gallery, crypto, crypto-IsSoundCrypto, rated, uuid_text}

abbrev payload : UserCreate
payload = record { username = "cat"; password = "password"; role = Role.operator }

get_current_user-create_access_token_example :
    get_current_user crypto 30 (create_access_token crypto 0 1 "cat" Role.operator none)
    ≡ ok (record { sub = "cat"; role = Role.operator })
get_current_user-create_access_token_example =
    get_current_user-create_access_token crypto crypto-IsSoundCrypto 0 30 1 "cat" Role.operator refl
      (omega arith)

authenticate_outcomes_example :
    IsLoginAnswer crypto gallery 0 1 "password"
      (find (λ u. str_eq u.username "cat") gallery.users)
      (get_db (authenticate crypto 0 1 "cat" "password") gallery).0
    × ((get_db (authenticate crypto 0 1 "cat" "password") gallery).1 ≡ gallery)
authenticate_outcomes_example = authenticate_outcomes crypto gallery 0 1 "cat" "password"

create_user_login_example :
    (token : Token Claims) × ((get_db
        (authenticate crypto 3 1 "cat" "password")
        (get_db (create_user crypto 0 payload) gallery).1).0
      ≡ ok token)
    × (get_current_user crypto 50 token.access_token
        ≡ ok (record { sub = "cat"; role = Role.operator }))
create_user_login_example =
    create_user_login crypto gallery 0 payload crypto-IsSoundCrypto 3 50 1 refl refl (omega arith)

-- Three requests in the window of a limit of two, and one after the revocation.
abbrev before : List (ℕ × Time)
before = (0, 1) ∷ (1, 2) ∷ (2, 3) ∷ []

abbrev behind : List (ℕ × Time)
behind = (3, 4) ∷ []

api_key_lifecycle_example :
    (created : ApiKeyCreated) × (db1 : Database ℤ) × (get_db
        (create_key crypto 9 "door" (some "op"))
        gallery
      ≡ (ok created, db1))
    × (let (answers, b2, db2) = present crypto rated uuid_text created.key before [] db1 in
        (answers ≡ (admissions rated uuid_text created.entity.id before []).0)
        × (b2 ≡ (admissions rated uuid_text created.entity.id before []).1)
        × ((get_db (revoke created.entity.id) db2).0 ≡ ok tt)
        × (let after =
              present crypto rated uuid_text created.key behind b2
                (get_db (revoke created.entity.id) db2).1 in
            (after.0 ≡ map (λ t. raise (domain (authentication_error AuthFault.bad_key))) behind)
            × (after.1 ≡ b2)))
unfolding hash_api_key
api_key_lifecycle_example =
    api_key_lifecycle crypto rated uuid_text gallery 9 "door" (some "op") refl refl before behind []

-- The limiter's answers to them.
third_limited :
    (admissions rated uuid_text 20 before []).0
    ≡ ok 20 ∷ ok 20 ∷ raise (domain (rate_limit_exceeded "2/minute")) ∷ []
unfolding allow lookup insert
third_limited = refl

abbrev with_door : Database ℤ
with_door = record gallery {
  api_keys = created_key crypto rated uuid_text gallery 9 "door" none ∷ [];
}

get_api_key_outcomes_example :
    let answer = get_db (guarded crypto rated uuid_text with_door 0 1 (some "frk_") []) with_door in
    let after =
      (get_api_key crypto rated uuid_text 0 1 (some "frk_") [] (open_session with_door)).1 in
    (is_missing (some "frk_") ≡ true
      → (answer ≡ (raise (domain (authentication_error AuthFault.missing_key)), with_door))
        × (after ≡ []))
    × (is_missing (some "frk_") ≡ false
        → find
            (λ l. str_eq l.key_hash (hash_api_key crypto (text_of (some "frk_"))) && l.is_active)
            with_door.api_keys
          ≡ none
        → (answer ≡ (raise (domain (authentication_error AuthFault.bad_key)), with_door))
          × (after ≡ []))
    × ((k : ApiKey)
        → is_missing (some "frk_") ≡ false
        → find
            (λ l. str_eq l.key_hash (hash_api_key crypto (text_of (some "frk_"))) && l.is_active)
            with_door.api_keys
          ≡ some k
        → let limited = rated.limiter.allow 0 (uuid_text k.id) rated.limit rated.window [] in
          (after ≡ limited.1)
          × (answer ≡ (
              if limited.0
              then (
                ok k,
                record with_door {
                  api_keys =
                      map
                        (λ l. if nat_beq l.id k.id then record l { last_used_at = some 1 } else l)
                        with_door.api_keys;
                },
              )
              else (raise (domain (rate_limit_exceeded rated.spec)), with_door))))
get_api_key_outcomes_example =
    get_api_key_outcomes crypto rated uuid_text with_door 0 1 (some "frk_") []
