-- ===== src/Access/Keys.antt =====
-- The guard for API keys, and the creation of a key.
use face_recognition.Prelude.{
  ℕ, ◌+◌, ◌≡◌, refl, ap, ◌∙◌, All, inl, inr, true, false, not, ◌&&◌, String, Option, none, some,
  List, [], ◌∷◌, ◌++◌, find, select, map, nat_beq, nat_beq_iff, arith, if◌then◌else◌, Bool-cases,
}
use text.Mathlib.Text.{◌==◌ as str_eq}
use text.Mathlib.TextEquality.{eq_iff}
use mathlib.Core.Option.{some-injective}
use face_recognition.Core.Errors.{
  domain, authentication_error, rate_limit_exceeded, AuthFault, ok, raise,
}
use face_recognition.Store.Rows.{Uuid, Time, ApiKey, Database}
use face_recognition.Store.Session.{Action, open_session, get_db, run_session}
use face_recognition.Store.Persons.{any}
use face_recognition.Store.Accounts.{
  get_active_by_hash, add_key, insert_key, get_key, delete_key, remove_key, touch, touch_key,
}
use face_recognition.Access.Security.{Crypto, hash_api_key, generate_api_key, raw_api_key}
use face_recognition.Access.Accounts.{ApiKeyCreated, create_key, revoke}
use face_recognition.Access.Guards.{Rated, is_missing, text_of, get_api_key, find_key}
pub mod Table
pub mod Life

module _ {F B T : Type 0} (c : Crypto T) (rated : Rated B) (uuid_text : Uuid → String)
    (db : Database F) where
  -- The guard of a request, and the database after it.
  abbrev pub guarded : ℕ → Time → Option String → B → Action F ApiKey
  guarded clock now key buckets s = (get_api_key c rated uuid_text clock now key buckets s).0

  module _ (entropy : ℕ) (name : String) (created_by : Option String) where
    abbrev pub raw : String
    raw = raw_api_key c entropy

    abbrev pub created_key : ApiKey
    created_key = record {
      id = db.next_id;
      name = name;
      key_hash = hash_api_key c raw;
      prefix = c.prefix_of 12 raw;
      is_active = true;
      created_by = created_by;
      last_used_at = none;
      created_at = db.now;
    }

    abbrev pub with_key : Database F
    with_key = record db { api_keys = db.api_keys ++ created_key ∷ []; next_id = db.next_id + 1 }

    pub create_key_lem :
        any (λ k. str_eq k.key_hash (hash_api_key c raw)) db.api_keys ≡ false
        → get_db (create_key c entropy name created_by) db
          ≡ (ok (record { entity = created_key; key = raw }), with_key)
    unfolding create_key run_session add_key insert_key generate_api_key
    create_key_lem fresh = ground arith

  -- A request without a key and one with an unknown or revoked key are refused before the limiter is
  -- asked. With a known key the limiter's state moves on, whatever it answers, and only an
  -- admitted request writes to the database: the time of the key's last use.
  pub get_api_key_outcomes :
      (clock : ℕ) (now : Time) (key : Option String) (buckets : B)
      → let answer = get_db (guarded clock now key buckets) db in
        let after = (get_api_key c rated uuid_text clock now key buckets (open_session db)).1 in
        (is_missing key ≡ true
          → (answer ≡ (raise (domain (authentication_error AuthFault.missing_key)), db))
            × (after ≡ buckets))
        × (is_missing key ≡ false
            → find
                (λ l. str_eq l.key_hash (hash_api_key c (text_of key)) && l.is_active)
                db.api_keys
              ≡ none
            → (answer ≡ (raise (domain (authentication_error AuthFault.bad_key)), db))
              × (after ≡ buckets))
        × ((k : ApiKey)
            → is_missing key ≡ false
            → find
                (λ l. str_eq l.key_hash (hash_api_key c (text_of key)) && l.is_active)
                db.api_keys
              ≡ some k
            → let limited =
                rated.limiter.allow clock (uuid_text k.id) rated.limit rated.window buckets in
              (after ≡ limited.1)
              × (answer ≡ (
                  if limited.0
                  then (
                    ok k,
                    record db {
                      api_keys =
                          map
                            (λ l.
                              if nat_beq l.id k.id then record l { last_used_at = some now } else l)
                            db.api_keys;
                    },
                  )
                  else (raise (domain (rate_limit_exceeded rated.spec)), db))))
  unfolding get_api_key find_key run_session get_active_by_hash touch touch_key
  get_api_key_outcomes clock now key buckets = (
    (λ missing. (ground arith, ground arith)),
    (λ given unknown. (ground arith, ground arith)),
    λ k given found. (ground arith, ground arith),
  )
