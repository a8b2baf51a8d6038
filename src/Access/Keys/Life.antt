-- ===== src/Access/Keys/Life.antt =====
-- The life of an API key: created, presented any number of times, revoked.
use face_recognition.Prelude.{
  ℕ, ◌≡◌, refl, ap, ◌∙◌, inl, inr, false, not, ◌&&◌, String, Option, none, some, List, [], ◌∷◌,
  find, select, map, nat_beq, arith, if◌then◌else◌, Bool-cases,
}
use text.Mathlib.Text.{◌==◌ as str_eq}
use text.Mathlib.TextEquality.{eq_iff}
use face_recognition.Core.Errors.{
  domain, authentication_error, rate_limit_exceeded, AuthFault, ok, raise,
}
use face_recognition.Store.Rows.{Uuid, Time, ApiKey, Database}
use face_recognition.Store.Session.{open_session, get_db, run_session}
use face_recognition.Store.Persons.{any}
use face_recognition.Store.Accounts.{get_key, delete_key, remove_key}
use face_recognition.Access.Security.{Crypto, hash_api_key, raw_api_key}
use face_recognition.Access.Accounts.{ApiKeyCreated, create_key, revoke}
use face_recognition.Access.Guards.{Rated, get_api_key}
use face_recognition.Access.Keys.{
  guarded, created_key, with_key, create_key_lem, get_api_key_outcomes,
}
use face_recognition.Access.Keys.Table.{
  Stands, touched, find_fresh, sole-fresh, touched-Stands, find_removed, find_by_id,
}
use face_recognition.Core.Errors.{Result}

abbrev pub id_of : Result ApiKey → Result Uuid
id_of (ok k) = ok k.id
id_of (raise e) = raise e

module _ {B : Type 0} (rated : Rated B) (uuid_text : Uuid → String) where
  -- The limiter's own answers at these times to a key.
  abbrev pub admissions : Uuid → List (ℕ × Time) → B → List (Result Uuid) × B
  admissions id [] b = ([], b)
  admissions id ((clock, now) ∷ times) b =
      let (allowed, b1) = rated.limiter.allow clock (uuid_text id) rated.limit rated.window b in
      let (answers, b2) = admissions id times b1 in
      ((if allowed then ok id else raise (domain (rate_limit_exceeded rated.spec))) ∷ answers, b2)

module _ {F B T : Type 0} (c : Crypto T) (rated : Rated B) (uuid_text : Uuid → String) where
  -- Requests with a key, at times of the limiter's clock and of the day: the answers of the guard, and
  -- the limiter's state and the database afterwards.
  abbrev pub present :
      String → List (ℕ × Time) → B → Database F → List (Result Uuid) × B × Database F
  present key [] b d = ([], b, d)
  present key ((clock, now) ∷ times) b d =
      let (answer, d1) = get_db (guarded c rated uuid_text d clock now (some key) b) d in
      let b1 = (get_api_key c rated uuid_text clock now (some key) b (open_session d)).1 in
      let (answers, b2, d2) = present key times b1 d1 in (id_of answer ∷ answers, b2, d2)

  module _ (key : String) (named : str_eq key "" ≡ false) where
    present-admissions :
        (id : Uuid) (times : List (ℕ × Time)) (b : B) (d : Database F)
        → Stands (hash_api_key c key) id d.api_keys
        → ((present key times b d).0 ≡ (admissions rated uuid_text id times b).0)
          × ((present key times b d).1 ≡ (admissions rated uuid_text id times b).1)
          × Stands (hash_api_key c key) id (present key times b d).2.api_keys
    present-admissions id [] b d h = (refl, refl, h)
    present-admissions id ((clock, now) ∷ times) b d h =
        let (k, found, own) = h.found in
        let (after, answer) =
          (get_api_key_outcomes c rated uuid_text d clock now (some key) b).2 k named found in
        let limited = rated.limiter.allow clock (uuid_text id) rated.limit rated.window b in
        let next = rw own at after in
        elim (Bool-cases limited.0) [
          | inl allowed ↦
              let used = record d { api_keys = touched id now d.api_keys } in
              let ih =
                present-admissions id times limited.1 used
                  (touched-Stands (hash_api_key c key) id now d.api_keys h) in
              rw (rw (own, allowed) at answer, next, allowed) (ap (◌∷◌ (ok id)) ih.0, ih.1, ih.2)
          | inr refused ↦
              let ih = present-admissions id times limited.1 d h in
              rw (rw (own, refused) at answer, next, refused)
                (ap (◌∷◌ (raise (domain (rate_limit_exceeded rated.spec)))) ih.0, ih.1, ih.2)
        ]

    present_unknown :
        (times : List (ℕ × Time)) (b : B) (d : Database F)
        → find (λ l. str_eq l.key_hash (hash_api_key c key) && l.is_active) d.api_keys ≡ none
        → ((present key times b d).0
            ≡ map (λ t. raise (domain (authentication_error AuthFault.bad_key))) times)
          × ((present key times b d).1 ≡ b)
    present_unknown [] b d h = (refl, refl)
    present_unknown ((clock, now) ∷ times) b d h =
        let (answer, after) =
          (get_api_key_outcomes c rated uuid_text d clock now (some key) b).1 named h in
        let rest = present_unknown times b d h in
        rw (answer, after)
          (ap (◌∷◌ (raise (domain (authentication_error AuthFault.bad_key)))) rest.0, rest.1)

    revoke_lem :
        (id : Uuid) (d : Database F)
        → Stands (hash_api_key c key) id d.api_keys
        → get_db (revoke id) d
          ≡ (ok tt, record d { api_keys = select (λ k. not (nat_beq k.id id)) d.api_keys })
    unfolding revoke run_session get_key delete_key remove_key
    revoke_lem id d h =
        let (k, found, own) = h.found in
        let (l, there, same) = find_by_id (hash_api_key c key) id d.api_keys {k = k} found own in
        ground arith

module _ {F B T : Type 0} (c : Crypto T) (rated : Rated B) (uuid_text : Uuid → String)
    (db : Database F) (entropy : ℕ) (name : String) (created_by : Option String) where
  -- A non-empty key whose hash no stored key has is created. Presented from then on, any number of
  -- times, it is answered each time as the limiter answers for that key alone: admitted as that key, or
  -- refused as over the limit. It can then be revoked; presented any number of times after that,
  -- it is refused as unknown, and the limiter is not asked any more.
  pub api_key_lifecycle :
      any (λ k. str_eq k.key_hash (hash_api_key c (raw_api_key c entropy))) db.api_keys ≡ false
      → str_eq (raw_api_key c entropy) "" ≡ false
      → (times later : List (ℕ × Time)) (b : B)
      → (created : ApiKeyCreated) × (db1 : Database F) × (get_db
            (create_key c entropy name created_by)
            db
          ≡ (ok created, db1))
        × (let (answers, b2, db2) = present c rated uuid_text created.key times b db1 in
            (answers ≡ (admissions rated uuid_text created.entity.id times b).0)
            × (b2 ≡ (admissions rated uuid_text created.entity.id times b).1)
            × ((get_db (revoke created.entity.id) db2).0 ≡ ok tt)
            × (let after =
                  present c rated uuid_text created.key later b2
                    (get_db (revoke created.entity.id) db2).1 in
                (after.0 ≡ map (λ t. raise (domain (authentication_error AuthFault.bad_key))) later)
                × (after.1 ≡ b2)))
  api_key_lifecycle fresh named times later b =
      let own = created_key c rated uuid_text db entropy name created_by in
      let key = raw_api_key c entropy in
      let db1 = with_key c rated uuid_text db entropy name created_by in
      let stands : Stands (hash_api_key c key) own.id db1.api_keys = record {
        found = (
          own,
          find_fresh (hash_api_key c key) db.api_keys own fresh
              ∙ ground (arith, eq_iff (hash_api_key c key) (hash_api_key c key)),
          refl,
        );
        sole = sole-fresh (hash_api_key c key) own.id db.api_keys own fresh refl;
      } in
      let used = present-admissions c rated uuid_text key named own.id times b db1 stands in
      let (answers, b2, db2) = present c rated uuid_text key times b db1 in
      let revoked = revoke_lem c rated uuid_text key named own.id db2 used.2 in
      let gone = find_removed (hash_api_key c key) own.id db2.api_keys used.2.sole in
      (
        _,
        _,
        create_key_lem c rated uuid_text db entropy name created_by fresh,
        (
          used.0,
          used.1,
          ap (λ r. r.0) revoked,
          rw revoked (present_unknown c rated uuid_text key named later b2 _ gone),
        ),
      )
