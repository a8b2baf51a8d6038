-- ===== src/Store/Accounts.antt =====
-- app/repositories/user_repo.py and app/repositories/api_key_repo.py.
use face_recognition.Prelude.{
  ◌+◌, true, not, ◌&&◌, String, Option, none, some, List, [], ◌∷◌, ◌++◌, map, nat_beq, leb, select,
  find, if◌then◌else◌,
}
use text.Mathlib.Text.{◌==◌ as str_eq}
use face_recognition.Prelude.Sort.{sort_by}
use face_recognition.Core.Role.{Role}
use face_recognition.Core.Errors.{fault, integrity_error, Result, ok, raise}
use face_recognition.Store.Rows.{Uuid, Time, User, ApiKey, Database}
use face_recognition.Store.Persons.{any}
use face_recognition.Store.Session.{Action, query, flush}

module _ {F : Type 0} where
  unfoldable pub get_by_username : String → Action F (Option User)
  get_by_username name = query (λ db. find (λ u. str_eq u.username name) db.users)

  -- INSERT of a user; the name is unique.
  unfoldable pub insert_user : String → String → Role → Database F → Result (User × Database F)
  insert_user username hashed_password role db =
      let u : User = record {
        id = db.next_id;
        username = username;
        hashed_password = hashed_password;
        role = role;
        is_active = true;
      } in
      if any (λ v. str_eq v.username username) db.users
      then raise (fault integrity_error)
      else ok (u, record db { users = db.users ++ u ∷ []; next_id = db.next_id + 1 })

  unfoldable pub add_user : String → String → Role → Action F User
  add_user username hashed_password role = flush (insert_user username hashed_password role)

  unfoldable pub get_active_by_hash : String → Action F (Option ApiKey)
  get_active_by_hash h = query (λ db. find (λ k. str_eq k.key_hash h && k.is_active) db.api_keys)

  unfoldable pub list_keys : Action F (List ApiKey)
  list_keys = query (λ db. sort_by (λ k l. leb l.created_at k.created_at) db.api_keys)

  unfoldable pub get_key : Uuid → Action F (Option ApiKey)
  get_key id = query (λ db. find (λ k. nat_beq k.id id) db.api_keys)

  -- `touch`: UPDATE of the time of the last use.
  unfoldable pub touch_key : Uuid → Time → Database F → Result (Unit {0} × Database F)
  touch_key id now db = ok (
    tt,
    record db {
      api_keys =
          map (λ k. if nat_beq k.id id then record k { last_used_at = some now } else k)
            db.api_keys;
    },
  )

  unfoldable pub touch : Uuid → Time → Action F (Unit {0})
  touch id now = flush (touch_key id now)

  -- INSERT of a key; the hash is unique.
  unfoldable pub insert_key :
      String → String → String → Option String → Database F → Result (ApiKey × Database F)
  insert_key name key_hash prefix created_by db =
      let k : ApiKey = record {
        id = db.next_id;
        name = name;
        key_hash = key_hash;
        prefix = prefix;
        is_active = true;
        created_by = created_by;
        last_used_at = none;
        created_at = db.now;
      } in
      if any (λ l. str_eq l.key_hash key_hash) db.api_keys
      then raise (fault integrity_error)
      else ok (k, record db { api_keys = db.api_keys ++ k ∷ []; next_id = db.next_id + 1 })

  unfoldable pub add_key : String → String → String → Option String → Action F ApiKey
  add_key name key_hash prefix created_by = flush (insert_key name key_hash prefix created_by)

  unfoldable pub remove_key : Uuid → Database F → Result (Unit {0} × Database F)
  remove_key id db =
      ok (tt, record db { api_keys = select (λ k. not (nat_beq k.id id)) db.api_keys })

  unfoldable pub delete_key : ApiKey → Action F (Unit {0})
  delete_key k = flush (remove_key k.id)
