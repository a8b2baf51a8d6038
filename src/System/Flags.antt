-- ===== src/System/Flags.antt =====
-- The flags of the faces, over everything that changes the database.
use face_recognition.Prelude.{String}
use face_recognition.Store.Rows.{Uuid, Database}
use face_recognition.Store.Keeps.{get_db-Keeps}
use face_recognition.Store.Mirror.{Mirrors, data-Mirrors}
use face_recognition.Recognition.Flags.{replace_face_image-Mirrors}
use face_recognition.System.Kept.{ConcernsAccounts, Step-Keeps}
use face_recognition.Access.Security.{Crypto}
use face_recognition.Access.Guards.{Rated}
use face_recognition.Migrations.Flags.{HavePersons, seed_flags, seeded-Mirrors}
use face_recognition.System.{
  Step, start, login, new_user, new_key, key_revoked, person_request, registration, enrollment,
  replacement, verification, search_request, face_deletion, third_party, import_run, Reaches, stay,
  after,
}
use face_recognition.System.Accounts.{
  touch_key-Mirrors, create_user-Mirrors, create_key-Mirrors, revoke_key-Mirrors, bootstrap-Mirrors,
}

module _ {F B T : Type 0} (I : Type 0) (c : Crypto T) (rated : Rated B)
    (uuid_text : Uuid → String) where
  -- The steps on users and keys.
  accounts-Mirrors :
      {db db1 : Database F} (step : Step I c rated uuid_text db db1)
      → Mirrors db
      → ConcernsAccounts I c rated uuid_text step
      → Mirrors db1
  accounts-Mirrors (start env salt db) h u = bootstrap-Mirrors c env salt db h
  accounts-Mirrors (new_user user salt payload db) h u =
      get_db-Keeps Mirrors _ (create_user-Mirrors c user salt payload) db h
  accounts-Mirrors (new_key user entropy name db) h u =
      get_db-Keeps Mirrors _ (create_key-Mirrors c user entropy name) db h
  accounts-Mirrors (key_revoked user id db) h u =
      get_db-Keeps Mirrors _ (revoke_key-Mirrors c user id) db h
  accounts-Mirrors (login now minutes name password db) h u = absurd u
  accounts-Mirrors (person_request user call db) h u = absurd u
  accounts-Mirrors (registration s user id image db) h u = absurd u
  accounts-Mirrors (enrollment s user limited name image db) h u = absurd u
  accounts-Mirrors (replacement s user id image db) h u = absurd u
  accounts-Mirrors (verification s user id image db) h u = absurd u
  accounts-Mirrors (search_request s user image top_k db) h u = absurd u
  accounts-Mirrors (face_deletion user id db) h u = absurd u
  accounts-Mirrors (third_party s clock now key image buckets db) h u = absurd u
  accounts-Mirrors (import_run s host id root db) h u = absurd u

  Step-Mirrors : {db db1 : Database F} → Step I c rated uuid_text db db1 → Mirrors db → Mirrors db1
  Step-Mirrors step h =
      Step-Keeps I c rated uuid_text Mirrors data-Mirrors touch_key-Mirrors
        replace_face_image-Mirrors step h (accounts-Mirrors step h)

  Reaches-Mirrors :
      {db db1 : Database F} → Reaches I c rated uuid_text db db1 → Mirrors db → Mirrors db1
  Reaches-Mirrors (stay db) h = h
  Reaches-Mirrors (after steps step) h = Step-Mirrors step (Reaches-Mirrors steps h)

  -- Where every face has its person, which the foreign key sees to: after the migration that
  -- adds the flags, whatever follows of starts, logins, changes of users and keys, requests on persons
  -- and faces, third-party searches and imports, in any order, answered or refused, every face
  -- carries the flag of its person.
  pub migrated_reaches-Mirrors :
      (db db1 : Database F)
      → HavePersons db.persons db.faces
      → Reaches I c rated uuid_text (seed_flags db) db1
      → Mirrors db1
  migrated_reaches-Mirrors db db1 h steps = Reaches-Mirrors steps (seeded-Mirrors db h)
