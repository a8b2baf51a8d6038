-- ===== src/System/Tests.antt =====
-- Some steps from the sample data.
use face_recognition.Prelude.{ℕ, ◌≡◌, refl, none, some, [], ◌∷◌}
use face_recognition.Core.Role.{satisfies}
use face_recognition.Store.Rows.{Database}
use face_recognition.Store.Persons.{active_of}
use face_recognition.Store.Session.{get_db}
use face_recognition.Store.Mirror.{Mirrors}
use face_recognition.Prelude.Int.{ℤ}
use face_recognition.Api.Directory.{after_call, delete_call}
use face_recognition.Api.Faces.{register_face}
use face_recognition.Migrations.Flags.{seed_flags}
use face_recognition.Startup.{Environment, bootstrap}
use face_recognition.System.{
  stay, after, start, person_request, registration, key_revoked, third_party,
}
use face_recognition.System.Rights.{accounts, ordinary_reaches-accounts}
use face_recognition.Access.Accounts as Accounts
use face_recognition.Api.Admin.{revoke_key}
use face_recognition.Api.Faces.{UploadFile}
use face_recognition.Api.Uploads.{external_request}
use face_recognition.System.Flags.{migrated_reaches-Mirrors}
use face_recognition.Samples.{service, gallery, crypto, rated, uuid_text, operator_user}

abbrev environment : Environment
environment = record {
  skip_models = none;
  bootstrap_admin_user = some "root";
  bootstrap_admin_password = some "secret";
}

abbrev started : Database ℤ
started = (bootstrap crypto environment 5 (seed_flags gallery)).1

-- An image of one byte is uploaded for person 1 after a start; then person 2 is deleted.
abbrev registered : Database ℤ
registered =
    (get_db
      (register_face service operator_user 1
        (record { content_type = some "image/png"; filename = none; content = 3 ∷ [] }))
      started).1

migrated_reaches-Mirrors_example : Mirrors (after_call operator_user (delete_call 2) registered)
unfolding active_of
migrated_reaches-Mirrors_example =
    migrated_reaches-Mirrors ℕ crypto rated uuid_text gallery _
      ((_, refl), ((_, refl), ((_, refl), tt)))
      (after
        (after (after (stay (seed_flags gallery)) (start environment 5 (seed_flags gallery))) (
          registration service operator_user 1
            (record { content_type = some "image/png"; filename = none; content = 3 ∷ [] })
            started))
        (person_request operator_user (delete_call 2) registered))

abbrev unconfigured : Environment
unconfigured = record {
  skip_models = none;
  bootstrap_admin_user = some "root";
  bootstrap_admin_password = some "";
}

-- A database with a key, of id 20, that a service without a first admin is started on.
abbrev with_door : Database ℤ
with_door = (get_db (Accounts.create_key crypto 9 "door" none) gallery).1

abbrev opened : Database ℤ
opened = (bootstrap crypto unconfigured 5 with_door).1

-- An operator asks for the revocation of the key, which is then used in a search.
abbrev asked : Database ℤ
asked = (get_db (revoke_key operator_user 20) opened).1

abbrev photo : UploadFile
photo = record { content_type = some "image/png"; filename = none; content = 3 ∷ [] }

ordinary_reaches-accounts_example :
    accounts
      (get_db
        (external_request crypto rated uuid_text service asked 0 1 (some "frk_") photo [])
        asked).1
    ≡ accounts with_door
unfolding satisfies
ordinary_reaches-accounts_example =
    ordinary_reaches-accounts ℕ crypto rated uuid_text
      (after
        (after (after (stay with_door) (start unconfigured 5 with_door))
          (key_revoked operator_user 20 opened))
        (third_party service 0 1 (some "frk_") photo [] asked))
      (((tt, refl), refl), tt)
