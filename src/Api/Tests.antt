-- ===== src/Api/Tests.antt =====
-- Requests to the endpoints on the sample gallery.
use mathlib.Core.List.{Perm}
use face_recognition.Prelude.Sort.{IsSorted}
use face_recognition.Prelude.Decimal.{print}
use face_recognition.Jobs.Defs.{new_job}
use face_recognition.Jobs.Memory.{create, get}
use face_recognition.Store.Persons.{count_persons}
use face_recognition.Store.Faces.{count_faces, count_logs, success_count}
use face_recognition.Api.Imports.{import_status, bulk_import, started_status}
use face_recognition.Api.Gallery.{FaceGalleryItem, GalleryPage, GalleryText, list_faces}
use face_recognition.Api.Pages.{walk, gallery_pages}
use face_recognition.Api.Analytics.{get_stats}
use face_recognition.Access.Guards.{TokenPayload, require_role}
use face_recognition.Prelude.{
  ℕ, List, map, leb, arith, ◌≤◌, ◌<◌, ◌≡◌, ◌≢◌, refl, true, false, not, String, none, some, [], ◌∷◌,
  length, find, select, nat_beq, All,
}
use text.Mathlib.Text.{◌==◌ as str_eq}
use face_recognition.Prelude.Int.{ℤ, pos}
use face_recognition.Prelude.Float.{whole, whole-IsOrdered}
use face_recognition.Core.Role.{Role, satisfies}
use face_recognition.Core.Errors.{
  Exn, domain, invalid_image, empty_upload, too_large, unsupported_type, entity_conflict,
  entity_not_found, authorization_error, Entity, ok, raise,
}
use face_recognition.Store.Rows.{Person, Database}
use face_recognition.Store.Session.{get_db, open_session, run_session}
use face_recognition.Store.Persons.{person_by_id, text_is}
use face_recognition.Store.Mirror.{Mirrors}
use face_recognition.Store.Search.{search_rows}
use face_recognition.RateLimit.Window.{allow}
use face_recognition.Prelude.Dict.{lookup, insert}
use face_recognition.Access.Security.{hash_api_key}
use face_recognition.Access.Keys.{created_key}
use face_recognition.Recognition.Types.{ExternalSearchResponse}
use face_recognition.Recognition.Match.{identify_top1}
use face_recognition.Api.Persons.{PersonCreate, create_person, delete_person}
use face_recognition.Api.Directory.{after_call, update_call, after_call-Mirrors}
use face_recognition.Api.Outcomes.{
  created_person, with_person, create_person_outcomes, delete_person_outcomes, switch_off,
  switched_off_not_found,
}
use face_recognition.Api.Faces.{UploadFile, max_image_bytes, is_other_type, read_image, service_for}
use face_recognition.Api.Uploads.{
  read_image_outcomes, external_request, touched, external_search-identify_top1,
}
use face_recognition.Access.Accounts.{UserCreate}
use face_recognition.Store.Persons.{external_id_taken, get_by_external_id}
use face_recognition.Core.Errors.{fault, integrity_error}
use face_recognition.Samples.{
  service, gallery, gallery-Mirrors, person, vectors, vectors-IsSound, whole-IsAntitone, crypto,
  rated, uuid_text, operator_user,
}

abbrev cat : PersonCreate
cat = record { full_name = "Cat"; external_id = some "c1"; metadata = "{}" }

known : person_by_id 1 gallery.persons ≡ some (person 1 "Ann" true)
unfolding person_by_id
known = refl

after_call-Mirrors_example : Mirrors (after_call operator_user (update_call 1 switch_off) gallery)
after_call-Mirrors_example =
    after_call-Mirrors operator_user (update_call 1 switch_off) gallery gallery-Mirrors

create_person_outcomes_example :
    let made = created_person gallery operator_user cat in
    let after = with_person gallery operator_user cat in
    (satisfies Role.operator Role.operator ≡ false
      → get_db (create_person operator_user cat) gallery
        ≡ (raise (domain (authorization_error Role.operator Role.operator)), gallery))
    × ((e : String) (p : Person)
        → satisfies Role.operator Role.operator ≡ true
        → cat.external_id ≡ some e
        → str_eq e "" ≡ false
        → find (λ q. text_is q.external_id e) gallery.persons ≡ some p
        → get_db (create_person operator_user cat) gallery
          ≡ (raise (domain (entity_conflict e)), gallery))
    × ((e : String)
        → satisfies Role.operator Role.operator ≡ true
        → cat.external_id ≡ some e
        → str_eq e "" ≡ true
        → external_id_taken (some e) gallery.next_id gallery.persons ≡ true
        → get_db (create_person operator_user cat) gallery
          ≡ (raise (fault integrity_error), gallery))
    × (satisfies Role.operator Role.operator ≡ true
        → cat.external_id ≡ none
        → get_db (create_person operator_user cat) gallery ≡ (ok made, after))
    × ((e : String)
        → satisfies Role.operator Role.operator ≡ true
        → cat.external_id ≡ some e
        → find (λ q. text_is q.external_id e) gallery.persons ≡ none
        → (get_db (create_person operator_user cat) gallery ≡ (ok made, after))
          × (get_db (get_by_external_id e) (get_db (create_person operator_user cat) gallery).1
              ≡ (ok (some made), after))
          × (str_eq e "" ≡ false
              → (again : PersonCreate) → again.external_id ≡ some e
              → get_db
                  (create_person operator_user again)
                  (get_db (create_person operator_user cat) gallery).1
                ≡ (raise (domain (entity_conflict e)), after)))
create_person_outcomes_example = create_person_outcomes gallery operator_user cat

delete_person_outcomes_example :
    ((p : Person)
      → person_by_id 1 gallery.persons ≡ some p
      → get_db (delete_person operator_user 1) gallery ≡ (
        ok tt,
        record gallery {
          persons = select (λ q. not (nat_beq q.id 1)) gallery.persons;
          faces = select (λ f. not (nat_beq f.person_id 1)) gallery.faces;
        },
      ))
    × (person_by_id 1 gallery.persons ≡ none
        → get_db (delete_person operator_user 1) gallery
          ≡ (raise (domain (entity_not_found Entity.person 1)), gallery))
unfolding satisfies
delete_person_outcomes_example = delete_person_outcomes gallery operator_user 1 refl

switched_off_not_found_example :
    All
      (λ r. r.person_id ≢ 1)
      (search_rows whole vectors 80
        (pos 7 ∷ [])
        5
        true
        (after_call operator_user (update_call 1 switch_off) gallery))
unfolding satisfies
switched_off_not_found_example =
    switched_off_not_found gallery operator_user 1 (person 1 "Ann" true) refl known refl
      gallery-Mirrors whole vectors whole-IsOrdered whole-IsAntitone vectors-IsSound 80 5
      (pos 7 ∷ [])

abbrev empty_file : UploadFile
empty_file = record { content_type = some "image/png"; filename = none; content = [] }

abbrev photo : UploadFile
photo = record { content_type = none; filename = some "a.png"; content = 3 ∷ [] }

read_image_outcomes_example :
    (is_other_type (some "image/png") ≡ true
      → read_image empty_file ≡ raise (domain (invalid_image (unsupported_type "image/png"))))
    × (is_other_type (some "image/png") ≡ false
        → (length empty_file.content ≡ 0
            → read_image empty_file ≡ raise (domain (invalid_image empty_upload)))
          × (1 ≤ 0 → 0 ≤ max_image_bytes → read_image empty_file ≡ ok [])
          × (max_image_bytes < 0
              → read_image empty_file ≡ raise (domain (invalid_image too_large))))
read_image_outcomes_example = read_image_outcomes empty_file

abbrev with_door : Database ℤ
with_door = record gallery {
  api_keys = created_key crypto rated uuid_text gallery 9 "door" none ∷ [];
}

external_search-identify_top1_example :
    let key = created_key crypto rated uuid_text gallery 9 "door" none in
    let own =
      get_db
        (identify_top1 (service_for crypto service key) (3 ∷ []))
        (touched crypto rated uuid_text service with_door 0 1 (some "frk_") photo [] key) in
    let answer =
      get_db
        (external_request crypto rated uuid_text service with_door 0 1 (some "frk_") photo [])
        with_door in
    (answer.0 ≡ own.0)
    × ((a : ExternalSearchResponse ℤ) → answer.0 ≡ ok a → answer.1 ≡ own.1)
    × ((e : Exn) → answer.0 ≡ raise e → answer.1 ≡ with_door)
unfolding read_image hash_api_key allow lookup
external_search-identify_top1_example =
    external_search-identify_top1 crypto rated uuid_text service with_door 0 1 (some "frk_") photo
      [] (created_key crypto rated uuid_text gallery 9 "door" none) (3 ∷ []) refl refl refl refl

abbrev new_user : UserCreate
new_user = record { username = "cat"; password = "password"; role = Role.admin }

abbrev texts : GalleryText ℤ
texts = record { norm = λ embedding. pos (length embedding); b64encode = λ bytes. "AA==" }

-- The three faces of the gallery, on two pages of two.
gallery_pages_example :
    (items : List (FaceGalleryItem ℤ)) × (walk whole texts operator_user 2 none gallery 2 0
      ≡ ok items)
    × Perm (map (λ i. i.id) items) (map (λ f. f.id) gallery.faces)
    × IsSorted (λ s t. leb t s) (map (λ i. i.created_at) items)
    × ((offset : ℕ)
        → (page : GalleryPage ℤ) × ((list_faces whole texts operator_user 2 offset none
              (open_session gallery)).0
            ≡ ok page)
          × (page.total_count ≡ print (length gallery.faces)))
gallery_pages_example =
    gallery_pages whole texts operator_user 2 2 none gallery gallery-Mirrors (omega arith)

-- An admin starts an import and polls it; an operator may not.
abbrev admin : TokenPayload
admin = record { sub = "root"; role = Role.admin }

polled : import_status admin 3 (bulk_import admin "/data" 3 []).1 ≡ ok (started_status (new_job 3))
unfolding import_status bulk_import create get insert lookup require_role satisfies
polled = refl

not_started : (bulk_import operator_user "/data" 3 []).1 ≡ []
unfolding bulk_import require_role satisfies
not_started = refl

stats :
    (get_stats whole operator_user (open_session gallery)).0
    ≡ ok (record {
      total_persons = 2;
      total_faces = 3;
      total_events = 0;
      successful_events = 0;
      match_rate = pos 0;
    })
unfolding get_stats run_session count_persons count_faces count_logs success_count require_role
    satisfies
stats = refl
