-- ===== src/System/Requests.antt =====
-- What the endpoints for faces and the third-party search keep.
use face_recognition.Prelude.{true, false, ℕ, inl, inr, String, Option, none, some, Bool-cases}
use face_recognition.Core.Errors.{Result, Result-cases}
use face_recognition.Store.Rows.{Uuid, Time, ApiKey, Face, Database}
use face_recognition.Store.Session.{Session}
use face_recognition.Store.Faces as Repo
use face_recognition.Store.Keeps.{Keeps, keep_rules}
use face_recognition.Store.Accounts.{touch, get_active_by_hash}
use face_recognition.Recognition.Types.{Service}
use face_recognition.Recognition.Kept.{
  register-Keeps, register_by_name-Keeps, verify-Keeps, search_gallery-Keeps, identify_top1-Keeps,
}
use face_recognition.Recognition.Enroll as Enroll
use face_recognition.Store.Data.{DataWrites}
use face_recognition.Store.Accounts.{touch_key}
use face_recognition.Store.Keeps.{Writes}
use face_recognition.Store.Rows.{Bytes}
use face_recognition.Access.Security.{Crypto}
use face_recognition.Access.Guards.{
  is_missing, TokenPayload, Rated, get_api_key, find_key, key_or_raise, admit,
}
use face_recognition.Api.Faces as Faces
use face_recognition.Api.Uploads.{external_request}

module _ {F I : Type 0} (P : Database F → Type 0) (kept : DataWrites P) (s : Service F I)
    (user : TokenPayload) where
  pub register_face-Keeps :
      (id : Uuid) (image : Faces.UploadFile) → Keeps P (Faces.register_face s user id image)
  unfolding Faces.register_face
  register_face-Keeps id image = search (keep_rules, register-Keeps P kept) depth 12

  pub enroll_by_name-Keeps :
      (limited : Result (Unit {0})) (name : String) (image : Faces.UploadFile)
      → Keeps P (Faces.enroll_by_name s user limited name image)
  unfolding Faces.enroll_by_name
  enroll_by_name-Keeps limited name image =
      search (keep_rules, register_by_name-Keeps P kept) depth 12

  pub replace_image-Keeps :
      ((id : Uuid) (bytes : Bytes) (path : Option String)
        → Keeps P (Enroll.replace_face_image s id bytes path))
      → (id : Uuid) (image : Faces.UploadFile) → Keeps P (Faces.replace_face_image s user id image)
  unfolding Faces.replace_face_image
  replace_image-Keeps replaced id image = search (keep_rules, replaced) depth 12

  pub verify_face-Keeps :
      (id : Uuid) (image : Faces.UploadFile) → Keeps P (Faces.verify_face s user id image)
  unfolding Faces.verify_face
  verify_face-Keeps id image = search (keep_rules, verify-Keeps P kept) depth 12

  pub search_faces-Keeps :
      (image : Faces.UploadFile) (top_k : Option ℕ)
      → Keeps P (Faces.search_faces s user image top_k)
  unfolding Faces.search_faces
  search_faces-Keeps image top_k = search (keep_rules, search_gallery-Keeps P kept) depth 12

module _ {F : Type 0} (P : Database F → Type 0) (kept : DataWrites P) (user : TokenPayload) where
  delete_found_face-Keeps :
      (id : Uuid) (found : Option (Face F)) → Keeps P (Faces.delete_found user id found)
  unfolding Repo.delete_face
  delete_found_face-Keeps id none = search keep_rules
  delete_found_face-Keeps id (some f) = search (keep_rules, kept.face_removed)

  pub delete_face-Keeps : (id : Uuid) → Keeps {F = F} P (Faces.delete_face user id)
  unfolding Faces.delete_face Repo.get_face
  delete_face-Keeps id = search (keep_rules, delete_found_face-Keeps) depth 12

module _ {F I B T : Type 0} (P : Database F → Type 0) (kept : DataWrites P)
    (touched : (id : Uuid) (now : Time) → Writes P (touch_key id now)) (c : Crypto T)
    (rated : Rated B) (uuid_text : Uuid → String) (s : Service F I) where
  key_or_raise-Keeps : (found : Option ApiKey) → Keeps {F = F} P (key_or_raise c rated found)
  key_or_raise-Keeps none = search keep_rules
  key_or_raise-Keeps (some k) = search keep_rules

  find_key-Keeps : (key : Option String) → Keeps {F = F} P (find_key c rated key)
  unfolding find_key get_active_by_hash
  find_key-Keeps key = elim (Bool-cases (is_missing key)) [
    | inl missing ↦ rw missing (search keep_rules)
    | inr given ↦ rw given (search (keep_rules, key_or_raise-Keeps))
  ]

  admit-Keeps :
      (now : Time) (k : ApiKey) (allowed : _) → Keeps {F = F} P (admit c rated now k allowed)
  unfolding touch
  admit-Keeps now k true = search (keep_rules, touched)
  admit-Keeps now k false = search keep_rules

  identify_upload-Keeps :
      (image : Faces.UploadFile) (k : ApiKey) → Keeps P (Faces.identify_upload c s image k)
  identify_upload-Keeps image k = search (keep_rules, identify_top1-Keeps P kept)

  module _ (clock : ℕ) (now : Time) (key : Option String) (image : Faces.UploadFile)
      (buckets : B) where
    get_api_key-Keeps :
        (t : Session F)
        → P t.database
        → P (get_api_key c rated uuid_text clock now key buckets t).0.1.database
    unfolding get_api_key
    get_api_key-Keeps t h =
        let h1 = (find_key-Keeps key).keep t h in
        elim (Result-cases (find_key c rated key t).0) [
          | inr (e, failed) ↦ rw (get_api_key, failed) h1
          | inl (k, found) ↦
              let allowed =
                (rated.limiter.allow clock (uuid_text k.id) rated.limit rated.window buckets).0 in
              rw (get_api_key, found)
                ((admit-Keeps now k allowed).keep (find_key c rated key t).1 h1)
        ]

    external_search-Keeps :
        (t : Session F)
        → P t.database
        → P (Faces.external_search c rated uuid_text s clock now key image buckets t).0.1.database
    unfolding Faces.external_search
    external_search-Keeps t h =
        let h1 = get_api_key-Keeps t h in
        let checked = get_api_key c rated uuid_text clock now key buckets t in
        elim (Result-cases checked.0.0) [
          | inr (e, failed) ↦ rw (Faces.external_search, failed) h1
          | inl (k, found) ↦
              rw (Faces.external_search, found)
                ((identify_upload-Keeps image k).keep checked.0.1 h1)
        ]

    pub external_request-Keeps :
        (db : Database F)
        → Keeps P (external_request c rated uuid_text s db clock now key image buckets)
    external_request-Keeps db = record { keep = external_search-Keeps }
