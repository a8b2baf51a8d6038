-- ===== src/Api/Faces.antt =====
-- app/api/v1/faces.py and app/api/v1/external.py: the guards on an upload, and the endpoints that
-- hand it to the recognition service.
use face_recognition.Prelude.{
  ℕ, ◌*◌, Bool, false, not, ◌&&◌, String, Option, none, some, length, ltb, if◌then◌else◌, nat_beq,
}
use text.Mathlib.Text.{◌==◌ as str_eq, starts_with}
use face_recognition.Core.Role.{Role}
use face_recognition.Core.Errors.{
  domain, invalid_image, empty_upload, too_large, unsupported_type, entity_not_found, Entity,
  Result, ok, raise,
}
use face_recognition.Store.Rows.{Uuid, Time, Bytes, Face, ApiKey}
use face_recognition.Store.Session.{Action, Session, throw, lift, ◌>>=◌, ◌>>◌}
use face_recognition.Store.Faces as Repo
use face_recognition.Access.Security.{Crypto}
use face_recognition.Access.Guards.{TokenPayload, require_role, text_of, Rated, get_api_key}
use face_recognition.Recognition.Types.{
  Service, FaceRegisterResponse, VerifyResponse, SearchResponse, ExternalSearchResponse,
}
use face_recognition.Recognition.Enroll as Enroll
use face_recognition.Recognition.Match as Match

-- `UploadFile`; `content` is what `read` gives.
pub record UploadFile : Type 0 where
  pub content_type : Option String
  pub filename : Option String
  pub content : Bytes

-- `_MAX_IMAGE_BYTES`
abbrev pub max_image_bytes : ℕ
max_image_bytes = 15 * 1024 * 1024

-- A content type that is given and is not an image's.
abbrev pub is_other_type : Option String → Bool
is_other_type none = false
is_other_type (some t) = not (str_eq t "") && not (starts_with t "image/")

abbrev pub is_empty : Bytes → Bool
is_empty bytes = nat_beq (length bytes) 0

unfoldable pub read_image : UploadFile → Result Bytes
read_image file =
    if is_other_type file.content_type
    then raise (domain (invalid_image (unsupported_type (text_of file.content_type))))
    else if is_empty file.content
    then raise (domain (invalid_image empty_upload))
    else if ltb max_image_bytes (length file.content)
    then raise (domain (invalid_image too_large))
    else ok file.content

module _ {F I : Type 0} (s : Service F I) (user : TokenPayload) where
  unfoldable pub register_face : Uuid → UploadFile → Action F (FaceRegisterResponse F)
  register_face person_id image = do
    lift (require_role Role.operator user)
    bytes ← lift (read_image image)
    Enroll.register s person_id bytes image.filename

  -- After the rate limit, of which `limited` is the answer.
  unfoldable pub enroll_by_name :
      Result (Unit {0}) → String → UploadFile → Action F (FaceRegisterResponse F)
  enroll_by_name limited person_name image = do
    lift (require_role Role.operator user)
    lift limited
    bytes ← lift (read_image image)
    Enroll.register_by_name s person_name bytes image.filename

  unfoldable pub replace_face_image : Uuid → UploadFile → Action F (FaceRegisterResponse F)
  replace_face_image face_id image = do
    lift (require_role Role.operator user)
    bytes ← lift (read_image image)
    Enroll.replace_face_image s face_id bytes image.filename

  unfoldable pub verify_face : Uuid → UploadFile → Action F (VerifyResponse F)
  verify_face person_id image = do
    lift (require_role Role.viewer user)
    bytes ← lift (read_image image)
    Match.verify s person_id bytes

  unfoldable pub search_faces : UploadFile → Option ℕ → Action F (SearchResponse F)
  search_faces image top_k = do
    lift (require_role Role.viewer user)
    bytes ← lift (read_image image)
    Match.search_gallery s bytes top_k

module _ {F : Type 0} (user : TokenPayload) where
  abbrev pub delete_found : Uuid → Option (Face F) → Action F (Unit {0})
  delete_found id none = throw (domain (entity_not_found Entity.face id))
  delete_found id (some face) = Repo.delete_face face

  unfoldable pub delete_face : Uuid → Action F (Unit {0})
  delete_face face_id = do
    lift (require_role Role.operator user)
    found ← Repo.get_face face_id
    delete_found face_id found

module _ {F I T : Type 0} (c : Crypto T) (s : Service F I) where
  -- `get_external_recognition_service`: the actor is the key's name.
  abbrev pub service_for : ApiKey → Service F I
  service_for key = record s { actor = some (c.concat "apikey:" key.name) }

  -- The upload's guards and the identification, for an admitted key.
  abbrev pub identify_upload : UploadFile → ApiKey → Action F (ExternalSearchResponse F)
  identify_upload image key = do
    bytes ← lift (read_image image)
    Match.identify_top1 (service_for key) bytes

module _ {F I B T : Type 0} (c : Crypto T) (rated : Rated B) (uuid_text : Uuid → String)
    (s : Service F I) where
  unfoldable pub external_search :
      ℕ
      → Time
      → Option String
      → UploadFile
      → B
      → Session F
      → (Result (ExternalSearchResponse F) × Session F) × B
  external_search clock now key image buckets t =
      let ((r, t1), buckets1) = get_api_key c rated uuid_text clock now key buckets t in
      elim r [
        | raise e ↦ ((raise e, t1), buckets1)
        | ok entity ↦ (identify_upload c s image entity t1, buckets1)
      ]
