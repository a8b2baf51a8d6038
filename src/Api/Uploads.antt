-- ===== src/Api/Uploads.antt =====
-- What becomes of an upload: refused, or handed to the recognition service.
use face_recognition.Prelude.{
  ℕ, ◌≤◌, ◌<◌, ◌≡◌, true, false, ◌&&◌, String, Option, some, length, map, find, nat_beq,
  nat_beq_iff, arith, if◌then◌else◌,
}
use text.Mathlib.Text.{◌==◌ as str_eq}
use face_recognition.Core.Errors.{
  Exn, domain, invalid_image, empty_upload, too_large, unsupported_type, ok, raise,
}
use face_recognition.Store.Rows.{Uuid, Time, Bytes, ApiKey, Database}
use face_recognition.Store.Session.{Action, get_db, run_session}
use face_recognition.Store.Accounts.{get_active_by_hash, touch, touch_key}
use face_recognition.Access.Security.{Crypto, hash_api_key}
use face_recognition.Access.Guards.{is_missing, text_of, Rated, get_api_key, find_key}
use face_recognition.Recognition.Types.{Service, ExternalSearchResponse}
use face_recognition.Recognition.Match.{identify_top1}
use face_recognition.Api.Faces.{
  UploadFile, max_image_bytes, is_other_type, read_image, external_search, service_for,
}

-- An upload is accepted, as it is, exactly when its type is absent or an image's and it has from
-- 1 to 15 * 1024 * 1024 bytes; of the three refusals, the type's comes first.
pub read_image_outcomes :
    (file : UploadFile)
    → (is_other_type file.content_type ≡ true
        → read_image file
          ≡ raise (domain (invalid_image (unsupported_type (text_of file.content_type)))))
      × (is_other_type file.content_type ≡ false
          → (length file.content ≡ 0
              → read_image file ≡ raise (domain (invalid_image empty_upload)))
            × (1 ≤ length file.content
                → length file.content ≤ max_image_bytes
                → read_image file ≡ ok file.content)
            × (max_image_bytes < length file.content
                → read_image file ≡ raise (domain (invalid_image too_large))))
unfolding read_image
read_image_outcomes file = (
  (λ other. ground arith),
  λ image. (
    (λ none_there. ground (arith, nat_beq_iff (length file.content) 0)),
    (λ some_there fits. ground (arith, nat_beq_iff (length file.content) 0)),
    λ over. ground (arith, nat_beq_iff (length file.content) 0),
  ),
)

module _ {F I B T : Type 0} (c : Crypto T) (rated : Rated B) (uuid_text : Uuid → String)
    (s : Service F I) (db : Database F) (clock : ℕ) (now : Time) (key : Option String)
    (image : UploadFile) (buckets : B) where
  -- The request, and the database with the time of the key's last use.
  abbrev pub external_request : Action F (ExternalSearchResponse F)
  external_request t = (external_search c rated uuid_text s clock now key image buckets t).0

  abbrev pub touched : ApiKey → Database F
  touched k = record db {
    api_keys =
        map (λ l. if nat_beq l.id k.id then record l { last_used_at = some now } else l)
          db.api_keys;
  }

  -- For a key that is known and within its limit, the third-party endpoint answers an accepted
  -- upload as the identification under that key's name does, after the time of the key's last use
  -- is written. Where the identification fails, that time is rolled back with the rest.
  pub external_search-identify_top1 :
      (k : ApiKey) (bytes : Bytes)
      → is_missing key ≡ false
      → find (λ l. str_eq l.key_hash (hash_api_key c (text_of key)) && l.is_active) db.api_keys
        ≡ some k
      → (rated.limiter.allow clock (uuid_text k.id) rated.limit rated.window buckets).0 ≡ true
      → read_image image ≡ ok bytes
      → let own = get_db (identify_top1 (service_for c s k) bytes) (touched k) in
        let answer = get_db external_request db in
        (answer.0 ≡ own.0)
        × ((a : ExternalSearchResponse F) → answer.0 ≡ ok a → answer.1 ≡ own.1)
        × ((e : Exn) → answer.0 ≡ raise e → answer.1 ≡ db)
  unfolding external_search get_api_key find_key run_session get_active_by_hash touch touch_key
  external_search-identify_top1 k bytes given found allowed accepted =
      (ground arith, (λ a h. ground arith), λ e h. ground arith)
