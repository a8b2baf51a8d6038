-- ===== src/Recognition/Enroll.antt =====
-- app/services/recognition_service.py: enrollment, for a known person, by name, and of a new image
-- for an enrolled face.
use face_recognition.Prelude.{true, String, Option, none, some}
use face_recognition.Core.Errors.{domain, entity_not_found, Entity}
use face_recognition.Store.Rows.{Uuid, Bytes, Person, BoundingBox, Face, RecognitionAction}
use face_recognition.Store.Session.{Action, pure, throw, lift, flush, ◌>>=◌, ◌>>◌}
use face_recognition.Store.Persons.{get_person, get_by_name, add_person}
use face_recognition.Store.Faces.{NewFace, get_face, add_face, write_face, record_log}
use face_recognition.Vision.Types.{FaceResult}
use face_recognition.Vision.Pipeline.{decode_image, process_single}
use face_recognition.Vision.Thumbnail.{make_face_thumbnail}
use face_recognition.Recognition.Types.{Service, FaceRegisterResponse, person_or_raise, entry}

module _ {F I : Type 0} (s : Service F I) where
  abbrev pub thumbnail : I → BoundingBox F → Option Bytes
  thumbnail image box = make_face_thumbnail s.float s.cv 220 s.settings.margin 85 image box

  abbrev pub response : Face F → FaceResult F → FaceRegisterResponse F
  response face result = record {
    face_id = face.id;
    person_id = face.person_id;
    embedding_generated = true;
    confidence = result.detection.score;
    bbox = result.detection.bbox;
  }

  -- The row of a new face.
  abbrev pub new_face : Uuid → I → FaceResult F → Option String → NewFace F
  new_face person_id image result image_path = record {
    person_id = person_id;
    embedding = result.embedding;
    det_score = result.detection.score;
    quality = some result.detection.score;
    image_path = image_path;
    bbox = some result.detection.bbox;
    thumbnail = thumbnail image result.detection.bbox;
  }

  unfoldable pub enroll : Person → Bytes → Option String → Action F (FaceRegisterResponse F)
  enroll person image_bytes image_path = do
    image ← lift (decode_image s.cv image_bytes)
    result ← lift (process_single s.float s.parts image)
    face ← add_face (new_face person.id image result image_path)
    record_log (entry s RecognitionAction.register (some person.id) (some face.id) none true none)
    pure (record (response face result) { person_id = person.id })

  unfoldable pub register : Uuid → Bytes → Option String → Action F (FaceRegisterResponse F)
  unfolding enroll
  register person_id image_bytes image_path = do
    found ← get_person person_id
    person ← person_or_raise person_id found
    enroll person image_bytes image_path

  -- Find or create.
  abbrev pub or_create : String → Option Person → Action F Person
  or_create full_name none = add_person none full_name "{}"
  or_create full_name (some p) = pure p

  unfoldable pub register_by_name :
      String → Bytes → Option String → Action F (FaceRegisterResponse F)
  unfolding enroll
  register_by_name full_name image_bytes image_path = do
    found ← get_by_name (s.strip full_name)
    person ← or_create (s.strip full_name) found
    enroll person image_bytes image_path

  abbrev pub face_or_raise : Uuid → Option (Face F) → Action F (Face F)
  face_or_raise id none = throw (domain (entity_not_found Entity.face id))
  face_or_raise id (some f) = pure f

  -- The fields that `replace_face_image` sets.
  abbrev pub with_image : Face F → I → FaceResult F → Option String → Face F
  with_image face image result image_path = record face {
    embedding = result.embedding;
    det_score = result.detection.score;
    quality = some result.detection.score;
    bbox = some result.detection.bbox;
    thumbnail = thumbnail image result.detection.bbox;
    image_path = elim image_path [ none ↦ face.image_path | some p ↦ some p ];
  }

  -- `replace_face_image`, from the face that it found.
  unfoldable pub replace_image_of :
      Face F → Bytes → Option String → Action F (FaceRegisterResponse F)
  replace_image_of face image_bytes image_path = do
    image ← lift (decode_image s.cv image_bytes)
    result ← lift (process_single s.float s.parts image)
    new ← flush (write_face (with_image face image result image_path))
    record_log (
        entry s RecognitionAction.register (some face.person_id) (some face.id) none true
          (some "image replaced"))
    pure (response new result)

  unfoldable pub replace_face_image :
      Uuid → Bytes → Option String → Action F (FaceRegisterResponse F)
  replace_face_image face_id image_bytes image_path = do
    found ← get_face face_id
    face ← face_or_raise face_id found
    replace_image_of face image_bytes image_path
