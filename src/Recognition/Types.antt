-- ===== src/Recognition/Types.antt =====
-- What app/services/recognition_service.py works with: the settings that it reads, the answers of
-- app/schemas/face.py and app/schemas/api_key.py, and the fields of the service.
use face_recognition.Prelude.{
  ℕ, zero, suc, Bool, true, false, String, Option, none, some, List, [], ◌∷◌,
}
use face_recognition.Prelude.Float.{Float}
use face_recognition.Core.Errors.{domain, entity_not_found, Entity}
use face_recognition.Store.Rows.{Uuid, Person, BoundingBox, RecognitionAction}
use face_recognition.Store.Session.{Action, pure, throw}
use face_recognition.Store.Faces.{LogEntry}
use face_recognition.Store.Search.{Pgvector}
use face_recognition.Vision.Types.{OpenCv, Parts}

-- The settings of app/core/config.py that the service reads.
pub record Settings (F : Type 0) : Type 0 where
  pub recognition_threshold : F
  pub search_top_k : ℕ
  pub hnsw_ef_search : ℕ
  -- the default `margin` of `make_face_thumbnail`, 0.3
  pub margin : F

pub record FaceRegisterResponse (F : Type 0) : Type 0 where
  pub face_id : Uuid
  pub person_id : Uuid
  pub embedding_generated : Bool
  pub confidence : F
  pub bbox : BoundingBox F

pub record VerifyResponse (F : Type 0) : Type 0 where
  pub matched : Bool
  pub similarity_score : F
  pub threshold : F
  pub person_id : Uuid
  pub matched_face_id : Option Uuid

pub record SearchMatch (F : Type 0) : Type 0 where
  pub person_id : Uuid
  pub face_id : Uuid
  pub full_name : String
  pub similarity_score : F

pub record SearchResponse (F : Type 0) : Type 0 where
  pub matches : List (SearchMatch F)
  pub threshold : F
  pub query_confidence : F

pub record ExternalSearchResponse (F : Type 0) : Type 0 where
  pub matched : Bool
  pub person_id : Option Uuid
  pub full_name : Option String
  pub similarity : Option F
  pub threshold : F

-- The fields of the service, and the libraries below it. `strip` is `str.strip`.
pub record Service (F I : Type 0) : Type 0 where
  pub float : Float F
  pub cv : OpenCv I
  pub parts : Parts F I
  pub vectors : Pgvector F
  pub settings : Settings F
  pub actor : Option String
  pub client_ip : Option String
  pub strip : String → String

abbrev pub is_some : {A : Type 0} → Option A → Bool
is_some none = false
is_some (some a) = true

abbrev pub map_option : {A B : Type 0} → (A → B) → Option A → Option B
map_option f none = none
map_option f (some a) = some (f a)

-- `a or b` at an optional number: `None` and 0 count as false.
abbrev pub or_default : Option ℕ → ℕ → ℕ
or_default none d = d
or_default (some zero) d = d
or_default (some (suc n)) d = suc n

abbrev pub head? : {A : Type 0} → List A → Option A
head? [] = none
head? (x ∷ xs) = some x

-- The person with the id, or `EntityNotFoundError`.
abbrev pub person_or_raise : {F : Type 0} → Uuid → Option Person → Action F Person
person_or_raise id none = throw (domain (entity_not_found Entity.person id))
person_or_raise id (some p) = pure p

module _ {F I : Type 0} (s : Service F I) where
  -- An entry of the audit log by this service.
  abbrev pub entry :
      RecognitionAction → Option Uuid → Option Uuid → Option F → Bool → Option String → LogEntry F
  entry action person_id matched_face_id similarity success message = record {
    action = action;
    person_id = person_id;
    matched_face_id = matched_face_id;
    similarity = similarity;
    success = success;
    user_id = s.actor;
    client_ip = s.client_ip;
    message = message;
  }
