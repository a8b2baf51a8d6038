-- ===== src/Store/Rows.antt =====
-- The rows of app/models: persons, faces, audit log, users and API keys, and the database that
-- holds them. A UUID is a number that is only drawn and compared.
use face_recognition.Prelude.{ℕ, Bool, String, Option, List}
use face_recognition.Core.Role.{Role}

abbrev pub Uuid : Type 0
Uuid = ℕ

abbrev pub Time : Type 0
Time = ℕ

abbrev pub Bytes : Type 0
Bytes = List ℕ

-- app/models/person.py; `meta` is the text of the JSON value.
pub record Person : Type 0 where
  pub id : Uuid
  pub external_id : Option String
  pub full_name : String
  pub meta : String
  pub is_active : Bool
  pub created_at : Time
  pub updated_at : Time

-- app/schemas/common.py, `BoundingBox`.
pub record BoundingBox (F : Type 0) : Type 0 where
  pub x1 : F
  pub y1 : F
  pub x2 : F
  pub y2 : F

-- app/models/face.py
pub record Face (F : Type 0) : Type 0 where
  pub id : Uuid
  pub person_id : Uuid
  pub embedding : List F
  pub det_score : F
  pub quality : Option F
  pub image_path : Option String
  pub bbox : Option (BoundingBox F)
  pub thumbnail : Option Bytes
  pub is_active : Bool
  pub created_at : Time

pub data RecognitionAction : Type 0 where
  register verify search import_action : RecognitionAction

-- app/models/recognition_log.py
pub record RecognitionLog (F : Type 0) : Type 0 where
  pub id : Uuid
  pub action : RecognitionAction
  pub person_id : Option Uuid
  pub matched_face_id : Option Uuid
  pub similarity : Option F
  pub success : Bool
  pub user_id : Option String
  pub client_ip : Option String
  pub message : Option String
  pub created_at : Time

-- app/models/user.py
pub record User : Type 0 where
  pub id : Uuid
  pub username : String
  pub hashed_password : String
  pub role : Role
  pub is_active : Bool

-- app/models/api_key.py
pub record ApiKey : Type 0 where
  pub id : Uuid
  pub name : String
  pub key_hash : String
  pub prefix : String
  pub is_active : Bool
  pub created_by : Option String
  pub last_used_at : Option Time
  pub created_at : Time

-- The tables, each in the order of insertion; `next_id` is what `uuid4()` gives next, and `now` is
-- the time of the transaction.
pub record Database (F : Type 0) : Type 0 where
  pub persons : List Person
  pub faces : List (Face F)
  pub logs : List (RecognitionLog F)
  pub users : List User
  pub api_keys : List ApiKey
  pub next_id : Uuid
  pub now : Time
