-- ===== src/Samples.antt =====
-- Concrete data for the tests: whole numbers in place of floats, images that are numbers, and a
-- small gallery.
use face_recognition.Prelude.{
  ℕ, ◌+◌, ◌≡◌, Bool, true, false, String, Option, none, some, List, [], ◌∷◌, length, if◌then◌else◌,
  nat_beq, ltb, arith,
}
use face_recognition.Prelude.Int.{ℤ, pos, pos_part, neg_part, ◌-ℤ◌, leb_ℤ}
use face_recognition.Prelude.Float.{whole}
use face_recognition.Core.Role.{Role}
use face_recognition.Core.Errors.{ok}
use face_recognition.Store.Rows.{Uuid, Bytes, Person, BoundingBox, Face, Database}
use face_recognition.Store.Persons.{active_of}
use face_recognition.Store.Search.{Pgvector, IsSound}
use face_recognition.Store.Ranking.{IsAntitone}
use face_recognition.Store.Mirror.{Mirrors}
use face_recognition.Vision.Types.{DetectedFace, FaceResult, OpenCv, Parts}
use face_recognition.Recognition.Types.{Service, Settings}
use face_recognition.Access.Guards.{TokenPayload, Rated}
use face_recognition.RateLimit.Limiter.{in_process}
use face_recognition.Access.Security.{Claims, Crypto, IsSoundCrypto}
use face_recognition.RateLimit.Window.{Buckets}
use text.Mathlib.Text.{◌==◌ as str_eq}
use text.Mathlib.TextEquality.{eq_iff}

parts-sub :
    (a b : ℤ)
    → pos_part (a -ℤ b) + (neg_part a + pos_part b) ≡ pos_part a + neg_part b + neg_part (a -ℤ b)
unfolding ◌-ℤ◌
parts-sub a b = ground arith

pub whole-IsAntitone : IsAntitone whole
whole-IsAntitone a d e p = ground (arith, parts-sub a d, parts-sub a e)

abbrev pub gap : List ℤ → List ℤ → ℤ
gap (a ∷ xs) (b ∷ ys) = if leb_ℤ a b then b -ℤ a else a -ℤ b
gap xs ys = pos 2

-- The distance of the first components, and an exhaustive scan.
abbrev pub vectors : Pgvector ℤ
vectors = record { distance = gap; scan = λ ef q rows. rows }

pub vectors-IsSound : IsSound vectors
vectors-IsSound = record { scan-All = λ P ef q rows h. h }

abbrev pub decode : Bytes → Option ℕ
decode [] = none
decode (b ∷ bs) = some b

-- An image is a number; every image is 100 by 100.
abbrev pub cv : OpenCv ℕ
cv = record {
  imdecode = decode;
  rows = λ i. 100;
  cols = λ i. 100;
  crop = λ i y1 y2 x1 x2. i;
  resize = λ i w h. i;
  imencode = λ i q. some (i ∷ []);
}

abbrev pub box : BoundingBox ℤ
box = record { x1 = pos 10; y1 = pos 10; x2 = pos 60; y2 = pos 60 }

abbrev pub face_at : DetectedFace ℤ
face_at = record { bbox = box; score = pos 1; landmarks = [] }

abbrev pub parts : Parts ℤ ℕ
parts = record {
  detect = λ i n. ok (face_at ∷ []);
  align = λ i landmarks. ok i;
  embed_batch = λ images. ok ((pos 7 ∷ []) ∷ []);
  min_face_size = pos 20;
}

abbrev pub result : FaceResult ℤ
result = record { detection = face_at; embedding = pos 7 ∷ [] }

abbrev pub settings : Settings ℤ
settings = record {
  recognition_threshold = pos 1;
  search_top_k = 5;
  hnsw_ef_search = 80;
  margin = pos 0;
}

abbrev pub service : Service ℤ ℕ
service = record {
  float = whole;
  cv = cv;
  parts = parts;
  vectors = vectors;
  settings = settings;
  actor = some "ann";
  client_ip = none;
  strip = λ s. s;
}

abbrev pub person : Uuid → String → Bool → Person
person id name active = record {
  id = id;
  external_id = none;
  full_name = name;
  meta = "{}";
  is_active = active;
  created_at = 0;
  updated_at = 0;
}

abbrev pub face : Uuid → Uuid → ℤ → Bool → Face ℤ
face id person_id x active = record {
  id = id;
  person_id = person_id;
  embedding = x ∷ [];
  det_score = pos 1;
  quality = none;
  image_path = none;
  bbox = none;
  thumbnail = none;
  is_active = active;
  created_at = 0;
}

-- Two persons, one of them switched off, and three faces.
abbrev pub gallery : Database ℤ
gallery = record {
  persons = person 1 "Ann" true ∷ person 2 "Bob" false ∷ [];
  faces = face 11 1 (pos 9) true ∷ face 12 1 (pos 7) true ∷ face 13 2 (pos 7) false ∷ [];
  logs = [];
  users = [];
  api_keys = [];
  next_id = 20;
  now = 5;
}

pub gallery-Mirrors : Mirrors gallery
unfolding active_of
gallery-Mirrors = ground arith

abbrev pub operator_user : TokenPayload
operator_user = record { sub = "op"; role = Role.operator }

abbrev pub hash_of : ℕ → Bytes → String
hash_of salt secret = if nat_beq (length secret) 8 then "long" else "short"

-- Tokens are their claims.
abbrev pub crypto : Crypto Claims
crypto = record {
  encode = λ s. if str_eq s "password" then 1 ∷ 1 ∷ 1 ∷ 1 ∷ 1 ∷ 1 ∷ 1 ∷ 1 ∷ [] else [];
  bcrypt_hash = hash_of;
  bcrypt_verify = λ secret h. str_eq (hash_of 0 secret) h;
  jwt_encode = λ claims. claims;
  jwt_decode = λ now claims. if ltb now claims.exp then some claims else none;
  sha256 = λ b. "hash";
  token_urlsafe = λ n. "abc";
  concat = λ a b. a;
  prefix_of = λ n s. s;
}

pub crypto-IsSoundCrypto : IsSoundCrypto crypto
crypto-IsSoundCrypto = record {
  verify-hash = λ salt secret. ground (arith, eq_iff (hash_of 0 secret) (hash_of 0 secret));
  decode-encode = λ now claims live. ground arith;
}

abbrev pub rated : Rated Buckets
rated = record { limiter = in_process; spec = "2/minute"; limit = pos 2; window = 60 }

abbrev pub uuid_text : Uuid → String
uuid_text id = "id"
