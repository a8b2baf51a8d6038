-- ===== src/Api/Gallery.antt =====
-- app/api/v1/faces.py, `list_faces`: the gallery. numpy's norm and the text of a thumbnail's bytes in
-- base64 are parameters.
use Prim.Native.String.{◌++◌ as str_append}
use face_recognition.Prelude.{ℕ, String, Option, none, some, List, [], ◌∷◌, map, length}
use face_recognition.Prelude.Decimal.{print}
use face_recognition.Prelude.Float.{Float}
use face_recognition.Core.Role.{Role}
use face_recognition.Access.Guards.{TokenPayload, require_role}
use face_recognition.Store.Rows.{Uuid, Time, Bytes, Face}
use face_recognition.Store.Session.{Action, pure, lift, ◌>>=◌, ◌>>◌}
use face_recognition.Store.Faces.{count_faces, list_with_person}

pub record FaceGalleryItem (F : Type 0) : Type 0 where
  pub id : Uuid
  pub person_id : Uuid
  pub full_name : String
  pub det_score : F
  pub quality : Option F
  pub image_path : Option String
  pub created_at : Time
  pub thumbnail : Option String
  pub embedding : List F
  pub embedding_dim : ℕ
  pub embedding_norm : F

-- The answer: the header `X-Total-Count` and the body.
pub record GalleryPage (F : Type 0) : Type 0 where
  pub total_count : String
  pub items : List (FaceGalleryItem F)

pub record GalleryText (F : Type 0) : Type 0 where
  pub norm : List F → F
  pub b64encode : Bytes → String

module _ {F : Type 0} (fl : Float F) (texts : GalleryText F) where
  -- `if face.thumbnail`, which absent and empty bytes fail.
  abbrev pub data_uri : Option Bytes → Option String
  data_uri none = none
  data_uri (some []) = none
  data_uri (some (b ∷ bytes)) =
      some (str_append "data:image/jpeg;base64," (texts.b64encode (b ∷ bytes)))

  abbrev pub gallery_item : Face F × String → FaceGalleryItem F
  gallery_item (face, full_name) = record {
    id = face.id;
    person_id = face.person_id;
    full_name = full_name;
    det_score = face.det_score;
    quality = face.quality;
    image_path = face.image_path;
    created_at = face.created_at;
    thumbnail = data_uri face.thumbnail;
    embedding = face.embedding;
    embedding_dim = length face.embedding;
    embedding_norm = fl.round6 (texts.norm face.embedding);
  }

  unfoldable pub list_faces : TokenPayload → ℕ → ℕ → Option Uuid → Action F (GalleryPage F)
  list_faces user limit offset person_id = do
    lift (require_role Role.viewer user)
    count ← count_faces person_id
    rows ← list_with_person limit offset person_id
    pure (record { total_count = print count; items = map gallery_item rows })
