-- ===== src/Vision/Types.antt =====
-- app/recognition/types.py, and the libraries that work on images. An image is a value of a type
-- that only OpenCV, the detector's network and the embedder's network look into.
use face_recognition.Prelude.{ℕ, Option, List}
use face_recognition.Prelude.Float.{Float}
use face_recognition.Core.Errors.{Result}
use face_recognition.Store.Rows.{Bytes, BoundingBox}

-- `score` is the detection score; the landmarks are the pairs of the (5, 2) array.
pub record DetectedFace (F : Type 0) : Type 0 where
  pub bbox : BoundingBox F
  pub score : F
  pub landmarks : List (F × F)

pub record FaceResult (F : Type 0) : Type 0 where
  pub detection : DetectedFace F
  pub embedding : List F

module _ {F : Type 0} (fl : Float F) where
  abbrev pub width : DetectedFace F → F
  width f = fl.sub f.bbox.x2 f.bbox.x1

  abbrev pub height : DetectedFace F → F
  height f = fl.sub f.bbox.y2 f.bbox.y1

  unfoldable pub area : DetectedFace F → F
  area f = fl.mul (width f) (height f)

-- OpenCV.
pub record OpenCv (I : Type 0) : Type 0 where
  -- `cv2.imdecode`
  pub imdecode : Bytes → Option I
  -- `shape[:2]`
  pub rows : I → ℕ
  pub cols : I → ℕ
  -- `image[y1:y2, x1:x2]`, at y1, y2, x1, x2
  pub crop : I → ℕ → ℕ → ℕ → ℕ → I
  -- `cv2.resize(image, (width, height))`
  pub resize : I → ℕ → ℕ → I
  -- `cv2.imencode(".jpg", image, [IMWRITE_JPEG_QUALITY, quality])`, `none` where it fails
  pub imencode : I → ℕ → Option Bytes

-- The three parts that a pipeline is built from; each may raise.
pub record Parts (F I : Type 0) : Type 0 where
  -- `BaseDetector.detect(image, max_num)`
  pub detect : I → ℕ → Result (List (DetectedFace F))
  -- `FaceAligner.align(image, landmarks)`
  pub align : I → List (F × F) → Result I
  -- `ArcFaceEmbedder.embed_batch(images)`, the rows of the array
  pub embed_batch : List I → Result (List (List F))
  pub min_face_size : F
