-- ===== src/Vision/Pipeline.antt =====
-- app/recognition/pipeline.py, `RecognitionPipeline`, from bytes to embedded faces, and
-- `ArcFaceEmbedder.embed` of app/recognition/arcface/arcface.py. The asynchronous methods run the
-- same code in a thread.
use face_recognition.Prelude.{
  ℕ, ◌+◌, Bool, none, some, List, [], ◌∷◌, length, get_elem?, select, if◌then◌else◌,
}
use face_recognition.Prelude.Float.{Float, fmin}
use face_recognition.Core.Errors.{
  domain, fault, index_error, no_face_detected, multiple_faces, low_quality_face, invalid_image,
  undecodable, Result, ok, raise, ◌>>=◌, ◌>>◌,
}
use face_recognition.Store.Rows.{Bytes}
use face_recognition.Vision.Types.{DetectedFace, FaceResult, width, height, OpenCv, Parts}

-- `array[i]`
abbrev pub row : {A : Type 0} → List A → ℕ → Result A
row xs i = elim (get_elem? xs i) [ none ↦ raise (fault index_error) | some x ↦ ok x ]

unfoldable pub decode_image : {I : Type 0} → OpenCv I → Bytes → Result I
decode_image cv bytes = elim (cv.imdecode bytes) [
  | none ↦ raise (domain (invalid_image undecodable))
  | some image ↦ ok image
]

module _ {F I : Type 0} (fl : Float F) (parts : Parts F I) where
  -- `min(face.width, face.height) < self.min_face_size`
  abbrev pub is_too_small : DetectedFace F → Bool
  is_too_small face = fl.lt (fmin fl (width fl face) (height fl face)) parts.min_face_size

  unfoldable pub check_quality : DetectedFace F → Result (Unit {0})
  check_quality face = if is_too_small face then raise (domain low_quality_face) else ok tt

  -- `ArcFaceEmbedder.embed`
  unfoldable pub embed : I → Result (List F)
  embed image = do rows ← parts.embed_batch (image ∷ []); row rows 0

  -- What `_process_single` and `_process_largest` do with their face.
  unfoldable pub embed_face : I → DetectedFace F → Result (FaceResult F)
  unfolding check_quality embed
  embed_face image face = do
    check_quality face
    aligned ← parts.align image face.landmarks
    embedding ← embed aligned
    ok (record { detection = face; embedding = embedding })

  -- Exactly one face.
  abbrev pub single : I → List (DetectedFace F) → Result (FaceResult F)
  single image [] = raise (domain no_face_detected)
  single image (face ∷ []) = embed_face image face
  single image (face ∷ other ∷ rest) =
      raise (domain (multiple_faces (length (face ∷ other ∷ rest))))

  unfoldable pub process_single : I → Result (FaceResult F)
  unfolding embed_face
  process_single image = do faces ← parts.detect image 0; single image faces

  abbrev pub largest : I → List (DetectedFace F) → Result (FaceResult F)
  largest image [] = raise (domain no_face_detected)
  largest image (face ∷ rest) = embed_face image face

  unfoldable pub process_largest : I → Result (FaceResult F)
  unfolding embed_face
  process_largest image = do faces ← parts.detect image 1; largest image faces

  abbrev pub align_all : I → List (DetectedFace F) → Result (List I)
  align_all image [] = ok []
  align_all image (f ∷ fs) = do
    aligned ← parts.align image f.landmarks
    rest ← align_all image fs
    ok (aligned ∷ rest)

  -- `[FaceResult(detection=f, embedding=embeddings[i]) for i, f in enumerate(valid)]`
  abbrev pub pair_up : List (List F) → ℕ → List (DetectedFace F) → Result (List (FaceResult F))
  pair_up embeddings i [] = ok []
  pair_up embeddings i (f ∷ fs) = do
    embedding ← row embeddings i
    rest ← pair_up embeddings (i + 1) fs
    ok (record { detection = f; embedding = embedding } ∷ rest)

  abbrev pub is_valid : DetectedFace F → Bool
  is_valid f = fl.le parts.min_face_size (fmin fl (width fl f) (height fl f))

  abbrev pub embed_valid : I → List (DetectedFace F) → Result (List (FaceResult F))
  embed_valid image [] = ok []
  embed_valid image (f ∷ fs) = do
    aligned ← align_all image (f ∷ fs)
    embeddings ← parts.embed_batch aligned
    pair_up embeddings 0 (f ∷ fs)

  unfoldable pub process_all : I → Result (List (FaceResult F))
  process_all image = do faces ← parts.detect image 0; embed_valid image (select is_valid faces)
