-- ===== src/Vision/Build.antt =====
-- app/recognition/pipeline.py, `from_settings` and `warmup`: the pipeline of the detector, the aligner
-- and the embedder that the settings ask for. Loading a model is a parameter, which may raise.
use face_recognition.Prelude.{
  ℕ, Bool, true, false, not, nat_beq, String, List, [], ◌∷◌, map, select, if◌then◌else◌,
}
use face_recognition.Prelude.Codes.{codes, strip}
use face_recognition.Prelude.Int.{pos}
use face_recognition.Prelude.Float.{Float}
use face_recognition.Core.Errors.{Result, ok, raise, ◌>>=◌, ◌>>◌}
use face_recognition.Vision.Types.{OpenCv, Parts}
use face_recognition.Vision.Detect.{Scrfd, detect}
use face_recognition.Vision.Embedder.{Linalg, ArcFace, embed_batch}
use face_recognition.Vision.Aligner.{Warp, align, default_output_size}
use face_recognition.Vision.Pipeline.{embed}

abbrev begin_with : ℕ → List (List ℕ) → List (List ℕ)
begin_with c [] = (c ∷ []) ∷ []
begin_with c (part ∷ parts) = (c ∷ part) ∷ parts

abbrev is_nil : List ℕ → Bool
is_nil [] = true
is_nil (c ∷ cs) = false

-- `text.split(",")`, of the code points of a text.
abbrev pub split_commas : List ℕ → List (List ℕ)
split_commas [] = [] ∷ []
split_commas (c ∷ cs) =
    let rest = split_commas cs in if nat_beq c b',' then [] ∷ rest else begin_with c rest

-- `onnx_providers_list`: the parts of the setting between commas, stripped, without the empty ones.
unfoldable pub onnx_providers_list : List ℕ → List (List ℕ)
unfolding strip
onnx_providers_list text = select (λ p. not (is_nil p)) (map strip (split_commas text))

-- The settings of app/core/config.py that the pipeline reads.
pub record ModelSettings (F : Type 0) : Type 0 where
  pub detector_model_path : String
  pub arcface_model_path : String
  pub onnx_providers : String
  pub detection_threshold : F
  pub detection_nms_threshold : F
  pub detection_input_size : ℕ
  pub min_face_size : ℕ

-- The runtime: it loads the two models, with the thresholds and the side for the detector's.
pub record Runtime (F I Blob : Type 0) : Type 0 where
  pub load_detector : String → List (List ℕ) → F → F → ℕ → Result (Scrfd F I)
  pub load_embedder : String → List (List ℕ) → Result (ArcFace F I Blob)
  pub black : ℕ → ℕ → I

module _ {F I Blob : Type 0} (fl : Float F) (la : Linalg F) (cv : OpenCv I) (w : Warp F I) where
  -- The parts of a pipeline, `RecognitionPipeline(detector, aligner, embedder, min_face_size)`.
  abbrev pub parts_of : Scrfd F I → ArcFace F I Blob → F → Parts F I
  parts_of detector embedder min_face_size = record {
    detect = detect fl cv detector;
    align = align fl w default_output_size;
    embed_batch = embed_batch fl la embedder;
    min_face_size = min_face_size;
  }

module _ {F I Blob : Type 0} (fl : Float F) (la : Linalg F) (cv : OpenCv I) (w : Warp F I)
    (rt : Runtime F I Blob) where
  -- The preloading of libraries for a GPU, whose failure is only logged, changes nothing here.
  unfoldable pub from_settings : ModelSettings F → Result (Parts F I)
  from_settings s = do
    let providers = onnx_providers_list (codes s.onnx_providers)
    detector ←
        rt.load_detector s.detector_model_path providers s.detection_threshold
          s.detection_nms_threshold s.detection_input_size
    embedder ← rt.load_embedder s.arcface_model_path providers
    ok (parts_of fl la cv w detector embedder (fl.of_int (pos s.min_face_size)))

module _ {F I Blob : Type 0} (fl : Float F) (rt : Runtime F I Blob) where
  -- One detection and one embedding of black images.
  abbrev pub dry_run : Parts F I → ℕ → Result (Unit {0})
  dry_run parts input_size = do
    parts.detect (rt.black input_size input_size) 1
    embed fl parts (rt.black 112 112)
    ok tt

  -- What the dry run raises is only logged.
  unfoldable pub warmup : Parts F I → ℕ → Result (Unit {0})
  warmup parts input_size = elim (dry_run parts input_size) [ ok u ↦ ok tt | raise e ↦ ok tt ]
