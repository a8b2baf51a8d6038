-- ===== src/Vision/Sample.antt =====
-- Small networks on whole numbers for the tests.
use face_recognition.Prelude.{ℕ, false, List, [], ◌∷◌, map}
use face_recognition.Prelude.Int.{ℤ, pos}
use face_recognition.Core.Errors.{ok}
use face_recognition.Vision.Detect.{Scrfd}
use face_recognition.Vision.Embedder.{Linalg, ArcFace}
use face_recognition.Vision.Aligner.{Warp}
use face_recognition.Vision.Build.{ModelSettings, Runtime}

-- A network on a square of side 8, with one anchor on the first level and none on the others.
abbrev pub net : Scrfd ℤ ℕ
net = record {
  det_threshold = pos 2;
  nms_threshold = pos 0;
  input_size = 8;
  config = record { fmc = 3; use_kps = false; num_anchors = 1 };
  pad = λ n i. i;
  infer = λ i.
      ((pos 3 ∷ []) ∷ []) ∷ [] ∷ [] ∷ ((pos 0 ∷ pos 0 ∷ pos 1 ∷ pos 1 ∷ []) ∷ []) ∷ [] ∷ [] ∷ [];
}

abbrev pub linalg : Linalg ℤ
linalg = record { norm = λ v. pos 1; dot = λ v w. pos 0; epsilon = pos 1 }

abbrev pub warp : Warp ℤ ℕ
warp = record { warp = λ i landmarks reference size. i }

-- An embedder of one number, the image.
abbrev pub arcface : ArcFace ℤ ℕ (List ℕ)
arcface = record { blob = λ side images. images; run = λ images. ok (map (λ i. pos i ∷ []) images) }

-- A runtime that has these models at hand.
abbrev pub runtime : Runtime ℤ ℕ (List ℕ)
runtime = record {
  load_detector = λ path providers threshold nms_threshold side. ok net;
  load_embedder = λ path providers. ok arcface;
  black = λ rows cols. 0;
}

abbrev pub model_settings : ModelSettings ℤ
model_settings = record {
  detector_model_path = "scrfd.onnx";
  arcface_model_path = "arcface.onnx";
  onnx_providers = "CUDAExecutionProvider, CPUExecutionProvider";
  detection_threshold = pos 2;
  detection_nms_threshold = pos 0;
  detection_input_size = 8;
  min_face_size = 4;
}
