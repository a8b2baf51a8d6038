-- ===== src/Vision/Aligner.antt =====
-- app/recognition/aligner/aligner.py, `FaceAligner`. The estimate of the transform and the warp, by
-- scikit-image and OpenCV, are parameters.
use face_recognition.Prelude.{ℕ, List, [], ◌∷◌, map, length, not, nat_beq, if◌then◌else◌}
use face_recognition.Prelude.Int.{pos}
use face_recognition.Prelude.Float.{Float}
use face_recognition.Core.Errors.{fault, value_error, Result, ok, raise}

abbrev pub default_output_size : ℕ
default_output_size = 112

-- `warp` is the warp of an image, to a square of a side, by the transform that takes the landmarks to
-- the reference.
pub record Warp (F I : Type 0) : Type 0 where
  pub warp : I → List (F × F) → List (F × F) → ℕ → I

module _ {F : Type 0} (fl : Float F) where
  -- A literal with four decimals.
  abbrev pub decimal4 : ℕ → F
  decimal4 n = fl.div (fl.of_int (pos n)) (fl.of_int (pos 10000))

  -- `ARCFACE_REFERENCE_LANDMARKS`
  abbrev pub reference_landmarks : List (F × F)
  reference_landmarks =
      (decimal4 382946, decimal4 516963)
      ∷ (decimal4 735318, decimal4 515014)
      ∷ (decimal4 560252, decimal4 717366)
      ∷ (decimal4 415493, decimal4 923655)
      ∷ (decimal4 707299, decimal4 922041)
      ∷ []

  -- `self.reference`
  unfoldable pub reference : ℕ → List (F × F)
  reference output_size =
      let scale = fl.div (fl.of_int (pos output_size)) (fl.of_int (pos default_output_size)) in
      if nat_beq output_size default_output_size
      then reference_landmarks
      else map (λ p. (fl.mul p.0 scale, fl.mul p.1 scale)) reference_landmarks

  -- The landmarks are pairs; their number is checked.
  unfoldable pub align : {I : Type 0} → Warp F I → ℕ → I → List (F × F) → Result I
  unfolding reference
  align w output_size image landmarks =
      if not (nat_beq (length landmarks) 5)
      then raise (fault value_error)
      else ok (w.warp image landmarks (reference output_size) output_size)
