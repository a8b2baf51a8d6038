-- ===== src/Vision/Tests.antt =====
-- Boxes and detections on whole numbers.
use face_recognition.Prelude.{
  ℕ, ◌≤◌, ◌<◌, ◌≡◌, refl, true, some, List, [], ◌∷◌, length, All, arith, select,
}
use face_recognition.Prelude.Dict.{lookup}
use face_recognition.Prelude.Int.{ℤ, pos, ◌-ℤ◌, ◌+ℤ◌, ◌*ℤ◌}
use face_recognition.Prelude.Float.{whole, whole-IsOrdered, div_ℤ}
use face_recognition.Core.Errors.{ok}
use face_recognition.Vision.Types.{DetectedFace}
use face_recognition.Vision.Thumbnail.{CropBox, crop_box, crop_box_inside}
use face_recognition.Vision.Centers.{
  CenterKey, anchor_centers, cached_centers, IsCoherent, cached_centers-anchor_centers,
}
use face_recognition.Vision.Nms.{Det, nms}
use face_recognition.Vision.Suppression.{IsSuppression, nms-IsSuppression}
use face_recognition.Vision.Detect.{letterbox, levels, level, level_plain, distance2bbox, detect}
use face_recognition.Vision.Detection.{detect_sound}
use face_recognition.Vision.Pipeline.{process_all, is_valid}
use face_recognition.Vision.Build.{parts_of}
use face_recognition.Vision.Batch.{embed_each, process_all-each}
use face_recognition.Core.Errors.{◌>>=◌}
use face_recognition.Samples.{cv, box}
use face_recognition.Vision.Sample.{net, linalg, warp, arcface}

abbrev crop : CropBox
crop = record { top = 10; bottom = 60; left = 10; right = 60 }

crop_box_inside_example : (10 < 60) × (60 ≤ 100) × (10 < 60) × (60 ≤ 100)
unfolding crop_box ◌-ℤ◌ ◌+ℤ◌ ◌*ℤ◌
crop_box_inside_example = crop_box_inside whole (pos 0) 100 100 box {c = crop} refl

abbrev det : ℕ → Det ℤ
det score = record { bbox = box; score = pos score; kps = [] }

abbrev dets : List (Det ℤ)
dets = det 3 ∷ det 8 ∷ det 5 ∷ []

nms-IsSuppression_example :
    (keep : List (Det ℤ)) × (nms whole (pos 0) dets ≡ some keep)
    × IsSuppression whole (pos 0) dets keep
nms-IsSuppression_example = nms-IsSuppression whole (pos 0) whole-IsOrdered dets

abbrev key : CenterKey
key = record { height = 2; width = 2; stride = 8 }

empty-IsCoherent : IsCoherent whole 2 []
unfolding lookup
empty-IsCoherent = record { computed = λ k v e. absurd (ground arith); small = omega arith }

cached_centers-anchor_centers_example :
    ((cached_centers whole 2 key []).0 ≡ anchor_centers whole 2 key)
    × IsCoherent whole 2 (cached_centers whole 2 key []).1
cached_centers-anchor_centers_example =
    cached_centers-anchor_centers whole 2 key [] empty-IsCoherent

abbrev candidate : Det ℤ
candidate = record {
  bbox = record { x1 = pos 0; y1 = pos 0; x2 = pos 8; y2 = pos 8 };
  score = pos 3;
  kps = let z : ℤ × ℤ = (pos 0, pos 0) in z ∷ z ∷ z ∷ z ∷ z ∷ [];
}

detect_sound_example :
    (faces : List (DetectedFace ℤ)) × (detect whole cv net 3 1 ≡ ok faces)
    × All (λ f. whole.le (pos 2) f.score ≡ true) faces
    × (1 ≤ 1 → length faces ≤ 1)
unfolding letterbox levels level level_plain distance2bbox anchor_centers div_ℤ ◌-ℤ◌ ◌+ℤ◌ ◌*ℤ◌
detect_sound_example =
    detect_sound whole cv net 3 1 (candidate ∷ []) whole-IsOrdered (omega arith) (omega arith) refl

process_all-each_example :
    process_all whole (parts_of whole linalg cv warp net arcface (pos 4)) 3 ≡ (
      (parts_of whole linalg cv warp net arcface (pos 4)).detect 3 0 >>= λ faces.
      embed_each whole
        (parts_of whole linalg cv warp net arcface (pos 4))
        3
        (select (is_valid whole (parts_of whole linalg cv warp net arcface (pos 4))) faces))
process_all-each_example =
    process_all-each whole linalg cv warp net arcface (pos 4) (λ i. pos i ∷ []) (λ images. refl) 3
