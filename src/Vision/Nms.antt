-- ===== src/Vision/Nms.antt =====
-- app/recognition/detector/scrfd.py, `_nms`, on the rows of `dets` in place of their positions.
-- Each round takes the first row of `order` and leaves of the others those that do not overlap it
-- too much; the loop runs on fuel, and `none` says that it has run out.
use face_recognition.Prelude.{ℕ, zero, suc, Bool, Option, none, some, List, [], ◌∷◌, length, select}
use face_recognition.Prelude.Int.{pos}
use face_recognition.Prelude.Float.{Float, fmax, fmin}
use face_recognition.Prelude.Sort.{sort_by}
use face_recognition.Store.Rows.{BoundingBox}

-- A row of `dets` with the row of the landmarks that goes with it.
pub record Det (F : Type 0) : Type 0 where
  pub bbox : BoundingBox F
  pub score : F
  pub kps : List (F × F)

module _ {F : Type 0} (fl : Float F) where
  abbrev pub one : F
  one = fl.of_int (pos 1)

  -- `b - a + 1`
  abbrev pub span : F → F → F
  span a b = fl.add (fl.sub b a) one

  abbrev pub det_area : Det F → F
  det_area d = fl.mul (span d.bbox.x1 d.bbox.x2) (span d.bbox.y1 d.bbox.y2)

  abbrev pub intersection : Det F → Det F → F
  intersection i d =
      let xx1 = fmax fl i.bbox.x1 d.bbox.x1 in
      let yy1 = fmax fl i.bbox.y1 d.bbox.y1 in
      let xx2 = fmin fl i.bbox.x2 d.bbox.x2 in
      let yy2 = fmin fl i.bbox.y2 d.bbox.y2 in
      fl.mul (fmax fl (fl.of_int (pos 0)) (span xx1 xx2))
        (fmax fl (fl.of_int (pos 0)) (span yy1 yy2))

  -- The intersection over the union.
  unfoldable pub overlap : Det F → Det F → F
  overlap i d =
      fl.div (intersection i d) (fl.sub (fl.add (det_area i) (det_area d)) (intersection i d))

  -- `ovr <= thresh`
  abbrev pub is_apart : F → Det F → Det F → Bool
  is_apart thresh i d = fl.le (overlap i d) thresh

  abbrev pub keep_first : Det F → Option (List (Det F)) → Option (List (Det F))
  keep_first i none = none
  keep_first i (some keep) = some (i ∷ keep)

  unfoldable pub nms_loop : ℕ → F → List (Det F) → Option (List (Det F))
  nms_loop fuel thresh [] = some []
  nms_loop zero thresh (i ∷ rest) = none
  nms_loop (suc fuel) thresh (i ∷ rest) =
      keep_first i (nms_loop fuel thresh (select (is_apart thresh i) rest))

  -- `scores.argsort()[::-1]`; rows of the same score come in the order of `sort_by`.
  abbrev pub by_score : Det F → Det F → Bool
  by_score a b = fl.le b.score a.score

  unfoldable pub nms : F → List (Det F) → Option (List (Det F))
  nms thresh dets = let order = sort_by by_score dets in nms_loop (length order) thresh order
