-- ===== src/Vision/Thumbnail.antt =====
-- app/core/imaging.py, `make_face_thumbnail`.
use face_recognition.Prelude.{
  ℕ, ◌*◌, ◌≤◌, ◌<◌, ◌≡◌, ◌||◌, Option, none, some, max, nat_beq, if◌then◌else◌, arith,
}
use face_recognition.Prelude.Int.{ℤ, pos, pos_part, leb_ℤ}
use face_recognition.Prelude.Float.{Float}
use face_recognition.Store.Rows.{Bytes, BoundingBox}
use face_recognition.Vision.Types.{OpenCv}

-- `Y1`, `Y2`, `X1`, `X2`.
pub record CropBox : Type 0 where
  pub top : ℕ
  pub bottom : ℕ
  pub left : ℕ
  pub right : ℕ

-- `min(n, z)` of a size and an integer.
abbrev pub min_ℤ : ℕ → ℤ → ℤ
min_ℤ n z = if leb_ℤ (pos n) z then pos n else z

module _ {F : Type 0} (fl : Float F) where
  -- The box with its margin, cut to the image; `none` if nothing is left of it. `max(0, z)` is
  -- the positive part of `z`.
  unfoldable pub crop_box : F → ℕ → ℕ → BoundingBox F → Option CropBox
  crop_box margin h w box =
      let mx = fl.mul (fl.sub box.x2 box.x1) margin in
      let my = fl.mul (fl.sub box.y2 box.y1) margin in
      let x1 = pos_part (fl.trunc (fl.sub box.x1 mx)) in
      let y1 = pos_part (fl.trunc (fl.sub box.y1 my)) in
      let x2 = min_ℤ w (fl.trunc (fl.add box.x2 mx)) in
      let y2 = min_ℤ h (fl.trunc (fl.add box.y2 my)) in
      if leb_ℤ x2 (pos x1) || leb_ℤ y2 (pos y1)
      then none
      else some (record { top = y1; bottom = pos_part y2; left = x1; right = pos_part x2 })

  -- The crop lies in the image and holds at least one pixel, whatever the box is.
  pub crop_box_inside :
      (margin : F) (h w : ℕ) (box : BoundingBox F) {c : CropBox}
      → crop_box margin h w box ≡ some c
      → (c.top < c.bottom) × (c.bottom ≤ h) × (c.left < c.right) × (c.right ≤ w)
  unfolding crop_box
  crop_box_inside margin h w box e = ground arith

  module _ {I : Type 0} (cv : OpenCv I) where
    -- `int(side * scale)`, and at least one pixel.
    abbrev pub scaled : F → ℕ → ℕ
    scaled scale side = max 1 (pos_part (fl.trunc (fl.mul (fl.of_int (pos side)) scale)))

    abbrev pub shrink : ℕ → I → I
    shrink max_size crop =
        let ch = cv.rows crop in
        let cw = cv.cols crop in
        let scale = fl.div (fl.of_int (pos max_size)) (fl.of_int (pos (max ch cw))) in
        if fl.lt scale (fl.of_int (pos 1))
        then cv.resize crop (scaled scale cw) (scaled scale ch)
        else crop

    abbrev pub encode_crop : ℕ → ℕ → I → Option CropBox → Option Bytes
    encode_crop max_size quality image none = none
    encode_crop max_size quality image (some c) =
        let crop = cv.crop image c.top c.bottom c.left c.right in
        if nat_beq (cv.rows crop * cv.cols crop) 0
        then none
        else cv.imencode (shrink max_size crop) quality

    unfoldable pub make_face_thumbnail : ℕ → F → ℕ → I → BoundingBox F → Option Bytes
    unfolding crop_box
    make_face_thumbnail max_size margin quality image box =
        encode_crop max_size quality image (crop_box margin (cv.rows image) (cv.cols image) box)
