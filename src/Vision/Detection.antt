-- ===== src/Vision/Detection.antt =====
-- What detection returns.
use face_recognition.Prelude.{
  ℕ, ◌+◌, ◌*◌, ◌≤◌, ◌≡◌, refl, inl, inr, true, ◌&&◌, if◌then◌else◌, List, [], ◌∷◌, ◌++◌, map,
  length, length-map, length-take-le, ltb, All, nat_beq_iff, arith, Bool-cases,
}
use mathlib.Core.Path.{subst}
use face_recognition.Prelude.Float.{Float, IsOrdered}
use face_recognition.Prelude.Sort.{All-append, All-map, IsIn-All, take-All, sort_by-All}
use face_recognition.Core.Errors.{ok, Result-cases}
use face_recognition.Vision.Types.{DetectedFace, OpenCv}
use face_recognition.Vision.Pipeline.{row}
use face_recognition.Vision.Centers.{AnchorConfig}
use face_recognition.Vision.Nms.{Det}
use face_recognition.Vision.Suppression.{nms-IsSuppression}
use face_recognition.Vision.Detect.{
  Rows, Scrfd, of_ℕ, letterbox, level_plain, level_kps, decode, centers_of, level, levels, unscale,
  keep_top, detected, select_faces, detect,
}

module _ {F : Type 0} (fl : Float F) (threshold : F) where
  abbrev pub Reaches : Det F → Type 0
  Reaches d = fl.le threshold d.score ≡ true

  level_plain-All :
      (stride : ℕ) (scores : Rows F) (centers : List (F × F)) (distances : Rows F)
      {ds : List (Det F)}
      → level_plain fl threshold stride scores centers distances ≡ ok ds
      → All Reaches ds
  unfolding level_plain
  level_plain-All stride [] [] [] {ds} e = ground arith
  level_plain-All stride (s ∷ scores) (c ∷ centers) (d ∷ distances) {ds} e =
      elim (Result-cases (level_plain fl threshold stride scores centers distances)) [
        | inl (rest, r) ↦
            ground (arith, level_plain-All stride scores centers distances {ds = rest} r)
        | inr (x, r) ↦ absurd (ground arith)
      ]
  level_plain-All stride _ _ _ {ds} e = absurd (ground arith)

  level_kps-All :
      (stride : ℕ) (scores : Rows F) (centers : List (F × F)) (distances kps : Rows F)
      {ds : List (Det F)}
      → level_kps fl threshold stride scores centers distances kps ≡ ok ds
      → All Reaches ds
  unfolding level_kps
  level_kps-All stride [] [] [] [] {ds} e = ground arith
  level_kps-All stride (s ∷ scores) (c ∷ centers) (d ∷ distances) (k ∷ kps) {ds} e =
      elim (Result-cases (level_kps fl threshold stride scores centers distances kps)) [
        | inl (rest, r) ↦
            ground (arith, level_kps-All stride scores centers distances kps {ds = rest} r)
        | inr (x, r) ↦ absurd (ground arith)
      ]
  level_kps-All stride _ _ _ _ {ds} e = absurd (ground arith)

  decode-All :
      (cfg : AnchorConfig) (size : ℕ) (outs : List (Rows F)) (idx stride : ℕ)
      (scores distances : Rows F) {ds : List (Det F)}
      → decode fl cfg threshold size outs idx stride scores distances ≡ ok ds
      → All Reaches ds
  decode-All cfg size outs idx stride scores distances {ds} e = elim (Bool-cases cfg.use_kps) [
    | inl kps ↦ elim (Result-cases (row outs (idx + cfg.fmc * 2))) [
      | inl (k, r) ↦
          level_kps-All stride scores (centers_of fl cfg size stride) distances k (ground arith)
      | inr (x, r) ↦ absurd (ground arith)
    ]
    | inr plain ↦
        level_plain-All stride scores (centers_of fl cfg size stride) distances (ground arith)
  ]

  level-All :
      (cfg : AnchorConfig) (size : ℕ) (outs : List (Rows F)) (idx stride : ℕ) {ds : List (Det F)}
      → level fl cfg threshold size outs idx stride ≡ ok ds
      → All Reaches ds
  unfolding level
  level-All cfg size outs idx stride {ds} e = elim (Result-cases (row outs idx)) [
    | inl (scores, r) ↦ elim (Result-cases (row outs (idx + cfg.fmc))) [
      | inl (distances, r') ↦ decode-All cfg size outs idx stride scores distances (rw (r, r') at e)
      | inr (x, r') ↦ absurd (ground arith)
    ]
    | inr (x, r) ↦ absurd (ground arith)
  ]

  levels-All :
      (cfg : AnchorConfig) (size : ℕ) (outs : List (Rows F)) (idx : ℕ) (strides : List ℕ)
      {ds : List (Det F)}
      → levels fl cfg threshold size outs idx strides ≡ ok ds
      → All Reaches ds
  unfolding levels
  levels-All cfg size outs idx [] {ds} e = ground arith
  levels-All cfg size outs idx (stride ∷ strides) {ds} e =
      elim (Result-cases (level fl cfg threshold size outs idx stride)) [
        | inl (here, r) ↦
            elim (Result-cases (levels fl cfg threshold size outs (idx + 1) strides)) [
              | inl (rest, r') ↦
                  let same : here ++ rest ≡ ds = ground arith in
                  subst (All Reaches) same (
                    All-append Reaches here rest (level-All cfg size outs idx stride r)
                      (levels-All cfg size outs (idx + 1) strides r'))
              | inr (x, r') ↦ absurd (ground arith)
            ]
        | inr (x, r) ↦ absurd (ground arith)
      ]

  module _ (ordered : IsOrdered fl) where
    All-candidates :
        (scale : F) (ds : List (Det F)) → All Reaches ds → All Reaches (map (unscale fl scale) ds)
    All-candidates scale [] h = tt
    All-candidates scale (d ∷ ds) h = (h.0, All-candidates scale ds h.1)

    All-faces :
        (ds : List (Det F))
        → All Reaches ds
        → All (λ f. fl.le threshold f.score ≡ true) (map (detected fl) ds)
    All-faces [] h = tt
    All-faces (d ∷ ds) h = (h.0, All-faces ds h.1)

    chosen_lem :
        (im_h im_w max_num : ℕ) (det : List (Det F))
        → All Reaches det
        → let chosen =
            if ltb 0 max_num && ltb max_num (length det)
            then keep_top fl im_h im_w max_num det
            else det in
          All Reaches chosen × (1 ≤ max_num → length chosen ≤ max_num)
    unfolding keep_top
    chosen_lem im_h im_w max_num det h =
        elim (Bool-cases (ltb 0 max_num && ltb max_num (length det))) [
          | inl many ↦ rw many (
            take-All Reaches max_num _ (sort_by-All Reaches _ det h),
            λ some_asked. length-take-le max_num _,
          )
          | inr few ↦ rw few (h, λ some_asked. ground arith)
        ]

    select_faces_lem :
        (nms_threshold scale : F) (im_h im_w max_num : ℕ) (candidates : List (Det F))
        → All Reaches candidates
        → (faces : List (DetectedFace F)) × (select_faces fl nms_threshold scale im_h im_w max_num
              candidates
            ≡ ok faces)
          × All (λ f. fl.le threshold f.score ≡ true) faces
          × (1 ≤ max_num → length faces ≤ max_num)
    unfolding select_faces
    select_faces_lem nms_threshold scale im_h im_w max_num candidates h =
        let scaled = map (unscale fl scale) candidates in
        let (det, e, s) = nms-IsSuppression fl nms_threshold ordered scaled in
        let reach =
          All-map _ Reaches det
            (λ d here. IsIn-All Reaches scaled (All-candidates scale candidates h) here) s.kept in
        let chosen = chosen_lem im_h im_w max_num det reach in
        (
          _,
          rw (select_faces, e) refl,
          All-faces _ chosen.0,
          λ asked. omega (
            arith,
            chosen.1 asked,
            length-map
                (if ltb 0 max_num && ltb max_num (length det)
                  then keep_top fl im_h im_w max_num det
                  else det)
                (detected fl),
          ),
        )

module _ {F I : Type 0} (fl : Float F) (cv : OpenCv I) (net : Scrfd F I) (image : I) where
  -- The network's arrays for a letterbox.
  abbrev pub outs_for : ℕ × ℕ → List (Rows F)
  outs_for box = net.infer (net.pad net.input_size (cv.resize image box.0 box.1))

  -- Detection in an image whose letterbox is not empty, by a network whose arrays fit the levels,
  -- returns faces, all with a score that reaches the threshold, and at most as many as a positive
  -- `max_num` asks for. The floats must be ordered.
  pub detect_sound :
      (max_num : ℕ) (candidates : List (Det F))
      → IsOrdered fl
      → let box = letterbox fl (cv.rows image) (cv.cols image) net.input_size in
        1 ≤ box.0
        → 1 ≤ box.1
        → levels fl net.config net.det_threshold net.input_size (outs_for box) 0 (8 ∷ 16 ∷ 32 ∷ [])
          ≡ ok candidates
        → (faces : List (DetectedFace F)) × (detect fl cv net image max_num ≡ ok faces)
          × All (λ f. fl.le net.det_threshold f.score ≡ true) faces
          × (1 ≤ max_num → length faces ≤ max_num)
  unfolding detect
  detect_sound max_num candidates ordered wide high decoded =
      let box = letterbox fl (cv.rows image) (cv.cols image) net.input_size in
      let reach =
        levels-All fl net.det_threshold net.config net.input_size (outs_for box) 0
          (8 ∷ 16 ∷ 32 ∷ []) decoded in
      let (faces, e, h, k) =
        select_faces_lem fl net.det_threshold ordered net.nms_threshold
          (fl.div (of_ℕ fl box.1) (of_ℕ fl (cv.rows image))) (cv.rows image) (cv.cols image) max_num
          candidates reach in
      (faces, ground (arith, decoded, e, nat_beq_iff box.0 0, nat_beq_iff box.1 0), h, k)
