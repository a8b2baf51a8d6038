-- ===== src/Vision/Detect.antt =====
-- app/recognition/detector/scrfd.py, `SCRFDetector.detect`: the letterbox, the decoding of the
-- network's outputs, the threshold, the suppression and the selection. `Vision.Centers` has the
-- cache of the centers. OpenCV, numpy's padding and the network are parameters.
use face_recognition.Prelude.{
  ℕ, ◌+◌, ◌*◌, ◌/◌, ◌&&◌, ◌||◌, none, some, List, [], ◌∷◌, ◌++◌, map, take, length, ltb, nat_beq,
  if◌then◌else◌,
}
use face_recognition.Prelude.Int.{pos, pos_part}
use face_recognition.Prelude.Float.{Float}
use face_recognition.Prelude.Sort.{sort_by}
use face_recognition.Core.Errors.{
  fault, index_error, value_error, library_error, runtime_error, Result, ok, raise, ◌>>=◌,
}
use face_recognition.Store.Rows.{BoundingBox}
use face_recognition.Vision.Types.{DetectedFace, OpenCv}
use face_recognition.Vision.Pipeline.{row}
use face_recognition.Vision.Centers.{AnchorConfig, anchor_centers}
use face_recognition.Vision.Nms.{Det, nms}

-- A two-dimensional array.
abbrev pub Rows : Type 0 → Type 0
Rows F = List (List F)

-- The network below the detector, and its thresholds. `infer` is the blob of the padded image and
-- the run of the session, `pad` the black square with the resized image in its corner.
pub record Scrfd (F I : Type 0) : Type 0 where
  pub det_threshold : F
  pub nms_threshold : F
  pub input_size : ℕ
  pub config : AnchorConfig
  pub pad : ℕ → I → I
  pub infer : I → List (Rows F)

module _ {F : Type 0} (fl : Float F) where
  abbrev pub of_ℕ : ℕ → F
  of_ℕ n = fl.of_int (pos n)

  -- `new_w` and `new_h`
  unfoldable pub letterbox : ℕ → ℕ → ℕ → ℕ × ℕ
  letterbox im_h im_w model =
      let im_ratio = fl.div (of_ℕ im_h) (of_ℕ im_w) in
      let model_ratio = fl.div (of_ℕ model) (of_ℕ model) in
      if fl.lt model_ratio im_ratio
      then (pos_part (fl.trunc (fl.div (of_ℕ model) im_ratio)), model)
      else (model, pos_part (fl.trunc (fl.mul (of_ℕ model) im_ratio)))

  -- `net_outs[i] * stride`, of a row
  abbrev pub scaled_row : ℕ → List F → List F
  scaled_row stride = map (λ x. fl.mul x (of_ℕ stride))

  -- A row of `_distance2bbox`.
  unfoldable pub distance2bbox : F × F → List F → Result (BoundingBox F)
  distance2bbox (cx, cy) distance = do
    l ← row distance 0
    t ← row distance 1
    r ← row distance 2
    b ← row distance 3
    ok (record { x1 = fl.sub cx l; y1 = fl.sub cy t; x2 = fl.add cx r; y2 = fl.add cy b })

  -- A row of `_distance2kps`, as pairs.
  unfoldable pub distance2kps : F × F → List F → Result (List (F × F))
  distance2kps c [] = ok []
  distance2kps c (dx ∷ []) = raise (fault index_error)
  distance2kps (cx, cy) (dx ∷ dy ∷ rest) = do
    points ← distance2kps (cx, cy) rest
    ok ((fl.add cx dx, fl.add cy dy) ∷ points)

  -- `np.zeros((5, 2))`
  abbrev pub no_kps : List (F × F)
  no_kps = let z : F × F = (of_ℕ 0, of_ℕ 0) in z ∷ z ∷ z ∷ z ∷ z ∷ []

  -- The candidates of a level whose score reaches the threshold, without landmarks and with them.
  -- The arrays have a row for each anchor; others raise.
  unfoldable pub level_plain : F → ℕ → Rows F → List (F × F) → Rows F → Result (List (Det F))
  unfolding distance2bbox
  level_plain threshold stride [] [] [] = ok []
  level_plain threshold stride (s ∷ scores) (c ∷ centers) (d ∷ distances) = do
    score ← row s 0
    bbox ← distance2bbox c (scaled_row stride d)
    rest ← level_plain threshold stride scores centers distances
    ok (
        if fl.le threshold score
        then record { bbox = bbox; score = score; kps = no_kps } ∷ rest
        else rest)
  level_plain threshold stride scores centers distances = raise (fault value_error)

  unfoldable pub level_kps : F → ℕ → Rows F → List (F × F) → Rows F → Rows F → Result (List (Det F))
  unfolding distance2bbox distance2kps
  level_kps threshold stride [] [] [] [] = ok []
  level_kps threshold stride (s ∷ scores) (c ∷ centers) (d ∷ distances) (k ∷ kps) = do
    score ← row s 0
    bbox ← distance2bbox c (scaled_row stride d)
    points ← distance2kps c (scaled_row stride k)
    rest ← level_kps threshold stride scores centers distances kps
    ok (
        if fl.le threshold score
        then record { bbox = bbox; score = score; kps = points } ∷ rest
        else rest)
  level_kps threshold stride scores centers distances kps = raise (fault value_error)

  -- The centers of a level.
  abbrev pub centers_of : AnchorConfig → ℕ → ℕ → List (F × F)
  centers_of cfg size stride =
      anchor_centers fl cfg.num_anchors
        (record { height = size / stride; width = size / stride; stride = stride })

  -- The decoding of a level's two or three arrays.
  abbrev pub decode :
      AnchorConfig → F → ℕ → List (Rows F) → ℕ → ℕ → Rows F → Rows F → Result (List (Det F))
  decode cfg threshold size outs idx stride scores distances =
      if cfg.use_kps
      then (row outs (idx + cfg.fmc * 2)
          >>= level_kps threshold stride scores (centers_of cfg size stride) distances)
      else level_plain threshold stride scores (centers_of cfg size stride) distances

  -- The body of the loop over `enumerate(feat_stride_fpn)`.
  unfoldable pub level : AnchorConfig → F → ℕ → List (Rows F) → ℕ → ℕ → Result (List (Det F))
  unfolding level_plain level_kps
  level cfg threshold size outs idx stride = do
    scores ← row outs idx
    distances ← row outs (idx + cfg.fmc)
    decode cfg threshold size outs idx stride scores distances

  -- The loop from a position on.
  unfoldable pub levels : AnchorConfig → F → ℕ → List (Rows F) → ℕ → List ℕ → Result (List (Det F))
  unfolding level
  levels cfg threshold size outs idx [] = ok []
  levels cfg threshold size outs idx (stride ∷ strides) = do
    here ← level cfg threshold size outs idx stride
    rest ← levels cfg threshold size outs (idx + 1) strides
    ok (here ++ rest)

  -- `/ det_scale`
  abbrev pub unscale : F → Det F → Det F
  unscale scale d = record {
    bbox = record {
      x1 = fl.div d.bbox.x1 scale;
      y1 = fl.div d.bbox.y1 scale;
      x2 = fl.div d.bbox.x2 scale;
      y2 = fl.div d.bbox.y2 scale;
    };
    score = d.score;
    kps = map (λ (x, y). (fl.div x scale, fl.div y scale)) d.kps;
  }

  -- The area of a box, less twice the squared distance of its middle from the image's.
  abbrev pub centrality : ℕ → ℕ → Det F → F
  centrality im_h im_w d =
      let dx = fl.sub (fl.half (fl.add d.bbox.x1 d.bbox.x2)) (fl.half (of_ℕ im_w)) in
      let dy = fl.sub (fl.half (fl.add d.bbox.y1 d.bbox.y2)) (fl.half (of_ℕ im_h)) in
      fl.sub (fl.mul (fl.sub d.bbox.x2 d.bbox.x1) (fl.sub d.bbox.y2 d.bbox.y1))
        (fl.mul (fl.add (fl.mul dx dx) (fl.mul dy dy)) (of_ℕ 2))

  -- `_keep_top`
  unfoldable pub keep_top : ℕ → ℕ → ℕ → List (Det F) → List (Det F)
  keep_top im_h im_w max_num det =
      take max_num (sort_by (λ a b. fl.le (centrality im_h im_w b) (centrality im_h im_w a)) det)

  abbrev pub detected : Det F → DetectedFace F
  detected d = record { bbox = d.bbox; score = d.score; landmarks = d.kps }

  -- From the candidates to the faces. `_nms` sorts by the score itself; rows of the same score
  -- come in an order that numpy leaves open. Fuel that runs out would be
  -- a `runtime_error`.
  unfoldable pub select_faces : F → F → ℕ → ℕ → ℕ → List (Det F) → Result (List (DetectedFace F))
  unfolding keep_top
  select_faces nms_threshold scale im_h im_w max_num candidates =
      elim (nms fl nms_threshold (map (unscale scale) candidates)) [
        | none ↦ raise (fault runtime_error)
        | some det ↦ ok (
            map detected (
              if ltb 0 max_num && ltb max_num (length det)
              then keep_top im_h im_w max_num det
              else det))
      ]

  -- `cv2.resize` refuses an empty size.
  unfoldable pub detect :
      {I : Type 0} → OpenCv I → Scrfd F I → I → ℕ → Result (List (DetectedFace F))
  unfolding letterbox levels select_faces
  detect cv net image max_num =
      let im_h = cv.rows image in
      let im_w = cv.cols image in
      let (new_w, new_h) = letterbox im_h im_w net.input_size in
      if nat_beq new_w 0 || nat_beq new_h 0 then raise (fault library_error) else do
        let outs = net.infer (net.pad net.input_size (cv.resize image new_w new_h))
        candidates ← levels net.config net.det_threshold net.input_size outs 0 (8 ∷ 16 ∷ 32 ∷ [])
        select_faces net.nms_threshold (fl.div (of_ℕ new_h) (of_ℕ im_h)) im_h im_w max_num
            candidates
