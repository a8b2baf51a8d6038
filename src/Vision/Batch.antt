-- ===== src/Vision/Batch.antt =====
-- The batch of `process_all` against the faces one by one.
use face_recognition.Prelude.{
  ◌+◌, ◌≡◌, refl, sym, ap, ◌∙◌, List, [], ◌∷◌, ◌++◌, map, select, get_elem?, inl, inr, length,
  length-append,
}
use face_recognition.Prelude.Float.{Float}
use mathlib.Core.List.{append_assoc, map-map}
use face_recognition.Core.Errors.{fault, index_error, Result, ok, raise, ◌>>=◌, Result-cases}
use face_recognition.Vision.Types.{DetectedFace, FaceResult, OpenCv, Parts}
use face_recognition.Vision.Detect.{Scrfd}
use face_recognition.Vision.Embedder.{
  Linalg, ArcFace, input_size, l2_normalize, preprocess, embed_batch,
}
use face_recognition.Vision.Aligner.{Warp}
use face_recognition.Vision.Build.{parts_of}
use face_recognition.Vision.Pipeline.{
  process_all, embed_valid, align_all, pair_up, row, embed, is_valid,
}

module _ {F I : Type 0} (fl : Float F) (parts : Parts F I) where
  -- A face with the embedding of its own crop.
  abbrev pub embed_alone : I → DetectedFace F → Result (FaceResult F)
  embed_alone image face = do
    aligned ← parts.align image face.landmarks
    embedding ← embed fl parts aligned
    ok (record { detection = face; embedding = embedding })

  abbrev pub embed_each : I → List (DetectedFace F) → Result (List (FaceResult F))
  embed_each image [] = ok []
  embed_each image (f ∷ fs) = do
    result ← embed_alone image f
    rest ← embed_each image fs
    ok (result ∷ rest)

  -- The pairing of `process_all`, without positions.
  pair_list : List (List F) → List (DetectedFace F) → Result (List (FaceResult F))
  pair_list es [] = ok []
  pair_list [] (f ∷ fs) = raise (fault index_error)
  pair_list (e ∷ es) (f ∷ fs) = do
    rest ← pair_list es fs
    ok (record { detection = f; embedding = e } ∷ rest)

  get_elem?-append :
      (done es : List (List F)) → get_elem? (done ++ es) (length done) ≡ get_elem? es 0
  get_elem?-append [] es = refl
  get_elem?-append (d ∷ done) es = get_elem?-append done es

  pair_up-pair_list :
      (done es : List (List F)) (fs : List (DetectedFace F))
      → pair_up fl parts (done ++ es) (length done) fs ≡ pair_list es fs
  unfolding pair_list
  pair_up-pair_list done es [] = refl
  pair_up-pair_list done [] (f ∷ fs) = rw (row, get_elem?-append done []) refl
  pair_up-pair_list done (e ∷ es) (f ∷ fs) =
      let next : pair_up fl parts (done ++ e ∷ es) (length done + 1) fs ≡ pair_list es fs =
        rw (append_assoc, length-append done (e ∷ [])) at
          (pair_up-pair_list (done ++ e ∷ []) es fs) in
      rw (row, get_elem?-append done (e ∷ es), next) refl

  module _ (own : I → List F)
      (batched : (images : List I) → parts.embed_batch images ≡ ok (map own images)) where
    embed_own : (i : I) → embed fl parts i ≡ ok (own i)
    unfolding embed
    embed_own i = rw (batched (i ∷ [])) refl

    aligned-each :
        (image : I) (fs : List (DetectedFace F))
        → (align_all fl parts image fs >>= λ crops. pair_list (map own crops) fs)
          ≡ embed_each image fs
    unfolding pair_list
    aligned-each image [] = refl
    aligned-each image (f ∷ fs) =
        let rest = aligned-each image fs in
        elim (Result-cases (parts.align image f.landmarks)) [
          | inr (e, failed) ↦ rw failed refl
          | inl (crop, aligned) ↦ elim (Result-cases (align_all fl parts image fs)) [
            | inl (crops, all) ↦
                let tail : pair_list (map own crops) fs ≡ embed_each image fs = rw all at rest in
                rw (aligned, embed_own crop, all, tail) refl
            | inr (e, failed) ↦
                let tail : raise e ≡ embed_each image fs = rw failed at rest in
                rw (aligned, embed_own crop, failed, sym tail) refl
          ]
        ]

    embed_valid-each :
        (image : I) (fs : List (DetectedFace F))
        → embed_valid fl parts image fs ≡ embed_each image fs
    embed_valid-each image [] = refl
    embed_valid-each image (f ∷ fs) = elim (Result-cases (align_all fl parts image (f ∷ fs))) [
      | inl (crops, all) ↦
          rw (all, batched crops)
            (pair_up-pair_list [] (map own crops) (f ∷ fs)
              ∙ rw all at (aligned-each image (f ∷ fs)))
      | inr (e, failed) ↦ rw failed (rw failed at (aligned-each image (f ∷ fs)))
    ]

    detected-each :
        (image : I)
        → process_all fl parts image
          ≡ (parts.detect image 0 >>= λ faces. embed_each image (select (is_valid fl parts) faces))
    unfolding process_all
    detected-each image = elim (Result-cases (parts.detect image 0)) [
      | inl (faces, found) ↦ rw found (embed_valid-each image (select (is_valid fl parts) faces))
      | inr (e, failed) ↦ rw failed refl
    ]

module _ {F I Blob : Type 0} (fl : Float F) (la : Linalg F) (cv : OpenCv I) (w : Warp F I)
    (detector : Scrfd F I) (net : ArcFace F I Blob) (min_face_size : F) where
  abbrev built : Parts F I
  built = parts_of fl la cv w detector net min_face_size

  embed_batch-map :
      (raw : I → List F)
      → ((images : List I) → net.run (net.blob input_size images) ≡ ok (map raw images))
      → (images : List I)
      → embed_batch fl la net images ≡ ok (map (λ i. l2_normalize fl la (raw i)) images)
  unfolding embed_batch preprocess
  embed_batch-map raw apart [] = refl
  embed_batch-map raw apart (i ∷ images) =
      rw (apart (i ∷ images)) (ap ok (map-map (l2_normalize fl la) raw (i ∷ images)))

  -- Where the embedder's network treats the images of a batch apart, the batched embedding of all
  -- usable faces gives what aligning and embedding each of them alone gives, in the order of the
  -- detection: no face is given another's embedding, and the first error is the same.
  pub process_all-each :
      (raw : I → List F)
      → ((images : List I) → net.run (net.blob input_size images) ≡ ok (map raw images))
      → (image : I)
      → process_all fl built image ≡ (
          built.detect image 0 >>= λ faces.
          embed_each fl built image (select (is_valid fl built) faces))
  process_all-each raw apart image =
      detected-each fl built (λ i. l2_normalize fl la (raw i)) (embed_batch-map raw apart) image
