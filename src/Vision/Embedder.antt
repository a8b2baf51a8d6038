-- ===== src/Vision/Embedder.antt =====
-- app/recognition/arcface/arcface.py and app/recognition/search/similarity.py. The network, OpenCV's
-- blob and numpy's norm and products are parameters.
use face_recognition.Prelude.{ℕ, List, [], ◌∷◌, map, if◌then◌else◌}
use face_recognition.Prelude.Int.{pos}
use face_recognition.Prelude.Float.{Float, fmax}
use face_recognition.Core.Errors.{Result, ok, ◌>>=◌}

-- numpy on vectors: `np.linalg.norm`, `np.dot`, and the constant 1e-12.
pub record Linalg (F : Type 0) : Type 0 where
  pub norm : List F → F
  pub dot : List F → List F → F
  pub epsilon : F

abbrev pub input_size : ℕ
input_size = 112

-- The embedder's network: `blob` stacks crops at a side, in RGB and scaled to [-1, 1], with
-- `cv2.dnn.blobFromImages`; `run` gives the rows of the first output.
pub record ArcFace (F I Blob : Type 0) : Type 0 where
  pub blob : ℕ → List I → Blob
  pub run : Blob → Result (List (List F))

module _ {F : Type 0} (fl : Float F) (la : Linalg F) where
  -- A row of `_l2_normalize`.
  unfoldable pub l2_normalize : List F → List F
  l2_normalize row = map (λ x. fl.div x (fmax fl (la.norm row) la.epsilon)) row

  module _ {I Blob : Type 0} (net : ArcFace F I Blob) where
    unfoldable pub preprocess : List I → Blob
    preprocess faces = net.blob input_size faces

    unfoldable pub embed_batch : List I → Result (List (List F))
    embed_batch [] = ok []
    embed_batch (face ∷ faces) = do
      embeddings ← net.run (preprocess (face ∷ faces))
      ok (map l2_normalize embeddings)

  unfoldable pub cosine_similarity : List F → List F → F
  cosine_similarity a b =
      let denom = fl.mul (la.norm a) (la.norm b) in
      if fl.lt denom la.epsilon then fl.of_int (pos 0) else fl.div (la.dot a b) denom

  -- A row of the gallery.
  unfoldable pub cosine_similarity_row : List F → List F → F
  cosine_similarity_row query row =
      fl.div (la.dot row query) (fmax fl (fl.mul (la.norm query) (la.norm row)) la.epsilon)

  unfoldable pub cosine_similarity_matrix : List F → List (List F) → List F
  cosine_similarity_matrix query gallery = map (cosine_similarity_row query) gallery
