-- ===== src/Recognition/Matching.antt =====
-- How the answers of verification and identification relate to the rows that the index finds.
use face_recognition.Prelude.{
  ℕ, suc, ◌≡◌, refl, ◌∙◌, Bool, true, false, ◌||◌, List, [], ◌∷◌, take, All, arith, Bool-cases, inl,
  inr,
}
use face_recognition.Prelude.Int.{pos}
use face_recognition.Prelude.Float.{IsOrdered}
use face_recognition.Prelude.Sort.{sort_by, insert_by, IsSorted, sort_by-IsSorted, take-All}
use face_recognition.Store.Rows.{Face}
use face_recognition.Store.Persons.{any}
use face_recognition.Store.Search.{SearchRow, similarity_of, nearer, first_match}
use face_recognition.Store.Ranking.{IsAntitone, more_similar}
use face_recognition.Recognition.Types.{Service, map_option, head?}
use face_recognition.Recognition.Match.{
  clears, matches_of, to_match, best_above, similarity_or_zero,
}

-- `similarity >= threshold` of a face.
abbrev pub clears_face : {F I : Type 0} → Service F I → List F → Face F → Bool
clears_face s q f = clears s (similarity_of s.float s.vectors q f)

module _ {F I : Type 0} (s : Service F I) (ordered : IsOrdered s.float) where
  -- Nothing clears the threshold behind a row that does not.
  matches_of-nil :
      (r : SearchRow F) (rows : List (SearchRow F))
      → clears s r.similarity ≡ false
      → All (λ t. more_similar s.float s.vectors r t ≡ true) rows
      → matches_of s rows ≡ []
  matches_of-nil r [] below h = refl
  matches_of-nil r (t ∷ rows) below h = ground (
    arith,
    matches_of-nil r rows below h.1,
    ordered.le_trans s.settings.recognition_threshold t.similarity r.similarity,
  )

  -- On ranked rows, the best of a top-1 query is the first match of a longer one.
  pub best_above-matches_of :
      (k : ℕ) (rows : List (SearchRow F))
      → IsSorted (more_similar s.float s.vectors) rows
      → head? (matches_of s (take (suc k) rows))
        ≡ map_option (to_match s) (best_above s (take 1 rows))
  best_above-matches_of k [] sorted = refl
  best_above-matches_of k (r ∷ rows) sorted = elim (Bool-cases (clears s r.similarity)) [
    | inl clear ↦ rw clear refl
    | inr below ↦ rw (below, matches_of-nil r (take k rows) below (take-All _ k rows sorted.0)) refl
  ]

  any-insert :
      {A : Type 0} (p : A → Bool) (le : A → A → Bool) (x : A) (xs : List A)
      → any p (insert_by le x xs) ≡ (p x || any p xs)
  unfolding insert_by
  any-insert p le x [] = refl
  any-insert p le x (y ∷ ys) = ground (arith, any-insert p le x ys)

  any-sort :
      {A : Type 0} (p : A → Bool) (le : A → A → Bool) (xs : List A)
      → any p (sort_by le xs) ≡ any p xs
  unfolding sort_by
  any-sort p le [] = refl
  any-sort p le (x ∷ xs) = any-insert p le x (sort_by le xs) ∙ rw (any-sort p le xs)

  module _ (antitone : IsAntitone s.float) (q : List F) where
    no_other_clears :
        (f : Face F) (fs : List (Face F))
        → clears_face s q f ≡ false
        → All (λ g. nearer s.float s.vectors q f g ≡ true) fs
        → any (clears_face s q) fs ≡ false
    no_other_clears f [] below h = refl
    no_other_clears f (g ∷ fs) below h = ground (
      arith,
      no_other_clears f fs below h.1,
      antitone (s.float.of_int (pos 1)) (s.vectors.distance f.embedding q)
          (s.vectors.distance g.embedding q),
      ordered.le_trans s.settings.recognition_threshold (similarity_of s.float s.vectors q g)
          (similarity_of s.float s.vectors q f),
    )

    first_clears :
        (fs : List (Face F))
        → clears s (s.float.of_int (pos 0)) ≡ false
        → IsSorted (nearer s.float s.vectors q) fs
        → clears s (similarity_or_zero s (first_match s.float s.vectors q fs))
          ≡ any (clears_face s q) fs
    first_clears [] zero_below sorted = zero_below
    first_clears (f ∷ fs) zero_below sorted = elim (Bool-cases (clears_face s q f)) [
      | inl clear ↦ rw clear refl
      | inr below ↦ rw (below, no_other_clears f fs below sorted.0) refl
    ]

    -- The nearest face clears the threshold exactly when some face does.
    pub best_clears :
        (fs : List (Face F))
        → clears s (s.float.of_int (pos 0)) ≡ false
        → clears s (
            similarity_or_zero s
              (first_match s.float s.vectors q (sort_by (nearer s.float s.vectors q) fs)))
          ≡ any (clears_face s q) fs
    best_clears fs zero_below =
        first_clears (sort_by (nearer s.float s.vectors q) fs) zero_below (
          sort_by-IsSorted (nearer s.float s.vectors q) (λ f g k. ordered.le_trans _ _ _)
            (λ f g. ordered.le_total _ _) fs)
        ∙ any-sort (clears_face s q) (nearer s.float s.vectors q) fs
