-- ===== src/Vision/Suppression.antt =====
-- What non-maximum suppression keeps.
use face_recognition.Prelude.{
  ℕ, zero, suc, ◌≤◌, ◌≡◌, refl, ◌⊎◌, inl, inr, Bool, true, false, some, List, [], ◌∷◌, length,
  select, All, length-select-le, arith, Bool-cases,
}
use face_recognition.Prelude.Float.{Float, IsOrdered}
use face_recognition.Prelude.Sort.{
  sort_by, insert_by, IsSorted, select-All, select-passes, select-IsSorted, sort_by-IsSorted,
  sort_by-All, All-map, IsIn, All-IsIn, IsIn-All,
}
use face_recognition.Vision.Nms.{Det, is_apart, by_score, nms_loop, nms}

All-insert_by :
    {A : Type 0} (P : A → Type 0) (le : A → A → Bool) (x : A) (xs : List A)
    → All P (insert_by le x xs)
    → P x × All P xs
unfolding insert_by
All-insert_by P le x [] h = h
All-insert_by P le x (y ∷ ys) h = elim (Bool-cases (le x y)) [
  | inl first ↦ rw first at h
  | inr later ↦
      let k : P y × All P (insert_by le x ys) = rw later at h in
      let (here, rest) = All-insert_by P le x ys k.1 in (here, (k.0, rest))
]

All-sort_by :
    {A : Type 0} (P : A → Type 0) (le : A → A → Bool) (xs : List A)
    → All P (sort_by le xs)
    → All P xs
unfolding sort_by
All-sort_by P le [] h = tt
All-sort_by P le (x ∷ xs) h =
    let (here, rest) = All-insert_by P le x (sort_by le xs) h in (here, All-sort_by P le xs rest)

IsIn-select : {A : Type 0} (p : A → Bool) (xs : List A) (a : A) → IsIn a (select p xs) → IsIn a xs
IsIn-select p xs a h =
    IsIn-All (λ x. IsIn x xs) (select p xs) (select-All (λ x. IsIn x xs) p xs (All-IsIn xs)) h

module _ {F : Type 0} (fl : Float F) (thresh : F) where
  -- The row is kept, or overlaps too much with a kept row whose score is as high.
  abbrev pub IsCovered : List (Det F) → Det F → Type 0
  IsCovered keep d =
      IsIn d keep
      ⊎ ((k : Det F) × IsIn k keep × (is_apart fl thresh k d ≡ false) × (by_score fl k d ≡ true))

  -- `keep` is the suppression of the rows.
  pub record IsSuppression (dets keep : List (Det F)) : Type 0 where
    pub kept : All (λ k. IsIn k dets) keep
    pub apart : IsSorted (is_apart fl thresh) keep
    pub ranked : IsSorted (by_score fl) keep
    pub covered : All (IsCovered keep) dets

  IsCovered-later : (i d : Det F) (keep : List (Det F)) → IsCovered keep d → IsCovered (i ∷ keep) d
  IsCovered-later i d keep (inl here) = inl (inr here)
  IsCovered-later i d keep (inr (k, here, close, higher)) = inr (k, inr here, close, higher)

  -- Coverage of the rows left and of those that the first row drops.
  covers_all :
      (i : Det F) (keep rest : List (Det F))
      → All (λ d. by_score fl i d ≡ true) rest
      → All (IsCovered keep) (select (is_apart fl thresh i) rest)
      → All (IsCovered (i ∷ keep)) rest
  covers_all i keep [] h k = tt
  covers_all i keep (d ∷ rest) h k = elim (Bool-cases (is_apart fl thresh i d)) [
    | inl apart ↦
        let k' : IsCovered keep d × All (IsCovered keep) (select (is_apart fl thresh i) rest) =
          rw apart at k in
        (IsCovered-later i d keep k'.0, covers_all i keep rest h.1 k'.1)
    | inr close ↦ (inr (i, inl refl, close, h.0), covers_all i keep rest h.1 (rw close at k))
  ]

  nms_loop_lem :
      (fuel : ℕ) (order : List (Det F))
      → length order ≤ fuel
      → IsSorted (by_score fl) order
      → (keep : List (Det F)) × (nms_loop fl fuel thresh order ≡ some keep)
        × IsSuppression order keep
  unfolding nms_loop
  nms_loop_lem fuel [] enough sorted =
      ([], refl, record { kept = tt; apart = tt; ranked = tt; covered = tt })
  nms_loop_lem zero (i ∷ rest) enough sorted = absurd (omega arith)
  nms_loop_lem (suc fuel) (i ∷ rest) enough sorted =
      let left = select (is_apart fl thresh i) rest in
      let (keep, e, h) =
        nms_loop_lem fuel left (omega (arith, length-select-le (is_apart fl thresh i) rest))
          (select-IsSorted (by_score fl) (is_apart fl thresh i) rest sorted.1) in
      (
        i ∷ keep,
        rw e refl,
        record {
          kept = (
            inl refl,
            All-map _ _ keep (λ k here. inr (IsIn-select (is_apart fl thresh i) rest k here))
                h.kept,
          );
          apart = (
            All-map _ _ keep
                (λ k here.
                  IsIn-All (λ d. is_apart fl thresh i d ≡ true) left
                    (select-passes (is_apart fl thresh i) rest) here)
                h.kept,
            h.apart,
          );
          ranked = (
            All-map _ _ keep
                (λ k here.
                  IsIn-All (λ d. by_score fl i d ≡ true) rest sorted.0
                    (IsIn-select (is_apart fl thresh i) rest k here))
                h.kept,
            h.ranked,
          );
          covered = (inl (inl refl), covers_all i keep rest sorted.0 h.covered);
        },
      )

  -- Suppression ends with the rows to keep, and the fuel suffices. They are rows of the input, by
  -- falling score; none overlaps an earlier one by more than the threshold; and each input row is
  -- kept, or overlaps too much with a kept row that scores as high. The floats must be ordered.
  pub nms-IsSuppression :
      IsOrdered fl
      → (dets : List (Det F))
      → (keep : List (Det F)) × (nms fl thresh dets ≡ some keep) × IsSuppression dets keep
  unfolding nms
  nms-IsSuppression ordered dets =
      let order = sort_by (by_score fl) dets in
      let (keep, e, h) = nms_loop_lem (length order) order (omega arith) (
        sort_by-IsSorted (by_score fl) (λ a b c x y. ordered.le_trans _ _ _ y x)
          (λ a b. ordered.le_total _ _) dets) in
      (
        keep,
        e,
        record {
          kept =
              All-map _ _ keep
                (λ k here.
                  IsIn-All (λ d. IsIn d dets) order
                    (sort_by-All (λ d. IsIn d dets) (by_score fl) dets (All-IsIn dets)) here)
                h.kept;
          apart = h.apart;
          ranked = h.ranked;
          covered = All-sort_by (IsCovered keep) (by_score fl) dets h.covered;
        },
      )
