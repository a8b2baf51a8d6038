-- ===== src/Prelude/Sort.antt =====
-- `ORDER BY`: insertion sort by a Boolean comparison, and what filtering and cutting off keep.
use mathlib.Core.Path.{◌≡◌, refl, subst}
use mathlib.Core.Bool.{Bool, true, false}
use mathlib.Core.Logic.{◌⊎◌, inl, inr}
use mathlib.Core.List.{
  List, [], ◌∷◌, ◌++◌, map, reverse, reverse-cons, Perm, filter_map, filter_map-cons-none,
  filter_map-cons-some,
}
use mathlib.Core.List.Perm
use mathlib.Core.Option.{Option, some}
use native.Mathlib.Omega.{arith}
use Prim.Native.Nat.{ℕ, zero, suc}
use face_recognition.Prelude.Tests.{if◌then◌else◌, Bool-cases, Option-cases}
use face_recognition.Prelude.Lists.{All, take, select, length}

module _ {ℓ} {A : Type ℓ} where
  unfoldable pub insert_by : (A → A → Bool) → A → List A → List A
  insert_by le x [] = x ∷ []
  insert_by le x (y ∷ ys) = if le x y then x ∷ y ∷ ys else y ∷ insert_by le x ys

  unfoldable pub sort_by : (A → A → Bool) → List A → List A
  unfolding insert_by
  sort_by le [] = []
  sort_by le (x ∷ xs) = insert_by le x (sort_by le xs)

  abbrev pub IsSorted : (A → A → Bool) → List A → Type ℓ
  IsSorted le [] = Unit
  IsSorted le (x ∷ xs) = All (λ y. le x y ≡ true) xs × IsSorted le xs

  module _ {κ} (P : A → Type κ) where
    pub select-All : (p : A → Bool) (xs : List A) → All P xs → All P (select p xs)
    select-All p [] h = tt
    select-All p (x ∷ xs) h = elim (Bool-cases (p x)) [
      | inl kept ↦ rw kept (h.0, select-All p xs h.1)
      | inr dropped ↦ rw dropped (select-All p xs h.1)
    ]

    pub take-All : (n : ℕ) (xs : List A) → All P xs → All P (take n xs)
    take-All zero xs h = tt
    take-All (suc n) [] h = tt
    take-All (suc n) (x ∷ xs) h = (h.0, take-All n xs h.1)

    pub insert_by-All :
        (le : A → A → Bool) (x : A) (xs : List A) → P x → All P xs → All P (insert_by le x xs)
    unfolding insert_by
    insert_by-All le x [] hx h = (hx, tt)
    insert_by-All le x (y ∷ ys) hx h = elim (Bool-cases (le x y)) [
      | inl before ↦ rw before (hx, h)
      | inr after ↦ rw after (h.0, insert_by-All le x ys hx h.1)
    ]

    pub sort_by-All : (le : A → A → Bool) (xs : List A) → All P xs → All P (sort_by le xs)
    unfolding sort_by
    sort_by-All le [] h = tt
    sort_by-All le (x ∷ xs) h = insert_by-All le x (sort_by le xs) h.0 (sort_by-All le xs h.1)

  -- Every element of a filtered list passes the test.
  pub select-passes : (p : A → Bool) (xs : List A) → All (λ x. p x ≡ true) (select p xs)
  select-passes p [] = tt
  select-passes p (x ∷ xs) = elim (Bool-cases (p x)) [
    | inl kept ↦ rw kept (kept, select-passes p xs)
    | inr dropped ↦ rw dropped (select-passes p xs)
  ]

  pub All-map {κ μ} :
      (P : A → Type κ) (Q : A → Type μ) (xs : List A) → ((x : A) → P x → Q x) → All P xs → All Q xs
  All-map P Q [] f h = tt
  All-map P Q (x ∷ xs) f h = (f x h.0, All-map P Q xs f h.1)

  pub All-append {κ} : (P : A → Type κ) (xs ys : List A) → All P xs → All P ys → All P (xs ++ ys)
  All-append P [] ys h k = k
  All-append P (x ∷ xs) ys h k = (h.0, All-append P xs ys h.1 k)

  pub reverse-All {κ} : (P : A → Type κ) (xs : List A) → All P xs → All P (reverse xs)
  reverse-All P [] h = tt
  reverse-All P (x ∷ xs) h =
      rw reverse-cons (All-append P (reverse xs) (x ∷ []) (reverse-All P xs h.1) (h.0, tt))

  pub select-IsSorted :
      (le : A → A → Bool) (p : A → Bool) (xs : List A) → IsSorted le xs → IsSorted le (select p xs)
  select-IsSorted le p [] h = tt
  select-IsSorted le p (x ∷ xs) h = elim (Bool-cases (p x)) [
    | inl kept ↦ rw kept (select-All _ p xs h.0, select-IsSorted le p xs h.1)
    | inr dropped ↦ rw dropped (select-IsSorted le p xs h.1)
  ]

  pub take-IsSorted :
      (le : A → A → Bool) (n : ℕ) (xs : List A) → IsSorted le xs → IsSorted le (take n xs)
  take-IsSorted le zero xs h = tt
  take-IsSorted le (suc n) [] h = tt
  take-IsSorted le (suc n) (x ∷ xs) h = (take-All _ n xs h.0, take-IsSorted le n xs h.1)

  module _ (le : A → A → Bool) (trans : (a b c : A) → le a b ≡ true → le b c ≡ true → le a c ≡ true)
      (total : (a b : A) → (le a b ≡ true) ⊎ (le b a ≡ true)) where
    le_of_not : (a b : A) → le a b ≡ false → le b a ≡ true
    le_of_not a b h = ground (arith, total a b)

    insert_by-IsSorted : (x : A) (xs : List A) → IsSorted le xs → IsSorted le (insert_by le x xs)
    unfolding insert_by
    insert_by-IsSorted x [] h = (tt, tt)
    insert_by-IsSorted x (y ∷ ys) h = elim (Bool-cases (le x y)) [
      | inl before ↦ rw before ((before, All-map _ _ ys (λ z r. trans x y z before r) h.0), h)
      | inr after ↦ rw after (
        insert_by-All (λ z. le y z ≡ true) le x ys (le_of_not x y after) h.0,
        insert_by-IsSorted x ys h.1,
      )
    ]

    pub sort_by-IsSorted : (xs : List A) → IsSorted le (sort_by le xs)
    unfolding sort_by
    sort_by-IsSorted [] = tt
    sort_by-IsSorted (x ∷ xs) = insert_by-IsSorted x (sort_by le xs) (sort_by-IsSorted xs)

  insert_by-perm : (le : A → A → Bool) (x : A) (xs : List A) → Perm (insert_by le x xs) (x ∷ xs)
  unfolding insert_by
  insert_by-perm le x [] = Perm.refl _
  insert_by-perm le x (y ∷ ys) = elim (Bool-cases (le x y)) [
    | inl before ↦ rw before (Perm.refl _)
    | inr after ↦ rw after (Perm.trans (Perm.cons y (insert_by-perm le x ys)) (Perm.swap x y ys))
  ]

  length-insert_by :
      (le : A → A → Bool) (x : A) (xs : List A) → length (insert_by le x xs) ≡ suc (length xs)
  unfolding insert_by
  length-insert_by le x [] = refl
  length-insert_by le x (y ∷ ys) = ground (arith, length-insert_by le x ys)

  pub length-sort_by : (le : A → A → Bool) (xs : List A) → length (sort_by le xs) ≡ length xs
  unfolding sort_by
  length-sort_by le [] = refl
  length-sort_by le (x ∷ xs) =
      omega (arith, length-insert_by le x (sort_by le xs), length-sort_by le xs)

  -- Sorting loses and invents no element.
  pub sort_by-perm : (le : A → A → Bool) (xs : List A) → Perm (sort_by le xs) xs
  unfolding sort_by
  sort_by-perm le [] = Perm.refl []
  sort_by-perm le (x ∷ xs) =
      Perm.trans (insert_by-perm le x (sort_by le xs)) (Perm.cons x (sort_by-perm le xs))

-- One of the list's elements.
abbrev pub IsIn : {A : Type 0} → A → List A → Type 0
IsIn a [] = ⊥
IsIn a (x ∷ xs) = (x ≡ a) ⊎ IsIn a xs

module _ {A : Type 0} where
  pub All-IsIn : (xs : List A) → All (λ x. IsIn x xs) xs
  All-IsIn [] = tt
  All-IsIn (x ∷ xs) = (inl refl, All-map _ _ xs (λ y i. inr i) (All-IsIn xs))

  pub IsIn-All : (P : A → Type 0) (xs : List A) {a : A} → All P xs → IsIn a xs → P a
  IsIn-All P [] h i = absurd i
  IsIn-All P (x ∷ xs) h (inl e) = subst P e h.0
  IsIn-All P (x ∷ xs) h (inr i) = IsIn-All P xs h.1 i

  pub All-both : (P Q : A → Type 0) (xs : List A) → All P xs → All Q xs → All (λ x. P x × Q x) xs
  All-both P Q [] h k = tt
  All-both P Q (x ∷ xs) h k = ((h.0, k.0), All-both P Q xs h.1 k.1)

module _ {A B : Type 0} (f : A → Option B) where
  pub filter_map-All :
      (P : A → Type 0) (Q : B → Type 0) (xs : List A)
      → ((a : A) (b : B) → P a → f a ≡ some b → Q b)
      → All P xs
      → All Q (filter_map f xs)
  unfolding filter_map
  filter_map-All P Q [] k h = tt
  filter_map-All P Q (x ∷ xs) k h = elim (Option-cases (f x)) [
    | inl dropped ↦ rw (filter_map-cons-none f x xs dropped) (filter_map-All P Q xs k h.1)
    | inr (b, kept) ↦
        rw (filter_map-cons-some f x xs kept) (k x b h.0 kept, filter_map-All P Q xs k h.1)
  ]

  -- An order of the elements that `f` carries over.
  pub filter_map-IsSorted :
      (le : A → A → Bool) (ge : B → B → Bool) (xs : List A)
      → ((a a' : A) (b b' : B) → f a ≡ some b → f a' ≡ some b' → le a a' ≡ true → ge b b' ≡ true)
      → IsSorted le xs
      → IsSorted ge (filter_map f xs)
  unfolding filter_map
  filter_map-IsSorted le ge [] k h = tt
  filter_map-IsSorted le ge (x ∷ xs) k h = elim (Option-cases (f x)) [
    | inl dropped ↦ rw (filter_map-cons-none f x xs dropped) (filter_map-IsSorted le ge xs k h.1)
    | inr (b, kept) ↦ rw (filter_map-cons-some f x xs kept) (
      filter_map-All (λ y. le x y ≡ true) (λ c. ge b c ≡ true) xs
          (λ a c before e. k x a b c kept e before) h.0,
      filter_map-IsSorted le ge xs k h.1,
    )
  ]

-- An order of the elements that a function carries over.
pub map-IsSorted :
    {A B : Type 0} (le : A → A → Bool) (ge : B → B → Bool) (f : A → B) (xs : List A)
    → ((a b : A) → le a b ≡ true → ge (f a) (f b) ≡ true)
    → IsSorted le xs
    → IsSorted ge (map f xs)
map-IsSorted le ge f [] k h = tt
map-IsSorted le ge f (x ∷ xs) k h = (image xs h.0, map-IsSorted le ge f xs k h.1)
  where
    image : (ys : List _) → All (λ y. le x y ≡ true) ys → All (λ z. ge (f x) z ≡ true) (map f ys)
    image [] a = tt
    image (y ∷ ys) a = (k x y a.0, image ys a.1)
