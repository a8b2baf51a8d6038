-- ===== src/Migrations/Undone.antt =====
-- The downgrades undo the upgrades, in any database that has other objects.
use face_recognition.Prelude.{
  ◌≡◌, refl, ap, Bool, false, not, ◌||◌, List, [], ◌∷◌, ◌++◌, All, select, Bool-cases, inl, inr,
}
use mathlib.Core.List.{append_assoc}
use face_recognition.Core.Errors.{Result, ok, raise, Result-cases}
use face_recognition.Store.Persons.{any}
use face_recognition.Migrations.{
  Catalog, Object, Statement, create, create_if_absent, drop, drop_if_exists, is_same, requirements,
  lacks, falls_with, is_needed_by, remove, alter, run_statements,
}

module _ {A : Type 0} (p : A → Bool) where
  -- No element passes.
  abbrev pub None : List A → Type 0
  None = All (λ x. p x ≡ false)

  any-None : (xs ys : List A) → None xs → any p (xs ++ ys) ≡ any p ys
  any-None [] ys h = refl
  any-None (x ∷ xs) ys h = rw h.0 (any-None xs ys h.1)

  select-None :
      (xs ys : List A)
      → None xs
      → select (λ x. not (p x)) (xs ++ ys) ≡ xs ++ select (λ x. not (p x)) ys
  select-None [] ys h = refl
  select-None (x ∷ xs) ys h = rw h.0 (ap (◌∷◌ x) (select-None xs ys h.1))

-- The statement looks at none of the objects.
pub record Ignores (o : Object) (cat : Catalog) : Type 0 where
  pub same : None (is_same o) cat
  pub required : All (λ r. None (is_same r) cat) (requirements o)
  pub falling : None (falls_with o) cat
  pub needing : None (is_needed_by o) cat

abbrev pub object_of : Statement → Object
object_of (create o) = o
object_of (create_if_absent o) = o
object_of (drop o) = o
object_of (drop_if_exists o) = o

-- The answer with other objects in front.
abbrev pub behind : Catalog → Result Catalog → Result Catalog
behind cat (ok os) = ok (cat ++ os)
behind cat (raise e) = raise e

remove-behind :
    (o : Object) (cat os : Catalog)
    → Ignores o cat
    → remove o (cat ++ os) ≡ behind cat (remove o os)
unfolding remove
remove-behind o cat os h = elim (Bool-cases (any (is_needed_by o) os)) [
  | inl needed ↦ rw (any-None (is_needed_by o) cat os h.needing, needed) refl
  | inr free ↦
      rw (any-None (is_needed_by o) cat os h.needing, free)
        (ap ok (select-None (falls_with o) cat os h.falling))
]

lacks-behind :
    (rs : List Object) (cat os : Catalog)
    → All (λ r. None (is_same r) cat) rs
    → lacks rs (cat ++ os) ≡ lacks rs os
lacks-behind [] cat os h = refl
lacks-behind (r ∷ rs) cat os h =
    rw (any-None (is_same r) cat os h.0, lacks-behind rs cat os h.1) refl

alter-behind :
    (s : Statement) (cat os : Catalog)
    → Ignores (object_of s) cat
    → alter s (cat ++ os) ≡ behind cat (alter s os)
unfolding alter
alter-behind (create o) cat os h = elim (Bool-cases (any (is_same o) os)) [
  | inl there ↦ rw (any-None (is_same o) cat os h.same, there) refl
  | inr absent ↦
      let needs = lacks-behind (requirements o) cat os h.required in
      elim (Bool-cases (lacks (requirements o) os)) [
        | inl missing ↦ rw (any-None (is_same o) cat os h.same, absent, needs, missing) refl
        | inr complete ↦
            rw (any-None (is_same o) cat os h.same, absent, needs, complete)
              (ap ok (append_assoc cat os (o ∷ [])))
      ]
]
alter-behind (create_if_absent o) cat os h = elim (Bool-cases (any (is_same o) os)) [
  | inl there ↦ rw (any-None (is_same o) cat os h.same, there) refl
  | inr absent ↦
      rw (any-None (is_same o) cat os h.same, absent) (ap ok (append_assoc cat os (o ∷ [])))
]
alter-behind (drop o) cat os h = elim (Bool-cases (any (is_same o) os)) [
  | inl there ↦ rw (any-None (is_same o) cat os h.same, there) (remove-behind o cat os h)
  | inr absent ↦ rw (any-None (is_same o) cat os h.same, absent) refl
]
alter-behind (drop_if_exists o) cat os h = remove-behind o cat os h

-- Statements that look at none of some objects run as if these were not there.
pub run_statements-behind :
    (ss : List Statement) (cat os : Catalog)
    → All (λ s. Ignores (object_of s) cat) ss
    → run_statements ss (cat ++ os) ≡ behind cat (run_statements ss os)
unfolding run_statements
run_statements-behind [] cat os h = refl
run_statements-behind (s ∷ ss) cat os h = elim (Result-cases (alter s os)) [
  | inl (next, done) ↦ rw (alter-behind s cat os h.0, done) (run_statements-behind ss cat next h.1)
  | inr (e, failed) ↦ rw (alter-behind s cat os h.0, failed) refl
]

-- Whether dealing with the first object can depend on the other, or drop it.
abbrev pub touches : Object → Object → Bool
touches o x =
    is_same o x || (falls_with o x || (is_needed_by o x || any (λ r. is_same r x) (requirements o)))

-- An object that none of the statements touches.
abbrev pub IsForeign : List Statement → Object → Type 0
IsForeign ss x = any (λ s. touches (object_of s) x) ss ≡ false
