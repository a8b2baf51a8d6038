-- ===== src/Migrations/Flags.antt =====
-- What alembic/versions/0004_faces_is_active_partial_index.py does to the rows: the new column
-- with its default, and the UPDATE from the persons.
use face_recognition.Prelude.{◌≡◌, refl, Bool, true, Option, none, some, List, [], ◌∷◌, map, All}
use face_recognition.Store.Rows.{Person, Face, Database}
use face_recognition.Store.Persons.{active_of}
use face_recognition.Store.Mirror.{Mirrors, MirrorsIn}

-- The flag of the person, where there is one.
abbrev pub seeded_flag : Bool → Option Bool → Bool
seeded_flag default none = default
seeded_flag default (some flag) = flag

module _ {F : Type 0} where
  -- A row with the new column, whose value before is no part of it.
  abbrev pub seed_face : List Person → Face F → Face F
  seed_face ps f = record f { is_active = seeded_flag true (active_of f.person_id ps) }

  unfoldable pub seed_flags : Database F → Database F
  seed_flags db = record db { faces = map (seed_face db.persons) db.faces }

  -- The foreign key of the faces.
  abbrev pub HavePersons : List Person → List (Face F) → Type 0
  HavePersons ps = All (λ f. (flag : Bool) × (active_of f.person_id ps ≡ some flag))

  seed-Mirrors :
      (ps : List Person) (fs : List (Face F))
      → HavePersons ps fs
      → MirrorsIn ps (map (seed_face ps) fs)
  seed-Mirrors ps [] h = tt
  seed-Mirrors ps (f ∷ fs) h = (rw h.0.1 refl, seed-Mirrors ps fs h.1)

  pub seeded-Mirrors : (db : Database F) → HavePersons db.persons db.faces → Mirrors (seed_flags db)
  unfolding seed_flags
  seeded-Mirrors db h = seed-Mirrors db.persons db.faces h
