-- ===== src/Store/Mirror.antt =====
-- The mirror of `persons.is_active` on the faces, which the triggers of
-- alembic/versions/0004_faces_is_active_partial_index.py keep.
use face_recognition.Prelude.{
  ◌≡◌, refl, ◌∙◌, Bool, false, not, String, Option, some, List, [], ◌∷◌, ◌++◌, nat_beq, differ,
  nat_beq_iff, select, All, inl, inr, Bool-cases, Option-cases, arith, if◌then◌else◌,
}
use face_recognition.Prelude.Sort.{select-All, All-map}
use face_recognition.Store.Rows.{Uuid, Person, Face, Database}
use face_recognition.Store.Persons.{
  active_of, person_is, replace_row, insert_person, write_person, remove_person, set_active,
}
use face_recognition.Store.Faces.{NewFace, insert_face, remove_face, face_is, LogEntry, insert_log}
use face_recognition.Store.Keeps.{Writes}
use face_recognition.Store.Data.{DataWrites}

-- Every face belongs to a person, and carries that person's flag.
abbrev pub MirrorsIn : {F : Type 0} → List Person → List (Face F) → Type 0
MirrorsIn ps = All (λ f. active_of f.person_id ps ≡ some f.is_active)

abbrev pub Mirrors : {F : Type 0} → Database F → Type 0
Mirrors db = MirrorsIn db.persons db.faces

active_of-append :
    (id : Uuid) (ps qs : List Person) {b : Bool}
    → active_of id ps ≡ some b
    → active_of id (ps ++ qs) ≡ some b
unfolding active_of
active_of-append id [] qs {b} h = cc
active_of-append id (p ∷ ps) qs {b} h = ground (arith, active_of-append id ps qs {b = b})

active_of-select :
    (id j : Uuid) (ps : List Person)
    → nat_beq j id ≡ false
    → active_of j (select (λ p. not (person_is id p)) ps) ≡ active_of j ps
unfolding active_of
active_of-select id j [] h = refl
active_of-select id j (p ∷ ps) h = ground (arith, active_of-select id j ps h)

active_of-replace :
    (j : Uuid) (new : Person) (ps : List Person) {b : Bool}
    → active_of j ps ≡ some b
    → active_of j (replace_row (person_is new.id) new ps)
      ≡ some (if nat_beq new.id j then new.is_active else b)
unfolding active_of replace_row
active_of-replace j new [] {b} h = cc
active_of-replace j new (p ∷ ps) {b} h = ground (arith, active_of-replace j new ps {b = b})

-- Without the persons of other ids, the flags of the rest stay.
select-Mirrors :
    {F : Type 0} (id : Uuid) (ps : List Person) (fs : List (Face F))
    → MirrorsIn ps fs
    → MirrorsIn
        (select (λ p. not (person_is id p)) ps)
        (select (λ f. not (nat_beq f.person_id id)) fs)
select-Mirrors id ps [] h = tt
select-Mirrors id ps (f ∷ fs) h = elim (Bool-cases (nat_beq f.person_id id)) [
  | inl gone ↦ rw gone (select-Mirrors id ps fs h.1)
  | inr kept ↦ rw kept (active_of-select id f.person_id ps kept ∙ h.0, select-Mirrors id ps fs h.1)
]

module _ {F : Type 0} where
  append-Mirrors :
      (ps : List Person) (fs : List (Face F)) (f : Face F)
      → MirrorsIn ps fs
      → active_of f.person_id ps ≡ some f.is_active
      → MirrorsIn ps (fs ++ f ∷ [])
  append-Mirrors ps [] f h e = (e, tt)
  append-Mirrors ps (g ∷ fs) f h e = (h.0, append-Mirrors ps fs f h.1 e)

  set_active-Mirrors :
      (new : Person) (ps : List Person) (fs : List (Face F))
      → MirrorsIn ps fs
      → MirrorsIn (replace_row (person_is new.id) new ps) (set_active new.id new.is_active fs)
  set_active-Mirrors new ps [] h = tt
  set_active-Mirrors new ps (f ∷ fs) h = (
    ground (arith, active_of-replace f.person_id new ps {b = f.is_active}),
    set_active-Mirrors new ps fs h.1,
  )

  keep_active-Mirrors :
      (new : Person) (ps : List Person) (fs : List (Face F))
      → MirrorsIn ps fs
      → ((b : Bool) → active_of new.id ps ≡ some b → b ≡ new.is_active)
      → MirrorsIn (replace_row (person_is new.id) new ps) fs
  keep_active-Mirrors new ps [] h e = tt
  keep_active-Mirrors new ps (f ∷ fs) h e = (
    ground (
      arith,
      active_of-replace f.person_id new ps {b = f.is_active},
      nat_beq_iff new.id f.person_id,
      e f.is_active,
    ),
    keep_active-Mirrors new ps fs h.1 e,
  )

  pub replace_row-Mirrors :
      (ps : List Person) (fs : List (Face F)) (f : Face F)
      → active_of f.person_id ps ≡ some f.is_active
      → MirrorsIn ps fs
      → MirrorsIn ps (replace_row (face_is f.id) f fs)
  unfolding replace_row
  replace_row-Mirrors ps [] f e h = tt
  replace_row-Mirrors ps (g ∷ fs) f e h = elim (Bool-cases (face_is f.id g)) [
    | inl here ↦ rw here (e, h.1)
    | inr later ↦ rw later (h.0, replace_row-Mirrors ps fs f e h.1)
  ]

  -- A new row at the end of the table of persons hides no other.
  add-Mirrors :
      (ps : List Person) (p : Person) (fs : List (Face F))
      → MirrorsIn ps fs
      → MirrorsIn (ps ++ p ∷ []) fs
  add-Mirrors ps p fs h =
      All-map _ _ fs (λ f e. active_of-append f.person_id ps (p ∷ []) {b = f.is_active} e) h

  pub Mirrors-intro :
      (db : Database F) (ps : List Person) (fs : List (Face F))
      → db.persons ≡ ps
      → db.faces ≡ fs
      → MirrorsIn ps fs
      → Mirrors db
  Mirrors-intro db ps fs p q h = rw (p, q) h

  -- The statements of the repositories keep the mirror.

  pub insert_person-Mirrors :
      (external_id : Option String) (full_name meta : String)
      → Writes Mirrors (insert_person {F = F} external_id full_name meta)
  unfolding insert_person
  insert_person-Mirrors external_id full_name meta db a db' h e =
      Mirrors-intro db' (db.persons ++ a ∷ []) db.faces (ground arith) (ground arith)
        (add-Mirrors db.persons a db.faces h)

  pub write_person-Mirrors : (p : Person) → Writes Mirrors (write_person {F = F} p)
  unfolding write_person
  write_person-Mirrors p db a db' h e =
      let new : Person = record p { updated_at = db.now } in
      elim (Option-cases (active_of p.id db.persons)) [
        | inl missing ↦
            Mirrors-intro db' (replace_row (person_is p.id) new db.persons) db.faces (ground arith)
              (ground arith)
              (keep_active-Mirrors new db.persons db.faces h (λ b f. cc (missing, f)))
        | inr (old, found) ↦ elim (Bool-cases (differ old p.is_active)) [
          | inl changed ↦
              Mirrors-intro db' (replace_row (person_is p.id) new db.persons)
                (set_active p.id p.is_active db.faces) (ground arith) (ground arith)
                (set_active-Mirrors new db.persons db.faces h)
          | inr same ↦
              Mirrors-intro db' (replace_row (person_is p.id) new db.persons) db.faces
                (ground arith) (ground arith)
                (keep_active-Mirrors new db.persons db.faces h (λ b f. ground arith))
        ]
      ]

  pub remove_person-Mirrors : (id : Uuid) → Writes Mirrors (remove_person {F = F} id)
  unfolding remove_person
  remove_person-Mirrors id db a db' h e =
      Mirrors-intro db' _ _ (ground arith) (ground arith) (select-Mirrors id db.persons db.faces h)

  pub insert_face-Mirrors : (n : NewFace F) → Writes Mirrors (insert_face n)
  unfolding insert_face
  insert_face-Mirrors n db a db' h e = elim (Option-cases (active_of n.person_id db.persons)) [
    | inl missing ↦ ground arith
    | inr (active, found) ↦
        Mirrors-intro db' db.persons (db.faces ++ a ∷ []) (ground arith) (ground arith)
          (append-Mirrors db.persons db.faces a h (ground arith))
  ]

  pub remove_face-Mirrors : (id : Uuid) → Writes Mirrors (remove_face {F = F} id)
  unfolding remove_face
  remove_face-Mirrors id db a db' h e =
      Mirrors-intro db' db.persons _ (ground arith) (ground arith)
        (select-All _ (λ f. not (face_is id f)) db.faces h)

  pub insert_log-Mirrors : (l : LogEntry F) → Writes Mirrors (insert_log l)
  unfolding insert_log
  insert_log-Mirrors l db a db' h e =
      Mirrors-intro db' db.persons db.faces (ground arith) (ground arith) h

  pub data-Mirrors : DataWrites {F = F} Mirrors
  data-Mirrors = record {
    person_inserted = insert_person-Mirrors;
    person_written = write_person-Mirrors;
    person_removed = remove_person-Mirrors;
    face_inserted = insert_face-Mirrors;
    face_removed = remove_face-Mirrors;
    log_inserted = insert_log-Mirrors;
    ids_drawn = λ db n h. h;
  }
