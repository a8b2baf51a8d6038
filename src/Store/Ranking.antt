-- ===== src/Store/Ranking.antt =====
-- What the vector queries of app/repositories/face_repo.py return, whatever rows the index finds.
use face_recognition.Prelude.{
  ℕ, ◌≤◌, ◌≡◌, Bool, true, some, List, [], ◌∷◌, nat_beq_iff, nat_beq_iff, select, length, All,
  length-take-le, arith, Option-cases, inl, inr,
}
use face_recognition.Prelude.Int.{pos}
use face_recognition.Prelude.Float.{Float, IsOrdered}
use face_recognition.Prelude.Sort.{
  IsSorted, IsIn, All-IsIn, All-both, All-map, select-All, select-passes, sort_by-All,
  sort_by-IsSorted, take-All, take-IsSorted, filter_map-All, filter_map-IsSorted,
}
use face_recognition.Store.Rows.{Uuid, Person, Face, Database}
use face_recognition.Store.Persons.{active_of, person_by_id}
use face_recognition.Store.Search.{
  Pgvector, IsSound, SearchRow, similarity_of, nearer, search_row, searchable, ranked_rows,
  search_rows,
}
use face_recognition.Store.Mirror.{Mirrors}

-- A larger distance is a smaller similarity.
abbrev pub IsAntitone : {F : Type 0} → Float F → Type 0
IsAntitone {F} fl = (a d e : F) → fl.le d e ≡ true → fl.le (fl.sub a e) (fl.sub a d) ≡ true

pub person_by_id-id :
    (id : Uuid) (ps : List Person) {p : Person} → person_by_id id ps ≡ some p → p.id ≡ id
unfolding person_by_id
person_by_id-id id [] {p} e = absurd (cc e)
person_by_id-id id (q ∷ ps) {p} e =
    ground (arith, person_by_id-id id ps {p = p}, nat_beq_iff q.id id)

pub active_of-person :
    (id : Uuid) (ps : List Person) {p : Person}
    → person_by_id id ps ≡ some p
    → active_of id ps ≡ some p.is_active
unfolding active_of person_by_id
active_of-person id [] {p} e = cc
active_of-person id (q ∷ ps) {p} e = ground (arith, active_of-person id ps {p = p})

module _ {F : Type 0} (fl : Float F) (pg : Pgvector F) where
  -- A stored face of an active person, with that person's name and the measured similarity.
  pub record IsHit (db : Database F) (q : List F) (r : SearchRow F) : Type 0 where
    pub face : Face F
    pub stored : IsIn face db.faces
    pub owner : Person
    pub owned : person_by_id r.person_id db.persons ≡ some owner
    pub active : owner.is_active ≡ true
    pub of_owner : face.person_id ≡ r.person_id
    pub identity : face.id ≡ r.face_id
    pub name : r.full_name ≡ owner.full_name
    pub measured : r.similarity ≡ similarity_of fl pg q face

  -- What is known of a row of the table `faces` that is active.
  abbrev Known : Database F → Face F → Type 0
  Known db f =
      IsIn f db.faces × (active_of f.person_id db.persons ≡ some f.is_active) × (f.is_active ≡ true)

  search_row-IsHit :
      (db : Database F) (q : List F) (f : Face F) (r : SearchRow F)
      → Known db f
      → search_row fl pg q db.persons f ≡ some r
      → IsHit db q r
  search_row-IsHit db q f r k e = elim (Option-cases (person_by_id f.person_id db.persons)) [
    | inl missing ↦ absurd (ground arith)
    | inr (p, found) ↦
        let flag = active_of-person f.person_id db.persons found in
        record {
          face = f;
          stored = k.0;
          owner = p;
          owned = ground arith;
          active = ground arith;
          of_owner = ground arith;
          identity = ground arith;
          name = ground arith;
          measured = ground arith;
        }
  ]

  scanned-Known :
      (sound : IsSound pg) (ef : ℕ) (q : List F) (db : Database F)
      → Mirrors db
      → All (Known db) (pg.scan ef q (searchable true db.faces))
  scanned-Known sound ef q db h =
      sound.scan-All (Known db) ef q (select (λ f. f.is_active) db.faces) (
        All-map _ _ _ (λ f k. (k.0.0, k.0.1, k.1))
          (All-both _ _ _
            (select-All _ (λ f. f.is_active) db.faces (All-both _ _ db.faces (All-IsIn db.faces) h))
            (select-passes (λ f. f.is_active) db.faces)))

  -- `ORDER BY similarity DESC`
  abbrev pub more_similar : SearchRow F → SearchRow F → Bool
  more_similar r t = fl.le t.similarity r.similarity

  module _ (ordered : IsOrdered fl) (antitone : IsAntitone fl) where
    search_row-more_similar :
        (ps : List Person) (q : List F) (f g : Face F) (r t : SearchRow F)
        → search_row fl pg q ps f ≡ some r
        → search_row fl pg q ps g ≡ some t
        → nearer fl pg q f g ≡ true
        → more_similar r t ≡ true
    search_row-more_similar ps q f g r t e d near =
        elim (Option-cases (person_by_id f.person_id ps)) [
          | inl missing ↦ absurd (ground arith)
          | inr (p, found) ↦ elim (Option-cases (person_by_id g.person_id ps)) [
            | inl missing ↦ absurd (ground arith)
            | inr (o, found') ↦ ground (
              arith,
              antitone (fl.of_int (pos 1)) (pg.distance f.embedding q) (pg.distance g.embedding q),
            )
          ]
        ]

    pub ranked_rows-IsSorted :
        (ef : ℕ) (q : List F) (only_active : Bool) (db : Database F)
        → IsSorted more_similar (ranked_rows fl pg ef q only_active db)
    unfolding ranked_rows
    ranked_rows-IsSorted ef q only_active db =
        filter_map-IsSorted (search_row fl pg q db.persons) (nearer fl pg q) more_similar _
          (search_row-more_similar db.persons q)
          (sort_by-IsSorted (nearer fl pg q) (λ f g k. ordered.le_trans _ _ _)
            (λ f g. ordered.le_total _ _) (pg.scan ef q (searchable only_active db.faces)))

    ranked_rows-IsHit :
        (sound : IsSound pg) (ef : ℕ) (q : List F) (db : Database F)
        → Mirrors db
        → All (IsHit db q) (ranked_rows fl pg ef q true db)
    unfolding ranked_rows
    ranked_rows-IsHit sound ef q db h =
        filter_map-All (search_row fl pg q db.persons) (Known db) (IsHit db q) _
          (search_row-IsHit db q) (sort_by-All _ (nearer fl pg q) _ (scanned-Known sound ef q db h))

    -- Where faces carry their persons' flags, the index invents no row and the floats are
    -- ordered, an active-only search returns at most `top_k` rows, the most similar first; each
    -- tells of a stored face of an active person, under that person's name, with the face's own
    -- similarity to the query.
    pub search_rows_ranked :
        (sound : IsSound pg) (ef top_k : ℕ) (q : List F) (db : Database F)
        → Mirrors db
        → All (IsHit db q) (search_rows fl pg ef q top_k true db)
          × IsSorted more_similar (search_rows fl pg ef q top_k true db)
          × (length (search_rows fl pg ef q top_k true db) ≤ top_k)
    search_rows_ranked sound ef top_k q db h = (
      take-All _ top_k _ (ranked_rows-IsHit sound ef q db h),
      take-IsSorted _ top_k _ (ranked_rows-IsSorted ef q true db),
      length-take-le top_k _,
    )
