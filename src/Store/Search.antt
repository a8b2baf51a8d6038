-- ===== src/Store/Search.antt =====
-- The vector queries of app/repositories/face_repo.py. pgvector is a parameter: its distance, and
-- the access path by which PostgreSQL finds rows near a vector. An HNSW index is approximate, so
-- the path may miss rows; `ORDER BY` and `LIMIT` then work on the rows that it finds.
use face_recognition.Prelude.{
  ℕ, Bool, String, Option, none, some, List, [], ◌∷◌, map, nat_beq, take, select, All,
  if◌then◌else◌,
}
use mathlib.Core.List.{filter_map}
use face_recognition.Prelude.Int.{pos}
use face_recognition.Prelude.Float.{Float}
use face_recognition.Prelude.Sort.{sort_by}
use face_recognition.Store.Rows.{Uuid, Person, Face, Database}
use face_recognition.Store.Persons.{person_by_id}
use face_recognition.Store.Session.{Action, query}

pub record Pgvector (F : Type 0) : Type 0 where
  -- the operator `<=>`
  pub distance : List F → List F → F
  -- the rows that a scan near a vector finds, under `hnsw.ef_search`
  pub scan : ℕ → List F → List (Face F) → List (Face F)

-- A scan invents no row.
pub record IsSound {F : Type 0} (pg : Pgvector F) : Type 1 where
  pub scan-All :
      (P : Face F → Type 0) (ef : ℕ) (q : List F) (rows : List (Face F))
      → All P rows
      → All P (pg.scan ef q rows)

pub record SearchRow (F : Type 0) : Type 0 where
  pub face_id : Uuid
  pub person_id : Uuid
  pub full_name : String
  pub similarity : F

-- The rows that the query of `search` may use: those of active faces, if it says so. The partial
-- index holds just these.
abbrev pub searchable : {F : Type 0} → Bool → List (Face F) → List (Face F)
searchable only_active faces = if only_active then select (λ f. f.is_active) faces else faces

module _ {F : Type 0} (fl : Float F) (pg : Pgvector F) where
  -- `query_vec`
  abbrev pub literal : List F → List F
  literal = map fl.fixed8

  -- `1 - (f.embedding <=> :query_vec)`
  abbrev pub similarity_of : List F → Face F → F
  similarity_of q f = fl.sub (fl.of_int (pos 1)) (pg.distance f.embedding q)

  -- `ORDER BY f.embedding <=> :query_vec`
  abbrev pub nearer : List F → Face F → Face F → Bool
  nearer q f g = fl.le (pg.distance f.embedding q) (pg.distance g.embedding q)

  -- The row of the join, and of the result.
  abbrev pub search_row : List F → List Person → Face F → Option (SearchRow F)
  search_row q ps f = elim (person_by_id f.person_id ps) [
    | none ↦ none
    | some p ↦ some (record {
      face_id = f.id;
      person_id = f.person_id;
      full_name = p.full_name;
      similarity = similarity_of q f;
    })
  ]

  -- `SELECT … ORDER BY …`, on the query's vector as the literal holds it.
  unfoldable pub ranked_rows : ℕ → List F → Bool → Database F → List (SearchRow F)
  ranked_rows ef q only_active db =
      filter_map (search_row q db.persons)
        (sort_by (nearer q) (pg.scan ef q (searchable only_active db.faces)))

  -- `LIMIT :top_k`
  abbrev pub search_rows : ℕ → List F → ℕ → Bool → Database F → List (SearchRow F)
  search_rows ef q top_k only_active db = take top_k (ranked_rows ef q only_active db)

  unfoldable pub ann_search : ℕ → List F → ℕ → Bool → Action F (List (SearchRow F))
  unfolding ranked_rows
  ann_search ef embedding top_k only_active =
      query (search_rows ef (literal embedding) top_k only_active)

  abbrev pub first_match : List F → List (Face F) → Option (Uuid × F)
  first_match q [] = none
  first_match q (f ∷ fs) = some (f.id, similarity_of q f)

  unfoldable pub best_row : ℕ → Uuid → List F → Database F → Option (Uuid × F)
  best_row ef person_id q db =
      first_match q
        (sort_by (nearer q) (select (λ f. nat_beq f.person_id person_id) (pg.scan ef q db.faces)))

  unfoldable pub best_match_for_person : ℕ → Uuid → List F → Action F (Option (Uuid × F))
  unfolding best_row
  best_match_for_person ef person_id embedding = query (best_row ef person_id (literal embedding))
