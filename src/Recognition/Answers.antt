-- ===== src/Recognition/Answers.antt =====
-- The answers of whole requests for verification and identification.
use face_recognition.Prelude.{
  ℕ, suc, ◌≤◌, ◌≡◌, refl, true, Option, none, some, List, [], ◌∷◌, select, take, length, All,
  length-map, length-select-le, arith, Bool-cases, inl, inr,
}
use face_recognition.Prelude.Float.{IsOrdered}
use face_recognition.Core.Errors.{ok}
use face_recognition.Store.Rows.{Bytes, Database}
use face_recognition.Store.Session.{run_session, get_db}
use face_recognition.Store.Faces.{record_log, insert_log}
use face_recognition.Store.Search.{
  SearchRow, IsSound, search_rows, ranked_rows, literal, ann_search,
}
use face_recognition.Store.Ranking.{IsAntitone, IsHit, search_rows_ranked, ranked_rows-IsSorted}
use face_recognition.Store.Mirror.{Mirrors}
use face_recognition.Vision.Types.{FaceResult}
use face_recognition.Vision.Pipeline.{decode_image, process_largest}
use face_recognition.Recognition.Types.{
  Service, SearchMatch, SearchResponse, ExternalSearchResponse, or_default, head?, map_option,
  is_some,
}
use face_recognition.Recognition.Match.{
  clears, matches_of, to_match, best_above, search_gallery, identify_top1,
}
use face_recognition.Recognition.Matching.{best_above-matches_of}

module _ {F I : Type 0} (s : Service F I) (db : Database F) (bytes : Bytes) where
  -- The rows of a search for a face.
  abbrev pub rows_for : FaceResult F → ℕ → List (SearchRow F)
  rows_for result k =
      search_rows s.float s.vectors s.settings.hnsw_ef_search
        (literal s.float s.vectors result.embedding) k true db

  module _ (image : I) (result : FaceResult F) (decoded : decode_image s.cv bytes ≡ ok image)
      (processed : process_largest s.float s.parts image ≡ ok result) where
    search_gallery_lem :
        (k : Option ℕ)
        → (get_db (search_gallery s bytes k) db).0
          ≡ ok (record {
            matches = matches_of s (rows_for result (or_default k s.settings.search_top_k));
            threshold = s.settings.recognition_threshold;
            query_confidence = result.detection.score;
          })
    unfolding search_gallery run_session ann_search record_log insert_log
    search_gallery_lem k = ground arith

    identify_top1_lem :
        (get_db (identify_top1 s bytes) db).0
        ≡ ok (
            let best = best_above s (rows_for result 1) in
            record {
              matched = is_some best;
              person_id = map_option (λ r. r.person_id) best;
              full_name = map_option (λ r. r.full_name) best;
              similarity = map_option (λ r. s.float.round6 r.similarity) best;
              threshold = s.settings.recognition_threshold;
            })
    unfolding identify_top1 run_session ann_search record_log insert_log
    identify_top1_lem = ground arith

    -- An entry of the answer comes from a stored face of an active person that clears the threshold.
    abbrev pub IsMatch : SearchMatch F → Type 0
    IsMatch m =
        (r : SearchRow F) × IsHit s.float s.vectors db (literal s.float s.vectors result.embedding)
          r
        × (clears s r.similarity ≡ true)
        × (m ≡ to_match s r)

    to_match-IsMatch :
        (rows : List (SearchRow F))
        → All (IsHit s.float s.vectors db (literal s.float s.vectors result.embedding)) rows
        → All IsMatch (matches_of s rows)
    to_match-IsMatch [] h = tt
    to_match-IsMatch (r ∷ rows) h = elim (Bool-cases (clears s r.similarity)) [
      | inl clear ↦ rw clear ((r, h.0, clear, refl), to_match-IsMatch rows h.1)
      | inr below ↦ rw below (to_match-IsMatch rows h.1)
    ]

    -- The 1:N search of a decodable image with a usable face answers; every match is of a stored
    -- face of an active person that clears the threshold, under that person's name and with the
    -- face's own similarity, rounded, and there are at most as many matches as were asked for (or
    -- the configured number). The faces must carry their persons' flags, the index invent no row,
    -- and the floats be ordered.
    pub search_gallery_sound :
        IsOrdered s.float
        → IsAntitone s.float
        → IsSound s.vectors
        → Mirrors db
        → (k : Option ℕ)
        → (resp : SearchResponse F) × ((get_db (search_gallery s bytes k) db).0 ≡ ok resp)
          × All IsMatch resp.matches
          × (length resp.matches ≤ or_default k s.settings.search_top_k)
    search_gallery_sound ordered antitone sound mirrors k =
        let n = or_default k s.settings.search_top_k in
        let ranked =
          search_rows_ranked s.float s.vectors ordered antitone sound s.settings.hnsw_ef_search n
            (literal s.float s.vectors result.embedding) db mirrors in
        (
          _,
          search_gallery_lem k,
          to_match-IsMatch (rows_for result n) ranked.0,
          omega (
            arith,
            ranked.2,
            length-map (select (λ r. clears s r.similarity) (rows_for result n)) (to_match s),
            length-select-le (λ r. clears s r.similarity) (rows_for result n),
          ),
        )

    same_answer :
        (best : Option (SearchRow F)) (m : Option (SearchMatch F))
        → m ≡ map_option (to_match s) best
        → (is_some best ≡ is_some m)
          × (map_option (λ r. r.person_id) best ≡ map_option (λ m. m.person_id) m)
          × (map_option (λ r. r.full_name) best ≡ map_option (λ m. m.full_name) m)
          × (map_option (λ r. s.float.round6 r.similarity) best
              ≡ map_option (λ m. m.similarity_score) m)
    same_answer none m e = rw e (refl, refl, refl, refl)
    same_answer (some r) m e = rw e (refl, refl, refl, refl)

    -- The third-party search names the person, the name and the rounded similarity of the first
    -- match that the 1:N search of the same image would list, and no one where that lists none.
    -- The image must decode to one with a usable face, the number asked for be positive, and the
    -- floats be ordered.
    pub identify_top1-search_gallery :
        IsOrdered s.float
        → IsAntitone s.float
        → (k : ℕ)
        → (resp : SearchResponse F) × (ext : ExternalSearchResponse F) × ((get_db
              (search_gallery s bytes (some (suc k)))
              db).0
            ≡ ok resp)
          × ((get_db (identify_top1 s bytes) db).0 ≡ ok ext)
          × (ext.matched ≡ is_some (head? resp.matches))
          × (ext.person_id ≡ map_option (λ m. m.person_id) (head? resp.matches))
          × (ext.full_name ≡ map_option (λ m. m.full_name) (head? resp.matches))
          × (ext.similarity ≡ map_option (λ m. m.similarity_score) (head? resp.matches))
    identify_top1-search_gallery ordered antitone k =
        let rows =
          ranked_rows s.float s.vectors s.settings.hnsw_ef_search
            (literal s.float s.vectors result.embedding) true db in
        let best =
          best_above-matches_of s ordered k rows
            (ranked_rows-IsSorted s.float s.vectors ordered antitone _ _ true db) in
        let same = same_answer (best_above s (take 1 rows)) _ best in
        (_, _, search_gallery_lem (some (suc k)), identify_top1_lem, same.0, same.1, same.2, same.3)
