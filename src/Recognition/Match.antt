-- ===== src/Recognition/Match.antt =====
-- app/services/recognition_service.py: verification (1:1) and identification (1:N).
use face_recognition.Prelude.{
  ℕ, Bool, true, Option, none, some, List, [], ◌∷◌, map, select, if◌then◌else◌,
}
use face_recognition.Prelude.Int.{pos}
use face_recognition.Store.Rows.{Uuid, Bytes, RecognitionAction}
use face_recognition.Store.Session.{Action, pure, lift, ◌>>=◌, ◌>>◌}
use face_recognition.Store.Persons.{get_person}
use face_recognition.Store.Faces.{record_log}
use face_recognition.Store.Search.{SearchRow, ann_search, best_match_for_person}
use face_recognition.Vision.Pipeline.{decode_image, process_largest}
use face_recognition.Recognition.Types.{
  Service, VerifyResponse, SearchMatch, SearchResponse, ExternalSearchResponse, is_some, map_option,
  or_default, head?, person_or_raise, entry,
}

module _ {F I : Type 0} (s : Service F I) where
  -- `similarity, matched_face_id`
  abbrev pub similarity_or_zero : Option (Uuid × F) → F
  similarity_or_zero none = s.float.of_int (pos 0)
  similarity_or_zero (some (id, similarity)) = similarity

  abbrev pub matched_id : Option (Uuid × F) → Option Uuid
  matched_id none = none
  matched_id (some (id, similarity)) = some id

  -- `similarity >= threshold`
  abbrev pub clears : F → Bool
  clears similarity = s.float.le s.settings.recognition_threshold similarity

  unfoldable pub verify : Uuid → Bytes → Action F (VerifyResponse F)
  verify person_id image_bytes = do
    found ← get_person person_id
    person ← person_or_raise person_id found
    image ← lift (decode_image s.cv image_bytes)
    result ← lift (process_largest s.float s.parts image)
    best ←
        best_match_for_person s.float s.vectors s.settings.hnsw_ef_search person.id result.embedding
    let similarity = similarity_or_zero best
    let matched = clears similarity
    record_log (
        entry s RecognitionAction.verify (some person.id) (matched_id best) (some similarity)
          matched none)
    pure (record {
      matched = matched;
      similarity_score = s.float.round6 similarity;
      threshold = s.settings.recognition_threshold;
      person_id = person.id;
      matched_face_id = if matched then matched_id best else none;
    })

  abbrev pub to_match : SearchRow F → SearchMatch F
  to_match r = record {
    person_id = r.person_id;
    face_id = r.face_id;
    full_name = r.full_name;
    similarity_score = s.float.round6 r.similarity;
  }

  abbrev pub matches_of : List (SearchRow F) → List (SearchMatch F)
  matches_of rows = map to_match (select (λ r. clears r.similarity) rows)

  unfoldable pub search_gallery : Bytes → Option ℕ → Action F (SearchResponse F)
  search_gallery image_bytes top_k = do
    image ← lift (decode_image s.cv image_bytes)
    result ← lift (process_largest s.float s.parts image)
    rows ←
        ann_search s.float s.vectors s.settings.hnsw_ef_search result.embedding
          (or_default top_k s.settings.search_top_k) true
    let best = head? (matches_of rows)
    record_log (
        entry s RecognitionAction.search (map_option (λ m. m.person_id) best)
          (map_option (λ m. m.face_id) best) (map_option (λ m. m.similarity_score) best)
          (is_some best) none)
    pure (record {
      matches = matches_of rows;
      threshold = s.settings.recognition_threshold;
      query_confidence = result.detection.score;
    })

  -- `rows[0] if rows and rows[0].similarity >= threshold else None`
  abbrev pub best_above : List (SearchRow F) → Option (SearchRow F)
  best_above [] = none
  best_above (r ∷ rows) = if clears r.similarity then some r else none

  unfoldable pub identify_top1 : Bytes → Action F (ExternalSearchResponse F)
  identify_top1 image_bytes = do
    image ← lift (decode_image s.cv image_bytes)
    result ← lift (process_largest s.float s.parts image)
    rows ← ann_search s.float s.vectors s.settings.hnsw_ef_search result.embedding 1 true
    let best = best_above rows
    record_log (
        entry s RecognitionAction.search (map_option (λ r. r.person_id) best)
          (map_option (λ r. r.face_id) best) (map_option (λ r. r.similarity) best) (is_some best)
          none)
    pure (record {
      matched = is_some best;
      person_id = map_option (λ r. r.person_id) best;
      full_name = map_option (λ r. r.full_name) best;
      similarity = map_option (λ r. s.float.round6 r.similarity) best;
      threshold = s.settings.recognition_threshold;
    })
