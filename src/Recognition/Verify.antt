-- ===== src/Recognition/Verify.antt =====
-- The answers of 1:1 verification, and what enrollment stores.
use face_recognition.Prelude.{
  ◌≡◌, refl, false, none, some, List, nat_beq, select, arith, if◌then◌else◌,
}
use face_recognition.Prelude.Int.{pos}
use face_recognition.Prelude.Float.{IsOrdered}
use face_recognition.Core.Errors.{ok}
use face_recognition.Store.Rows.{Uuid, Bytes, Person, Face, Database}
use face_recognition.Store.Session.{run_session, get_db}
use face_recognition.Store.Persons.{person_by_id, get_person, any}
use face_recognition.Store.Faces.{record_log, insert_log}
use face_recognition.Store.Search.{literal, best_match_for_person, best_row}
use face_recognition.Store.Ranking.{person_by_id-id, IsAntitone}
use face_recognition.Vision.Types.{FaceResult}
use face_recognition.Vision.Pipeline.{decode_image, process_largest}
use face_recognition.Recognition.Types.{Service, VerifyResponse}
use face_recognition.Recognition.Match.{clears, verify, similarity_or_zero, matched_id}
use face_recognition.Recognition.Matching.{best_clears, clears_face}

module _ {F I : Type 0} (s : Service F I) (db : Database F) (id : Uuid) (bytes : Bytes) where
  -- The rows of the person's faces that the index finds near the face.
  abbrev pub own_faces : FaceResult F → List (Face F)
  own_faces result =
      select (λ f. nat_beq f.person_id id)
        (s.vectors.scan s.settings.hnsw_ef_search (literal s.float s.vectors result.embedding)
          db.faces)

  module _ (p : Person) (image : I) (result : FaceResult F)
      (found : person_by_id id db.persons ≡ some p)
      (decoded : decode_image s.cv bytes ≡ ok image) where
    verify_lem :
        process_largest s.float s.parts image ≡ ok result
        → (get_db (verify s id bytes) db).0
          ≡ ok (
              let best =
                best_row s.float s.vectors s.settings.hnsw_ef_search p.id
                  (literal s.float s.vectors result.embedding)
                  db in
              let matched = clears s (similarity_or_zero s best) in
              record {
                matched = matched;
                similarity_score = s.float.round6 (similarity_or_zero s best);
                threshold = s.settings.recognition_threshold;
                person_id = p.id;
                matched_face_id = if matched then matched_id s best else none;
              })
    unfolding verify run_session get_person best_match_for_person record_log insert_log
    verify_lem processed = ground arith

    -- The 1:1 verification of a usable image of a person on record accepts exactly when one of the
    -- faces of that person which the index finds clears the threshold; a rejected one names no face.
    -- Similarity 0 must not clear the threshold, and the floats be ordered.
    pub verify_decides :
        process_largest s.float s.parts image ≡ ok result
        → IsOrdered s.float
        → IsAntitone s.float
        → clears s (s.float.of_int (pos 0)) ≡ false
        → (resp : VerifyResponse F) × ((get_db (verify s id bytes) db).0 ≡ ok resp)
          × (resp.matched
              ≡ any (clears_face s (literal s.float s.vectors result.embedding)) (own_faces result))
          × (resp.matched ≡ false → resp.matched_face_id ≡ none)
          × (resp.person_id ≡ id)
    unfolding best_row
    verify_decides processed ordered antitone zero_below = (
      _,
      verify_lem processed,
      rw (person_by_id-id id db.persons found) (
          best_clears s ordered antitone (literal s.float s.vectors result.embedding)
            (own_faces result) zero_below),
      (λ rejected. rw rejected refl),
      person_by_id-id id db.persons found,
    )
