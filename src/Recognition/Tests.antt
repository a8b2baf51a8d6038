-- ===== src/Recognition/Tests.antt =====
-- Requests on the sample gallery.
use face_recognition.Prelude.{
  ◌≤◌, ◌≡◌, refl, ◌⊎◌, true, false, none, some, List, [], ◌∷◌, ◌++◌, length, All,
}
use face_recognition.Prelude.Int.{ℤ, pos, ◌-ℤ◌}
use face_recognition.Prelude.Float.{whole-IsOrdered}
use face_recognition.Core.Errors.{Exn, ok, raise}
use face_recognition.Store.Rows.{RecognitionLog}
use face_recognition.Store.Session.{get_db}
use face_recognition.Store.Persons.{any, person_by_id}
use face_recognition.Store.Mirror.{Mirrors}
use face_recognition.Vision.Pipeline.{
  decode_image, process_largest, check_quality, embed, embed_face,
}
use face_recognition.Recognition.Types.{
  SearchResponse, ExternalSearchResponse, VerifyResponse, is_some, map_option, head?,
}
use face_recognition.Recognition.Match.{search_gallery, identify_top1, verify}
use face_recognition.Recognition.Matching.{clears_face}
use face_recognition.Recognition.Calls.{
  ServiceCall, search_call, verify_call, register_call, request, requests,
}
use face_recognition.Recognition.Flags.{requests-Mirrors}
use face_recognition.Recognition.Audit.{request_logs}
use face_recognition.Recognition.Answers.{
  IsMatch, search_gallery_sound, identify_top1-search_gallery,
}
use face_recognition.Recognition.Verify.{own_faces, verify_decides}
use face_recognition.Samples.{
  service, gallery, gallery-Mirrors, result, person, vectors-IsSound, whole-IsAntitone,
}

decoded : decode_image service.cv (3 ∷ []) ≡ ok 3
unfolding decode_image
decoded = refl

processed : process_largest service.float service.parts 3 ≡ ok result
unfolding process_largest embed_face check_quality embed ◌-ℤ◌
processed = refl

found : person_by_id 1 gallery.persons ≡ some (person 1 "Ann" true)
unfolding person_by_id
found = refl

search_gallery_sound_example :
    (resp : SearchResponse ℤ) × ((get_db (search_gallery service (3 ∷ []) (some 2)) gallery).0
      ≡ ok resp)
    × All (IsMatch service gallery (3 ∷ []) 3 result decoded processed) resp.matches
    × (length resp.matches ≤ 2)
search_gallery_sound_example =
    search_gallery_sound service gallery (3 ∷ []) 3 result decoded processed whole-IsOrdered
      whole-IsAntitone vectors-IsSound gallery-Mirrors (some 2)

identify_top1-search_gallery_example :
    (resp : SearchResponse ℤ) × (ext : ExternalSearchResponse ℤ) × ((get_db
        (search_gallery service (3 ∷ []) (some 3))
        gallery).0
      ≡ ok resp)
    × ((get_db (identify_top1 service (3 ∷ [])) gallery).0 ≡ ok ext)
    × (ext.matched ≡ is_some (head? resp.matches))
    × (ext.person_id ≡ map_option (λ m. m.person_id) (head? resp.matches))
    × (ext.full_name ≡ map_option (λ m. m.full_name) (head? resp.matches))
    × (ext.similarity ≡ map_option (λ m. m.similarity_score) (head? resp.matches))
identify_top1-search_gallery_example =
    identify_top1-search_gallery service gallery (3 ∷ []) 3 result decoded processed whole-IsOrdered
      whole-IsAntitone 2

verify_decides_example :
    (resp : VerifyResponse ℤ) × ((get_db (verify service 1 (3 ∷ [])) gallery).0 ≡ ok resp)
    × (resp.matched
        ≡ any (clears_face service (pos 7 ∷ [])) (own_faces service gallery 1 (3 ∷ []) result))
    × (resp.matched ≡ false → resp.matched_face_id ≡ none)
    × (resp.person_id ≡ 1)
verify_decides_example =
    verify_decides service gallery 1 (3 ∷ []) (person 1 "Ann" true) 3 result found decoded processed
      whole-IsOrdered whole-IsAntitone refl

abbrev calls : List ServiceCall
calls = register_call 1 (3 ∷ []) none ∷ verify_call 2 (3 ∷ []) ∷ search_call [] none ∷ []

requests-Mirrors_example : Mirrors (requests service calls gallery)
requests-Mirrors_example = requests-Mirrors service calls gallery gallery-Mirrors

request_logs_example :
    ((l : RecognitionLog ℤ) × ((request service (verify_call 1 (3 ∷ [])) gallery).0 ≡ ok tt)
      × ((request service (verify_call 1 (3 ∷ [])) gallery).1.logs ≡ [] ++ l ∷ [])
      × (l.user_id ≡ some "ann"))
    ⊎ ((x : Exn) × (request service (verify_call 1 (3 ∷ [])) gallery ≡ (raise x, gallery)))
request_logs_example = request_logs service (verify_call 1 (3 ∷ [])) gallery
