-- ===== src/Store/Tests.antt =====
-- The search on the sample gallery.
use face_recognition.Prelude.{◌≡◌, ◌≤◌, refl, true, [], ◌∷◌, map, length, All}
use mathlib.Core.List.{filter_map}
use face_recognition.Prelude.Int.{pos, ◌-ℤ◌}
use face_recognition.Prelude.Float.{whole, whole-IsOrdered}
use face_recognition.Prelude.Sort.{IsSorted, sort_by}
use face_recognition.Store.Persons.{person_by_id}
use face_recognition.Store.Search.{search_rows, ranked_rows}
use face_recognition.Store.Ranking.{IsHit, more_similar, search_rows_ranked}
use face_recognition.Samples.{gallery, vectors, vectors-IsSound, whole-IsAntitone, gallery-Mirrors}

-- The nearer of Ann's faces comes first, and Bob's is not found.
found :
    map (λ r. r.face_id) (search_rows whole vectors 80 (pos 7 ∷ []) 5 true gallery) ≡ 12 ∷ 11 ∷ []
unfolding ranked_rows filter_map sort_by ◌-ℤ◌ person_by_id
found = refl

search_rows_ranked_example :
    All
      (IsHit whole vectors gallery (pos 7 ∷ []))
      (search_rows whole vectors 80 (pos 7 ∷ []) 1 true gallery)
    × IsSorted
        (more_similar whole vectors)
        (search_rows whole vectors 80 (pos 7 ∷ []) 1 true gallery)
    × (length (search_rows whole vectors 80 (pos 7 ∷ []) 1 true gallery) ≤ 1)
search_rows_ranked_example =
    search_rows_ranked whole vectors whole-IsOrdered whole-IsAntitone vectors-IsSound 80 1
      (pos 7 ∷ []) gallery gallery-Mirrors
