-- ===== src/Api/Pages.antt =====
-- Walking the pages of the gallery.
use mathlib.Core.List.{Perm, filter_map, filter_map-cons-some}
use mathlib.Core.List.Perm
use face_recognition.Prelude.{
  ℕ, zero, suc, ◌+◌, ◌*◌, ◌≤◌, ◌≡◌, refl, sym, ap, ◌∙◌, inl, inr, Bool, true, String, Option, none,
  some, List, [], ◌∷◌, ◌++◌, map, arith, leb, length, take, drop, take_all, take-append-drop,
  drop-drop, map-take, map-drop, length-map, nat_beq, Bool-cases,
}
use face_recognition.Prelude.Decimal.{print}
use face_recognition.Prelude.Float.{Float}
use face_recognition.Prelude.Sort.{
  sort_by, IsSorted, sort_by-IsSorted, sort_by-perm, sort_by-All, select-All, length-sort_by,
  map-IsSorted,
}
use face_recognition.Core.Role.{Role, satisfies}
use face_recognition.Core.Errors.{Result, ok, ◌>>=◌}
use face_recognition.Access.Guards.{TokenPayload, require_role}
use face_recognition.Store.Rows.{Uuid, Person, Face, Database}
use face_recognition.Store.Session.{open_session, run_session}
use face_recognition.Store.Persons.{active_of, person_by_id, person_is}
use face_recognition.Store.Faces.{of_person, newer, with_name, list_with_person, count_faces}
use face_recognition.Store.Mirror.{Mirrors, MirrorsIn}
use face_recognition.Api.Gallery.{
  FaceGalleryItem, GalleryPage, GalleryText, gallery_item, list_faces,
}

person_of_active :
    (id : Uuid) (ps : List Person) {b : Bool}
    → active_of id ps ≡ some b
    → (p : Person) × (person_by_id id ps ≡ some p)
unfolding active_of person_by_id
person_of_active id [] {b} h = absurd (ground arith)
person_of_active id (p ∷ ps) {b} h = elim (Bool-cases (person_is id p)) [
  | inl here ↦ (p, rw here refl)
  | inr later ↦ let (q, e) = person_of_active id ps {b = b} (rw later at h) in (q, rw later e)
]

satisfies_viewer : (r : Role) → satisfies r Role.viewer ≡ true
unfolding satisfies
satisfies_viewer Role.admin = refl
satisfies_viewer Role.operator = refl
satisfies_viewer Role.viewer = refl

-- Every user may read.
viewer_passes : (user : TokenPayload) → require_role Role.viewer user ≡ ok user
unfolding require_role
viewer_passes user = rw (satisfies_viewer user.role) refl

module _ {F : Type 0} (fl : Float F) (texts : GalleryText F) where
  -- The gallery as a whole.
  abbrev rows_of : Option Uuid → Database F → List (Face F × String)
  rows_of pid db = filter_map (with_name db.persons) (sort_by newer (of_person pid db.faces))

  abbrev gallery : Option Uuid → Database F → List (FaceGalleryItem F)
  gallery pid db = map (gallery_item fl texts) (rows_of pid db)

  -- Where faces have their persons, the items are the faces, as far as a function tells.
  gallery-faces :
      {X : Type 0} (g : FaceGalleryItem F → X) (h : Face F → X) (ps : List Person)
      (fs : List (Face F))
      → ((f : Face F) (name : String) → g (gallery_item fl texts (f, name)) ≡ h f)
      → MirrorsIn ps fs
      → map g (map (gallery_item fl texts) (filter_map (with_name ps) fs)) ≡ map h fs
  unfolding filter_map
  gallery-faces g h ps [] same m = refl
  gallery-faces g h ps (f ∷ fs) same m =
      let (p, found) = person_of_active f.person_id ps m.0 in
      let named : with_name ps f ≡ some (f, p.full_name) = rw (with_name, found) refl in
      rw (filter_map-cons-some (with_name ps) f fs named)
        (cc (same f p.full_name, gallery-faces g h ps fs same m.1))

  module _ (user : TokenPayload) (limit : ℕ) (pid : Option Uuid) (db : Database F) where
    -- One page: the number of faces, and a part of the gallery.
    page_lem :
        (offset : ℕ)
        → (list_faces fl texts user limit offset pid (open_session db)).0
          ≡ ok (record {
            total_count = print (length (of_person pid db.faces));
            items = take limit (drop offset (gallery pid db));
          })
    unfolding list_faces run_session list_with_person count_faces
    page_lem offset =
        rw
          (
            viewer_passes user,
            sym (map-drop (gallery_item fl texts) offset (rows_of pid db)),
            sym (map-take (gallery_item fl texts) limit (drop offset (rows_of pid db))),
          )
          refl

    -- The items of so many pages, from an offset on, as a client asks for them one after the other.
    abbrev pub walk : ℕ → ℕ → Result (List (FaceGalleryItem F))
    walk zero offset = ok []
    walk (suc pages) offset = do
      page ← (list_faces fl texts user limit offset pid (open_session db)).0
      rest ← walk pages (offset + limit)
      ok (page.items ++ rest)

    walk_lem :
        (pages offset : ℕ)
        → walk pages offset ≡ ok (take (pages * limit) (drop offset (gallery pid db)))
    walk_lem zero offset = let e : 0 * limit ≡ 0 = omega arith in rw e refl
    walk_lem (suc pages) offset =
        let all = gallery pid db in
        let e : suc pages * limit ≡ limit + pages * limit = grind arith in
        rw (page_lem offset, walk_lem pages (offset + limit), e, sym (drop-drop limit offset all))
          (ap ok (take-append-drop limit (pages * limit) (drop offset all)))

  of_person-MirrorsIn :
      (ps : List Person) (pid : Option Uuid) (fs : List (Face F))
      → MirrorsIn ps fs
      → MirrorsIn ps (of_person pid fs)
  of_person-MirrorsIn ps none fs m = m
  of_person-MirrorsIn ps (some id) fs m = select-All _ (λ f. nat_beq f.person_id id) fs m

  newest_first : (fs : List (Face F)) → IsSorted newer (sort_by newer fs)
  newest_first fs = sort_by-IsSorted newer (λ f g h p q. ground arith) (λ f g. ground arith) fs

  -- A client that asks for one page after the other, until it has asked for as many items as the header
  -- of each page tells, gets every face once (every one of the person's, where a person is given), newest
  -- first. Every face must belong to a stored person and carry that person's flag, and nothing change in
  -- between; faces of equal age are listed in one order, which the model fixes.
  pub gallery_pages :
      (user : TokenPayload) (limit pages : ℕ) (pid : Option Uuid) (db : Database F)
      → Mirrors db
      → length (of_person pid db.faces) ≤ pages * limit
      → (items : List (FaceGalleryItem F)) × (walk user limit pid db pages 0 ≡ ok items)
        × Perm (map (λ i. i.id) items) (map (λ f. f.id) (of_person pid db.faces))
        × IsSorted (λ s t. leb t s) (map (λ i. i.created_at) items)
        × ((offset : ℕ)
            → (page : GalleryPage F) × ((list_faces fl texts user limit offset pid
                  (open_session db)).0
                ≡ ok page)
              × (page.total_count ≡ print (length (of_person pid db.faces))))
  gallery_pages user limit pages pid db mirrors enough =
      let faces = of_person pid db.faces in
      let sorted = sort_by newer faces in
      let named = sort_by-All _ newer faces (of_person-MirrorsIn db.persons pid db.faces mirrors) in
      let all = gallery pid db in
      let ids = gallery-faces (λ i. i.id) (λ f. f.id) db.persons sorted (λ f name. refl) named in
      let times =
        gallery-faces (λ i. i.created_at) (λ f. f.created_at) db.persons sorted (λ f name. refl)
          named in
      let whole : take (pages * limit) all ≡ all = take_all (pages * limit) all (
        omega (
          arith,
          enough,
          length-sort_by newer faces,
          length-map all (λ i. i.id),
          length-map sorted (λ f. f.id),
          ap length ids,
        )) in
      (
        all,
        walk_lem user limit pid db pages 0 ∙ ap ok whole,
        rw ids (Perm.map (λ f. f.id) (sort_by-perm newer faces)),
        rw times
            (map-IsSorted newer _ (λ f. f.created_at) sorted (λ f g h. h) (newest_first faces)),
        λ offset. (_, page_lem user limit pid db offset, refl),
      )
