-- ===== src/Recognition/Flags.antt =====
-- Every method of the recognition service keeps the mirror of `is_active` on the faces.
use face_recognition.Prelude.{◌≡◌, refl, String, Option, none, some, find-All, arith}
use face_recognition.Store.Rows.{Uuid, Bytes, Face, Database}
use face_recognition.Store.Session.{Session, pure, throw, ◌>>=◌}
use face_recognition.Store.Keeps.{
  keep_rules, Keeps, Writes, Keeps-flush, KeepsAt-query, get_db-Keeps,
}
use face_recognition.Store.Persons.{active_of}
use face_recognition.Store.Faces.{LogEntry, face_is, get_face, write_face, record_log, insert_log}
use face_recognition.Store.Mirror.{Mirrors, insert_log-Mirrors, replace_row-Mirrors, Mirrors-intro}
use face_recognition.Recognition.Types.{Service}
use face_recognition.Recognition.Enroll.{replace_image_of, replace_face_image, face_or_raise}
use face_recognition.Store.Session.{get_db}
use face_recognition.Recognition.Calls.{
  ServiceCall, register_call, register_by_name_call, replace_call, verify_call, search_call,
  identify_call, perform, request, requests,
}
use face_recognition.Store.Keeps.{get_db-Keeps}
use face_recognition.Prelude.{List, [], ◌∷◌}
use face_recognition.Store.Mirror.{data-Mirrors}
use face_recognition.Recognition.Kept.{
  register-Keeps, register_by_name-Keeps, verify-Keeps, search_gallery-Keeps, identify_top1-Keeps,
}

module _ {F I : Type 0} (s : Service F I) where
  -- The mirror, and the flag that the person of a face has.
  abbrev Holds : Face F → Database F → Type 0
  Holds f db = Mirrors db × (active_of f.person_id db.persons ≡ some f.is_active)

  write_face-Holds :
      (f g : Face F)
      → g.person_id ≡ f.person_id
      → g.is_active ≡ f.is_active
      → Writes (Holds f) (write_face g)
  unfolding write_face
  write_face-Holds f g same flag db a db' h e =
      let known : active_of g.person_id db.persons ≡ some g.is_active = rw (same, flag) h.1 in
      (
        Mirrors-intro db' db.persons _ (ground arith) (ground arith)
            (replace_row-Mirrors db.persons db.faces g known h.0),
        ground (arith, h.1),
      )

  insert_log-Holds : (f : Face F) (l : LogEntry F) → Writes (Holds f) (insert_log l)
  unfolding insert_log
  insert_log-Holds f l db a db' h e = (insert_log-Mirrors l db a db' h.0 e, ground (arith, h.1))

  record_log-Holds : (f : Face F) (l : LogEntry F) → Keeps (Holds f) (record_log l)
  unfolding record_log
  record_log-Holds f l = Keeps-flush (Holds f) (insert_log l) (insert_log-Holds f l)

  replace_image_of-Holds :
      (f : Face F) (bytes : Bytes) (path : Option String)
      → Keeps (Holds f) (replace_image_of s f bytes path)
  unfolding replace_image_of
  replace_image_of-Holds f bytes path =
      search (keep_rules, record_log-Holds, write_face-Holds) depth 12

  replace_found-Mirrors :
      (id : Uuid) (found : Option (Face F)) (bytes : Bytes) (path : Option String) (t : Session F)
      → Mirrors t.database
      → ((f : Face F)
          → found ≡ some f
          → active_of f.person_id t.database.persons ≡ some f.is_active)
      → Mirrors
          ((face_or_raise s id found >>= λ face. replace_image_of s face bytes path) t).1.database
  unfolding ◌>>=◌ throw pure
  replace_found-Mirrors id none bytes path t h known = h
  replace_found-Mirrors id (some f) bytes path t h known =
      ((replace_image_of-Holds f bytes path).keep t (h, known f refl)).0

  pub replace_face_image-Mirrors :
      (id : Uuid) (bytes : Bytes) (path : Option String)
      → Keeps Mirrors (replace_face_image s id bytes path)
  unfolding replace_face_image get_face
  replace_face_image-Mirrors id bytes path = record {
    keep = λ t h. KeepsAt-query Mirrors _ _ t h (
        replace_found-Mirrors id _ bytes path t h
          (λ f e. find-All _ (face_is id) t.database.faces h e));
  }

  perform-Mirrors : (call : ServiceCall) → Keeps Mirrors (perform s call)
  unfolding perform
  perform-Mirrors (register_call id bytes path) =
      search (keep_rules, register-Keeps Mirrors data-Mirrors)
  perform-Mirrors (register_by_name_call name bytes path) =
      search (keep_rules, register_by_name-Keeps Mirrors data-Mirrors)
  perform-Mirrors (replace_call id bytes path) = search (keep_rules, replace_face_image-Mirrors)
  perform-Mirrors (verify_call id bytes) = search (keep_rules, verify-Keeps Mirrors data-Mirrors)
  perform-Mirrors (search_call bytes k) =
      search (keep_rules, search_gallery-Keeps Mirrors data-Mirrors)
  perform-Mirrors (identify_call bytes) =
      search (keep_rules, identify_top1-Keeps Mirrors data-Mirrors)

  -- If every face belongs to a stored person and carries that person's `is_active`, so it is after
  -- any sequence of requests to the recognition service, whether they succeed or are rolled back.
  pub requests-Mirrors :
      (calls : List ServiceCall) (db : Database F) → Mirrors db → Mirrors (requests s calls db)
  unfolding requests request
  requests-Mirrors [] db h = h
  requests-Mirrors (call ∷ calls) db h =
      requests-Mirrors calls (get_db (perform s call) db).1
        (get_db-Keeps Mirrors (perform s call) (perform-Mirrors call) db h)
