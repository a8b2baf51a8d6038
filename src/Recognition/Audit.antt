-- ===== src/Recognition/Audit.antt =====
-- The audit log of the recognition service: one entry for each request that succeeds.
use face_recognition.Prelude.{
  ◌≡◌, refl, ap, ◌∙◌, String, Option, none, some, List, [], ◌∷◌, ◌++◌, Bool-cases, inl, inr, ◌⊎◌,
  arith,
}
use face_recognition.Core.Errors.{ok, raise, Exn, Result-cases}
use face_recognition.Store.Rows.{Uuid, Bytes, Person, Face, Database, RecognitionLog}
use face_recognition.Store.Session.{
  Session, Action, flush, ◌>>=◌, ◌>>◌, get_db, open_session, bind_ok,
}
use face_recognition.Store.Keeps.{Keeps, Writes, keep_rules}
use face_recognition.Store.Persons.{get_person, get_by_name, add_person, insert_person}
use face_recognition.Store.Faces.{
  NewFace, LogEntry, get_face, add_face, write_face, record_log, insert_log, insert_face,
}
use face_recognition.Store.Search.{ann_search, best_match_for_person}
use face_recognition.Recognition.Types.{Service, person_or_raise}
use face_recognition.Recognition.Enroll.{
  enroll, register, register_by_name, or_create, replace_image_of, replace_face_image,
  face_or_raise,
}
use face_recognition.Recognition.Match.{verify, search_gallery, identify_top1}
use face_recognition.Recognition.Calls.{
  ServiceCall, register_call, register_by_name_call, replace_call, verify_call, search_call,
  identify_call, perform, request,
}

module _ {F : Type 0} where
  -- Where it returns, the action adds one entry to the audit log, by the given actor.
  record Enters {A : Type 0} (who : Option String) (m : Action F A) : Type 0 where
    enter :
        (t : Session F) (a : A)
        → (m t).0 ≡ ok a
        → (l : RecognitionLog F) × ((m t).1.database.logs ≡ t.database.logs ++ l ∷ [])
          × (l.user_id ≡ who)

  abbrev HasLogs : List (RecognitionLog F) → Database F → Type 0
  HasLogs ls db = db.logs ≡ ls

  -- The action never touches the log.
  record IsSilent {A : Type 0} (m : Action F A) : Type 0 where
    silent : (ls : List (RecognitionLog F)) → Keeps (HasLogs ls) m

  Enters-after :
      {A B : Type 0} (who : Option String) (m : Action F A) (f : A → Action F B)
      → IsSilent m
      → ((a : A) → Enters who (f a))
      → Enters who (m >>= f)
  Enters-after who m f quiet k = record {
    enter = λ t b e.
        let (a, returned, rest) = bind_ok m f t e in
        let same = (quiet.silent t.database.logs).keep t refl in
        let found = (k a).enter (m t).1 b (rw rest at e) in
        (found.0, rw rest (found.1 ∙ ap (λ ls. ls ++ found.0 ∷ []) same), found.2);
  }

  Enters-then :
      {A B : Type 0} (who : Option String) (m : Action F A) (k : Action F B)
      → Enters who m
      → IsSilent k
      → Enters who (m >> k)
  unfolding ◌>>◌
  Enters-then who m k one quiet = record {
    enter = λ t b e.
        let (a, returned, rest) = bind_ok m (λ _. k) t e in
        let found = one.enter t a returned in
        (found.0, rw rest ((quiet.silent _).keep (m t).1 found.1), found.2);
  }

  silent :
      {A : Type 0} {m : Action F A}
      → ((ls : List (RecognitionLog F)) → Keeps (HasLogs ls) m)
      → IsSilent m
  silent k = record { silent = k }

  insert_face-HasLogs :
      (n : NewFace F) (ls : List (RecognitionLog F)) → Writes (HasLogs ls) (insert_face n)
  unfolding insert_face
  insert_face-HasLogs n ls db a db' h e = ground arith

  write_face-HasLogs :
      (f : Face F) (ls : List (RecognitionLog F)) → Writes (HasLogs ls) (write_face f)
  unfolding write_face
  write_face-HasLogs f ls db a db' h e = ground arith

  insert_person-HasLogs :
      (x : Option String) (name meta : String) (ls : List (RecognitionLog F))
      → Writes (HasLogs ls) (insert_person x name meta)
  unfolding insert_person
  insert_person-HasLogs x name meta ls db a db' h e = ground arith

  record_log-Enters : (e : LogEntry F) → Enters e.user_id (record_log e)
  unfolding record_log flush insert_log
  record_log-Enters e = record {
    enter = λ t a r. elim (Bool-cases t.has_failed) [
      | inl failed ↦ absurd (ground arith)
      | inr live ↦ (a, ground arith, ground arith)
    ];
  }

module _ {F I : Type 0} (s : Service F I) where
  enroll-Enters :
      (p : Person) (bytes : Bytes) (path : Option String) → Enters s.actor (enroll s p bytes path)
  unfolding enroll add_face
  enroll-Enters p bytes path =
      search (Enters-after, Enters-then, silent, keep_rules, record_log-Enters, insert_face-HasLogs)
        depth 14

  person_or_raise-IsSilent :
      (id : Uuid) (found : Option Person) → IsSilent {F = F} (person_or_raise id found)
  person_or_raise-IsSilent id none = search (silent, keep_rules)
  person_or_raise-IsSilent id (some p) = search (silent, keep_rules)

  or_create-IsSilent : (name : String) (found : Option Person) → IsSilent (or_create s name found)
  unfolding add_person
  or_create-IsSilent name none = search (silent, keep_rules, insert_person-HasLogs)
  or_create-IsSilent name (some p) = search (silent, keep_rules)

  face_or_raise-IsSilent :
      (id : Uuid) (found : Option (Face F)) → IsSilent (face_or_raise s id found)
  face_or_raise-IsSilent id none = search (silent, keep_rules)
  face_or_raise-IsSilent id (some f) = search (silent, keep_rules)

  ruleset entries = (
    Enters-after, Enters-then, silent, keep_rules, record_log-Enters, write_face-HasLogs,
    person_or_raise-IsSilent, or_create-IsSilent, face_or_raise-IsSilent, enroll-Enters,
  )

  replace_image_of-Enters :
      (f : Face F) (bytes : Bytes) (path : Option String)
      → Enters s.actor (replace_image_of s f bytes path)
  unfolding replace_image_of
  replace_image_of-Enters f bytes path = search entries depth 14

  replace_face_image-Enters :
      (id : Uuid) (bytes : Bytes) (path : Option String)
      → Enters s.actor (replace_face_image s id bytes path)
  unfolding replace_face_image get_face
  replace_face_image-Enters id bytes path = search (entries, replace_image_of-Enters) depth 14

  perform-Enters : (call : ServiceCall) → Enters s.actor (perform s call)
  unfolding perform register register_by_name verify search_gallery identify_top1 get_person
      get_by_name ann_search best_match_for_person
  perform-Enters (register_call id bytes path) = search entries depth 14
  perform-Enters (register_by_name_call name bytes path) = search entries depth 14
  perform-Enters (replace_call id bytes path) = search (entries, replace_face_image-Enters) depth 14
  perform-Enters (verify_call id bytes) = search entries depth 18
  perform-Enters (search_call bytes k) = search entries depth 14
  perform-Enters (identify_call bytes) = search entries depth 14

  -- A request to the recognition service that succeeds adds exactly one entry to the audit log,
  -- in the name of the service's actor; one that raises leaves the whole database as it was, and
  -- so no entry either.
  pub request_logs :
      (call : ServiceCall) (db : Database F)
      → ((l : RecognitionLog F) × ((request s call db).0 ≡ ok tt)
          × ((request s call db).1.logs ≡ db.logs ++ l ∷ [])
          × (l.user_id ≡ s.actor))
        ⊎ ((x : Exn) × (request s call db ≡ (raise x, db)))
  unfolding request get_db
  request_logs call db = elim (Result-cases (perform s call (open_session db)).0) [
    | inl (a, e) ↦
        let found = (perform-Enters call).enter (open_session db) a e in
        inl (found.0, rw (e, get_db) refl, rw (e, get_db) found.1, found.2)
    | inr (x, e) ↦ inr (x, rw (e, get_db) refl)
  ]
