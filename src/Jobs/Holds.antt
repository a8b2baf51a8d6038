-- ===== src/Jobs/Holds.antt =====
-- What stands in Redis for a job, and what each call makes of it.
use text.Mathlib.Text.{◌==◌ as str_eq}
use mathlib.Core.Path.{subst}
use face_recognition.Prelude.{
  ℕ, ◌+◌, ◌≤◌, ◌≡◌, refl, sym, ◌∙◌, Bool, true, false, String, Option, none, some, [], ◌∷◌,
  string_eq, Bool-cases, inl, inr, length, All, Option-cases, ◌==◌, ltb,
}
use face_recognition.Prelude.Dict.{Dict, lookup}
use face_recognition.Prelude.Decimal.{print}
use face_recognition.Jobs.Defs.{
  Uuid, Time, ImportJob, push_if_truthy as push_if_true, count_outcome, start, finish, outcome,
  push_error as push_message, error_cap,
}
use face_recognition.Jobs.Counters.{length-push, errors-push}
use face_recognition.Jobs.Commands.{
  Command, Commands, View, SameAt, HoldsNoList, HoldsNoHash, IsRedis, first_of, after_of_ok, ◌>>=◌,
}
use face_recognition.Jobs.Keys.{IsFormats, hash_key-ne-errors_key}
use face_recognition.Jobs.Redis.{
  Formats, hash_key, errors_key, state_text, mark_running, mark_finished, push_error,
  running_fields, finished_fields, pushes, push_if_truthy, record_outcome,
}
pub mod Outcome

module _ {R : Type 0} (redis : Commands R) (view : View R) (lawful : IsRedis view redis)
    (formats : Formats) (good : IsFormats formats) (ttl : ℕ) where
  abbrev pub key : Uuid → String
  key = hash_key redis formats ttl

  abbrev pub list_key : Uuid → String
  list_key = errors_key redis formats ttl

  abbrev pub time_text : Option Time → String
  time_text none = ""
  time_text (some t) = formats.isoformat t

  -- The hash of a job.
  abbrev pub hash_of : ImportJob → Dict String String
  hash_of job =
      ("state", state_text job.state)
      ∷ ("total", print job.total)
      ∷ ("processed", print job.processed)
      ∷ ("succeeded", print job.succeeded)
      ∷ ("failed", print job.failed)
      ∷ ("started_at", time_text job.started_at)
      ∷ ("finished_at", time_text job.finished_at)
      ∷ []

  -- What a job's hash holds at least.
  abbrev pub HasFields : Uuid → Dict String String → R → Type 0
  HasFields id hash r = All (λ entry. view.field r (key id) entry.0 ≡ some entry.1) hash

  -- The job stands in Redis under an id.
  pub record Holds (id : Uuid) (job : ImportJob) (r : R) : Type 0 where
    pub fields : HasFields id (hash_of job) r
    pub plain : HoldsNoList view (key id) r
    pub unhashed : HoldsNoHash view (list_key id) r
    pub errors : view.items r (list_key id) ≡ job.errors
    pub capped : length job.errors ≤ error_cap

  -- A job stays where neither of its keys is touched.
  abbrev pub Same : Uuid → R → R → Type 0
  Same id r r' = SameAt view (key id) r r' × SameAt view (list_key id) r r'

  HasFields-same :
      (id : Uuid) (hash : Dict String String) {r r' : R}
      → SameAt view (key id) r r'
      → HasFields id hash r
      → HasFields id hash r'
  HasFields-same id [] s h = tt
  HasFields-same id (entry ∷ hash) s h = (s.0 entry.0 ∙ h.0, HasFields-same id hash s h.1)

  pub Same-Holds :
      (id : Uuid) (job : ImportJob) {r r' : R} → Same id r r' → Holds id job r → Holds id job r'
  Same-Holds id job s h = record {
    fields = HasFields-same id (hash_of job) s.0 h.fields;
    plain = s.0.1 ∙ h.plain;
    unhashed = λ f. s.1.0 f ∙ h.unhashed f;
    errors = s.1.1 ∙ h.errors;
    capped = h.capped;
  }

  -- What some fields of a hash are set to.
  abbrev pub overwritten : Dict String String → Dict String String → Dict String String
  overwritten m [] = []
  overwritten m ((f, v) ∷ hash) =
      (f, elim (lookup f m) [ none ↦ v | some w ↦ w ]) ∷ overwritten m hash

  abbrev pub Overwrites : Uuid → Dict String String → R → R → Type 0
  Overwrites id m r r' =
      HoldsNoList view (key id) r'
      × ((f : String) → view.field r' (key id) f ≡ first_of (lookup f m) (view.field r (key id) f))
      × SameAt view (list_key id) r r'

  pub HasFields-overwritten :
      (id : Uuid) (m hash : Dict String String) {r r' : R}
      → Overwrites id m r r'
      → HasFields id hash r
      → HasFields id (overwritten m hash) r'
  HasFields-overwritten id m [] w h = tt
  HasFields-overwritten id m ((f, v) ∷ hash) w h = (
    elim (Option-cases (lookup f m)) [
      | inl left ↦ rw left (rw left at (w.1 f) ∙ h.0)
      | inr (new, set) ↦ rw set (rw set at (w.1 f))
    ],
    HasFields-overwritten id m hash w h.1,
  )

  pub overwrite-Holds :
      (id : Uuid) (m : Dict String String) (job job' : ImportJob) {r r' : R}
      → Overwrites id m r r'
      → hash_of job' ≡ overwritten m (hash_of job)
      → job'.errors ≡ job.errors
      → Holds id job r
      → Holds id job' r'
  overwrite-Holds id m job job' {r} {r'} w new kept h = record {
    fields =
        subst (λ hash. HasFields id hash r') (sym new)
          (HasFields-overwritten id m (hash_of job) w h.fields);
    plain = w.0;
    unhashed = λ f. w.2.0 f ∙ h.unhashed f;
    errors = w.2.1 ∙ h.errors ∙ sym kept;
    capped = rw kept h.capped;
  }

  pub hset-Overwrites :
      (id : Uuid) (m : Dict String String) (r : R)
      → HoldsNoList view (key id) r
      → Overwrites id m r (redis.hset (key id) m r).1
  hset-Overwrites id m r h =
      let set = lawful.hset_sets (key id) m r h in
      (
        set.1,
        set.2,
        lawful.hset_others (key id) (list_key id) m r
            (hash_key-ne-errors_key redis formats ttl good id id),
      )

  pub hincrby-Overwrites :
      (id : Uuid) (f : String) (v : ℕ) (r : R)
      → HoldsNoList view (key id) r
      → view.field r (key id) f ≡ some (print v)
      → Overwrites id ((f, print (v + 1)) ∷ []) r (redis.hincrby (key id) f 1 r).1
  unfolding lookup
  hincrby-Overwrites id f v r h e =
      let added = lawful.hincrby_adds (key id) f 1 v r h e in
      (
        added.1,
        λ g. elim (Bool-cases (f == g)) [
          | inl same ↦ rw same (rw same at (added.2 g))
          | inr other ↦ rw other (rw other at (added.2 g))
        ],
        lawful.hincrby_others (key id) (list_key id) f 1 r
            (hash_key-ne-errors_key redis formats ttl good id id),
      )

  hash_of-push : (msg : String) (job : ImportJob) → hash_of (push_message msg job) ≡ hash_of job
  unfolding push_message
  hash_of-push msg job = elim (Bool-cases (ltb (length job.errors) error_cap)) [
    | inl room ↦ rw room refl
    | inr full ↦ rw full refl
  ]

  module _ (id : Uuid) (job : ImportJob) (r : R) (h : Holds id job r) where
    pub running-Holds :
        (total : ℕ) (now : Time)
        → Holds id (start total now job) (mark_running redis formats ttl id total now r).1
    unfolding mark_running start lookup
    running-Holds total now =
        overwrite-Holds id (running_fields redis formats ttl total now) job (start total now job)
          (hset-Overwrites id (running_fields redis formats ttl total now) r h.plain) refl refl h

    pub finished-Holds :
        (b : Bool) (now : Time)
        → Holds id (finish b now job) (mark_finished redis formats ttl id b now r).1
    unfolding mark_finished finish lookup
    finished-Holds b now =
        overwrite-Holds id (finished_fields redis formats ttl b now) job (finish b now job)
          (hset-Overwrites id (finished_fields redis formats ttl b now) r h.plain)
          (elim b
            as (λ b.
              hash_of (finish b now job)
              ≡ overwritten (finished_fields redis formats ttl b now) (hash_of job)) [
                | true ↦ refl
                | false ↦ refl
              ])
          refl h

    pub pushed-Holds :
        (msg : String) → Holds id (push_message msg job) (push_error redis formats ttl id msg r).1
    unfolding push_error
    pushed-Holds msg =
        let pushed =
          lawful.execute_effects (list_key id) (pushes redis formats ttl msg) r h.unhashed in
        let same =
          lawful.execute_others (list_key id) (key id) (pushes redis formats ttl msg) r
            (λ e. hash_key-ne-errors_key redis formats ttl good id id (sym e)) in
        record {
          fields =
              subst (λ hash. HasFields id hash (push_error redis formats ttl id msg r).1)
                (sym (hash_of-push msg job)) (HasFields-same id (hash_of job) same h.fields);
          plain = same.1 ∙ h.plain;
          unhashed = pushed.1;
          errors = pushed.2 ∙ rw h.errors (sym (errors-push msg job h.capped));
          capped = length-push msg job h.capped;
        }
