-- ===== src/Jobs/Others.antt =====
-- The calls on one job touch neither of the keys of another job in Redis.
use face_recognition.Prelude.{
  ℕ, ◌≢◌, refl, sym, ◌∙◌, Bool, String, Option, none, some, if◌then◌else◌, Bool-cases, inl, inr,
}
use text.Mathlib.Text.{◌==◌ as str_eq}
use face_recognition.Prelude.Dict.{Dict}
use face_recognition.Core.Errors.{Result, ok, raise}
use face_recognition.Jobs.Defs.{Uuid, Time}
use face_recognition.Jobs.Commands.{Command, Commands, View, IsRedis, after, ◌>>=◌, ◌>>◌}
use face_recognition.Jobs.Keys.{IsFormats, hash_key_inj, errors_key_inj, hash_key-ne-errors_key}
use face_recognition.Jobs.Redis
use face_recognition.Jobs.Redis.{
  Formats, hash_key, errors_key, state_text, Snapshot, running_fields, finished_fields, pushes,
}
use face_recognition.Jobs.Holds.{Same}

module _ {R : Type 0} (redis : Commands R) (view : View R) (lawful : IsRedis view redis)
    (formats : Formats) (good : IsFormats formats) (ttl : ℕ) where
  -- A computation that touches neither key of a job.
  abbrev pub Leaves : {A : Type 0} → Uuid → Command R A → Type 0
  Leaves id m = (r : R) → Same redis view lawful formats good ttl id r (m r).1

  after-Leaves :
      {A B : Type 0} (id : Uuid) (r : R) (p : Result A × R) (f : A → Command R B)
      → Same redis view lawful formats good ttl id r p.1
      → ((a : A) → Leaves id (f a))
      → Same redis view lawful formats good ttl id r (after p f).1
  after-Leaves id r (raise e, r1) f s k = s
  after-Leaves id r (ok a, r1) f s k =
      let t = k a r1 in
      ((λ f. t.0.0 f ∙ s.0.0 f, t.0.1 ∙ s.0.1), (λ f. t.1.0 f ∙ s.1.0 f, t.1.1 ∙ s.1.1))

  >>=-Leaves :
      {A B : Type 0} (id : Uuid) (m : Command R A) (f : A → Command R B)
      → Leaves id m
      → ((a : A) → Leaves id (f a))
      → Leaves id (m >>= f)
  >>=-Leaves id m f leaves k r = after-Leaves id r (m r) f (leaves r) k

  module _ (id j : Uuid) (other : j ≢ id) where
    pub hset-Leaves :
        (m : Dict String String) → Leaves id (redis.hset (hash_key redis formats ttl j) m)
    hset-Leaves m r = (
      lawful.hset_others _ _ m r (λ e. other (hash_key_inj redis formats ttl good j id e)),
      lawful.hset_others _ _ m r (hash_key-ne-errors_key redis formats ttl good j id),
    )

    pub hincrby-Leaves : (f : String) → Leaves id (redis.hincrby (hash_key redis formats ttl j) f 1)
    hincrby-Leaves f r = (
      lawful.hincrby_others _ _ f 1 r (λ e. other (hash_key_inj redis formats ttl good j id e)),
      lawful.hincrby_others _ _ f 1 r (hash_key-ne-errors_key redis formats ttl good j id),
    )

    pub running-Leaves :
        (total : ℕ) (now : Time) → Leaves id (Redis.mark_running redis formats ttl j total now)
    unfolding Redis.mark_running
    running-Leaves total now = hset-Leaves (running_fields redis formats ttl total now)

    pub finished-Leaves :
        (b : Bool) (now : Time) → Leaves id (Redis.mark_finished redis formats ttl j b now)
    unfolding Redis.mark_finished
    finished-Leaves b now = hset-Leaves (finished_fields redis formats ttl b now)

    pub push-Leaves : (msg : String) → Leaves id (Redis.push_error redis formats ttl j msg)
    unfolding Redis.push_error
    push-Leaves msg r = (
      lawful.execute_others _ _ _ r
          (λ e. hash_key-ne-errors_key redis formats ttl good id j (sym e)),
      lawful.execute_others _ _ _ r (λ e. other (errors_key_inj redis formats ttl good j id e)),
    )

    if_truthy-Leaves :
        (error : Option String) → Leaves id (Redis.push_if_truthy redis formats ttl j error)
    if_truthy-Leaves none r = ((λ f. refl, refl), (λ f. refl, refl))
    if_truthy-Leaves (some msg) r = elim (Bool-cases (str_eq msg "")) [
      | inl empty ↦ rw empty ((λ f. refl, refl), (λ f. refl, refl))
      | inr full ↦ rw full (push-Leaves msg r)
    ]

    pub record-Leaves :
        (b : Bool) (error : Option String)
        → Leaves id (Redis.record_outcome redis formats ttl j b error)
    unfolding Redis.record_outcome
    record-Leaves b error =
        let side = if b then "succeeded" else "failed" in
        >>=-Leaves id (redis.hincrby (hash_key redis formats ttl j) "processed" 1)
          (λ _.
            redis.hincrby (hash_key redis formats ttl j) side 1
            >> Redis.push_if_truthy redis formats ttl j error)
          (hincrby-Leaves "processed")
          (λ _.
            >>=-Leaves id (redis.hincrby (hash_key redis formats ttl j) side 1)
              (λ _. Redis.push_if_truthy redis formats ttl j error) (hincrby-Leaves side)
              (λ _. if_truthy-Leaves error))
