-- ===== src/Jobs/Refines.antt =====
-- The store in Redis against the in-process store, over the same calls.
use face_recognition.Prelude.{
  ℕ, ◌≡◌, ◌≢◌, refl, sym, ◌∙◌, List, [], ◌∷◌, arith, if◌then◌else◌, nat_beq, nat_beq_iff, nat_eq,
  string_eq, Bool-cases, inl, inr,
}
use mathlib.Core.Option
use mathlib.Core.Path.{subst}
use face_recognition.Prelude.Dict.{lookup, lookup-insert_self}
use face_recognition.Prelude.Decimal.{print, print_on, digit_text}
use face_recognition.Core.Errors.{ok}
use face_recognition.Jobs.Defs.{
  Uuid, ImportJob, new_job, start, finish, outcome, push_error as push_message,
}
use face_recognition.Jobs.Calls.{
  Call, see, see_all, get-run, mark_running, mark_finished, record_outcome, add_error,
}
use face_recognition.Jobs.Calls
use face_recognition.Jobs.Memory
use face_recognition.Jobs.Memory.{Memory}
use face_recognition.Jobs.Commands.{
  Command, Commands, View, HoldsNoList, HoldsNoHash, IsRedis, after_of_ok,
}
use face_recognition.Jobs.Keys.{IsFormats, hash_key-ne-errors_key}
use face_recognition.Jobs.Others.{
  Leaves, running-Leaves, finished-Leaves, push-Leaves, record-Leaves,
}
use face_recognition.Jobs.Reads.{snapshot, get_lem}
use face_recognition.Jobs.Redis
use face_recognition.Jobs.Redis.{Formats, hash_key, errors_key, state_text, Snapshot, initial}
use face_recognition.Jobs.Holds.{Holds, Same-Holds, running-Holds, finished-Holds, pushed-Holds}
use face_recognition.Jobs.Holds.Outcome.{outcome-Holds}

module _ {R : Type 0} (redis : Commands R) (view : View R) (lawful : IsRedis view redis)
    (formats : Formats) (good : IsFormats formats) (ttl : ℕ) where
  abbrev Stored : Uuid → ImportJob → R → Type 0
  Stored = Holds redis view lawful formats good ttl

  -- One call, on the job's own id or on another.
  own_or_other :
      (id j : Uuid) (f : ImportJob → ImportJob) (m : Uuid → Command R (Unit {0})) (job : ImportJob)
      (r : R)
      → (Stored id job r → Stored id (f job) (m id r).1)
      → (j ≢ id → Leaves redis view lawful formats good ttl id (m j))
      → Stored id job r
      → Stored id (if nat_beq j id then f job else job) (m j r).1
  own_or_other id j f m job r own leaves h = elim (Bool-cases (nat_beq j id)) [
    | inl mine ↦
        rw mine (subst (λ i. Stored id (f job) (m i r).1) (sym ((nat_beq_iff j id).0 mine)) (own h))
    | inr apart ↦ rw apart (
        Same-Holds redis view lawful formats good ttl id job
          (leaves (λ e. ground (arith, nat_beq_iff j id, e)) r) h)
  ]

  call-Holds :
      (id : Uuid) (c : Call) (job : ImportJob) (r : R)
      → Stored id job r
      → Stored id (see id c job) (Redis.call redis formats ttl c r).1
  unfolding Redis.call see Redis.add_error
  call-Holds id (mark_running j total now) job r h =
      own_or_other id j (start total now) (λ i. Redis.mark_running redis formats ttl i total now)
        job r (λ h. running-Holds redis view lawful formats good ttl id job r h total now)
        (λ other. running-Leaves redis view lawful formats good ttl id j other total now) h
  call-Holds id (mark_finished j b now) job r h =
      own_or_other id j (finish b now) (λ i. Redis.mark_finished redis formats ttl i b now) job r
        (λ h. finished-Holds redis view lawful formats good ttl id job r h b now)
        (λ other. finished-Leaves redis view lawful formats good ttl id j other b now) h
  call-Holds id (record_outcome j b error) job r h =
      own_or_other id j (outcome b error) (λ i. Redis.record_outcome redis formats ttl i b error)
        job r (outcome-Holds redis view lawful formats good ttl id job r b error)
        (λ other. record-Leaves redis view lawful formats good ttl id j other b error) h
  call-Holds id (add_error j msg) job r h =
      own_or_other id j (push_message msg) (λ i. Redis.add_error redis formats ttl i msg) job r
        (λ h. pushed-Holds redis view lawful formats good ttl id job r h msg)
        (λ other. push-Leaves redis view lawful formats good ttl id j other msg) h

  run-Holds :
      (id : Uuid) (calls : List Call) (job : ImportJob) (r : R)
      → Stored id job r
      → Stored id (see_all id calls job) (Redis.run redis formats ttl calls r)
  unfolding Redis.run see_all
  run-Holds id [] job r h = h
  run-Holds id (c ∷ calls) job r h =
      run-Holds id calls (see id c job) (Redis.call redis formats ttl c r).1
        (call-Holds id c job r h)

  -- The keys of an id that no job has had.
  pub record IsFresh (id : Uuid) (r : R) : Type 0 where
    pub plain : HoldsNoList view (hash_key redis formats ttl id) r
    pub unhashed : HoldsNoHash view (errors_key redis formats ttl id) r
    pub empty : view.items r (errors_key redis formats ttl id) ≡ []

  pub create-Holds :
      (id : Uuid) (r : R)
      → IsFresh id r
      → Stored id (new_job id) (Redis.create redis formats ttl id r).1
  unfolding Redis.create lookup print print_on digit_text
  create-Holds id r fresh =
      let key = hash_key redis formats ttl id in
      let list_key = errors_key redis formats ttl id in
      let m = initial redis formats ttl in
      let (done, plain, set) = lawful.hset_sets key m r fresh.plain in
      let same =
        lawful.hset_others key list_key m r (hash_key-ne-errors_key redis formats ttl good id id) in
      let r1 = (redis.hset key m r).1 in
      rw
        (
          after_of_ok (redis.hset key m r) _ done,
          after_of_ok (redis.expire key ttl r1) _ (lawful.expire_answers key ttl r1),
        )
        (Same-Holds redis view lawful formats good ttl id (new_job id)
          (lawful.expire_keeps key key ttl r1, lawful.expire_keeps key list_key ttl r1)
          (record {
            fields = (
              set "state",
              (
                set "total",
                (
                  set "processed",
                  (set "succeeded", (set "failed", (set "started_at", (set "finished_at", tt)))),
                ),
              ),
            );
            plain = plain;
            unhashed = λ f. same.0 f ∙ fresh.unhashed f;
            errors = same.1 ∙ fresh.empty;
            capped = omega arith;
          }))

  -- From its creation on, whatever calls any workers make one after the other, on whatever jobs, the
  -- store in Redis answers for a job as the in-process store does, if the same calls are made of it. The
  -- keys of the new id must be unused, Redis be reached and no key expire, and texts of ids and times
  -- read back.
  pub get-redis_store :
      (id : Uuid) (calls : List Call) (r : R) (jobs : Memory)
      → IsFresh id r
      → (Redis.get redis formats ttl id
          (Redis.run redis formats ttl calls (Redis.create redis formats ttl id r).1)).0
        ≡ ok (Option.map (snapshot id) (Memory.get id (Calls.run calls (Memory.create id jobs).1)))
  unfolding Memory.get Memory.create
  get-redis_store id calls r jobs fresh =
      get_lem redis view lawful formats good ttl id (see_all id calls (new_job id)) _
        (run-Holds id calls (new_job id) _ (create-Holds id r fresh))
      ∙ rw (get-run id calls _ (lookup-insert_self id (new_job id) jobs)) refl
