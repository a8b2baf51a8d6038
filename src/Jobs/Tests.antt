-- ===== src/Jobs/Tests.antt =====
-- Two jobs with interleaved calls.
use face_recognition.Prelude.{
  ℕ, zero, suc, ◌<◌, map, min, arith, length, ◌+◌, ◌≡◌, refl, true, false, none, some, List, [],
  ◌∷◌, take,
}
use face_recognition.Prelude.Dict.{lookup, insert}
use face_recognition.Prelude.Decimal.{print, print_on, digit_text, int_of}
use face_recognition.Prelude.Threads.{put, sum_below}
use face_recognition.Jobs.Workers.{
  Sent, increase_processed, increase_succeeded, program, Worker, send, answered, returned, Turns,
  none_yet, next,
}
use face_recognition.Jobs.Workers.Counted.{no_lost_update}
use face_recognition.Jobs.Defs.{error_cap, ImportJob}
use face_recognition.Jobs.Memory
use face_recognition.Jobs.Calls
use face_recognition.Jobs.Redis
use face_recognition.Jobs.Redis.{default_ttl}
use face_recognition.Jobs.Reads.{snapshot}
use face_recognition.Jobs.Refines.{get-redis_store}
use face_recognition.Jobs.Sample.{
  Server, small_redis, small_view, small_redis-IsRedis, formats, formats-IsFormats,
}
use face_recognition.Core.Errors.{ok}
use mathlib.Core.Option
use face_recognition.Jobs.Calls.{
  Call, mark_running, record_outcome, mark_finished, run, see_all, get-run,
}
use face_recognition.Jobs.Counters.{total_counts, messages, created_job_counts}

abbrev calls : List Call
calls =
    mark_running 1 3 10
    ∷ record_outcome 1 true none
    ∷ record_outcome 2 true none
    ∷ record_outcome 1 false (some "b.png: unreadable")
    ∷ mark_finished 1 false 20
    ∷ []

created_job_counts_example :
    (job : ImportJob) × (Memory.get 1 (run calls (Memory.create 1 []).1) ≡ some job)
    × (job.succeeded ≡ total_counts 1 true calls)
    × (job.failed ≡ total_counts 1 false calls)
    × (job.processed ≡ job.succeeded + job.failed)
    × (job.errors ≡ take error_cap (messages 1 calls))
created_job_counts_example = created_job_counts 1 [] calls

abbrev empty_server : Server
empty_server = record { hashes = []; lists = [] }

get-redis_store_example :
    (Redis.get small_redis formats default_ttl 1 (
      Redis.run small_redis formats default_ttl calls
        (Redis.create small_redis formats default_ttl 1 empty_server).1)).0
    ≡ ok (Option.map (snapshot 1) (Memory.get 1 (Calls.run calls (Memory.create 1 []).1)))
unfolding lookup
get-redis_store_example =
    get-redis_store small_redis small_view small_redis-IsRedis formats formats-IsFormats default_ttl
      1 calls empty_server [] (record { plain = refl; unhashed = λ f. refl; empty = refl })

-- Two workers record a success each; their commands interleave.
abbrev recorded : ℕ → List Call
recorded i = record_outcome 1 true none ∷ []

abbrev created : Server
created = (Redis.create small_redis formats default_ttl 1 empty_server).1

-- Both count `processed` before either counts its success.
abbrev through : ℕ → Worker
through = put 1 [] (
    put 0 [] (
      put 0 ((1, []) ∷ []) (
        put 1 ((1, []) ∷ []) (
          put 1 ((1, increase_succeeded ∷ []) ∷ [])
            (put 0 ((1, increase_succeeded ∷ []) ∷ []) (λ i. map program (recorded i)))))))

abbrev sent : Sent → Server → Server
sent s r = (send small_redis formats default_ttl 1 s r).1

abbrev counted : Server
counted =
    sent increase_succeeded
      (sent increase_succeeded (sent increase_processed (sent increase_processed created)))

mixed :
    Turns small_redis formats default_ttl 2 created (λ i. map program (recorded i)) counted through
unfolding send lookup insert int_of print print_on digit_text Redis.create Redis.hash_key
mixed =
    next 1 (omega arith)
      (next 0 (omega arith)
        (next 0 (omega arith)
          (next 1 (omega arith)
            (next 1 (omega arith) (next 0 (omega arith) none_yet (answered refl)) (answered refl))
            (answered refl))
          (answered refl))
        returned)
      returned

all_through : (i : ℕ) → i < 2 → through i ≡ []
all_through zero lt = refl
all_through (suc zero) lt = refl
all_through (suc (suc i)) lt = absurd (omega arith)

no_lost_update_example :
    (job : ImportJob) × ((Redis.get small_redis formats default_ttl 1 counted).0
      ≡ ok (some (snapshot 1 job)))
    × (job.succeeded ≡ sum_below (total_counts 1 true) 2 recorded)
    × (job.failed ≡ sum_below (total_counts 1 false) 2 recorded)
    × (job.processed ≡ job.succeeded + job.failed)
    × (length job.errors ≡ min error_cap (sum_below (λ cs. length (messages 1 cs)) 2 recorded))
unfolding lookup
no_lost_update_example =
    no_lost_update small_redis small_view small_redis-IsRedis formats formats-IsFormats default_ttl
      2 1 recorded empty_server (record { plain = refl; unhashed = λ f. refl; empty = refl }) mixed
      all_through
