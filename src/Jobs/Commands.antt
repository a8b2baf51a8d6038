-- ===== src/Jobs/Commands.antt =====
-- Redis as the job store of app/services/job_store.py uses it, through redis-py with
-- `decode_responses`: commands that answer or raise, and what they do while no key expires.
use face_recognition.Prelude.{
  ℕ, ◌+◌, ◌≡◌, ◌≢◌, List, [], ◌∷◌, ◌++◌, String, Option, none, some, take, if◌then◌else◌, string_eq,
  ◌==◌, arith,
}
use face_recognition.Prelude.Dict.{Dict, lookup}
use face_recognition.Prelude.Decimal.{print}
use face_recognition.Core.Errors.{Result, ok, raise}

-- A computation that sends commands.
abbrev pub Command : Type 0 → Type 0 → Type 0
Command R A = R → Result A × R

infixl 5 ◌>>=◌ ◌>>◌
abbrev pub after : {R A B : Type 0} → Result A × R → (A → Command R B) → Result B × R
after (ok a, r) f = f a r
after (raise e, r) f = (raise e, r)

abbrev pub ◌>>=◌ : {R A B : Type 0} → Command R A → (A → Command R B) → Command R B
◌>>=◌ m f r = after (m r) f

abbrev pub ◌>>◌ : {R A B : Type 0} → Command R A → Command R B → Command R B
m >> k = m >>= λ _. k

pub after_of_ok :
    {R A B : Type 0} (p : Result A × R) (f : A → Command R B) {a : A}
    → p.0 ≡ ok a
    → after p f ≡ f a p.1
after_of_ok (ok a, r) f e = ground (arith, e)
after_of_ok (raise x, r) f e = absurd (ground (arith, e))

abbrev pub pure : {R A : Type 0} → A → Command R A
pure a r = (ok a, r)

abbrev pub lift : {R A : Type 0} → Result A → Command R A
lift a r = (a, r)

-- The commands that are queued in a pipeline, on one list. `ltrim key 0 last` is `ltrim last`.
pub data Queued : Type 0 where
  rpush : String → Queued
  ltrim : ℕ → Queued
  expire_in : ℕ → Queued

abbrev pub effect : Queued → List String → List String
effect (rpush msg) items = items ++ msg ∷ []
effect (ltrim last) items = take (last + 1) items
effect (expire_in seconds) items = items

abbrev pub effects : List Queued → List String → List String
effects [] items = items
effects (q ∷ qs) items = effects qs (effect q items)

pub record Commands (R : Type 0) : Type 0 where
  -- `hset(key, mapping=…)`: numbers are sent as their text
  pub hset : String → Dict String String → Command R (Unit {0})
  pub hincrby : String → String → ℕ → Command R (Unit {0})
  pub hgetall : String → Command R (Dict String String)
  pub expire : String → ℕ → Command R (Unit {0})
  -- `lrange(key, 0, -1)`
  pub whole_list : String → Command R (List String)
  -- `pipe.execute()`, a transaction of redis-py, of commands on the list at a key
  pub execute : String → List Queued → Command R (Unit {0})

-- What is stored, as a client can observe it: the fields of the hash at a key, and the list at a key.
pub record View (R : Type 0) : Type 0 where
  pub field : R → String → String → Option String
  pub items : R → String → List String

-- What a mapping sets over what was there.
abbrev pub first_of : Option String → Option String → Option String
first_of none old = old
first_of (some v) old = some v

module _ {R : Type 0} (view : View R) where
  -- What stands at one key is the same.
  abbrev pub SameAt : String → R → R → Type 0
  SameAt key r r' =
      ((f : String) → view.field r' key f ≡ view.field r key f)
      × (view.items r' key ≡ view.items r key)

  -- A key without a list, which can hold a hash; and one without a hash, which can hold a list.
  abbrev pub HoldsNoList : String → R → Type 0
  HoldsNoList key r = view.items r key ≡ []

  abbrev pub HoldsNoHash : String → R → Type 0
  HoldsNoHash key r = (f : String) → view.field r key f ≡ none

  -- What Redis documents of the commands, as long as it can be reached and no key expires. A command
  -- on a key of the wrong type may raise, so nothing is said of its answer then; whatever it answers,
  -- it leaves the other keys.
  pub record IsRedis (redis : Commands R) : Type 0 where
    pub hset_others :
        (key j : String) (m : Dict String String) (r : R)
        → key ≢ j
        → SameAt j r (redis.hset key m r).1
    pub hset_sets :
        (key : String) (m : Dict String String) (r : R)
        → HoldsNoList key r
        → ((redis.hset key m r).0 ≡ ok tt)
          × HoldsNoList key (redis.hset key m r).1
          × ((f : String)
              → view.field (redis.hset key m r).1 key f
                ≡ first_of (lookup f m) (view.field r key f))
    pub hincrby_others :
        (key j f : String) (n : ℕ) (r : R) → key ≢ j → SameAt j r (redis.hincrby key f n r).1
    pub hincrby_adds :
        (key f : String) (n v : ℕ) (r : R)
        → HoldsNoList key r
        → view.field r key f ≡ some (print v)
        → ((redis.hincrby key f n r).0 ≡ ok tt)
          × HoldsNoList key (redis.hincrby key f n r).1
          × ((g : String)
              → view.field (redis.hincrby key f n r).1 key g
                ≡ (if f == g then some (print (v + n)) else view.field r key g))
    pub hgetall_reads :
        (key : String) (r : R)
        → HoldsNoList key r
        → (m : Dict String String) × ((redis.hgetall key r).0 ≡ ok m)
          × ((f : String) → lookup f m ≡ view.field r key f)
    pub hgetall_keeps : (key j : String) (r : R) → SameAt j r (redis.hgetall key r).1
    pub expire_answers : (key : String) (n : ℕ) (r : R) → (redis.expire key n r).0 ≡ ok tt
    pub expire_keeps : (key j : String) (n : ℕ) (r : R) → SameAt j r (redis.expire key n r).1
    pub whole_list_reads :
        (key : String) (r : R)
        → HoldsNoHash key r
        → (redis.whole_list key r).0 ≡ ok (view.items r key)
    pub execute_others :
        (key j : String) (qs : List Queued) (r : R)
        → key ≢ j
        → SameAt j r (redis.execute key qs r).1
    pub execute_effects :
        (key : String) (qs : List Queued) (r : R)
        → HoldsNoHash key r
        → ((redis.execute key qs r).0 ≡ ok tt)
          × HoldsNoHash key (redis.execute key qs r).1
          × (view.items (redis.execute key qs r).1 key ≡ effects qs (view.items r key))
