-- ===== src/Core/RedisClient.antt =====
-- app/core/redis_client.py: threads that call `get_redis` at the same time, one move for each access to
-- the module's globals. `redis-py`, whose connection and ping succeed or fail, is the environment.
pub mod Once
pub mod Ends
use face_recognition.Prelude.Threads.{put}
use face_recognition.Prelude.{
  ℕ, ◌+◌, ◌<◌, ◌≡◌, Bool, true, false, Option, none, some, nat_beq, if◌then◌else◌,
}

-- `_client`, `_attempted` and whether `_lock` is held; `connects` counts the attempts to connect.
pub record Globals (C : Type 0) : Type 0 where
  pub client : Option C
  pub attempted : Bool
  pub is_locked : Bool
  pub connects : ℕ

-- Where a call of `get_redis` stands.
pub data Pc (C : Type 0) : Type 0 where
  -- before the first line
  called : Pc C
  -- `_attempted` was read without the lock: `return _client` is next, or the lock
  known waiting : Pc C
  -- in the `with` block, before the second test
  entered : Pc C
  -- `_attempted` is set, and the connection is tried
  connecting : Pc C
  -- the connection was made, or the exception caught
  connected : Option C → Pc C
  -- `_client` is set; and the lock is released, before the last line
  assigned leaving : Pc C
  done : Option C → Pc C

pub data Move {C : Type 0} (has_url : Bool) : Globals C → Pc C → Globals C → Pc C → Type 0 where
  -- `if not settings.REDIS_URL: return None`
  unconfigured : {m : Globals C} → has_url ≡ false → Move has_url m called m (done none)
  -- `if _attempted:`
  see : {m : Globals C} → has_url ≡ true → m.attempted ≡ true → Move has_url m called m known
  miss : {m : Globals C} → has_url ≡ true → m.attempted ≡ false → Move has_url m called m waiting
  -- `return _client`
  answer : {m : Globals C} → Move has_url m known m (done m.client)
  -- `with _lock:`
  acquire :
      {m : Globals C}
      → m.is_locked ≡ false
      → Move has_url m waiting (record m { is_locked = true }) entered
  -- the second `if _attempted: return _client`, which leaves the block
  late :
      {m : Globals C}
      → m.attempted ≡ true
      → Move has_url m entered (record m { is_locked = false }) (done m.client)
  -- `_attempted = True`, and the attempt begins
  claim :
      {m : Globals C}
      → m.attempted ≡ false
      → Move has_url m entered (record m { attempted = true; connects = m.connects + 1 }) connecting
  -- `from_url` and `ping` return, or one of them raises
  connect : {m : Globals C} (c : C) → Move has_url m connecting m (connected (some c))
  refused : {m : Globals C} → Move has_url m connecting m (connected none)
  -- `_client = client`, or `_client = None`
  assign :
      {m : Globals C} (o : Option C)
      → Move has_url m (connected o) (record m { client = o }) assigned
  release : {m : Globals C} → Move has_url m assigned (record m { is_locked = false }) leaving
  -- the last `return _client`
  finish : {m : Globals C} → Move has_url m leaving m (done m.client)

-- The globals when the module is loaded.
abbrev pub loaded : {C : Type 0} → Globals C
loaded = record { client = none; attempted = false; is_locked = false; connects = 0 }

-- `n` threads, each in a call of its own.
pub record System (C : Type 0) : Type 0 where
  pub memory : Globals C
  pub pc : ℕ → Pc C

pub data Step {C : Type 0} (has_url : Bool) (n : ℕ) (s : System C) : System C → Type 0 where
  turn :
      (i : ℕ) {m : Globals C} {p : Pc C}
      → i < n
      → Move has_url s.memory (s.pc i) m p
      → Step has_url n s (record { memory = m; pc = put i p s.pc })

-- The runs of so many steps, in any order of the threads.
pub data Run {C : Type 0} (has_url : Bool) (n : ℕ) : ℕ → System C → Type 0 where
  start : Run has_url n 0 (record { memory = loaded; pc = λ _. called })
  later :
      {k : ℕ} {s t : System C} → Run has_url n k s → Step has_url n s t → Run has_url n (k + 1) t
