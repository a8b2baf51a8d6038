-- ===== src/Core/Tests.antt =====
-- Two threads at the shared Redis client.
use face_recognition.Prelude.{ℕ, ◌*◌, ◌≤◌, ◌<◌, ◌≡◌, refl, ◌⊎◌, true, Option, none, some, arith}
use face_recognition.Core.RedisClient.{
  miss, see, answer, acquire, claim, connect, assign, release, finish, System, Step, turn, done,
  Run, start, later,
}
use face_recognition.Core.RedisClient.Once.{one_connection}
use face_recognition.Core.RedisClient.Ends.{calls_end}

-- Thread 0 begins to connect.
abbrev begun : (s : System ℕ) × Run true 2 3 s
begun = (
  _,
  later
      (later (later start (turn 0 (omega arith) (miss refl refl)))
        (turn 0 (omega arith) (acquire refl)))
      (turn 0 (omega arith) (claim refl)),
)

-- It connects and is answered, and thread 1 after it.
abbrev both : (s : System ℕ) × Run true 2 9 s
both = (
  _,
  later
      (later
        (later
          (later
            (later (later begun.1 (turn 0 (omega arith) (connect 5)))
              (turn 0 (omega arith) (assign (some 5))))
            (turn 0 (omega arith) release))
          (turn 0 (omega arith) finish))
        (turn 1 (omega arith) (see refl refl)))
      (turn 1 (omega arith) answer),
)

-- Thread 1 comes while thread 0 connects: it is answered none, though the connection succeeds.
early_none : (s : System ℕ) × Run true 2 8 s × (s.pc 1 ≡ done none) × (s.memory.client ≡ some 5)
early_none = (
  _,
  later
      (later
        (later
          (later (later begun.1 (turn 1 (omega arith) (see refl refl)))
            (turn 1 (omega arith) answer))
          (turn 0 (omega arith) (connect 5)))
        (turn 0 (omega arith) (assign (some 5))))
      (turn 0 (omega arith) release),
  refl,
  refl,
)

one_connection_example :
    (both.0.memory.connects ≤ 1)
    × ((i j c c' : ℕ) → both.0.pc i ≡ done (some c) → both.0.pc j ≡ done (some c') → c ≡ c')
one_connection_example = one_connection both.1

calls_end_example :
    (9 ≤ 7 * 2)
    × (((i : ℕ) → i < 2 → (o : Option ℕ) × (both.0.pc i ≡ done o))
        ⊎ ((t : System ℕ) × Step true 2 both.0 t))
calls_end_example = calls_end both.1
