-- ===== src/Store/Session.antt =====
-- A database session of SQLAlchemy, as app/db/session.py opens it: the transaction's view of the
-- database, and whether a flush has failed in it. After a failed flush every use raises until
-- the transaction is rolled back.
use face_recognition.Prelude.{◌≡◌, refl, ap, inl, inr, Bool, true, false, if◌then◌else◌}
use face_recognition.Core.Errors.{Exn, fault, pending_rollback, Result, ok, raise, Result-cases}
use face_recognition.Store.Rows.{Database}

pub record Session (F : Type 0) : Type 0 where
  pub database : Database F
  pub has_failed : Bool

-- A coroutine on the session. The session comes back after an exception too.
abbrev pub Action : Type 0 → Type 0 → Type 0
Action F A = Session F → Result A × Session F

unfoldable pub pure : {F A : Type 0} → A → Action F A
pure a s = (ok a, s)

unfoldable pub throw : {F A : Type 0} → Exn → Action F A
throw e s = (raise e, s)

-- A computation that does not use the session.
unfoldable pub lift : {F A : Type 0} → Result A → Action F A
lift r s = (r, s)

infixl 5 ◌>>=◌ ◌>>◌
unfoldable pub ◌>>=◌ : {F A B : Type 0} → Action F A → (A → Action F B) → Action F B
◌>>=◌ m f s = let (r, s') = m s in elim r [ ok a ↦ f a s' | raise e ↦ (raise e, s') ]

unfoldable pub ◌>>◌ : {F A B : Type 0} → Action F A → Action F B → Action F B
unfolding ◌>>=◌
m >> k = m >>= (λ _. k)

-- A statement that only reads.
unfoldable pub query : {F A : Type 0} → (Database F → A) → Action F A
query q s = if s.has_failed then (raise (fault pending_rollback), s) else (ok (q s.database), s)

-- A flush: the new database, or the database's refusal, after which the session has failed.
unfoldable pub flush : {F A : Type 0} → (Database F → Result (A × Database F)) → Action F A
flush w s = if s.has_failed then (raise (fault pending_rollback), s) else elim (w s.database) [
  | ok (a, db) ↦ (ok a, record s { database = db })
  | raise e ↦ (raise e, record s { has_failed = true })
]

abbrev pub open_session : {F : Type 0} → Database F → Session F
open_session db = record { database = db; has_failed = false }

-- `get_db`, around the handler of one request: commit, or roll back and raise again.
unfoldable pub get_db : {F A : Type 0} → Action F A → Database F → Result A × Database F
get_db handler db =
    let (r, s) = handler (open_session db) in
    elim r [ ok a ↦ (ok a, s.database) | raise e ↦ (raise e, db) ]

-- The names that a run on a given session computes with.
unfoldable pub run_session : Unit {0}
unfolding pure throw lift ◌>>=◌ ◌>>◌ query flush get_db
run_session = tt

module _ {F A B : Type 0} (m : Action F A) (f : A → Action F B) (t : Session F) where
  pub bind_of_ok : {a : A} → (m t).0 ≡ ok a → (m >>= f) t ≡ f a (m t).1
  unfolding ◌>>=◌
  bind_of_ok e = rw (◌>>=◌, e) refl

  pub bind_of_raise : {x : Exn} → (m t).0 ≡ raise x → (m >>= f) t ≡ (raise x, (m t).1)
  unfolding ◌>>=◌
  bind_of_raise e = rw (◌>>=◌, e) refl

  -- A chain that returns has run its first part to a value.
  pub bind_ok :
      {b : B} → ((m >>= f) t).0 ≡ ok b → (a : A) × ((m t).0 ≡ ok a) × ((m >>= f) t ≡ f a (m t).1)
  bind_ok e = elim (Result-cases (m t).0) [
    | inl (a, r) ↦ (a, r, bind_of_ok r)
    | inr (x, r) ↦ absurd (cc (e, ap (λ p. p.0) (bind_of_raise r)))
  ]
