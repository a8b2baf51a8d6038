-- ===== src/Store/Keeps.antt =====
-- Rules by which a chain of statements keeps a property of the database.
use face_recognition.Prelude.{◌≡◌, inl, inr, Bool-cases}
use face_recognition.Core.Errors.{Exn, Result, ok, raise, Result-cases}
use face_recognition.Store.Rows.{Database}
use face_recognition.Store.Session.{
  Session, Action, pure, throw, lift, query, flush, get_db, open_session, ◌>>=◌, ◌>>◌,
}

-- An action keeps a property of the database, whether it returns or raises.
pub record Keeps {F A : Type 0} (P : Database F → Type 0) (m : Action F A) : Type 0 where
  pub keep : (s : Session F) → P s.database → P (m s).1.database

-- A statement keeps a property where it is accepted.
abbrev pub Writes :
    {F A : Type 0} → (Database F → Type 0) → (Database F → Result (A × Database F)) → Type 0
Writes {F} {A} P w =
    (db : Database F) (a : A) (db' : Database F) → P db → w db ≡ ok (a, db') → P db'

module _ {F : Type 0} (P : Database F → Type 0) where
  after :
      {A B : Type 0} (f : A → Action F B)
      → ((a : A) → Keeps P (f a))
      → (r : Result A) (s : Session F) → P s.database
      → P
          (elim r as (λ _. Result B × Session F) [
            | ok a ↦ f a s
            | raise e ↦ (raise e, s)
          ]).1.database
  after f k (ok a) s p = (k a).keep s p
  after f k (raise e) s p = p

  pub Keeps-bind :
      {A B : Type 0} (m : Action F A) (f : A → Action F B)
      → Keeps P m
      → ((a : A) → Keeps P (f a))
      → Keeps P (m >>= f)
  unfolding ◌>>=◌
  Keeps-bind m f km kf = record { keep = λ s p. after f kf (m s).0 (m s).1 (km.keep s p) }

  pub Keeps-then :
      {A B : Type 0} (m : Action F A) (k : Action F B) → Keeps P m → Keeps P k → Keeps P (m >> k)
  unfolding ◌>>◌
  Keeps-then m k km kk = Keeps-bind m (λ _. k) km (λ _. kk)

  pub Keeps-query : {A : Type 0} (q : Database F → A) → Keeps P (query q)
  unfolding query
  Keeps-query q = record {
    keep =
        λ s p. elim (Bool-cases s.has_failed) [ inl failed ↦ rw failed p | inr live ↦ rw live p ];
  }

  pub Keeps-flush :
      {A : Type 0} (w : Database F → Result (A × Database F)) → Writes P w → Keeps P (flush w)
  unfolding flush
  Keeps-flush w k = record {
    keep = λ s p. elim (Bool-cases s.has_failed) [
      | inl failed ↦ rw failed p
      | inr live ↦ elim (Result-cases (w s.database)) [
        | inl ((a, db'), e) ↦ rw (live, e) (k s.database a db' p e)
        | inr (x, e) ↦ rw (live, e) p
      ]
    ];
  }

  pub Keeps-lift : {A : Type 0} (r : Result A) → Keeps P (lift r)
  unfolding lift
  Keeps-lift r = record { keep = λ s p. p }

  pub Keeps-pure : {A : Type 0} (a : A) → Keeps P (pure a)
  unfolding pure
  Keeps-pure a = record { keep = λ s p. p }

  pub Keeps-throw : (A : Type 0) (e : Exn) → Keeps {A = A} P (throw e)
  unfolding throw
  Keeps-throw A e = record { keep = λ s p. p }

  -- A request keeps the property: what it commits, and what a rollback leaves.
  pub get_db-Keeps :
      {A : Type 0} (m : Action F A) → Keeps P m → (db : Database F) → P db → P (get_db m db).1
  unfolding get_db
  get_db-Keeps m k db p = elim (Result-cases (m (open_session db)).0) [
    | inl (a, e) ↦ rw (e, get_db) (k.keep (open_session db) p)
    | inr (x, e) ↦ rw (e, get_db) p
  ]

  -- The same from one session on: what is read from it stays known.
  pub KeepsAt-query :
      {A B : Type 0} (q : Database F → A) (f : A → Action F B) (s : Session F)
      → P s.database
      → P (f (q s.database) s).1.database
      → P ((query q >>= f) s).1.database
  unfolding query ◌>>=◌
  KeepsAt-query q f s p h = elim (Bool-cases s.has_failed) [
    | inl failed ↦ rw failed p
    | inr live ↦ rw live (rw live at h)
  ]

pub ruleset keep_rules =
    (Keeps-bind, Keeps-then, Keeps-query, Keeps-flush, Keeps-lift, Keeps-pure, Keeps-throw)
