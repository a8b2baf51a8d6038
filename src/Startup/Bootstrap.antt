-- ===== src/Startup/Bootstrap.antt =====
-- The first admin, over the starts of the service.
use face_recognition.Prelude.{
  ℕ, ◌+◌, ◌*◌, ◌<◌, ◌≡◌, refl, ap, ◌∙◌, sym, inl, inr, Bool, true, false, String, Option, some,
  List, [], ◌∷◌, ◌++◌, find, arith, Option-cases, Bool-cases,
}
use text.Mathlib.Text.{◌==◌ as str_eq}
use text.Mathlib.TextEquality.{eq_iff}
use face_recognition.Prelude.Float.{Float}
use face_recognition.Core.Role.{Role}
use face_recognition.Core.Errors.{Result, ok, Result-cases}
use face_recognition.Store.Rows.{Time, Database}
use face_recognition.Store.Session.{get_db, run_session}
use face_recognition.Store.Persons.{any}
use face_recognition.Store.Accounts.{get_by_username, add_user, insert_user}
use face_recognition.Vision.Types.{OpenCv, Parts}
use face_recognition.Vision.Embedder.{Linalg}
use face_recognition.Vision.Aligner.{Warp}
use face_recognition.Vision.Build.{ModelSettings, Runtime, from_settings, warmup, dry_run}
use face_recognition.Access.Security.{Crypto, IsSoundCrypto}
use face_recognition.Access.Accounts.{
  Token, UserCreate, authenticate, create_user, ensure_bootstrap_admin,
}
use face_recognition.Access.Guards.{get_current_user, text_of}
use face_recognition.Access.Login.{
  any-find, find-any, create_user_outcomes, create_user_login, with_user,
}
use face_recognition.Startup.{Environment, load_pipeline, create_admin, bootstrap, lifespan}

any-last :
    {A : Type 0} (p : A → Bool) (xs : List A) (y : A) → p y ≡ true → any p (xs ++ y ∷ []) ≡ true
any-last p [] y h = ground arith
any-last p (x ∷ xs) y h = ground (arith, any-last p xs y h)

abbrev pub admin : String → String → UserCreate
admin username password = record { username = username; password = password; role = Role.admin }

module _ {F T : Type 0} (c : Crypto T) (salt : ℕ) (username password : String)
    (db : Database F) where
  create_admin_known :
      any (λ u. str_eq u.username username) db.users ≡ true
      → create_admin c salt username password db ≡ (ok tt, db)
  unfolding create_admin ensure_bootstrap_admin run_session get_by_username add_user insert_user
  create_admin_known taken = elim (Option-cases (find (λ u. str_eq u.username username) db.users)) [
    | inl free ↦ absurd (cc (find-any (λ u. str_eq u.username username) db.users free, taken))
    | inr (user, found) ↦ ground arith
  ]

  create_admin_free :
      any (λ u. str_eq u.username username) db.users ≡ false
      → create_admin c salt username password db
        ≡ (ok tt, with_user c db salt (admin username password))
  unfolding create_admin ensure_bootstrap_admin run_session get_by_username add_user insert_user
  create_admin_free free = ground (arith, any-find (λ u. str_eq u.username username) db.users free)

  -- Whether the name was free or not, a user has it afterwards.
  create_admin_taken :
      (create_admin c salt username password db).0 ≡ ok tt
      × any (λ u. str_eq u.username username) (create_admin c salt username password db).1.users
        ≡ true
  create_admin_taken = elim (Bool-cases (any (λ u. str_eq u.username username) db.users)) [
    | inl taken ↦ rw (create_admin_known taken) (refl, taken)
    | inr free ↦ rw (create_admin_free free) (
      refl,
      any-last (λ u. str_eq u.username username) db.users _
          (ground (arith, eq_iff username username)),
    )
  ]

warmup_ok :
    {F I Blob : Type 0} (fl : Float F) (rt : Runtime F I Blob) (parts : Parts F I) (input_size : ℕ)
    → warmup fl rt parts input_size ≡ ok tt
unfolding warmup
warmup_ok fl rt parts input_size = elim (Result-cases (dry_run fl rt parts input_size)) [
  | inl (u, done) ↦ rw (warmup, done) refl
  | inr (e, failed) ↦ rw (warmup, failed) refl
]

module _ {F I Blob T : Type 0} (fl : Float F) (la : Linalg F) (cv : OpenCv I) (w : Warp F I)
    (rt : Runtime F I Blob) (c : Crypto T) (skip : Option String) (username password : String)
    (settings : ModelSettings F) where
  abbrev pub configured : Environment
  configured = record {
    skip_models = skip;
    bootstrap_admin_user = some username;
    bootstrap_admin_password = some password;
  }

  -- No failure of the dry run keeps the models from being loaded.
  pub load_pipeline-from_settings :
      {parts : Parts F I}
      → str_eq (text_of skip) "1" ≡ false
      → from_settings fl la cv w rt settings ≡ ok parts
      → load_pipeline fl la cv w rt configured settings ≡ ok (some parts)
  unfolding load_pipeline
  load_pipeline-from_settings {parts = parts} wanted built =
      rw (wanted, built, warmup_ok fl rt parts settings.detection_input_size) refl

  -- A start in this environment.
  abbrev pub start : ℕ → Database F → Result (Option (Parts F I)) × Database F
  start salt db = lifespan fl la cv w rt c configured settings salt db

  module _ {pipeline : Option (Parts F I)}
      (loaded : load_pipeline fl la cv w rt configured settings ≡ ok pipeline)
      (named : str_eq username "" ≡ false) (guarded : str_eq password "" ≡ false) where
    bootstrap-configured :
        (salt : ℕ) (db : Database F)
        → bootstrap c configured salt db ≡ create_admin c salt username password db
    unfolding bootstrap
    bootstrap-configured salt db = rw (bootstrap, named, guarded) refl

    start-create_admin :
        (salt : ℕ) (db : Database F)
        → start salt db ≡ (ok pipeline, (create_admin c salt username password db).1)
    unfolding lifespan
    start-create_admin salt db =
        rw
          (
            lifespan,
            loaded,
            bootstrap-configured salt db,
            (create_admin_taken c salt username password db).0,
          )
          (ap (λ r. (ok pipeline, r.1)) (bootstrap-configured salt db))

    -- Where the models load, passwords verify against their own hash and tokens decode until they
    -- expire: a start with a first admin configured, whose name and password are not empty, comes
    -- up with the pipeline. It leaves the database as it is when a user has the name. When the
    -- name is free, the admin can log in with the password, and until it expires the token proves
    -- the name and the role of an admin. Another start, with any salt, changes nothing more.
    pub started_admin :
        IsSoundCrypto c
        → (salt : ℕ) (db : Database F)
        → ((start salt db).0 ≡ ok pipeline)
          × (any (λ u. str_eq u.username username) db.users ≡ true → (start salt db).1 ≡ db)
          × (any (λ u. str_eq u.username username) db.users ≡ false
              → (now later : Time) (expire_minutes : ℕ) → later < now + expire_minutes * 60
              → (token : Token T) × ((get_db
                    (authenticate c now expire_minutes username password)
                    (start salt db).1).0
                  ≡ ok token)
                × (get_current_user c later token.access_token
                    ≡ ok (record { sub = username; role = Role.admin })))
          × ((again : ℕ) → start again (start salt db).1 ≡ (ok pipeline, (start salt db).1))
    started_admin sound salt db =
        let made : start salt db ≡ (ok pipeline, (create_admin c salt username password db).1) =
          start-create_admin salt db in
        rw made (
          refl,
          (λ taken. ap (λ r. r.1) (create_admin_known c salt username password db taken)),
          (λ free now later expire_minutes live.
              let created : (get_db (create_user c salt (admin username password)) db).1
                  ≡ (create_admin c salt username password db).1 =
                ap (λ r. r.1) ((create_user_outcomes c db salt (admin username password)).1 free)
                ∙ sym (ap (λ r. r.1) (create_admin_free c salt username password db free)) in
              rw created at (
                create_user_login c db salt (admin username password) sound now later expire_minutes
                  free named live)),
          λ again.
              start-create_admin again (create_admin c salt username password db).1
              ∙ ap (λ r. (ok pipeline, r.1))
                  (create_admin_known c again username password
                    (create_admin c salt username password db).1
                    (create_admin_taken c salt username password db).1),
        )
