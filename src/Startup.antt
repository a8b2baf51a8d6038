-- ===== src/Startup.antt =====
-- The start of the service: `lifespan` of app/main.py, scripts/create_admin.py, and what
-- app/api/deps.py makes of the pipeline that the start has loaded.
use face_recognition.Prelude.{ℕ, String, Option, none, some, List, if◌then◌else◌, ◌||◌}
use text.Mathlib.Text.{◌==◌ as str_eq}
use face_recognition.Prelude.Float.{Float}
use face_recognition.Core.Errors.{fault, runtime_error, Result, ok, raise, ◌>>=◌, ◌>>◌}
use face_recognition.Store.Rows.{Database}
use face_recognition.Store.Session.{get_db}
use face_recognition.Store.Search.{Pgvector}
use face_recognition.Vision.Types.{OpenCv, Parts}
use face_recognition.Vision.Embedder.{Linalg}
use face_recognition.Vision.Aligner.{Warp}
use face_recognition.Vision.Build.{ModelSettings, Runtime, from_settings, warmup}
use face_recognition.Recognition.Types.{Service, Settings}
use face_recognition.Access.Security.{Crypto}
use face_recognition.Access.Accounts.{ensure_bootstrap_admin}
use face_recognition.Access.Guards.{TokenPayload, is_missing, text_of}
mod Bootstrap
mod Tests

-- The variables of the process that the start reads.
pub record Environment : Type 0 where
  pub skip_models : Option String
  pub bootstrap_admin_user : Option String
  pub bootstrap_admin_password : Option String

module _ {F I Blob : Type 0} (fl : Float F) (la : Linalg F) (cv : OpenCv I) (w : Warp F I)
    (rt : Runtime F I Blob) where
  -- The models, unless FR_SKIP_MODELS is "1".
  unfoldable pub load_pipeline : Environment → ModelSettings F → Result (Option (Parts F I))
  load_pipeline env settings = if str_eq (text_of env.skip_models) "1" then ok none else do
    parts ← from_settings fl la cv w rt settings
    warmup fl rt parts settings.detection_input_size
    ok (some parts)

module _ {F T : Type 0} (c : Crypto T) where
  -- `main` of the script: one session, which is committed; one that raises is rolled back.
  unfoldable pub create_admin : ℕ → String → String → Database F → Result (Unit {0}) × Database F
  create_admin salt username password db =
      get_db (ensure_bootstrap_admin c salt username password) db

  -- The first admin, where both variables are set and not empty.
  unfoldable pub bootstrap : Environment → ℕ → Database F → Result (Unit {0}) × Database F
  bootstrap env salt db =
      if is_missing env.bootstrap_admin_user || is_missing env.bootstrap_admin_password
      then (ok tt, db)
      else create_admin salt (text_of env.bootstrap_admin_user)
          (text_of env.bootstrap_admin_password) db

module _ {F I Blob T : Type 0} (fl : Float F) (la : Linalg F) (cv : OpenCv I) (w : Warp F I)
    (rt : Runtime F I Blob) (c : Crypto T) where
  -- The start: the pipeline of the application's state, and the database after it.
  unfoldable pub lifespan :
      Environment → ModelSettings F → ℕ → Database F → Result (Option (Parts F I)) × Database F
  lifespan env settings salt db = elim (load_pipeline fl la cv w rt env settings) [
    | raise e ↦ (raise e, db)
    | ok pipeline ↦
        let (r, db1) = bootstrap c env salt db in
        elim r [ raise e ↦ (raise e, db1) | ok u ↦ (ok pipeline, db1) ]
  ]

module _ {F I : Type 0} where
  unfoldable pub get_pipeline : Option (Parts F I) → Result (Parts F I)
  get_pipeline none = raise (fault runtime_error)
  get_pipeline (some parts) = ok parts

  -- The service of one request. The libraries that it stands on are arguments.
  unfoldable pub get_recognition_service :
      Float F
      → OpenCv I
      → Pgvector F
      → (String → String)
      → Settings F
      → Option (Parts F I)
      → TokenPayload
      → Option String
      → Result (Service F I)
  get_recognition_service fl cv vectors strip settings pipeline user client_ip = do
    parts ← get_pipeline pipeline
    ok (record {
      float = fl;
      cv = cv;
      parts = parts;
      vectors = vectors;
      settings = settings;
      actor = some user.sub;
      client_ip = client_ip;
      strip = strip;
    })
