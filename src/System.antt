-- ===== src/System.antt =====
-- What changes the database: a start of the service, the requests to it and its imports, as steps from
-- one state of the database to the next.
use face_recognition.Prelude.{ℕ, String, Option}
use face_recognition.Core.Errors.{Result}
use face_recognition.Store.Rows.{Uuid, Time, Database}
use face_recognition.Store.Session.{get_db}
use face_recognition.Recognition.Types.{Service}
use face_recognition.Access.Security.{Crypto}
use face_recognition.Access.Accounts.{UserCreate, authenticate}
use face_recognition.Access.Guards.{TokenPayload, Rated}
use face_recognition.Api.Directory.{PersonCall, after_call}
use face_recognition.Api.Admin.{create_user, create_key, revoke_key}
use face_recognition.Api.Faces.{
  UploadFile, register_face, enroll_by_name, replace_face_image, verify_face, search_faces,
  delete_face,
}
use face_recognition.Api.Uploads.{external_request}
use face_recognition.Bulk.Import.{Host, run}
use face_recognition.Startup.{Environment, bootstrap}
pub mod Accounts
pub mod Requests
pub mod Kept
pub mod Flags
pub mod Rights
mod Tests

-- The service `s` of a request carries its actor and its address; the limiters' states are arguments.
pub data Step {F B T : Type 0} (I : Type 0) (c : Crypto T) (rated : Rated B)
    (uuid_text : Uuid → String) : Database F → Database F → Type 0 where
  start :
      (env : Environment) (salt : ℕ) (db : Database F)
      → Step I c rated uuid_text db (bootstrap c env salt db).1
  login :
      (now : Time) (expire_minutes : ℕ) (username password : String) (db : Database F)
      → Step I c rated uuid_text db
          (get_db (authenticate c now expire_minutes username password) db).1
  new_user :
      (user : TokenPayload) (salt : ℕ) (payload : UserCreate) (db : Database F)
      → Step I c rated uuid_text db (get_db (create_user c user salt payload) db).1
  new_key :
      (user : TokenPayload) (entropy : ℕ) (name : String) (db : Database F)
      → Step I c rated uuid_text db (get_db (create_key c user entropy name) db).1
  key_revoked :
      (user : TokenPayload) (id : Uuid) (db : Database F)
      → Step I c rated uuid_text db (get_db (revoke_key user id) db).1
  person_request :
      (user : TokenPayload) (call : PersonCall) (db : Database F)
      → Step I c rated uuid_text db (after_call user call db)
  registration :
      (s : Service F I) (user : TokenPayload) (id : Uuid) (image : UploadFile) (db : Database F)
      → Step I c rated uuid_text db (get_db (register_face s user id image) db).1
  enrollment :
      (s : Service F I) (user : TokenPayload) (limited : Result (Unit {0})) (name : String)
      (image : UploadFile) (db : Database F)
      → Step I c rated uuid_text db (get_db (enroll_by_name s user limited name image) db).1
  replacement :
      (s : Service F I) (user : TokenPayload) (id : Uuid) (image : UploadFile) (db : Database F)
      → Step I c rated uuid_text db (get_db (replace_face_image s user id image) db).1
  verification :
      (s : Service F I) (user : TokenPayload) (id : Uuid) (image : UploadFile) (db : Database F)
      → Step I c rated uuid_text db (get_db (verify_face s user id image) db).1
  search_request :
      (s : Service F I) (user : TokenPayload) (image : UploadFile) (top_k : Option ℕ)
      (db : Database F)
      → Step I c rated uuid_text db (get_db (search_faces s user image top_k) db).1
  face_deletion :
      (user : TokenPayload) (id : Uuid) (db : Database F)
      → Step I c rated uuid_text db (get_db (delete_face user id) db).1
  third_party :
      (s : Service F I) (clock : ℕ) (now : Time) (key : Option String) (image : UploadFile)
      (buckets : B) (db : Database F)
      → Step I c rated uuid_text db
          (get_db (external_request c rated uuid_text s db clock now key image buckets) db).1
  import_run :
      (s : Service F I) (host : Host) (job_id : Uuid) (root_path : String) (db : Database F)
      → Step I c rated uuid_text db (run s host job_id root_path db).0

-- Any number of steps.
pub data Reaches {F B T : Type 0} (I : Type 0) (c : Crypto T) (rated : Rated B)
    (uuid_text : Uuid → String) : Database F → Database F → Type 0 where
  stay : (db : Database F) → Reaches I c rated uuid_text db db
  after :
      {db db1 db2 : Database F}
      → Reaches I c rated uuid_text db db1
      → Step I c rated uuid_text db1 db2
      → Reaches I c rated uuid_text db db2
