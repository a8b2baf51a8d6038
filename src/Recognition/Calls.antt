-- ===== src/Recognition/Calls.antt =====
-- The methods of the recognition service as requests: each runs in a session of its own, which
-- `get_db` commits or rolls back.
use face_recognition.Prelude.{ℕ, String, Option, List, [], ◌∷◌}
use face_recognition.Core.Errors.{Result}
use face_recognition.Store.Rows.{Uuid, Bytes, Database}
use face_recognition.Store.Session.{Action, pure, ◌>>◌, get_db}
use face_recognition.Recognition.Types.{Service}
use face_recognition.Recognition.Enroll.{register, register_by_name, replace_face_image}
use face_recognition.Recognition.Match.{verify, search_gallery, identify_top1}

pub data ServiceCall : Type 0 where
  register_call : Uuid → Bytes → Option String → ServiceCall
  register_by_name_call : String → Bytes → Option String → ServiceCall
  replace_call : Uuid → Bytes → Option String → ServiceCall
  verify_call : Uuid → Bytes → ServiceCall
  search_call : Bytes → Option ℕ → ServiceCall
  identify_call : Bytes → ServiceCall

module _ {F I : Type 0} (s : Service F I) where
  -- The call without its answer.
  unfoldable pub perform : ServiceCall → Action F (Unit {0})
  perform (register_call id bytes path) = register s id bytes path >> pure tt
  perform (register_by_name_call name bytes path) = register_by_name s name bytes path >> pure tt
  perform (replace_call id bytes path) = replace_face_image s id bytes path >> pure tt
  perform (verify_call id bytes) = verify s id bytes >> pure tt
  perform (search_call bytes k) = search_gallery s bytes k >> pure tt
  perform (identify_call bytes) = identify_top1 s bytes >> pure tt

  unfoldable pub request : ServiceCall → Database F → Result (Unit {0}) × Database F
  unfolding perform
  request call = get_db (perform call)

  unfoldable pub requests : List ServiceCall → Database F → Database F
  requests [] db = db
  requests (call ∷ calls) db = requests calls (request call db).1
