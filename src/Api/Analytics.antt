-- ===== src/Api/Analytics.antt =====
-- app/api/v1/analytics.py and app/api/v1/health.py.
use face_recognition.Prelude.{ℕ, Bool, ◌&&◌, true, false, String, List, nat_beq, if◌then◌else◌}
use face_recognition.Prelude.Int.{pos}
use face_recognition.Prelude.Float.{Float}
use face_recognition.Core.Role.{Role}
use face_recognition.Core.Errors.{Result, ok, raise}
use face_recognition.Access.Guards.{TokenPayload, require_role}
use face_recognition.Store.Rows.{RecognitionLog}
use face_recognition.Store.Session.{Action, pure, lift, ◌>>=◌, ◌>>◌}
use face_recognition.Store.Persons.{count_persons}
use face_recognition.Store.Faces.{count_faces, count_logs, success_count, recent_logs}
use face_recognition.Prelude.{none}

pub record StatsResponse (F : Type 0) : Type 0 where
  pub total_persons : ℕ
  pub total_faces : ℕ
  pub total_events : ℕ
  pub successful_events : ℕ
  pub match_rate : F

module _ {F : Type 0} (fl : Float F) (user : TokenPayload) where
  abbrev pub match_rate : ℕ → ℕ → F
  match_rate successful total =
      if nat_beq total 0
      then fl.of_int (pos 0)
      else fl.round4 (fl.div (fl.of_int (pos successful)) (fl.of_int (pos total)))

  unfoldable pub get_stats : Action F (StatsResponse F)
  get_stats = do
    lift (require_role Role.viewer user)
    persons ← count_persons
    faces ← count_faces none
    total_events ← count_logs
    successful ← success_count
    pure (record {
      total_persons = persons;
      total_faces = faces;
      total_events = total_events;
      successful_events = successful;
      match_rate = match_rate successful total_events;
    })

  -- A row answers as `LogRead`, which has its fields.
  unfoldable pub get_logs : ℕ → Action F (List (RecognitionLog F))
  get_logs limit = do lift (require_role Role.viewer user); recent_logs limit

-- The answer of `ready`, whose status is a text.
pub record Readiness : Type 0 where
  pub status : String
  pub database : Bool
  pub models_loaded : Bool

-- Whether `SELECT 1` has returned.
abbrev pub is_ok : {A : Type 0} → Result A → Bool
is_ok (ok a) = true
is_ok (raise e) = false

unfoldable pub ready : Result (Unit {0}) → Bool → Readiness
ready select_one models_ok = record {
  status = if is_ok select_one && models_ok then "ok" else "degraded";
  database = is_ok select_one;
  models_loaded = models_ok;
}
