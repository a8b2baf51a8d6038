-- ===== src/Core/Errors.antt =====
-- The domain errors of app/core/exceptions.py, the faults of libraries that reach a handler, and
-- what the exception handlers answer. A constructor carries what the message is formatted from.
use face_recognition.Prelude.{ℕ, String, ◌≡◌, refl, ◌⊎◌, inl, inr}
use face_recognition.Core.Role.{Role}

-- The message of `InvalidImageError`.
pub data ImageFault : Type 0 where
  undecodable empty_upload too_large : ImageFault
  unsupported_type : String → ImageFault

-- The message of `AuthenticationError`.
pub data AuthFault : Type 0 where
  bad_token malformed_payload missing_key bad_key bad_credentials disabled_user : AuthFault

-- The noun in the message of `EntityNotFoundError`.
pub data Entity : Type 0 where
  person face api_key import_job : Entity

-- The subclasses of `DomainError`.
pub data DomainError : Type 0 where
  no_face_detected : DomainError
  multiple_faces : ℕ → DomainError
  invalid_image : ImageFault → DomainError
  low_quality_face : DomainError
  entity_not_found : Entity → ℕ → DomainError
  entity_conflict : String → DomainError
  authentication_error : AuthFault → DomainError
  authorization_error : Role → Role → DomainError
  rate_limit_exceeded : String → DomainError

unfoldable pub status_code : DomainError → ℕ
status_code no_face_detected = 422
status_code (multiple_faces n) = 422
status_code (invalid_image f) = 422
status_code low_quality_face = 422
status_code (entity_not_found e id) = 404
status_code (entity_conflict s) = 409
status_code (authentication_error f) = 401
status_code (authorization_error required had) = 403
status_code (rate_limit_exceeded s) = 429

unfoldable pub error_code : DomainError → String
error_code no_face_detected = "no_face_detected"
error_code (multiple_faces n) = "multiple_faces"
error_code (invalid_image f) = "invalid_image"
error_code low_quality_face = "low_quality_face"
error_code (entity_not_found e id) = "not_found"
error_code (entity_conflict s) = "conflict"
error_code (authentication_error f) = "authentication_error"
error_code (authorization_error required had) = "authorization_error"
error_code (rate_limit_exceeded s) = "rate_limited"

-- Exceptions that are no domain errors: Python's, the database's, and OpenCV's.
pub data Fault : Type 0 where
  value_error index_error integrity_error pending_rollback runtime_error library_error : Fault

pub data Exn : Type 0 where
  domain : DomainError → Exn
  fault : Fault → Exn

-- `_domain_handler` and `_unhandled_handler`: the status and the code of the answer.
unfoldable pub respond : Exn → ℕ × String
unfolding status_code error_code
respond (domain e) = (status_code e, error_code e)
respond (fault f) = (500, "internal_error")

pub data Result {ℓ} (A : Type ℓ) : Type ℓ where
  ok : A → Result A
  raise : Exn → Result A

infixl 5 ◌>>=◌ ◌>>◌
abbrev pub ◌>>=◌ {ℓ κ} : {A : Type ℓ} {B : Type κ} → Result A → (A → Result B) → Result B
ok a >>= f = f a
raise e >>= f = raise e

abbrev pub ◌>>◌ {ℓ κ} : {A : Type ℓ} {B : Type κ} → Result A → Result B → Result B
m >> k = m >>= λ _. k

pub Result-cases {ℓ} :
    {A : Type ℓ} (r : Result A) → ((a : A) × (r ≡ ok a)) ⊎ ((e : Exn) × (r ≡ raise e))
Result-cases (ok a) = inl (a, refl)
Result-cases (raise e) = inr (e, refl)
