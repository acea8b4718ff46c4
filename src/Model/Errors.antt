-- ===== src/Model/Errors.antt =====
-- app/core/errors.py: the application errors with their HTTP status, and what else Python may
-- raise. The `code` strings are an enumeration; the messages, which are fixed by the code and
-- read by nobody, are left out.
use tenantforge.Prelude.{ℕ, List, [], ◌∷◌, ◌≡◌, refl}

pub data ErrorCode : Type 0 where
  forbidden authentication_required : ErrorCode
  slug_taken organization_not_found owner_required membership_not_found : ErrorCode
  membership_change_forbidden membership_remove_forbidden last_owner : ErrorCode
  invitation_role_forbidden already_member invitation_exists : ErrorCode
  invitation_not_found invitation_used invitation_expired invitation_email_mismatch : ErrorCode
  quota_exceeded subscription_not_found project_not_found rate_limit_exceeded : ErrorCode
  api_key_not_found invalid_api_key : ErrorCode
  email_taken invalid_credentials inactive_user : ErrorCode
  invalid_refresh_token refresh_token_reused refresh_token_expired invalid_access_token : ErrorCode
  webhook_event_not_found unsupported_webhook_event invalid_webhook_event : ErrorCode
  invalid_webhook_signature billing_adapter_unavailable : ErrorCode

-- A response header that an error carries.
pub data Header : Type 0 where
  retry_after : ℕ → Header
  www_authenticate_bearer : Header

pub record AppError : Type 0 where
  pub status_code : ℕ
  pub code : ErrorCode
  pub headers : List Header

abbrev pub not_found_error : ErrorCode → AppError
not_found_error c = record { status_code = 404; code = c; headers = [] }

abbrev pub forbidden_error : ErrorCode → AppError
forbidden_error c = record { status_code = 403; code = c; headers = [] }

abbrev pub conflict_error : ErrorCode → AppError
conflict_error c = record { status_code = 409; code = c; headers = [] }

abbrev pub authentication_error : ErrorCode → AppError
authentication_error c = record {
  status_code = 401;
  code = c;
  headers = www_authenticate_bearer ∷ [];
}

-- What a call may raise: an `AppError`, SQLAlchemy's `IntegrityError`, the `RedisError` of a Redis
-- that cannot be reached, the `RequestValidationError` of FastAPI, or Python's own `ValueError` and
-- `OverflowError`.
pub data Exception : Type 0 where
  app_error : AppError → Exception
  integrity_error redis_error validation_error value_error overflow_error : Exception

-- How a call of the program ends: it raises, or it returns a value.
pub data Result {ℓ} (A : Type ℓ) : Type ℓ where
  err : Exception → Result A
  ok : A → Result A

infixl 5 ◌>>=◌
abbrev pub ◌>>=◌ {ℓ κ} : {A : Type ℓ} {B : Type κ} → Result A → (A → Result B) → Result B
err raised >>= rest = err raised
ok value >>= rest = rest value

-- A chain that returns has a first step that does.
pub first_returns {ℓ} :
    {A B : Type ℓ} (first : Result A) (rest : A → Result B) {result : B}
    → (first >>= rest) ≡ ok result
    → (value : A) × (first ≡ ok value) × (rest value ≡ ok result)
first_returns (err raised) rest returns = absurd (cc)
first_returns (ok value) rest returns = (value, refl, returns)
