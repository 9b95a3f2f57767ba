-- ===== src/Errors.antt =====
-- backend/app/errors.py: `AppError` and its subclasses, as values. `details` and `field_errors`
-- only annotate the response and are left out.
use dolphin_vc.Base.{ℕ, ◌≡◌, refl, ◌⊎◌, inl, inr, Bool, true, false, Option, none, some, String}

-- The codes that the services raise; the source writes them as texts.
pub data ErrorCode : Type 0 where
  validation_error not_found conflict forbidden unauthenticated : ErrorCode
  token_expired token_revoked rate_limited unprocessable stale_version : ErrorCode
  duplicate_opportunity cold_start_insufficient_evidence max_body_exceeded : ErrorCode
  source_unavailable upstream_error unsupported_media_type : ErrorCode
  document_encrypted deck_unparseable internal_error : ErrorCode
  integrity_error : ErrorCode

pub record AppError : Type 0 where
  pub code : ErrorCode
  pub message : String
  pub status_code : ℕ
  pub retryable : Bool
  pub retry_after_s : Option ℕ

-- `AppError(code, message, status_code=...)`
abbrev pub app_error : ErrorCode → String → ℕ → AppError
app_error code message status_code = record {
  code = code;
  message = message;
  status_code = status_code;
  retryable = false;
  retry_after_s = none;
}

-- `AppError(..., retry_after_s=...)`
abbrev pub retry_error : ErrorCode → String → ℕ → Bool → ℕ → AppError
retry_error code message status_code retryable seconds = record {
  code = code;
  message = message;
  status_code = status_code;
  retryable = retryable;
  retry_after_s = some seconds;
}

-- `NotFoundError`; the resource names the message.
abbrev pub not_found_error : String → AppError
not_found_error message = app_error ErrorCode.not_found message 404

abbrev pub conflict_error : String → ErrorCode → AppError
conflict_error message code = app_error code message 409

abbrev pub forbidden_error : AppError
forbidden_error =
    app_error ErrorCode.forbidden "You do not have permission to perform this action." 403

abbrev pub unauthenticated_error : ErrorCode → String → AppError
unauthenticated_error code message = app_error code message 401

-- `UnauthenticatedError()`
abbrev pub authentication_required : AppError
authentication_required = unauthenticated_error ErrorCode.unauthenticated "Authentication required."

-- SQLAlchemy's `IntegrityError`: a flush that a constraint of the database refuses. The transaction
-- of the session is rolled back, and the session takes no commit until `rollback()` is called.
abbrev pub refused_flush : AppError
refused_flush = app_error ErrorCode.integrity_error "UNIQUE constraint failed" 500

abbrev pub is_refused_flush : AppError → Bool
is_refused_flush e = elim e.code [ integrity_error ↦ true | _ ↦ false ]

pub data Result {ℓ} (A : Type ℓ) : Type ℓ where
  ok : A → Result A
  err : AppError → Result A

abbrev pub is_ok {ℓ} : {A : Type ℓ} → Result A → Bool
is_ok (ok _) = true
is_ok (err _) = false

pub Result-cases {ℓ} :
    {A : Type ℓ} (r : Result A) → ((x : AppError) × (r ≡ err x)) ⊎ ((a : A) × (r ≡ ok a))
Result-cases (ok a) = inr (a, refl)
Result-cases (err x) = inl (x, refl)
