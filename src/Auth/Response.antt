-- ===== src/Auth/Response.antt =====
-- src/shared/utils/service-response.util.ts: what a service answers. The time stamp and the name of
-- the service are left out.
use backend_gateway.Base.{String, Bool, true, false}

-- The members of `ERROR_CODES` that these services use.
pub data ErrorCode : Type 0 where
  internal_error not_found otp_invalid otp_expired otp_rate_limited : ErrorCode

pub data Response {ℓ} (A : Type ℓ) : Type ℓ where
  success_response : A → Response A
  error_response : ErrorCode → String → Response A

abbrev pub is_success {ℓ} : {A : Type ℓ} → Response A → Bool
is_success (success_response a) = true
is_success (error_response c m) = false
