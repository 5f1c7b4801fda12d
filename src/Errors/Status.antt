-- ===== src/Errors/Status.antt =====
-- app/error_map.py and `abort_rpc` of app/rpc/grpc_errors.py: the codes of each error.
use pixeldive.Prelude.{ℕ, Option, none, some}
use pixeldive.Errors.Defs.{
  Error, GrpcCode, not_found, invalid_argument, resource_exhausted, permission_denied, unavailable,
  internal,
}

pub record TransportStatus : Type 0 where
  pub http : ℕ
  pub grpc : GrpcCode

abbrev status : ℕ → GrpcCode → Option TransportStatus
status h g = some (record { http = h; grpc = g })

-- `ERROR_STATUS.get(type(exc))`
unfoldable pub error_status : Error → Option TransportStatus
error_status Error.session_not_found = status 404 not_found
error_status Error.image_not_found = status 404 not_found
error_status Error.invalid_status = status 422 invalid_argument
error_status Error.invalid_id = status 422 invalid_argument
error_status Error.invalid_metadata = status 422 invalid_argument
error_status Error.unsupported_content_type = status 422 invalid_argument
error_status Error.empty_image = status 422 invalid_argument
error_status Error.batch_limit = status 422 invalid_argument
error_status Error.image_too_large = status 413 resource_exhausted
error_status Error.unauthenticated = status 401 GrpcCode.unauthenticated
error_status Error.forbidden = status 403 permission_denied
error_status (Error.quota_exceeded c) = status 429 resource_exhausted
error_status Error.quota_unavailable = status 503 unavailable
error_status _ = none

-- `http_status`: a domain error always has a row; an exception outside the table is not mapped.
unfoldable pub http_status : Error → Option ℕ
unfolding error_status
http_status e = elim (error_status e) [ none ↦ none | some s ↦ some s.http ]

unfoldable pub grpc_status : Error → GrpcCode
unfolding error_status
grpc_status e = elim (error_status e) [ none ↦ internal | some s ↦ s.grpc ]

-- The code with which `abort_rpc` ends a call: a pydantic ValidationError is the caller's fault.
unfoldable pub abort_code : Error → GrpcCode
unfolding grpc_status
abort_code Error.validation_error = invalid_argument
abort_code e = grpc_status e
