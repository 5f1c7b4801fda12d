-- ===== src/Errors/Defs.antt =====
-- app/exceptions.py: the domain errors, and the result of code that may raise. The classes below
-- `Error.value_error` are the built-in exceptions that the program raises or catches.
use pixeldive.Prelude.{Bool, true, false}

-- Which limit a QuotaExceededError names in its message.
pub data Cap : Type 0 where
  rate tenant session : Cap

pub data GrpcCode : Type 0 where
  not_found invalid_argument resource_exhausted unauthenticated permission_denied : GrpcCode
  unavailable internal : GrpcCode

pub data Error : Type 0 where
  session_not_found image_not_found invalid_status image_too_large : Error
  unsupported_content_type empty_image invalid_metadata invalid_id batch_limit : Error
  unauthenticated forbidden : Error
  quota_exceeded : Cap → Error
  quota_unavailable : Error
  -- What `context.abort` raises.
  rpc_aborted : GrpcCode → Error
  value_error runtime_error file_not_found backend_error validation_error : Error

pub data Result {ℓ} (A : Type ℓ) : Type ℓ where
  ok : A → Result A
  err : Error → Result A

abbrev pub is_ok {ℓ} : {A : Type ℓ} → Result A → Bool
is_ok (ok a) = true
is_ok (err e) = false

-- A chain of fallible steps.
infixl 5 ◌>>=◌ ◌>>◌
abbrev pub ◌>>=◌ {ℓ κ} : {A : Type ℓ} {B : Type κ} → Result A → (A → Result B) → Result B
ok value >>= next = next value
err raised >>= next = err raised

abbrev pub ◌>>◌ {ℓ} : {B : Type ℓ} → Result (Unit {0}) → Result B → Result B
step >> next = step >>= λ _. next

-- `if not b: raise e`
abbrev pub require : Bool → Error → Result (Unit {0})
require true e = ok tt
require false e = err e

-- `if b: raise e`
abbrev pub reject : Bool → Error → Result (Unit {0})
reject true e = err e
reject false e = ok tt
