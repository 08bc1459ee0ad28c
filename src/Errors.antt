-- ===== src/Errors.antt =====
-- internal/service/errors.go, Go's errors as values, and the calls that return them.
-- The sentinels that `service.Error` wraps.
pub mod Action
pub mod Ensures
pub mod Outcomes
pub mod Settles
use fcstask_backend.Prelude.{Bool, Option, String, false, none, some, true}

pub data Sentinel : Type 0 where
  err_bad_request err_unauthorized err_forbidden err_not_found err_conflict : Sentinel
  err_invalid_credentials err_internal : Sentinel

-- A Go `error` that is not nil. `gorm.ErrRecordNotFound` and `pgconn.PgError` are the two foreign
-- errors that the code tells apart; `service code message wrapped` is `*service.Error`.
pub data Error : Type 0 where
  record_not_found : Error
  pg_error : String → String → Error
  other_error : String → Error
  sentinel : Sentinel → Error
  service : String → String → Error → Error

abbrev pub new_error : String → String → Error → Error
new_error code message wrapped = service code message wrapped

abbrev pub bad_request : String → Error
bad_request message = new_error "bad_request" message (sentinel err_bad_request)

abbrev pub unauthorized : String → Error
unauthorized message = new_error "unauthorized" message (sentinel err_unauthorized)

abbrev pub forbidden : String → Error
forbidden message = new_error "forbidden" message (sentinel err_forbidden)

abbrev pub not_found : String → Error
not_found message = new_error "not_found" message (sentinel err_not_found)

abbrev pub conflict : String → Error
conflict message = new_error "conflict" message (sentinel err_conflict)

abbrev pub internal : String → Error → Error
internal message wrapped = new_error "internal_error" message wrapped

-- `errors.Is(err, gorm.ErrRecordNotFound)`: the error or one that it wraps.
abbrev pub is_record_not_found : Error → Bool
is_record_not_found record_not_found = true
is_record_not_found (service _ _ wrapped) = is_record_not_found wrapped
is_record_not_found _ = false

-- `errors.As(err, &serviceErr)`: the code of the outermost `*service.Error`.
abbrev pub service_code : Error → Option String
service_code (service code _ _) = some code
service_code _ = none

-- `errors.As(err, &pgErr)`: the code and the constraint of the first `*pgconn.PgError`.
abbrev pub as_pg_error : Error → Option (String × String)
as_pg_error (pg_error code constraint) = some (code, constraint)
as_pg_error (service _ _ wrapped) = as_pg_error wrapped
as_pg_error _ = none
