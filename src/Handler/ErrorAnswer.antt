-- ===== src/Handler/ErrorAnswer.antt =====
-- internal/handler/errors.go: the HTTP answer to an error of a service.
-- `ctx.JSON(status, api.Error{...})`
use fcstask_backend.Errors.{Error, other_error, pg_error, record_not_found, sentinel, service}
use fcstask_backend.Prelude.{
  Option, String, arith, false, if◌then◌else◌, inr, none, refl, some, str_eq, true, ℕ, ◌≡◌, ◌⊎◌,
}

pub record ErrorAnswer : Type 0 where
  pub status : ℕ
  pub code : String
  pub message : String

abbrev pub api_error : ℕ → String → String → ErrorAnswer
api_error status code message = record { status = status; code = code; message = message }

abbrev pub internal_error : String → ErrorAnswer
internal_error message = api_error 500 "internal_error" message

-- The `switch` on the code of a `*service.Error`.
unfoldable pub answer_to_code : String → String → ErrorAnswer
answer_to_code code message =
    if str_eq code "bad_request"
    then api_error 400 "bad_request" message
    else if str_eq code "unauthorized"
    then api_error 401 "unauthorized" message
    else if str_eq code "forbidden"
    then api_error 403 "forbidden" message
    else if str_eq code "not_found"
    then api_error 404 "not_found" message
    else if str_eq code "conflict"
    then api_error 409 "conflict" message
    else internal_error message

-- `none` is Go's nil error, to which nothing is answered.
unfoldable pub service_error : Option Error → Option ErrorAnswer
service_error none = none
service_error (some (service code message wrapped)) = some (answer_to_code code message)
service_error (some e) = some (internal_error "Internal server error")

-- What an error's answer may say: the message of a service error, and never what it wraps, with one
-- of six pairs of a status and a code; of any other error, nothing.
abbrev pub message_of : Error → String
message_of (service code message wrapped) = message
message_of e = "Internal server error"

abbrev pub IsOtherCode : String → Type 0
IsOtherCode code =
    (str_eq code "bad_request" ≡ false)
    × (str_eq code "unauthorized" ≡ false)
    × (str_eq code "forbidden" ≡ false)
    × (str_eq code "not_found" ≡ false)
    × (str_eq code "conflict" ≡ false)

abbrev pub StatusOf : String → ℕ → Type 0
StatusOf code status =
    ((status ≡ 400) × (str_eq code "bad_request" ≡ true))
    ⊎ (((status ≡ 401) × (str_eq code "unauthorized" ≡ true))
        ⊎ (((status ≡ 403) × (str_eq code "forbidden" ≡ true))
            ⊎ (((status ≡ 404) × (str_eq code "not_found" ≡ true))
                ⊎ (((status ≡ 409) × (str_eq code "conflict" ≡ true))
                    ⊎ ((status ≡ 500) × IsOtherCode code)))))

abbrev pub code_of : Error → String
code_of (service code message wrapped) = code
code_of e = "internal_error"

answer_to_code-StatusOf :
    (code message : String)
    → StatusOf code (answer_to_code code message).status
      × ((answer_to_code code message).message ≡ message)
unfolding answer_to_code
answer_to_code-StatusOf code message = ground arith

unknown : StatusOf "internal_error" 500
unknown = inr (inr (inr (inr (inr (refl, (refl, refl, refl, refl, refl))))))

-- Every error is answered, with a message that is the service error's own or a fixed text, never that
-- of a wrapped error; the status is the one of its code, and 500 otherwise. No error is not answered.
pub service_error-StatusOf :
    (e : Error)
    → (a : ErrorAnswer) × (service_error (some e) ≡ some a)
      × (a.message ≡ message_of e)
      × StatusOf (code_of e) a.status
unfolding service_error
service_error-StatusOf (service code message wrapped) =
    let (status, text) = answer_to_code-StatusOf code message in
    (answer_to_code code message, refl, text, status)
service_error-StatusOf record_not_found = (_, refl, refl, unknown)
service_error-StatusOf (pg_error code constraint) = (_, refl, refl, unknown)
service_error-StatusOf (other_error message) = (_, refl, refl, unknown)
service_error-StatusOf (sentinel s) = (_, refl, refl, unknown)
