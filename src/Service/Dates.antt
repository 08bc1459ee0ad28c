-- ===== src/Service/Dates.antt =====
-- The dates that internal/service/course.go and admin_homework.go read from requests.
-- `time.Parse` and `Format` are parameters: `parse layout text` has no value where Go returns an
-- error, and Go's time is then the zero time.
use fcstask_backend.Errors.{bad_request}
use fcstask_backend.Errors.Action.{Result, bind, err, ok}
use fcstask_backend.Model.{Time}
use fcstask_backend.Prelude.{Bool, Option, String, false, if◌then◌else◌, none, some, str_eq, true}
use fcstask_backend.Prelude.Int.{ltb_ℤ, pos}

pub record TimeFormat : Type 0 where
  pub parse : (layout text : String) → Option Time
  pub format : (layout : String) → Time → String

abbrev pub date_layout : String
date_layout = "2006-01-02"

abbrev pub rfc3339 : String
rfc3339 = "2006-01-02T15:04:05Z07:00"

abbrev pub zero_time : Time
zero_time = pos 0

-- `t.After(u)`
abbrev pub is_after : Time → Time → Bool
is_after t u = ltb_ℤ u t

-- The value that `parsed, _ := time.Parse(...)` leaves in `parsed`.
abbrev pub or_zero : Option Time → Time
or_zero none = zero_time
or_zero (some t) = t

abbrev pub is_some {ℓ} : {A : Type ℓ} → Option A → Bool
is_some none = false
is_some (some a) = true

abbrev pub or_bad_request {ℓ} : {A : Type ℓ} → Option A → String → Result A
or_bad_request none message = err (bad_request message)
or_bad_request (some a) message = ok a

module _ (times : TimeFormat) where
  unfoldable pub is_valid_date : String → Bool
  is_valid_date date = is_some (times.parse date_layout date)

  unfoldable pub is_valid_date_range : String → String → Bool
  is_valid_date_range start end =
      is_after (or_zero (times.parse date_layout end)) (or_zero (times.parse date_layout start))

  unfoldable pub parse_date_ptr : String → Result (Option Time)
  parse_date_ptr date =
      if str_eq date ""
      then ok none
      else bind (or_bad_request (times.parse date_layout date) "date must be in format YYYY-MM-DD")
          λ parsed. ok (some parsed)
