-- ===== src/Service/CourseInput.antt =====
-- internal/service/course.go: the input of a course, and what is checked of it.
use Prim.Native.String.{◌++◌ as ◌++ₛ◌}
use fcstask_backend.Errors.{bad_request}
use fcstask_backend.Errors.Action.{Result, bind, ok, refuse_if}
use fcstask_backend.Model.{Course, Time, uuid_nil}
use fcstask_backend.Prelude.{
  All, Bool, List, Option, String, [], contains, false, if◌then◌else◌, none, not, refl, some,
  str_eq, tests, true, ◌&&◌, ◌||◌, ◌∷◌, ◌≡◌,
}
use fcstask_backend.Service.Dates.{
  TimeFormat, date_layout, is_some, is_valid_date, is_valid_date_range, or_zero,
}
use fcstask_backend.Service.Deadline.{or_kept, or_kept_ptr}

pub record CourseInput : Type 0 where
  pub name : String
  pub slug : String
  pub status : String
  pub type : String
  pub invite_code : Option String
  pub start_date : String
  pub end_date : String
  pub repo_template : String
  pub description : String

abbrev pub course_type_public : String
course_type_public = "public"

abbrev pub course_type_private : String
course_type_private = "private"

abbrev pub is_valid_course_status : String → Bool
is_valid_course_status status =
    contains
      ("created" ∷ "hidden" ∷ "in_progress" ∷ "all_tasks_issued" ∷ "doreshka" ∷ "finished" ∷ [])
      status

abbrev pub is_hidden_course : Course → Bool
is_hidden_course course = str_eq course.status "hidden"

abbrev pub is_finished_course : Course → Bool
is_finished_course course = str_eq course.status "finished"

abbrev pub is_valid_course_type : String → Bool
is_valid_course_type type = str_eq type course_type_public || str_eq type course_type_private

abbrev pub course_type_or_default : String → String
course_type_or_default type = if str_eq type "" then course_type_private else type

-- `generated` is what `generateInviteCode` returns.
abbrev pub or_generated : String → Option String → Option String
or_generated generated none = some generated
or_generated generated (some code) = some code

unfoldable pub invite_code_for_course : String → String → Option String → Option String
invite_code_for_course generated type invite_code =
    if str_eq type course_type_private then or_generated generated invite_code else none

-- `if test { return BadRequest(message) }` for each of the tests in turn.
abbrev pub refuse_all : List (Bool × String) → Result (Unit {0})
refuse_all [] = ok tt
refuse_all ((test, message) ∷ tests) =
    bind (refuse_if test (bad_request message)) λ _. refuse_all tests

pub refuse_all-eq-ok :
    (tests : List (Bool × String)) {u : Unit {0}}
    → refuse_all tests ≡ ok u
    → All (λ t. t.0 ≡ false) tests
refuse_all-eq-ok [] h = tt
refuse_all-eq-ok ((true, message) ∷ tests) h = cc
refuse_all-eq-ok ((false, message) ∷ tests) h = (refl, refuse_all-eq-ok tests h)

module _ (times : TimeFormat) where
  -- `parsed, _ := time.Parse(...)`: a date that does not parse is the zero time.
  abbrev pub parse_course_date : String → Option Time
  parse_course_date date = some (or_zero (times.parse date_layout date))

  abbrev pub format_course_date : Option Time → String
  format_course_date none = ""
  format_course_date (some date) = times.format date_layout date

  -- What `validateCreateCourse` tests, in its order, and what it says.
  abbrev pub create_course_checks : CourseInput → List (Bool × String)
  create_course_checks input =
      (str_eq input.name "", "name is required")
      ∷ (str_eq input.slug "", "slug is required")
      ∷ (str_eq input.status "", "status is required")
      ∷ (not (is_valid_course_status input.status), "invalid status value")
      ∷ (
        not (str_eq input.type "") && not (is_valid_course_type input.type),
        "type must be 'public' or 'private'",
      )
      ∷ (str_eq input.start_date "", "startDate is required")
      ∷ (not (is_valid_date times input.start_date), "startDate must be in format YYYY-MM-DD")
      ∷ (str_eq input.end_date "", "endDate is required")
      ∷ (not (is_valid_date times input.end_date), "endDate must be in format YYYY-MM-DD")
      ∷ (
        not (is_valid_date_range times input.start_date input.end_date),
        "endDate must be after startDate",
      )
      ∷ (str_eq input.repo_template "", "repoTemplate is required")
      ∷ (str_eq input.description "", "description is required")
      ∷ []

  unfoldable pub validate_create_course : CourseInput → Result (Unit {0})
  validate_create_course input = refuse_all (create_course_checks input)

  -- The row that `CreateCourse` sends.
  unfoldable pub created_course : String → CourseInput → Course
  created_course generated input = record {
    id = uuid_nil;
    name = input.name;
    slug = input.slug;
    description = some input.description;
    status = input.status;
    type = course_type_or_default input.type;
    invite_code =
        invite_code_for_course generated (course_type_or_default input.type) input.invite_code;
    start_date = parse_course_date input.start_date;
    end_date = parse_course_date input.end_date;
    repo_template = some input.repo_template;
    url = "/course/" ++ₛ input.slug;
  }

  -- The `switch` on the type of an updated course.
  unfoldable pub updated_invite_code : String → String → CourseInput → Option String → Option String
  updated_invite_code generated type input kept =
      if str_eq type course_type_public
      then none
      else if str_eq type course_type_private
          && (not (str_eq input.type "") || is_some input.invite_code)
      then invite_code_for_course generated course_type_private input.invite_code
      else kept

  -- The row that `UpdateCourse` sends: `course` with what the input gives.
  unfoldable pub updated_course : String → CourseInput → Course → Course
  updated_course generated input course = record course {
    name = or_kept input.name course.name;
    status = or_kept input.status course.status;
    type = or_kept input.type course.type;
    invite_code =
        updated_invite_code generated (or_kept input.type course.type) input course.invite_code;
    start_date =
        if str_eq input.start_date ""
        then course.start_date
        else parse_course_date input.start_date;
    end_date =
        if str_eq input.end_date "" then course.end_date else parse_course_date input.end_date;
    repo_template = or_kept_ptr input.repo_template course.repo_template;
    description = or_kept_ptr input.description course.description;
  }

  -- What `UpdateCourse` tests, in its order, and what it says.
  abbrev pub update_course_checks : CourseInput → List (Bool × String)
  update_course_checks input =
      (
        not (str_eq input.status "") && not (is_valid_course_status input.status),
        "invalid status value",
      )
      ∷ (
        not (str_eq input.type "") && not (is_valid_course_type input.type),
        "type must be 'public' or 'private'",
      )
      ∷ (
        not (str_eq input.start_date "") && not (is_valid_date times input.start_date),
        "startDate must be in format YYYY-MM-DD",
      )
      ∷ (
        not (str_eq input.end_date "") && not (is_valid_date times input.end_date),
        "endDate must be in format YYYY-MM-DD",
      )
      ∷ []

  unfoldable pub validate_update_course : CourseInput → Result (Unit {0})
  validate_update_course input = refuse_all (update_course_checks input)
