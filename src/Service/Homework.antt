-- ===== src/Service/Homework.antt =====
-- internal/service/admin_homework.go and consistency.go: the homeworks of a course and their
-- deadlines.
pub mod Outcomes
pub mod Bodies
pub mod Methods
pub mod Requests
use fcstask_backend.Errors.{bad_request, internal, not_found}
use fcstask_backend.Errors.Action.{
  Action, Result, bind, err, lift, ok, or_else, pure, query, refuse_if, wrapping, ◌>>=◌, ◌>>◌,
}
use fcstask_backend.Metrics.Admin.{AdminAction, AdminMetrics, count_action}
use fcstask_backend.Metrics.World.{World, deferring}
use fcstask_backend.Model.{Homework, Time, Uuid, is_nil, uuid_nil}
use fcstask_backend.Prelude.{
  Bool, List, Option, String, false, if◌then◌else◌, none, not, some, str_eq, ◌==◌,
}
use fcstask_backend.Prelude.Int.{ℤ}
use fcstask_backend.Repo.Homework.{HomeworkRepo}
use fcstask_backend.Repo.Role.Interface.{RoleRepo}
use fcstask_backend.Service.Dates.{
  TimeFormat, is_after, is_valid_date, is_valid_date_range, parse_date_ptr,
}
use fcstask_backend.Service.Permission.Check.{require_scoped_permission}
use fcstask_backend.Service.Permission.Names.{
  permission_homework_create, permission_homework_delete, permission_homework_publish,
  permission_homework_read, permission_homework_update,
}

pub record CreateHomeworkInput : Type 0 where
  pub course_id : Uuid
  pub title : String
  pub description : String
  pub position : ℤ
  pub start_date : String
  pub end_date : String

-- A pointer that is nil was not provided.
pub record UpdateHomeworkInput : Type 0 where
  pub title : Option String
  pub description : Option String
  pub position : Option ℤ
  pub start_date : String
  pub end_date : String

abbrev pub not_empty : String → Option String
not_empty text = if str_eq text "" then none else some text

-- The title of an update: kept, refused or replaced.
abbrev pub new_title : Option String → String → Result String
new_title none title = ok title
new_title (some text) title =
    if str_eq text "" then err (bad_request "title cannot be empty") else ok text

abbrev pub new_description : Option String → Option String → Option String
new_description none description = description
new_description (some text) description = not_empty text

abbrev pub new_position : Option ℤ → ℤ → ℤ
new_position none position = position
new_position (some p) position = p

-- `hw.StartDate != nil && hw.EndDate != nil && !hw.EndDate.After(*hw.StartDate)`
abbrev pub out_of_order : Option Time → Option Time → Bool
out_of_order (some start) (some end) = not (is_after end start)
out_of_order (some start) none = false
out_of_order none end = false

module _ {D : Type 0} (homeworks : HomeworkRepo D) where
  unfoldable pub require_homework_in_course : Uuid → Uuid → D → Result Homework
  require_homework_in_course hw_id course_id d =
      bind (or_else (homeworks.get_by_id hw_id d) (λ _. not_found "Homework not found"))
        λ hw. if hw.course_id == course_id then ok hw else err (not_found "Homework not found")

module _ {D : Type 0} (times : TimeFormat) (homeworks : HomeworkRepo D) (roles : RoleRepo D) where
  unfoldable pub create_homework_body : Uuid → CreateHomeworkInput → Action D Homework
  create_homework_body user_id input = do
    lift (refuse_if (is_nil input.course_id) (bad_request "course_id is required"))
    query (require_scoped_permission roles user_id input.course_id permission_homework_create)
    lift (refuse_if (str_eq input.title "") (bad_request "title is required"))
    lift (refuse_if (str_eq input.start_date "") (bad_request "start date is required"))
    lift (
        refuse_if (not (is_valid_date times input.start_date))
          (bad_request "start date must be in format YYYY-MM-DD"))
    lift (refuse_if (str_eq input.end_date "") (bad_request "end date is required"))
    lift (
        refuse_if (not (is_valid_date times input.end_date))
          (bad_request "end date must be in format YYYY-MM-DD"))
    lift (
        refuse_if (not (is_valid_date_range times input.start_date input.end_date))
          (bad_request "end date must be after start_date"))
    start_date ← lift (parse_date_ptr times input.start_date)
    end_date ← lift (parse_date_ptr times input.end_date)
    wrapping
        (homeworks.create (record {
          hw_id = uuid_nil;
          course_id = input.course_id;
          title = input.title;
          description = not_empty input.description;
          position = input.position;
          is_public = none;
          start_date = start_date;
          end_date = end_date;
        }))
        (internal "Failed to create homework")

  unfoldable pub get_homework : (user_id course_id hw_id : Uuid) → D → Result Homework
  get_homework user_id course_id hw_id d =
      bind (refuse_if (is_nil hw_id) (bad_request "homework ID is required")) λ _.
        bind (require_homework_in_course homeworks hw_id course_id d) λ hw.
          bind (require_scoped_permission roles user_id hw.course_id permission_homework_read d)
            λ _. ok hw

  unfoldable pub list_homework : (user_id course_id : Uuid) → D → Result (List Homework)
  list_homework user_id course_id d =
      bind (refuse_if (is_nil course_id) (bad_request "course ID is required")) λ _.
        bind (require_scoped_permission roles user_id course_id permission_homework_read d) λ _.
          or_else (homeworks.get_by_course_id course_id d)
            (internal "Failed to fetch homework list")

  -- A date of an update: kept, or checked and parsed.
  unfoldable pub new_date : String → String → Option Time → Result (Option Time)
  new_date text message date =
      if str_eq text ""
      then ok date
      else bind (refuse_if (not (is_valid_date times text)) (bad_request message))
          λ _. parse_date_ptr times text

  unfoldable pub update_homework_body :
      (user_id course_id hw_id : Uuid) → UpdateHomeworkInput → Action D Homework
  update_homework_body user_id course_id hw_id input = do
    hw ← query (get_homework user_id course_id hw_id)
    query (require_scoped_permission roles user_id hw.course_id permission_homework_update)
    start_date ←
        lift (new_date input.start_date "start date must be in format YYYY-MM-DD" hw.start_date)
    end_date ← lift (new_date input.end_date "end date must be in format YYYY-MM-DD" hw.end_date)
    lift (
        refuse_if (out_of_order start_date end_date)
          (bad_request "end date must be after start_date"))
    title ← lift (new_title input.title hw.title)
    let hw : Homework = record hw {
      start_date = start_date;
      end_date = end_date;
      title = title;
      description = new_description input.description hw.description;
      position = new_position input.position hw.position;
    }
    wrapping (homeworks.update hw) (internal "Failed to update homework")
    pure hw

  unfoldable pub delete_homework_body : (user_id course_id hw_id : Uuid) → Action D (Unit {0})
  delete_homework_body user_id course_id hw_id = do
    lift (refuse_if (is_nil hw_id) (bad_request "homework ID is required"))
    hw ← query (get_homework user_id course_id hw_id)
    query (require_scoped_permission roles user_id hw.course_id permission_homework_delete)
    wrapping (homeworks.delete hw_id) (internal "Failed to delete homework")

  unfoldable pub publish_homework_body : (user_id course_id hw_id : Uuid) → Bool → Action D Homework
  publish_homework_body user_id course_id hw_id is_public = do
    hw ← query (get_homework user_id course_id hw_id)
    query (require_scoped_permission roles user_id hw.course_id permission_homework_publish)
    let hw : Homework = record hw { is_public = some is_public }
    wrapping (homeworks.update hw) (internal "Failed to publish homework")
    pure hw

  module _ {M : Type 0} (metrics : Option (AdminMetrics M)) where
    unfoldable pub create_homework : Uuid → CreateHomeworkInput → Action (World D M) Homework
    create_homework user_id input =
        deferring (count_action metrics AdminAction.create_homework)
          (create_homework_body user_id input)

    unfoldable pub update_homework :
        (user_id course_id hw_id : Uuid) → UpdateHomeworkInput → Action (World D M) Homework
    update_homework user_id course_id hw_id input =
        deferring (count_action metrics AdminAction.update_homework)
          (update_homework_body user_id course_id hw_id input)

    unfoldable pub delete_homework :
        (user_id course_id hw_id : Uuid) → Action (World D M) (Unit {0})
    delete_homework user_id course_id hw_id =
        deferring (count_action metrics AdminAction.delete_homework)
          (delete_homework_body user_id course_id hw_id)

    unfoldable pub publish_homework :
        (user_id course_id hw_id : Uuid) → Bool → Action (World D M) Homework
    publish_homework user_id course_id hw_id is_public =
        deferring (count_action metrics AdminAction.publish_homework)
          (publish_homework_body user_id course_id hw_id is_public)
