-- ===== src/Service/Deadline.antt =====
-- internal/service/admin_homework.go: the deadlines of homeworks.
pub mod Methods
use fcstask_backend.Errors.{bad_request, internal, not_found}
use fcstask_backend.Errors.Action.{
  Action, Result, bind, lift, ok, or_else, pure, query, refuse_if, wrapping, ◌>>=◌, ◌>>◌,
}
use fcstask_backend.Metrics.Admin.{AdminAction, AdminMetrics, count_action}
use fcstask_backend.Metrics.World.{World, deferring}
use fcstask_backend.Model.{Deadline, Time, Uuid, is_nil, uuid_nil}
use fcstask_backend.Prelude.{Option, String, if◌then◌else◌, some, str_eq}
use fcstask_backend.Repo.Homework.{DeadlineRepo, HomeworkRepo}
use fcstask_backend.Repo.Role.Interface.{RoleRepo}
use fcstask_backend.Service.Dates.{TimeFormat, or_bad_request, rfc3339}
use fcstask_backend.Service.Homework.{require_homework_in_course}
use fcstask_backend.Service.Permission.Check.{require_scoped_permission}
use fcstask_backend.Service.Permission.Names.{
  permission_deadline_create, permission_deadline_delete, permission_deadline_read,
  permission_deadline_update,
}

pub record SetDeadlineInput : Type 0 where
  pub course_id : Uuid
  pub homework_id : Uuid
  pub title : String
  pub description : String
  pub due_date : String
  pub assigned_by : Option Uuid

pub record UpdateDeadlineInput : Type 0 where
  pub title : String
  pub description : String
  pub due_date : String

-- A text of an update: kept when it is empty.
abbrev pub or_kept : String → String → String
or_kept text kept = if str_eq text "" then kept else text

abbrev pub or_kept_ptr : String → Option String → Option String
or_kept_ptr text kept = if str_eq text "" then kept else some text

module _ {D : Type 0} (times : TimeFormat) (homeworks : HomeworkRepo D) (deadlines : DeadlineRepo D)
    (roles : RoleRepo D) where
  abbrev pub parse_due_date : String → Result Time
  parse_due_date text =
      or_bad_request (times.parse rfc3339 text) "due date must be in RFC3339 format"

  unfoldable pub set_deadline_body : Uuid → SetDeadlineInput → Action D Deadline
  set_deadline_body user_id input = do
    lift (refuse_if (is_nil input.course_id) (bad_request "course_id is required"))
    query (require_scoped_permission roles user_id input.course_id permission_deadline_create)
    lift (refuse_if (is_nil input.homework_id) (bad_request "homework ID is required"))
    lift (refuse_if (str_eq input.title "") (bad_request "title is required"))
    due_date ← lift (parse_due_date input.due_date)
    query (require_homework_in_course homeworks input.homework_id input.course_id)
    wrapping
        (deadlines.create (record {
          id = uuid_nil;
          title = input.title;
          description = some input.description;
          course_id = input.course_id;
          due_date = due_date;
          assigned_by = input.assigned_by;
          homework_id = input.homework_id;
        }))
        (internal "Failed to set deadline")

  abbrev pub existing_deadline : Uuid → D → Result Deadline
  existing_deadline deadline_id d =
      or_else (deadlines.get_by_id deadline_id d) (λ _. not_found "Deadline not found")

  unfoldable pub get_deadline_by_homework_id : (user_id hw_id : Uuid) → D → Result Deadline
  get_deadline_by_homework_id user_id hw_id d =
      bind (refuse_if (is_nil hw_id) (bad_request "homework ID is required")) λ _.
        bind (or_else (homeworks.get_by_id hw_id d) (λ _. not_found "Homework not found")) λ hw.
          bind (require_scoped_permission roles user_id hw.course_id permission_deadline_read d)
            λ _.
              or_else (deadlines.get_by_homework_id hw_id d) (λ _. not_found "Deadline not found")

  abbrev pub new_due_date : String → Time → Result Time
  new_due_date text kept = if str_eq text "" then ok kept else parse_due_date text

  unfoldable pub update_deadline_body :
      (user_id deadline_id : Uuid) → UpdateDeadlineInput → Action D Deadline
  update_deadline_body user_id deadline_id input = do
    lift (refuse_if (is_nil deadline_id) (bad_request "deadline ID is required"))
    deadline ← query (existing_deadline deadline_id)
    query (require_scoped_permission roles user_id deadline.course_id permission_deadline_update)
    due_date ← lift (new_due_date input.due_date deadline.due_date)
    let deadline : Deadline = record deadline {
      title = or_kept input.title deadline.title;
      description = or_kept_ptr input.description deadline.description;
      due_date = due_date;
    }
    wrapping (deadlines.update deadline) (internal "Failed to update deadline")
    pure deadline

  unfoldable pub delete_deadline_body : (user_id deadline_id : Uuid) → Action D (Unit {0})
  delete_deadline_body user_id deadline_id = do
    lift (refuse_if (is_nil deadline_id) (bad_request "deadline ID is required"))
    deadline ← query (existing_deadline deadline_id)
    query (require_scoped_permission roles user_id deadline.course_id permission_deadline_delete)
    wrapping (deadlines.delete deadline_id) (internal "Failed to delete deadline")

  module _ {M : Type 0} (metrics : Option (AdminMetrics M)) where
    unfoldable pub set_deadline : Uuid → SetDeadlineInput → Action (World D M) Deadline
    set_deadline user_id input =
        deferring (count_action metrics AdminAction.set_deadline) (set_deadline_body user_id input)

    -- An update counts as `AdminActionSetDeadline` too.
    unfoldable pub update_deadline :
        (user_id deadline_id : Uuid) → UpdateDeadlineInput → Action (World D M) Deadline
    update_deadline user_id deadline_id input =
        deferring (count_action metrics AdminAction.set_deadline)
          (update_deadline_body user_id deadline_id input)

    unfoldable pub delete_deadline : (user_id deadline_id : Uuid) → Action (World D M) (Unit {0})
    delete_deadline user_id deadline_id =
        deferring (count_action metrics AdminAction.delete_deadline)
          (delete_deadline_body user_id deadline_id)
