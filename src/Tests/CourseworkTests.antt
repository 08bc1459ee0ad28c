-- ===== src/Tests/CourseworkTests.antt =====
-- Homeworks, deadlines and tasks over the store: the owner of course 7 works on it.
-- Dates are their own numbers of days here: two days are known.
use fcstask_backend.Repo.Role.Repository
use fcstask_backend.Errors.Action.{◌>>=◌}
use fcstask_backend.Metrics.Admin.{AdminAction, count_action}
use fcstask_backend.Metrics.Serves.{Serves}
use fcstask_backend.Model.{Homework, Time}
use fcstask_backend.Prelude.{
  Bool-cases, Option, String, [], if◌then◌else◌, inl, inr, none, refl, some, str_eq, subst, sym,
  ◌==◌, ◌∙◌, ◌∷◌, ◌≡◌,
}
use fcstask_backend.Prelude.Int.{pos}
use fcstask_backend.Repo.Homework.{homework_table}
use fcstask_backend.Repo.Role.Repository.{get_role_id_by_user_and_course}
use fcstask_backend.Repo.Stored.{AllRows}
use fcstask_backend.Service.Dates.{TimeFormat, is_valid_date, is_valid_date_range, parse_date_ptr}
use fcstask_backend.Service.Deadline.{SetDeadlineInput, UpdateDeadlineInput, set_deadline}
use fcstask_backend.Service.Deadline.Methods.{DeadlineSet, set_deadline-Serves}
use fcstask_backend.Service.Homework.{
  CreateHomeworkInput, UpdateHomeworkInput, create_homework, create_homework_body,
}
use fcstask_backend.Service.Homework.Outcomes.{IsSound}
use fcstask_backend.Service.Homework.Requests.{
  create_one, delete_one, serve_homeworks, serve_homeworks-AllSound, update_one,
}
use fcstask_backend.Service.Permission.Check.{
  has_permission, has_scoped_permission, has_super_admin, require_scoped_permission,
}
use fcstask_backend.Tests.School.{
  deadline_rows, first_homework, homework_rows, school, school_world, store-DeadlineLaws,
  store-HomeworkLaws, store_deadlines, store_homeworks, store_metrics,
}
use fcstask_backend.Tests.Store.{store-RoleLaws, store_roles, store_view}

abbrev parse_days : String → String → Option Time
parse_days layout text =
    if str_eq text "2025-01-01"
    then some (pos 1)
    else (if str_eq text "2025-01-31" then some (pos 31) else none)

abbrev days : TimeFormat
days = record { parse = parse_days; format = λ layout t. "" }

abbrev january : CreateHomeworkInput
january = record {
  course_id = 7;
  title = "trees";
  description = "";
  position = pos 2;
  start_date = "2025-01-01";
  end_date = "2025-01-31";
}

-- The owner creates a homework: it is stored under the next id.
created :
    homework_rows
      (create_homework days store_homeworks store_roles
        (some store_metrics)
        1
        january
        school_world).1.db
      31
    ≡ some (record {
      hw_id = 31;
      course_id = 7;
      title = "trees";
      description = none;
      position = pos 2;
      is_public = none;
      start_date = some (pos 1);
      end_date = some (pos 31);
    })
unfolding create_homework create_homework_body is_valid_date is_valid_date_range parse_date_ptr
    require_scoped_permission has_scoped_permission has_permission has_super_admin ◌>>=◌
    get_role_id_by_user_and_course Repository.has_permission
created = refl

abbrev reversed : CreateHomeworkInput
reversed = record january { start_date = "2025-01-31"; end_date = "2025-01-01" }

-- The dates may not be swapped.
swapped :
    (create_homework days store_homeworks store_roles
      (some store_metrics)
      1
      reversed
      school_world).1
    ≡ record { db = school; metrics = ("create_homework", "error") ∷ [] }
unfolding create_homework create_homework_body is_valid_date is_valid_date_range parse_date_ptr
    require_scoped_permission has_scoped_permission has_permission has_super_admin ◌>>=◌
    get_role_id_by_user_and_course Repository.has_permission
swapped = refl

abbrev later_start : UpdateHomeworkInput
later_start = record {
  title = none;
  description = some "";
  position = some (pos 3);
  start_date = "2025-01-31";
  end_date = "";
}

same_homework : {a b : Homework} → some a ≡ some b → a ≡ b
same_homework e = cc

school-IsSound : AllRows (homework_table homework_rows) IsSound school
school-IsSound id hw h = elim (Bool-cases (id == 30)) [
  | inl e ↦
      subst IsSound (same_homework {a = first_homework} (sym (rw e refl) ∙ h))
        (record { titled = refl; in_order = refl })
  | inr e ↦ absurd (no_row (sym (rw e refl) ∙ h))
]
  where
    no_row : none ≡ some hw → ⊥
    no_row x = cc

serve_homeworks-AllSound_example : AllRows (homework_table homework_rows) IsSound (
    serve_homeworks days store_homeworks store_roles
      (create_one 1 january ∷ update_one 1 7 30 later_start ∷ delete_one 1 7 31 ∷ [])
      school)
serve_homeworks-AllSound_example =
    serve_homeworks-AllSound days store_homeworks store_roles homework_rows store_view
      store-RoleLaws store-HomeworkLaws
      (create_one 1 january ∷ update_one 1 7 30 later_start ∷ delete_one 1 7 31 ∷ []) school
      school-IsSound

abbrev exam : SetDeadlineInput
exam = record {
  course_id = 7;
  homework_id = 30;
  title = "exam";
  description = "";
  due_date = "2025-01-31";
  assigned_by = none;
}

set_deadline-Serves_example :
    Serves school_world
      (DeadlineSet days homework_rows deadline_rows store_view school 1 exam)
      (count_action (some store_metrics) AdminAction.set_deadline)
      (set_deadline days store_homeworks store_deadlines store_roles (some store_metrics) 1 exam)
set_deadline-Serves_example =
    set_deadline-Serves days store_homeworks store_deadlines store_roles homework_rows deadline_rows
      store_view store-RoleLaws store-HomeworkLaws store-DeadlineLaws (some store_metrics)
      school_world 1 exam

abbrev moved : UpdateDeadlineInput
moved = record { title = ""; description = ""; due_date = "2025-01-01" }
