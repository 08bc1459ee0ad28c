-- ===== src/Service/Course.antt =====
-- internal/service/course.go: the courses, who may see them, and how a user joins one.
-- `CourseMetrics`: the counter of joins.
pub mod Access
pub mod Join
pub mod Joinable
pub mod Keeps
pub mod Requests
use fcstask_backend.Errors.{bad_request, conflict, forbidden, internal, not_found, service_code}
use fcstask_backend.Errors.Action.{
  Action, Result, bind, err, lift, ok, or_else, pure, query, refuse_if, wrapping, ◌>>=◌, ◌>>◌,
}
use fcstask_backend.Metrics.World.{World, deferring}
use fcstask_backend.Model.{Course, Uuid, uuid_nil}
use fcstask_backend.Prelude.{List, Option, String, [], if◌then◌else◌, none, not, some, str_eq}
use fcstask_backend.Prelude.Int.{pos}
use fcstask_backend.Repo.Course.{CourseRepo, TaskBoardSummary}
use fcstask_backend.Repo.Leaderboard.{LeaderboardEntry}
use fcstask_backend.Repo.Role.Interface.{RoleRepo}
use fcstask_backend.Service.CourseInput.{
  CourseInput, course_type_private, course_type_public, created_course, format_course_date,
  is_finished_course, is_hidden_course, updated_course, validate_create_course,
  validate_update_course,
}
use fcstask_backend.Service.Dates.{TimeFormat, is_valid_date_range}
use fcstask_backend.Service.Permission.Check.{has_scoped_permission, require_scoped_permission}
use fcstask_backend.Service.Permission.Grant.{ensure_user_role_with_permissions}
use fcstask_backend.Service.Permission.Names.{
  course_admin_permissions, course_student_permissions, permission_course_create,
  permission_course_hidden_read, permission_course_invite_regenerate, permission_course_read,
  permission_course_update, permission_leaderboard_read,
}

pub record CourseMetrics (M : Type 0) : Type 0 where
  pub inc : (outcome : String) → M → M

abbrev pub inc_join : {M : Type 0} → Option (CourseMetrics M) → String → M → M
inc_join none outcome m = m
inc_join (some counters) outcome m = counters.inc outcome m

-- How `JoinCourse` ends without an error: it returns nil, or it dereferences a nil invite code.
pub data Joined : Type 0 where
  is_joined panicked : Joined

abbrev pub outcome_of_code : Option String → String
outcome_of_code none = "forbidden"
outcome_of_code (some code) =
    if str_eq code "not_found"
    then "course_not_found"
    else (if str_eq code "conflict" then "already_member" else "forbidden")

-- `joinOutcomeFromError`, where a panic leaves the error nil.
unfoldable pub join_outcome : Result Joined → String
join_outcome (ok _) = "success"
join_outcome (err e) = outcome_of_code (service_code e)

abbrev pub existing_course : Option Course → Result Course
existing_course none = err (not_found "course not found")
existing_course (some course) = ok course

abbrev pub check_invite_code : Option String → String → Result Joined
check_invite_code none code = ok panicked
check_invite_code (some invite_code) code =
    if str_eq invite_code code then ok is_joined else err (forbidden "invalid invite code")

module _ {D Group Info : Type 0} (times : TimeFormat) (courses : CourseRepo D Group Info)
    (roles : RoleRepo D) where
  unfoldable pub get_courses : Uuid → String → D → Result (List Course)
  get_courses user_id status d =
      or_else (courses.get_courses_by_user_id user_id status d) (internal "Failed to get courses")

  unfoldable pub get_public_courses : D → Result (List Course)
  get_public_courses d =
      or_else (courses.get_public_courses d) (internal "Failed to get public courses")

  -- A hidden course is shown to those who may read hidden courses, a public one to everybody, and
  -- any other to those who may read the course.
  unfoldable pub show_course : Uuid → Course → D → Result Course
  show_course user_id course d =
      if is_hidden_course course
      then bind
          (or_else (has_scoped_permission roles user_id course.id permission_course_hidden_read d)
            (internal "Failed to check permissions"))
          (λ is_allowed. if is_allowed then ok course else err (not_found "course not found"))
      else if str_eq course.type course_type_public
      then ok course
      else bind (require_scoped_permission roles user_id course.id permission_course_read d)
          λ _. ok course

  unfoldable pub get_course : Uuid → String → D → Result Course
  get_course user_id course_id d =
      bind (or_else (courses.get_course_by_id course_id d) (internal "Failed to get course"))
        λ found_course. bind (existing_course found_course) λ course. show_course user_id course d

  unfoldable pub get_course_info : Uuid → String → D → Result Info
  get_course_info user_id course_id d = bind (get_course user_id course_id d) λ course.
      bind (or_else (courses.get_course_info course.id d) (internal "Failed to get course info"))
        λ info. or_not_found info
    where
      or_not_found : Option Info → Result Info
      or_not_found none = err (not_found "course not found")
      or_not_found (some info) = ok info

  abbrev pub refuse_existing : Option Course → Result (Unit {0})
  refuse_existing none = ok tt
  refuse_existing (some course) = err (conflict "course with this slug already exists")

  -- `new_role_id` and `generated` are what `uuid.New()` and `generateInviteCode()` return. The creator
  -- gets the admin permissions.
  unfoldable pub create_course :
      (new_role_id : Uuid) → (generated : String) → Uuid → CourseInput → Action D Course
  create_course new_role_id generated user_id input = do
    query (require_scoped_permission roles user_id uuid_nil permission_course_create)
    lift (validate_create_course times input)
    existing ← query (λ d.
        or_else (courses.get_course_by_id input.slug d)
          (internal "Failed to check course uniqueness"))
    lift (refuse_existing existing)
    created ←
        wrapping (courses.create_course (created_course times generated input))
          (internal "Failed to create course")
    wrapping
        (ensure_user_role_with_permissions roles new_role_id user_id created.id
          course_admin_permissions)
        (internal "Failed to assign admin permissions")
    pure created

  unfoldable pub update_course :
      (generated : String) → Uuid → String → CourseInput → Action D Course
  update_course generated user_id course_id input = do
    course ← query (get_course user_id course_id)
    query (require_scoped_permission roles user_id course.id permission_course_update)
    lift (validate_update_course times input)
    let updated : Course = updated_course times generated input course
    lift (
        refuse_if
          (not (
            is_valid_date_range times (format_course_date times updated.start_date)
              (format_course_date times updated.end_date)))
          (bad_request "endDate must be after startDate"))
    courses.update_course course_id updated

  unfoldable pub get_course_board : Uuid → String → D → Result (TaskBoardSummary Group)
  get_course_board user_id course_id d =
      bind (refuse_if (str_eq course_id "") (bad_request "course ID is required")) λ _.
        bind (get_course user_id course_id d) λ course.
          bind (require_scoped_permission roles user_id course.id permission_course_read d) λ _.
            bind
              (or_else (courses.get_course_board course_id user_id d)
                (internal "Failed to get course board"))
              λ board. ok (or_empty course board)
    where
      or_empty : Course → Option (TaskBoardSummary Group) → TaskBoardSummary Group
      or_empty course none = record {
        course_name = course.name;
        course_status = course.status;
        solved_score = pos 0;
        max_score = pos 0;
        solved_percent = pos 0;
        groups = [];
      }
      or_empty course (some board) = board

  -- Whether the user may join: a nil invite code of a course that is not public is a panic.
  abbrev pub admit : Course → String → Result Joined
  admit course code =
      if str_eq course.type course_type_public
      then ok is_joined
      else check_invite_code course.invite_code code

  abbrev pub enter : Uuid → Uuid → Uuid → Joined → Action D Joined
  enter new_role_id user_id course_id panicked = pure panicked
  enter new_role_id user_id course_id is_joined = do
    wrapping
        (ensure_user_role_with_permissions roles new_role_id user_id course_id
          course_student_permissions)
        (internal "Failed to join course")
    pure is_joined

  unfoldable pub join_course_body : (new_role_id : Uuid) → Uuid → String → String → Action D Joined
  join_course_body new_role_id user_id course_id code = do
    found_course ← query (λ d.
        or_else (courses.get_course_by_id course_id d) (internal "Failed to get course by ID"))
    course ← lift (existing_course found_course)
    lift (refuse_if (is_hidden_course course) (not_found "course not found"))
    lift (refuse_if (is_finished_course course) (forbidden "course is finished"))
    already ← query (λ d.
        or_else (has_scoped_permission roles user_id course.id permission_course_read d)
          (internal "Failed to check participation"))
    lift (refuse_if already (conflict "already a participant"))
    admitted ← lift (admit course code)
    enter new_role_id user_id course.id admitted

  unfoldable pub get_leaderboard : Uuid → String → D → Result (List LeaderboardEntry)
  get_leaderboard user_id course_id d =
      bind (refuse_if (str_eq course_id "") (bad_request "course_id is required")) λ _.
        bind (get_course user_id course_id d) λ course.
          bind (require_scoped_permission roles user_id course.id permission_leaderboard_read d)
            λ _.
              or_else (courses.get_leaderboard course_id d) (internal "Failed to get leaderboard")

  unfoldable pub regenerate_invite_code : (generated : String) → Uuid → String → Action D String
  regenerate_invite_code generated user_id course_id = do
    lift (refuse_if (str_eq course_id "") (bad_request "course_id is required"))
    course ← query (get_course user_id course_id)
    query (require_scoped_permission roles user_id course.id permission_course_invite_regenerate)
    lift (
        refuse_if (not (str_eq course.type course_type_private))
          (bad_request "course is not private"))
    wrapping (courses.update_invite_code course.id (some generated))
        (internal "Failed to regenerate invite code")
    pure generated

  module _ {M : Type 0} (metrics : Option (CourseMetrics M)) where
    unfoldable pub join_course :
        (new_role_id : Uuid) → Uuid → String → String → Action (World D M) Joined
    join_course new_role_id user_id course_id code =
        deferring (λ r. inc_join metrics (join_outcome r))
          (join_course_body new_role_id user_id course_id code)
