-- ===== src/Tests/AdminRoleTests.antt =====
-- `AdminRoleService` over the store: an owner promotes, revokes and removes a student.
use fcstask_backend.Repo.Role.Repository
use fcstask_backend.Errors.Action.{ok, ◌>>=◌}
use fcstask_backend.Metrics.Admin.{assign_role, count_action}
use fcstask_backend.Metrics.Serves.{Serves}
use fcstask_backend.Model.{Uuid}
use fcstask_backend.Prelude.{
  List, [], ap, arith, contains, if◌then◌else◌, not, refl, some, sym, true, ◌&&◌, ◌==◌, ◌∙◌, ◌∷◌,
  ◌≡◌,
}
use fcstask_backend.Repo.Role.Reads.{role_of}
use fcstask_backend.Repo.Role.Repository.{
  add_permissions, get_role_id_by_user_and_course, remove_permissions, revoke_role_with_permissions,
}
use fcstask_backend.Repo.Role.Tables.{insert_missing}
use fcstask_backend.Service.AdminRole.{
  AddPermissionInput, AssignCourseAdminInput, RemoveCourseParticipantInput, RevokeCourseAdminInput,
  assign_course_admin, assign_course_admin_body, remove_course_participant,
  remove_course_participant_body, revoke_course_admin, revoke_course_admin_body,
}
use fcstask_backend.Service.AdminRole.Access.{
  assign_course_admin-allowed, revoke_course_admin-holds,
}
use fcstask_backend.Service.AdminRole.Isolation.{IsSeparate, SameIn}
use fcstask_backend.Service.AdminRole.Methods.{assign_course_admin-Serves}
use fcstask_backend.Service.AdminRole.Outcomes.{AssignedAdmin}
use fcstask_backend.Service.AdminRole.Requests.{
  CourseRequest, assign_admin, drop_participant, give_permission, serve, serve-SameIn,
  take_permission,
}
use fcstask_backend.Service.Permission.Check.{
  has_permission, has_scoped_permission, has_super_admin, require_scoped_permission,
}
use fcstask_backend.Service.Permission.Decision.{
  Answers, allowed, has_scoped_permission-decides, holds,
}
use fcstask_backend.Service.Permission.Grant.{grant_role_permissions, revoke_role_permissions}
use fcstask_backend.Service.Permission.Names.{course_admin_permissions}
use fcstask_backend.Tests.School.{school, school_world, store_metrics, store_users}
use fcstask_backend.Tests.Store.{store-RoleLaws, store_contents, store_roles, store_view}

abbrev promote : AssignCourseAdminInput
promote = record { user_id = 2; course_id = 7 }

-- The owner promotes the student, and the action is counted.
promoted :
    (assign_course_admin store_roles store_users (some store_metrics) 1 promote school_world).0
    ≡ ok (record { user_id = 2; course_id = 7; role_id = 12 })
unfolding assign_course_admin assign_course_admin_body grant_role_permissions
    require_scoped_permission has_scoped_permission has_permission has_super_admin ◌>>=◌
    get_role_id_by_user_and_course Repository.has_permission add_permissions insert_missing
promoted = refl

-- The student may not promote himself.
refused :
    (assign_course_admin store_roles store_users (some store_metrics) 2 promote school_world).1
    ≡ record { db = school; metrics = ("assign_role", "error") ∷ [] }
unfolding assign_course_admin assign_course_admin_body grant_role_permissions
    require_scoped_permission has_scoped_permission has_permission has_super_admin ◌>>=◌
    get_role_id_by_user_and_course Repository.has_permission add_permissions insert_missing
refused = refl

has_scoped_permission-decides_example :
    Answers
      (has_scoped_permission store_roles 9 7 "task.read" school)
      (allowed store_view school 9 7 "task.read")
has_scoped_permission-decides_example =
    has_scoped_permission-decides store_roles store_view store-RoleLaws 9 7 "task.read" school

assign_course_admin-Serves_example :
    Serves school_world
      (AssignedAdmin store_view school 1 promote)
      (count_action (some store_metrics) assign_role)
      (assign_course_admin store_roles store_users (some store_metrics) 1 promote)
assign_course_admin-Serves_example =
    assign_course_admin-Serves store_roles store_users store_view store-RoleLaws
      (some store_metrics) school_world 1 promote

abbrev escalation : AddPermissionInput
escalation = record { course_id = 7; role_id = 12; permission = "is_super_admin" }

assign_course_admin-allowed_example :
    allowed store_view
      (assign_course_admin store_roles store_users (some store_metrics) 1 promote school_world).1.db
      2
      7
      "task.create"
    ≡ true
assign_course_admin-allowed_example =
    assign_course_admin-allowed store_roles store_users store_view store-RoleLaws
      (some store_metrics) school_world 1 promote
      (record { user_id = 2; course_id = 7; role_id = 12 }) "task.create" promoted refl

abbrev demote : RevokeCourseAdminInput
demote = record { user_id = 2; course_id = 7 }

demoted :
    (revoke_course_admin store_roles store_users (some store_metrics) 1 demote school_world).0
    ≡ ok tt
unfolding revoke_course_admin revoke_course_admin_body revoke_role_permissions
    require_scoped_permission has_scoped_permission has_permission has_super_admin ◌>>=◌
    get_role_id_by_user_and_course Repository.has_permission remove_permissions
demoted = refl

revoke_course_admin-holds_example :
    holds store_view
      (revoke_course_admin store_roles store_users (some store_metrics) 1 demote school_world).1.db
      2
      7
      "task.submit"
    ≡ (holds store_view school 2 7 "task.submit"
        && not (contains course_admin_permissions "task.submit"))
revoke_course_admin-holds_example =
    revoke_course_admin-holds store_roles store_users store_view store-RoleLaws (some store_metrics)
      school_world 1 demote "task.submit" demoted

abbrev expel : RemoveCourseParticipantInput
expel = record { user_id = 2; course_id = 7 }

expelled :
    (remove_course_participant store_roles store_users (some store_metrics) 1 expel school_world).0
    ≡ ok tt
unfolding remove_course_participant remove_course_participant_body revoke_role_with_permissions
    require_scoped_permission has_scoped_permission has_permission has_super_admin ◌>>=◌
    get_role_id_by_user_and_course Repository.has_permission
expelled = refl

-- The owner of a row is read off its role.
abbrev owner_row : Uuid → Uuid × Uuid
owner_row r =
    if r == 11 then (1, 7) else if r == 12 then (2, 7) else if r == 13 then (3, 8) else (9, 0)

school_owner : (u c r : Uuid) → role_of store_contents school u c ≡ some r → (u, c) ≡ owner_row r
unfolding role_of
school_owner u c r h = ground arith

school-IsSeparate : IsSeparate store_view school
school-IsSeparate = record {
  owner = λ u c u' c' r e e'.
      let both = school_owner u c r e ∙ sym (school_owner u' c' r e') in
      (ap (λ (p : Uuid × Uuid). p.0) both, ap (λ (p : Uuid × Uuid). p.1) both);
}

abbrev attempts : List CourseRequest
attempts =
    assign_admin 1 promote
    ∷ give_permission 1 escalation
    ∷ take_permission 2 7 12 "course.read"
    ∷ drop_participant 1 expel
    ∷ []

serve-SameIn_example :
    SameIn store_view 0 school (serve store_roles store_users attempts school)
    × IsSeparate store_view (serve store_roles store_users attempts school)
serve-SameIn_example =
    serve-SameIn store_roles store_users store_view store-RoleLaws 0 attempts school
      school-IsSeparate (refl, (refl, (refl, (refl, tt))))
