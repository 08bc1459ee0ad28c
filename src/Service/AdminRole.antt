-- ===== src/Service/AdminRole.antt =====
-- internal/service/admin_role.go: course admins, super admins, participants and permissions. A
-- method is its body on the database, `…_body`, with the deferred count around it.
pub mod Outcomes
pub mod Bodies
pub mod Methods
pub mod Access
pub mod Isolation
pub mod Requests
use fcstask_backend.Errors.{bad_request, internal, not_found}
use fcstask_backend.Errors.Action.{
  Action, Result, bind, err, lift, ok, or_else, pure, query, refuse_if, wrapping, ◌>>=◌, ◌>>◌,
}
use fcstask_backend.Metrics.Admin.{
  AdminMetrics, assign_role, count_action, grant_permission, promote_super_admin,
  remove_participant, revoke_permission, revoke_role,
}
use fcstask_backend.Metrics.World.{World, deferring}
use fcstask_backend.Model.{CourseAdminPermission, User, UserRole, Uuid, is_nil, uuid_nil}
use fcstask_backend.Prelude.{List, Option, String, if◌then◌else◌, str_eq, ◌||◌}
use fcstask_backend.Repo.Role.Interface.{RoleRepo}
use fcstask_backend.Repo.User.{UserRepo}
use fcstask_backend.Service.Permission.Check.{require_scoped_permission}
use fcstask_backend.Service.Permission.Grant.{
  ensure_user_role_with_permissions, grant_role_permissions, revoke_role_permissions,
}
use fcstask_backend.Service.Permission.Names.{
  course_admin_permissions, permission_course_permission_add, permission_course_permission_list,
  permission_course_permission_remove, permission_course_role_assign, permission_course_role_list,
  permission_course_role_revoke, permission_super_admin_create, service_super_admin_permissions,
}

pub record AssignCourseAdminInput : Type 0 where
  pub user_id : Uuid
  pub course_id : Uuid

pub record RevokeCourseAdminInput : Type 0 where
  pub user_id : Uuid
  pub course_id : Uuid

pub record RemoveCourseParticipantInput : Type 0 where
  pub user_id : Uuid
  pub course_id : Uuid

pub record AddPermissionInput : Type 0 where
  pub course_id : Uuid
  pub role_id : Uuid
  pub permission : String

pub record CreateSuperAdminInput : Type 0 where
  pub user_id : Uuid

module _ {D : Type 0} (roles : RoleRepo D) (users : UserRepo D) where
  unfoldable pub require_role_in_course : Uuid → Uuid → D → Result (Unit {0})
  require_role_in_course role_id course_id d =
      bind
        (or_else (roles.role_belongs_to_course role_id course_id d)
          (internal "Failed to check role course"))
        λ belongs. if belongs then ok tt else err (not_found "Role not found in course")

  -- `GetRoleIDByUserAndCourse`, where any error is reported as a missing participant.
  abbrev pub participant_role : Uuid → Uuid → D → Result Uuid
  participant_role user_id course_id d =
      or_else (roles.get_role_id_by_user_and_course user_id course_id d)
        (λ _. not_found "User is not a course participant")

  abbrev pub existing_user : Uuid → D → Result User
  existing_user user_id d =
      or_else (users.get_user_by_id user_id d) (λ _. not_found "User not found")

  unfoldable pub assign_course_admin_body : Uuid → AssignCourseAdminInput → Action D UserRole
  assign_course_admin_body user_id input = do
    lift (
        refuse_if (is_nil input.user_id || is_nil input.course_id)
          (bad_request "user_id or course_id is required"))
    query (require_scoped_permission roles user_id input.course_id permission_course_role_assign)
    query (existing_user input.user_id)
    role_id ← query (participant_role input.user_id input.course_id)
    grant_role_permissions roles role_id course_admin_permissions
    pure (record { user_id = input.user_id; course_id = input.course_id; role_id = role_id })

  unfoldable pub create_super_admin_body : Uuid → Uuid → CreateSuperAdminInput → Action D UserRole
  create_super_admin_body new_role_id user_id input = do
    query (require_scoped_permission roles user_id uuid_nil permission_super_admin_create)
    lift (refuse_if (is_nil input.user_id) (bad_request "user_id is required"))
    query (existing_user input.user_id)
    ensure_user_role_with_permissions roles new_role_id input.user_id uuid_nil
        service_super_admin_permissions

  unfoldable pub revoke_course_admin_body : Uuid → RevokeCourseAdminInput → Action D (Unit {0})
  revoke_course_admin_body user_id input = do
    lift (
        refuse_if (is_nil input.user_id || is_nil input.course_id)
          (bad_request "user_id or course_id is required"))
    query (require_scoped_permission roles user_id input.course_id permission_course_role_revoke)
    role_id ← query (participant_role input.user_id input.course_id)
    revoke_role_permissions roles role_id course_admin_permissions

  unfoldable pub remove_course_participant_body :
      Uuid → RemoveCourseParticipantInput → Action D (Unit {0})
  remove_course_participant_body user_id input = do
    lift (
        refuse_if (is_nil input.user_id || is_nil input.course_id)
          (bad_request "user_id or course_id is required"))
    query (require_scoped_permission roles user_id input.course_id permission_course_role_revoke)
    role_id ← query (participant_role input.user_id input.course_id)
    wrapping (roles.revoke_role_with_permissions input.user_id input.course_id role_id)
        (internal "Failed to remove course participant")

  unfoldable pub list_user_roles : Uuid → Uuid → D → Result (List UserRole)
  list_user_roles user_id course_id d =
      bind (refuse_if (is_nil course_id) (bad_request "course_id is required")) λ _.
        bind (require_scoped_permission roles user_id course_id permission_course_role_list d)
          λ _. or_else (roles.get_by_course_id course_id d) (internal "Failed to fetch roles")

  unfoldable pub add_permission_body : Uuid → AddPermissionInput → Action D CourseAdminPermission
  add_permission_body user_id input = do
    lift (refuse_if (is_nil input.course_id) (bad_request "course_id is required"))
    lift (refuse_if (is_nil input.role_id) (bad_request "role_id is required"))
    lift (refuse_if (str_eq input.permission "") (bad_request "permission is required"))
    query (require_scoped_permission roles user_id input.course_id permission_course_permission_add)
    query (require_role_in_course input.role_id input.course_id)
    let perm : CourseAdminPermission = record {
      role_id = input.role_id;
      permission = input.permission;
    }
    wrapping (roles.add_permission perm) (internal "Failed to add permission")
    pure perm

  unfoldable pub remove_permission_body :
      (user_id course_id role_id : Uuid) → String → Action D (Unit {0})
  remove_permission_body user_id course_id role_id permission = do
    lift (refuse_if (is_nil course_id) (bad_request "course_id is required"))
    lift (refuse_if (is_nil role_id) (bad_request "role_id is required"))
    lift (refuse_if (str_eq permission "") (bad_request "permission is required"))
    query (require_scoped_permission roles user_id course_id permission_course_permission_remove)
    query (require_role_in_course role_id course_id)
    wrapping (roles.remove_permission role_id permission) (internal "Failed to remove permission")

  unfoldable pub list_permissions :
      (user_id course_id role_id : Uuid) → D → Result (List CourseAdminPermission)
  list_permissions user_id course_id role_id d =
      bind (refuse_if (is_nil course_id) (bad_request "course_id is required")) λ _.
        bind (refuse_if (is_nil role_id) (bad_request "role_id is required")) λ _.
          bind
            (require_scoped_permission roles user_id course_id permission_course_permission_list d)
            λ _. bind (require_role_in_course role_id course_id d) λ _.
              or_else (roles.get_permissions role_id d) (internal "Failed to fetch permissions")

  module _ {M : Type 0} (metrics : Option (AdminMetrics M)) where
    unfoldable pub assign_course_admin : Uuid → AssignCourseAdminInput → Action (World D M) UserRole
    assign_course_admin user_id input =
        deferring (count_action metrics assign_role) (assign_course_admin_body user_id input)

    unfoldable pub create_super_admin :
        Uuid → Uuid → CreateSuperAdminInput → Action (World D M) UserRole
    create_super_admin new_role_id user_id input =
        deferring (count_action metrics promote_super_admin)
          (create_super_admin_body new_role_id user_id input)

    unfoldable pub revoke_course_admin :
        Uuid → RevokeCourseAdminInput → Action (World D M) (Unit {0})
    revoke_course_admin user_id input =
        deferring (count_action metrics revoke_role) (revoke_course_admin_body user_id input)

    unfoldable pub remove_course_participant :
        Uuid → RemoveCourseParticipantInput → Action (World D M) (Unit {0})
    remove_course_participant user_id input =
        deferring (count_action metrics remove_participant)
          (remove_course_participant_body user_id input)

    unfoldable pub add_permission :
        Uuid → AddPermissionInput → Action (World D M) CourseAdminPermission
    add_permission user_id input =
        deferring (count_action metrics grant_permission) (add_permission_body user_id input)

    unfoldable pub remove_permission :
        (user_id course_id role_id : Uuid) → String → Action (World D M) (Unit {0})
    remove_permission user_id course_id role_id permission =
        deferring (count_action metrics revoke_permission)
          (remove_permission_body user_id course_id role_id permission)
