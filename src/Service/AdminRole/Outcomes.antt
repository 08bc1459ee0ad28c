-- ===== src/Service/AdminRole/Outcomes.antt =====
-- What each method of `AdminRoleService` does to the stored roles, its refusals included.
use fcstask_backend.Model.{CourseAdminPermission, UserRole, Uuid, is_nil, uuid_nil}
use fcstask_backend.Prelude.{String, [], false, none, some, true, ◌∷◌, ◌≡◌}
use fcstask_backend.Repo.Role.Interface.{
  GrantsAre, RoleView, RolesAre, with_grants, with_role, without_grants, without_role,
}
use fcstask_backend.Service.AdminRole.{
  AddPermissionInput, AssignCourseAdminInput, CreateSuperAdminInput, RemoveCourseParticipantInput,
  RevokeCourseAdminInput,
}
use fcstask_backend.Service.Permission.Decision.{allowed}
use fcstask_backend.Service.Permission.Effects.{Ensured}
use fcstask_backend.Service.Permission.Names.{
  course_admin_permissions, permission_course_permission_add, permission_course_permission_remove,
  permission_course_role_assign, permission_course_role_revoke, permission_super_admin_create,
  service_super_admin_permissions,
}

module _ {D : Type 0} (view : RoleView D) (d : D) (actor : Uuid) where
  -- `AssignCourseAdmin`: the actor may assign roles in the course, the user is a participant, and
  -- his role gains the admin permissions; nothing else changes.
  pub record AssignedAdmin (input : AssignCourseAdminInput) (role : UserRole) (d' : D)
      : Type 0 where
    pub permitted : allowed view d actor input.course_id permission_course_role_assign ≡ true
    pub real_course : is_nil input.course_id ≡ false
    pub of_user : role.user_id ≡ input.user_id
    pub in_course : role.course_id ≡ input.course_id
    pub participant : view.role_of d input.user_id input.course_id ≡ some role.role_id
    pub real_user : is_nil input.user_id ≡ false
    pub real_role : is_nil role.role_id ≡ false
    pub roles_after : RolesAre view d (view.role_of d) d'
    pub grants_after :
        GrantsAre view d (with_grants view d role.role_id course_admin_permissions) d'

  -- `CreateSuperAdmin`: the actor may create super admins, and the user's global role, new if he had
  -- none, gains the service permissions.
  pub record CreatedSuperAdmin (new_role_id : Uuid) (input : CreateSuperAdminInput)
      (role : UserRole) (d' : D) : Type 0 where
    pub permitted : allowed view d actor uuid_nil permission_super_admin_create ≡ true
    pub ensured :
        Ensured view d new_role_id input.user_id uuid_nil service_super_admin_permissions role d'

  -- `RevokeCourseAdmin`: the actor may revoke roles in the course, and the participant's role loses
  -- the admin permissions.
  pub record RevokedAdmin (input : RevokeCourseAdminInput) (d' : D) : Type 0 where
    pub permitted : allowed view d actor input.course_id permission_course_role_revoke ≡ true
    pub real_course : is_nil input.course_id ≡ false
    pub role_id : Uuid
    pub participant : view.role_of d input.user_id input.course_id ≡ some role_id
    pub roles_after : RolesAre view d (view.role_of d) d'
    pub grants_after : GrantsAre view d (without_grants view d role_id course_admin_permissions) d'

  -- `RemoveCourseParticipant`: the user's role in the course is gone, with all its permissions.
  pub record RemovedParticipant (input : RemoveCourseParticipantInput) (d' : D) : Type 0 where
    pub permitted : allowed view d actor input.course_id permission_course_role_revoke ≡ true
    pub real_course : is_nil input.course_id ≡ false
    pub role_id : Uuid
    pub participant : view.role_of d input.user_id input.course_id ≡ some role_id
    pub roles_after : RolesAre view d (with_role view d input.user_id input.course_id none) d'
    pub grants_after : GrantsAre view d (without_role view d role_id) d'

  -- `AddPermission`: the role belongs to a user of the course, and gains the one permission.
  pub record AddedPermission (input : AddPermissionInput) (perm : CourseAdminPermission) (d' : D)
      : Type 0 where
    pub permitted : allowed view d actor input.course_id permission_course_permission_add ≡ true
    pub real_course : is_nil input.course_id ≡ false
    pub owner : (u : Uuid) × (view.role_of d u input.course_id ≡ some input.role_id)
    pub roles_after : RolesAre view d (view.role_of d) d'
    pub grants_after :
        GrantsAre view d (with_grants view d input.role_id (input.permission ∷ [])) d'

  -- `RemovePermission`: the role belongs to a user of the course, and loses the one permission.
  pub record RemovedPermission (course_id role_id : Uuid) (permission : String) (d' : D)
      : Type 0 where
    pub permitted : allowed view d actor course_id permission_course_permission_remove ≡ true
    pub real_course : is_nil course_id ≡ false
    pub owner : (u : Uuid) × (view.role_of d u course_id ≡ some role_id)
    pub roles_after : RolesAre view d (view.role_of d) d'
    pub grants_after : GrantsAre view d (without_grants view d role_id (permission ∷ [])) d'
