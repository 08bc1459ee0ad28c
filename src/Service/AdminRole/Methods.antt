-- ===== src/Service/AdminRole/Methods.antt =====
-- The methods of `AdminRoleService`: permission, effect, refusal and count.
use fcstask_backend.Metrics.Admin.{
  AdminMetrics, assign_role, count_action, grant_permission, promote_super_admin,
  remove_participant, revoke_permission, revoke_role,
}
use fcstask_backend.Metrics.Serves.{Serves, deferring-Serves}
use fcstask_backend.Metrics.World.{World}
use fcstask_backend.Model.{Uuid}
use fcstask_backend.Prelude.{Option, String}
use fcstask_backend.Repo.Role.Interface.{RoleLaws, RoleRepo, RoleView}
use fcstask_backend.Repo.User.{UserRepo}
use fcstask_backend.Service.AdminRole.{
  AddPermissionInput, AssignCourseAdminInput, CreateSuperAdminInput, RemoveCourseParticipantInput,
  RevokeCourseAdminInput, add_permission, assign_course_admin, create_super_admin,
  remove_course_participant, remove_permission, revoke_course_admin,
}
use fcstask_backend.Service.AdminRole.Bodies.{
  add_permission_body-Added, assign_course_admin_body-Assigned, create_super_admin_body-Created,
  remove_course_participant_body-Removed, remove_permission_body-Removed,
  revoke_course_admin_body-Revoked,
}
use fcstask_backend.Service.AdminRole.Outcomes.{
  AddedPermission, AssignedAdmin, CreatedSuperAdmin, RemovedParticipant, RemovedPermission,
  RevokedAdmin,
}

module _ {D M : Type 0} (roles : RoleRepo D) (users : UserRepo D) (view : RoleView D)
    (laws : RoleLaws roles view) (metrics : Option (AdminMetrics M)) (w : World D M)
    (actor : Uuid) where
  -- `AssignCourseAdmin` fails and leaves the database as it was, or `AssignedAdmin` holds: the actor
  -- may assign roles in that course, the user has a role there, that role gains exactly the admin
  -- permissions, and no other role or permission changes. The action is counted with its outcome.
  pub assign_course_admin-Serves :
      (input : AssignCourseAdminInput)
      → Serves w
          (AssignedAdmin view w.db actor input)
          (count_action metrics assign_role)
          (assign_course_admin roles users metrics actor input)
  unfolding assign_course_admin
  assign_course_admin-Serves input =
      deferring-Serves w _ _
        (assign_course_admin_body-Assigned roles users view laws w.db actor input)

  -- `CreateSuperAdmin` fails and leaves the database as it was, or the actor may create super admins
  -- and the user's global role, kept or else new, gains exactly the service permissions.
  pub create_super_admin-Serves :
      (new_role_id : Uuid) (input : CreateSuperAdminInput)
      → Serves w
          (CreatedSuperAdmin view w.db actor new_role_id input)
          (count_action metrics promote_super_admin)
          (create_super_admin roles users metrics new_role_id actor input)
  unfolding create_super_admin
  create_super_admin-Serves n input =
      deferring-Serves w _ _
        (create_super_admin_body-Created roles users view laws w.db n actor input)

  -- `RevokeCourseAdmin` fails and leaves the database as it was, or the actor may revoke roles in the
  -- course and the participant's role loses exactly the admin permissions.
  pub revoke_course_admin-Serves :
      (input : RevokeCourseAdminInput)
      → Serves w
          (λ _. RevokedAdmin view w.db actor input)
          (count_action metrics revoke_role)
          (revoke_course_admin roles users metrics actor input)
  unfolding revoke_course_admin
  revoke_course_admin-Serves input =
      deferring-Serves w _ _
        (revoke_course_admin_body-Revoked roles users view laws w.db actor input)

  -- `RemoveCourseParticipant` fails and leaves the database as it was, or the actor may revoke roles
  -- in the course and the user's role there is gone with its permissions, all others unchanged.
  pub remove_course_participant-Serves :
      (input : RemoveCourseParticipantInput)
      → Serves w
          (λ _. RemovedParticipant view w.db actor input)
          (count_action metrics remove_participant)
          (remove_course_participant roles users metrics actor input)
  unfolding remove_course_participant
  remove_course_participant-Serves input =
      deferring-Serves w _ _
        (remove_course_participant_body-Removed roles users view laws w.db actor input)

  -- `AddPermission` fails and leaves the database as it was, or the actor may add permissions in the
  -- course, the role belongs to a user of that course, and it gains exactly the one permission.
  pub add_permission-Serves :
      (input : AddPermissionInput)
      → Serves w
          (AddedPermission view w.db actor input)
          (count_action metrics grant_permission)
          (add_permission roles users metrics actor input)
  unfolding add_permission
  add_permission-Serves input =
      deferring-Serves w _ _ (add_permission_body-Added roles users view laws w.db actor input)

  -- `RemovePermission` fails and leaves the database as it was, or the actor may remove permissions
  -- in the course, the role belongs to a user of that course, and it loses exactly the one.
  pub remove_permission-Serves :
      (course_id role_id : Uuid) (permission : String)
      → Serves w
          (λ _. RemovedPermission view w.db actor course_id role_id permission)
          (count_action metrics revoke_permission)
          (remove_permission roles users metrics actor course_id role_id permission)
  unfolding remove_permission
  remove_permission-Serves c r p =
      deferring-Serves w _ _ (remove_permission_body-Removed roles users view laws w.db actor c r p)
