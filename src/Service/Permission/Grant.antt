-- ===== src/Service/Permission/Grant.antt =====
-- EnsureUserRoleWithPermissions, GrantRolePermissions and RevokeRolePermissions.
use fcstask_backend.Errors.{bad_request, internal, is_record_not_found}
use fcstask_backend.Errors.Action.{
  Action, Result, err, fail, lift, observe, ok, pure, refuse_if, wrapping, ◌>>◌,
}
use fcstask_backend.Model.{UserRole, Uuid, is_nil}
use fcstask_backend.Prelude.{List, String, if◌then◌else◌, is_empty}
use fcstask_backend.Repo.Role.Interface.{RoleRepo}

module _ {D : Type 0} (roles : RoleRepo D) where
  abbrev pub assign_new : UserRole → List String → Action D UserRole
  assign_new row permissions = do
    wrapping (roles.assign_role_with_permissions row permissions) (internal "Failed to assign role")
    pure row

  abbrev pub extend_role : UserRole → List String → Action D UserRole
  extend_role row permissions = do
    wrapping (roles.add_permissions row.role_id permissions) (internal "Failed to add permissions")
    pure row

  -- The `switch` on the role that was looked up. `new_role_id` is what `uuid.New()` returns.
  abbrev pub ensure_role :
      (new_role_id user_id course_id : Uuid) → List String → Result Uuid → Action D UserRole
  ensure_role new_role_id user_id course_id permissions (ok role_id) =
      extend_role (record { user_id = user_id; course_id = course_id; role_id = role_id })
        permissions
  ensure_role new_role_id user_id course_id permissions (err e) =
      if is_record_not_found e
      then assign_new (record { user_id = user_id; course_id = course_id; role_id = new_role_id })
          permissions
      else fail (internal "Failed to load role" e)

  unfoldable pub ensure_user_role_with_permissions :
      (new_role_id user_id course_id : Uuid) → List String → Action D UserRole
  ensure_user_role_with_permissions new_role_id user_id course_id permissions = do
    lift (refuse_if (is_nil user_id) (bad_request "user_id is required"))
    lift (refuse_if (is_empty permissions) (bad_request "permissions are required"))
    observe (roles.get_role_id_by_user_and_course user_id course_id)
        (ensure_role new_role_id user_id course_id permissions)

  unfoldable pub grant_role_permissions : Uuid → List String → Action D (Unit {0})
  grant_role_permissions role_id permissions = do
    lift (refuse_if (is_nil role_id) (bad_request "role_id is required"))
    lift (refuse_if (is_empty permissions) (bad_request "permissions are required"))
    wrapping (roles.add_permissions role_id permissions) (internal "Failed to add permissions")

  unfoldable pub revoke_role_permissions : Uuid → List String → Action D (Unit {0})
  revoke_role_permissions role_id permissions = do
    lift (refuse_if (is_nil role_id) (bad_request "role_id is required"))
    lift (refuse_if (is_empty permissions) (bad_request "permissions are required"))
    wrapping (roles.remove_permissions role_id permissions)
        (internal "Failed to remove permissions")
