-- ===== src/Service/Permission/Check.antt =====
-- HasPermission, HasScopedPermission and RequireScopedPermission: reads of the stored roles.
-- `if err == nil { ... } else if !errors.Is(err, gorm.ErrRecordNotFound) { return false, err }`
use fcstask_backend.Errors.{forbidden, internal, is_record_not_found}
use fcstask_backend.Errors.Action.{Result, err, ok}
use fcstask_backend.Model.{Uuid, is_nil, uuid_nil}
use fcstask_backend.Prelude.{Bool, String, false, if◌then◌else◌, str_eq, true, ◌||◌}
use fcstask_backend.Repo.Role.Interface.{RoleRepo}
use fcstask_backend.Service.Permission.Names.{permission_is_super_admin}

abbrev pub by_role : Result Uuid → (Uuid → Result Bool) → Result Bool → Result Bool
by_role (ok role_id) check absent = check role_id
by_role (err e) check absent = if is_record_not_found e then absent else err e

abbrev pub or_check : Result Bool → Result Bool → Result Bool
or_check (ok true) next = ok true
or_check (ok false) next = next
or_check (err e) next = err e

-- The last lines of `RequireScopedPermission`.
abbrev pub require : Result Bool → Result (Unit {0})
require (ok true) = ok tt
require (ok false) = err (forbidden "You don't have permission to access this resource")
require (err e) = err (internal "Failed to check permissions" e)

module _ {D : Type 0} (roles : RoleRepo D) where
  unfoldable pub has_permission : Uuid → String → D → Result Bool
  has_permission role_id permission d =
      if is_nil role_id || str_eq permission ""
      then ok false
      else roles.has_permission role_id permission d

  -- The second half of `HasScopedPermission`: the dedicated global permission of a super admin.
  unfoldable pub has_super_admin : Uuid → Uuid → D → Result Bool
  has_super_admin user_id course_id d =
      if is_nil course_id
      then ok false
      else by_role (roles.get_role_id_by_user_and_course user_id uuid_nil d)
          (λ global_role_id. has_permission global_role_id permission_is_super_admin d) (ok false)

  unfoldable pub has_scoped_permission : Uuid → Uuid → String → D → Result Bool
  has_scoped_permission user_id course_id permission d =
      if is_nil user_id || str_eq permission ""
      then ok false
      else by_role (roles.get_role_id_by_user_and_course user_id course_id d)
          (λ role_id.
            or_check (has_permission role_id permission d) (has_super_admin user_id course_id d))
          (has_super_admin user_id course_id d)

  unfoldable pub require_scoped_permission : Uuid → Uuid → String → D → Result (Unit {0})
  require_scoped_permission user_id course_id permission d =
      require (has_scoped_permission user_id course_id permission d)
