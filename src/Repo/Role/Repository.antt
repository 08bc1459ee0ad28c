-- ===== src/Repo/Role/Repository.antt =====
-- internal/db/repo/role.go: `RoleRepository`, each method by the statements that it issues.
-- `for _, permission := range permissions { perms = append(perms, ...) }`
use fcstask_backend.Errors.{is_record_not_found, record_not_found}
use fcstask_backend.Errors.Action.{Action, Result, bind, err, ok, pure, ◌>>◌}
use fcstask_backend.Model.{CourseAdminPermission, UserRole, Uuid}
use fcstask_backend.Prelude.{
  Bool, List, String, [], contains, if◌then◌else◌, is_empty, ltb, str_eq, ◌&&◌, ◌==◌, ◌∷◌,
}
use fcstask_backend.Repo.Role.Interface.{RoleRepo}
use fcstask_backend.Repo.Role.Tables.{RoleTables, of_user_in_course}

abbrev pub permission_rows : Uuid → List String → List CourseAdminPermission
permission_rows role_id [] = []
permission_rows role_id (p ∷ ps) =
    record { role_id = role_id; permission = p } ∷ permission_rows role_id ps

-- `ErrRecordNotFound` is returned as itself, any other error as it came.
abbrev pub role_id_of : Result UserRole → Result Uuid
role_id_of (ok row) = ok row.role_id
role_id_of (err e) = if is_record_not_found e then err record_not_found else err e

module _ {D : Type 0} (tables : RoleTables D) where
  unfoldable pub assign_role_with_permissions : UserRole → List String → Action D (Unit {0})
  assign_role_with_permissions user_role permissions = tables.transaction (do
    tables.upsert_role user_role
    if is_empty permissions
        then pure tt
        else tables.insert_permissions (permission_rows user_role.role_id permissions))

  unfoldable pub revoke_role_with_permissions :
      (user_id course_id role_id : Uuid) → Action D (Unit {0})
  revoke_role_with_permissions user_id course_id role_id = tables.transaction (do
    tables.delete_permissions (λ row. row.role_id == role_id)
    tables.delete_roles (λ row. of_user_in_course user_id course_id row && row.role_id == role_id))

  unfoldable pub get_by_course_id : Uuid → D → Result (List UserRole)
  get_by_course_id course_id d = tables.find_roles (λ row. row.course_id == course_id) d

  unfoldable pub get_role_id_by_user_and_course : (user_id course_id : Uuid) → D → Result Uuid
  get_role_id_by_user_and_course user_id course_id d =
      role_id_of (tables.first_role (of_user_in_course user_id course_id) d)

  unfoldable pub role_belongs_to_course : (role_id course_id : Uuid) → D → Result Bool
  role_belongs_to_course role_id course_id d =
      bind (tables.count_roles (λ row. row.role_id == role_id && row.course_id == course_id) d)
        (λ count. ok (ltb 0 count))

  unfoldable pub has_permission : (role_id : Uuid) → String → D → Result Bool
  has_permission role_id permission d =
      tables.exists_permission (λ row. row.role_id == role_id && str_eq row.permission permission) d

  unfoldable pub add_permission : CourseAdminPermission → Action D (Unit {0})
  add_permission perm = tables.insert_permissions (perm ∷ [])

  unfoldable pub add_permissions : (role_id : Uuid) → List String → Action D (Unit {0})
  add_permissions role_id permissions =
      tables.transaction (tables.insert_permissions (permission_rows role_id permissions))

  unfoldable pub remove_permission : (role_id : Uuid) → String → Action D (Unit {0})
  remove_permission role_id permission =
      tables.delete_permissions (λ row. row.role_id == role_id && str_eq row.permission permission)

  unfoldable pub remove_permissions : (role_id : Uuid) → List String → Action D (Unit {0})
  remove_permissions role_id permissions = tables.transaction (
      tables.delete_permissions
        (λ row. row.role_id == role_id && contains permissions row.permission))

  unfoldable pub get_permissions : (role_id : Uuid) → D → Result (List CourseAdminPermission)
  get_permissions role_id d = tables.find_permissions (λ row. row.role_id == role_id) d

  abbrev pub role_repository : RoleRepo D
  role_repository = record {
    assign_role_with_permissions = assign_role_with_permissions;
    revoke_role_with_permissions = revoke_role_with_permissions;
    get_by_course_id = get_by_course_id;
    get_role_id_by_user_and_course = get_role_id_by_user_and_course;
    role_belongs_to_course = role_belongs_to_course;
    has_permission = has_permission;
    add_permission = add_permission;
    add_permissions = add_permissions;
    remove_permission = remove_permission;
    remove_permissions = remove_permissions;
    get_permissions = get_permissions;
  }
