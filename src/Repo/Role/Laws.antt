-- ===== src/Repo/Role/Laws.antt =====
-- `RoleRepository` keeps the promises of `IRoleRepo` that the services rely on.
use fcstask_backend.Errors.Action.{Writes, pure, ◌>>=◌}
use fcstask_backend.Errors.Ensures.{strengthen-Writes}
use fcstask_backend.Model.{CourseAdminPermission, UserRole, Uuid}
use fcstask_backend.Prelude.{
  Bool, List, Option, String, [], any, ap, contains, false, filter, find?, fun_ext, if◌then◌else◌,
  is_empty, none, not, refl, some, str_eq, str_eq_comm, true, ◌&&◌, ◌==◌, ◌||◌, ◌∙◌, ◌∷◌, ◌≡◌,
}
use fcstask_backend.Repo.Role.Interface.{
  GrantsAre, RoleLaws, RoleRepo, RoleView, RolesAre, is_grant, with_grants, with_role,
  without_grants, without_role,
}
use fcstask_backend.Repo.Role.Reads.{
  belongs, belongs_not, get_role, granted, has, lists_course, lists_permissions, role_of, role_view,
}
use fcstask_backend.Repo.Role.Repository.{
  add_permission, add_permissions, assign_role_with_permissions, permission_rows, remove_permission,
  remove_permissions, revoke_role_with_permissions, role_repository,
}
use fcstask_backend.Repo.Role.Rows.{
  any-delete_listed, any-delete_role, any-insert_missing, role_in, role_in-delete, role_in-upsert,
}
use fcstask_backend.Repo.Role.Tables.{
  Now, RoleContents, RoleTables, TableLaws, insert_missing, of_user_in_course, upsert,
}
use fcstask_backend.Repo.Role.Transactions.{one_statement, transaction-Writes, two_statements}

module _ {D : Type 0} (tables : RoleTables D) (contents : RoleContents D)
    (laws : TableLaws tables contents) where
  abbrev view : RoleView D
  view = role_view contents

  abbrev repo : RoleRepo D
  repo = role_repository tables

  -- The view after a write, from the rows after it.
  roles_by :
      (d d' : D) (rows : List UserRole) (roles : Uuid → Uuid → Option Uuid)
      → contents.user_roles d' ≡ rows
      → ((u c : Uuid) → role_in (find? (of_user_in_course u c) rows) ≡ roles u c)
      → RolesAre view d roles d'
  unfolding role_of
  roles_by d d' rows roles e h u c = ap (λ xs. role_in (find? (of_user_in_course u c) xs)) e ∙ h u c

  grants_by :
      (d d' : D) (rows : List CourseAdminPermission) (grants : Uuid → String → Bool)
      → contents.permissions d' ≡ rows
      → ((r : Uuid) (p : String) → any (is_grant r p) rows ≡ grants r p)
      → GrantsAre view d grants d'
  unfolding granted
  grants_by d d' rows grants e h r p = ap (any (is_grant r p)) e ∙ h r p

  module _ (d : D) where
    abbrev roles_now : List UserRole
    roles_now = contents.user_roles d

    abbrev perms_now : List CourseAdminPermission
    perms_now = contents.permissions d

    inserted :
        (r : Uuid) (ps : List String) (d' : D)
        → contents.permissions d' ≡ insert_missing (permission_rows r ps) perms_now
        → GrantsAre view d (with_grants view d r ps) d'
    unfolding granted
    inserted r ps d' e = grants_by d d' _ _ e (λ r' p. any-insert_missing r' r p ps perms_now)

    kept_roles :
        (d' : D) → contents.user_roles d' ≡ roles_now → RolesAre view d (role_of contents d) d'
    unfolding role_of
    kept_roles d' e = roles_by d d' _ _ e (λ u c. refl)

    unlisted :
        (r : Uuid) (ps : List String) (d' : D)
        → contents.permissions d'
          ≡ filter (λ row. not (row.role_id == r && contains ps row.permission)) perms_now
        → GrantsAre view d (without_grants view d r ps) d'
    unfolding granted
    unlisted r ps d' e = grants_by d d' _ _ e (λ r' p. any-delete_listed r r' p ps perms_now)

    -- `AddPermissions` adds exactly the listed permissions to the role.
    add :
        (r : Uuid) (ps : List String)
        → Writes d
            (λ d'.
              RolesAre view d (role_of contents d) d'
              × GrantsAre view d (with_grants view d r ps) d')
            (add_permissions tables r ps)
    unfolding add_permissions
    add r ps = transaction-Writes tables contents laws _ d (
        one_statement (laws.inserts (permission_rows r ps) d)
          (λ d' n. (kept_roles d' n.0, inserted r ps d' n.1)))

    add_one :
        (row : CourseAdminPermission)
        → Writes d
            (λ d'.
              RolesAre view d (role_of contents d) d'
              × GrantsAre view d (with_grants view d row.role_id (row.permission ∷ [])) d')
            (add_permission tables row)
    unfolding add_permission
    add_one row =
        strengthen-Writes (laws.inserts (row ∷ []) d)
          (λ d' n. (kept_roles d' n.0, inserted row.role_id (row.permission ∷ []) d' n.1))

    remove :
        (r : Uuid) (ps : List String)
        → Writes d
            (λ d'.
              RolesAre view d (role_of contents d) d'
              × GrantsAre view d (without_grants view d r ps) d')
            (remove_permissions tables r ps)
    unfolding remove_permissions
    remove r ps = transaction-Writes tables contents laws _ d (
        one_statement (laws.deletes_permissions _ d)
          (λ d' n. (kept_roles d' n.0, unlisted r ps d' n.1)))

    remove_one :
        (r : Uuid) (p : String)
        → Writes d
            (λ d'.
              RolesAre view d (role_of contents d) d'
              × GrantsAre view d (without_grants view d r (p ∷ [])) d')
            (remove_permission tables r p)
    unfolding remove_permission
    remove_one r p = strengthen-Writes (laws.deletes_permissions _ d) (λ d' n. (
      kept_roles d' n.0,
      unlisted r (p ∷ []) d' (n.1 ∙ ap (λ t. filter t perms_now) (fun_ext λ row. one_name row)),
    ))
      where
        alone : (b : Bool) → b ≡ (b || false)
        alone true = refl
        alone false = refl

        one_name :
            (row : CourseAdminPermission)
            → not (row.role_id == r && str_eq row.permission p)
              ≡ not (row.role_id == r && contains (p ∷ []) row.permission)
        one_name row =
            ap (λ b. not (row.role_id == r && b))
              (str_eq_comm row.permission p ∙ alone (str_eq p row.permission))

    assign :
        (row : UserRole) (ps : List String)
        → Writes d
            (λ d'.
              RolesAre view d (with_role view d row.user_id row.course_id (some row.role_id)) d'
              × GrantsAre view d (with_grants view d row.role_id ps) d')
            (assign_role_with_permissions tables row ps)
    unfolding assign_role_with_permissions ◌>>=◌ role_of granted insert_missing
    assign row ps =
        transaction-Writes tables contents laws _ d
          (two_statements (laws.upserts row d) λ d₁ n. rest d₁ n ps)
      where
        moved :
            (d₁ d' : D)
            → Now contents (upsert row roles_now) perms_now d₁
            → contents.user_roles d' ≡ contents.user_roles d₁
            → RolesAre view d (with_role view d row.user_id row.course_id (some row.role_id)) d'
        moved d₁ d' n e = roles_by d d' _ _ (e ∙ n.0) (λ u c. role_in-upsert row u c roles_now)

        rest :
            (d₁ : D)
            → Now contents (upsert row roles_now) perms_now d₁
            → (qs : List String)
            → Writes d₁
                (λ d'.
                  RolesAre view d (with_role view d row.user_id row.course_id (some row.role_id)) d'
                  × GrantsAre view d (with_grants view d row.role_id qs) d')
                (if is_empty qs
                  then pure tt
                  else tables.insert_permissions (permission_rows row.role_id qs))
        rest d₁ n [] = record { written = (moved d₁ d₁ n refl, inserted row.role_id [] d₁ (n.1)) }
        rest d₁ n (q ∷ qs) =
            strengthen-Writes (laws.inserts (permission_rows row.role_id (q ∷ qs)) d₁) (λ d' m. (
              moved d₁ d' n m.0,
              inserted row.role_id (q ∷ qs) d'
                  (m.1 ∙ ap (insert_missing (permission_rows row.role_id (q ∷ qs))) n.1),
            ))

    revoke :
        (u c r : Uuid)
        → role_of contents d u c ≡ some r
        → Writes d
            (λ d'.
              RolesAre view d (with_role view d u c none) d'
              × GrantsAre view d (without_role view d r) d')
            (revoke_role_with_permissions tables u c r)
    unfolding revoke_role_with_permissions ◌>>=◌ role_of granted
    revoke u c r stored = transaction-Writes tables contents laws _ d (
        two_statements (laws.deletes_permissions _ d)
          λ d₁ n. strengthen-Writes (laws.deletes_roles _ d₁) (finish d₁ n))
      where
        finish :
            (d₁ : D)
            → Now contents roles_now (filter (λ row. not (row.role_id == r)) perms_now) d₁
            → (d' : D)
            → Now contents
                (filter
                  (λ row. not (of_user_in_course u c row && row.role_id == r))
                  (contents.user_roles d₁))
                (contents.permissions d₁)
                d'
            → RolesAre view d (with_role view d u c none) d'
              × GrantsAre view d (without_role view d r) d'
        finish d₁ n d' m = (
          roles_by d d' _ _
              (m.0 ∙ ap (filter (λ row. not (of_user_in_course u c row && row.role_id == r))) n.0)
              (λ u' c'. role_in-delete u c r u' c' roles_now stored (laws.unique d)),
          grants_by d d' _ _ (m.1 ∙ n.1) (λ r' p. any-delete_role r r' p perms_now),
        )

  pub role_repository-RoleLaws : RoleLaws (role_repository tables) (role_view contents)
  role_repository-RoleLaws = record {
    get_role = get_role tables contents laws;
    has = has tables contents laws;
    belongs = belongs tables contents laws;
    belongs_not = belongs_not tables contents laws;
    lists_course = lists_course tables contents laws;
    lists_permissions = lists_permissions tables contents laws;
    assign = λ row ps d. assign d row ps;
    revoke = λ u c r d stored. revoke d u c r stored;
    add = λ r ps d. add d r ps;
    add_one = λ row d. add_one d row;
    remove = λ r ps d. remove d r ps;
    remove_one = λ r p d. remove_one d r p;
  }
