-- ===== src/Repo/Role/Tables.antt =====
-- The two tables of roles as gorm and Postgres serve them: what each statement that role.go issues is
-- documented to do. A statement's `WHERE` is a test on a row.
use mathlib.Core.List.{Permᴰ}
use fcstask_backend.Errors.{record_not_found}
use fcstask_backend.Errors.Action.{Action, Result, Writes, err, ok}
use fcstask_backend.Model.{CourseAdminPermission, UserRole, Uuid}
use fcstask_backend.Prelude.{
  Bool, List, Option, [], any, filter, find?, if◌then◌else◌, ltb, none, not, some, str_eq, ℕ, ◌&&◌,
  ◌++◌, ◌==◌, ◌∷◌, ◌≡◌, ◌⊎◌,
}
use fcstask_backend.Repo.Role.Interface.{Faulty}

abbrev pub of_user_in_course : (user_id course_id : Uuid) → UserRole → Bool
of_user_in_course user_id course_id row = row.user_id == user_id && row.course_id == course_id

-- `ON CONFLICT (user_id, course_id) DO UPDATE SET role_id`.
unfoldable pub upsert : UserRole → List UserRole → List UserRole
upsert row [] = row ∷ []
upsert row (x ∷ xs) =
    if of_user_in_course row.user_id row.course_id x then row ∷ xs else x ∷ upsert row xs

abbrev pub same_permission : CourseAdminPermission → CourseAdminPermission → Bool
same_permission a b = b.role_id == a.role_id && str_eq b.permission a.permission

-- `ON CONFLICT DO NOTHING` under the unique index on role and permission.
unfoldable pub insert_missing :
    List CourseAdminPermission → List CourseAdminPermission → List CourseAdminPermission
insert_missing [] table = table
insert_missing (row ∷ rows) table =
    insert_missing rows (if any (same_permission row) table then table else table ++ row ∷ [])

-- The unique index on user and course: no two rows of one user in one course.
abbrev pub IsUnique : List UserRole → Type 0
IsUnique [] = Unit
IsUnique (x ∷ xs) = (find? (of_user_in_course x.user_id x.course_id) xs ≡ none) × IsUnique xs

abbrev pub first_found : Option UserRole → Result UserRole
first_found none = err record_not_found
first_found (some row) = ok row

pub record RoleTables (D : Type 0) : Type 0 where
  pub transaction : Action D (Unit {0}) → Action D (Unit {0})
  pub upsert_role : UserRole → Action D (Unit {0})
  pub insert_permissions : List CourseAdminPermission → Action D (Unit {0})
  pub delete_permissions : (CourseAdminPermission → Bool) → Action D (Unit {0})
  pub delete_roles : (UserRole → Bool) → Action D (Unit {0})
  pub find_roles : (UserRole → Bool) → D → Result (List UserRole)
  pub first_role : (UserRole → Bool) → D → Result UserRole
  pub count_roles : (UserRole → Bool) → D → Result ℕ
  pub exists_permission : (CourseAdminPermission → Bool) → D → Result Bool
  pub find_permissions : (CourseAdminPermission → Bool) → D → Result (List CourseAdminPermission)

-- The rows of both tables.
pub record RoleContents (D : Type 0) : Type 0 where
  pub user_roles : D → List UserRole
  pub permissions : D → List CourseAdminPermission

-- A transaction commits what its body did, or fails and leaves the tables as they were.
abbrev pub Transacted : {D : Type 0} → D → Result (Unit {0}) × D → Result (Unit {0}) × D → Type 0
Transacted d body (ok u, d') = body ≡ (ok u, d')
Transacted d body (err e, d') = d' ≡ d

module _ {D : Type 0} (contents : RoleContents D) where
  abbrev pub Now : List UserRole → List CourseAdminPermission → D → Type 0
  Now rows perms d' = (contents.user_roles d' ≡ rows) × (contents.permissions d' ≡ perms)

pub record TableLaws {D : Type 0} (tables : RoleTables D) (contents : RoleContents D) : Type 0 where
  pub unique : (d : D) → IsUnique (contents.user_roles d)
  pub transact : (m : Action D (Unit {0})) (d : D) → Transacted d (m d) (tables.transaction m d)
  pub upserts :
      (row : UserRole) (d : D)
      → Writes d
          (Now contents (upsert row (contents.user_roles d)) (contents.permissions d))
          (tables.upsert_role row)
  pub inserts :
      (rows : List CourseAdminPermission) (d : D)
      → Writes d
          (Now contents (contents.user_roles d) (insert_missing rows (contents.permissions d)))
          (tables.insert_permissions rows)
  pub deletes_permissions :
      (test : CourseAdminPermission → Bool) (d : D)
      → Writes d
          (Now contents
            (contents.user_roles d)
            (filter (λ row. not (test row)) (contents.permissions d)))
          (tables.delete_permissions test)
  pub deletes_roles :
      (test : UserRole → Bool) (d : D)
      → Writes d
          (Now contents
            (filter (λ row. not (test row)) (contents.user_roles d))
            (contents.permissions d))
          (tables.delete_roles test)
  pub firsts :
      (test : UserRole → Bool) (d : D)
      → Faulty (tables.first_role test d)
        ⊎ (tables.first_role test d ≡ first_found (find? test (contents.user_roles d)))
  -- Without ORDER BY, in any order.
  pub finds_roles :
      (test : UserRole → Bool) (d : D) (rows : List UserRole)
      → tables.find_roles test d ≡ ok rows
      → Permᴰ rows (filter test (contents.user_roles d))
  pub finds_permissions :
      (test : CourseAdminPermission → Bool) (d : D) (rows : List CourseAdminPermission)
      → tables.find_permissions test d ≡ ok rows
      → Permᴰ rows (filter test (contents.permissions d))
  pub counts :
      (test : UserRole → Bool) (d : D) (n : ℕ)
      → tables.count_roles test d ≡ ok n
      → ltb 0 n ≡ any test (contents.user_roles d)
  pub exists :
      (test : CourseAdminPermission → Bool) (d : D)
      → Faulty (tables.exists_permission test d)
        ⊎ (tables.exists_permission test d ≡ ok (any test (contents.permissions d)))
