-- ===== src/Repo/Role/Interface.antt =====
-- internal/db/repo/role.go: `IRoleRepo`, and what its methods promise about the stored roles.
use fcstask_backend.Errors.{Error, is_record_not_found, record_not_found}
use fcstask_backend.Errors.Action.{Action, Result, Writes, err, ok}
use fcstask_backend.Model.{CourseAdminPermission, UserRole, Uuid}
use fcstask_backend.Prelude.{
  Bool, List, Option, String, [], any, contains, false, if◌then◌else◌, inl, inr, none, not, refl,
  some, str_eq, sym, true, ◌&&◌, ◌==◌, ◌||◌, ◌∙◌, ◌∷◌, ◌≡◌, ◌⊎◌,
}

pub record RoleRepo (D : Type 0) : Type 0 where
  pub assign_role_with_permissions : UserRole → List String → Action D (Unit {0})
  pub revoke_role_with_permissions : (user_id course_id role_id : Uuid) → Action D (Unit {0})
  pub get_by_course_id : Uuid → D → Result (List UserRole)
  pub get_role_id_by_user_and_course : (user_id course_id : Uuid) → D → Result Uuid
  pub role_belongs_to_course : (role_id course_id : Uuid) → D → Result Bool
  pub has_permission : (role_id : Uuid) → String → D → Result Bool
  pub add_permission : CourseAdminPermission → Action D (Unit {0})
  pub add_permissions : (role_id : Uuid) → List String → Action D (Unit {0})
  pub remove_permission : (role_id : Uuid) → String → Action D (Unit {0})
  pub remove_permissions : (role_id : Uuid) → List String → Action D (Unit {0})
  pub get_permissions : (role_id : Uuid) → D → Result (List CourseAdminPermission)

-- A database failure, which is not the answer that there is no row.
abbrev pub Faulty {ℓ} : {A : Type ℓ} → Result A → Type 0
Faulty (ok a) = ⊥
Faulty (err e) = is_record_not_found e ≡ false

-- What `First` answers for the row that it looks for.
abbrev pub found {ℓ} : {A : Type ℓ} → Option A → Result A
found none = err record_not_found
found (some a) = ok a

-- What the tables hold, to a reader of them.
pub record RoleView (D : Type 0) : Type 0 where
  pub role_of : D → (user_id course_id : Uuid) → Option Uuid
  pub granted : D → (role_id : Uuid) → String → Bool

-- The row gives the user this role in the course.
abbrev pub is_role : (user_id course_id role_id : Uuid) → UserRole → Bool
is_role user_id course_id role_id row =
    (row.user_id == user_id && row.course_id == course_id) && row.role_id == role_id

-- The row grants the permission to the role.
abbrev pub is_grant : (role_id : Uuid) → String → CourseAdminPermission → Bool
is_grant r p row = row.role_id == r && str_eq row.permission p

abbrev pub has_role : Option Uuid → Uuid → Bool
has_role none role_id = false
has_role (some role) role_id = role == role_id

module _ {D : Type 0} (view : RoleView D) (d : D) where
  open view use {role_of, granted}

  -- The rows of `user_roles` after a write, and the permissions after it.
  abbrev pub RolesAre : ((user_id course_id : Uuid) → Option Uuid) → D → Type 0
  RolesAre roles d' = (u c : Uuid) → role_of d' u c ≡ roles u c

  abbrev pub GrantsAre : ((role_id : Uuid) → String → Bool) → D → Type 0
  GrantsAre grants d' = (r : Uuid) (p : String) → granted d' r p ≡ grants r p

  -- `roles` with the role of one user in one course replaced.
  abbrev pub with_role : (user_id course_id : Uuid) → Option Uuid → Uuid → Uuid → Option Uuid
  with_role u c role u' c' = if u' == u && c' == c then role else role_of d u' c'

  abbrev pub with_grants : (role_id : Uuid) → List String → Uuid → String → Bool
  with_grants r ps r' p = granted d r' p || (r' == r && contains ps p)

  abbrev pub without_grants : (role_id : Uuid) → List String → Uuid → String → Bool
  without_grants r ps r' p = granted d r' p && not (r' == r && contains ps p)

  abbrev pub without_role : (role_id : Uuid) → Uuid → String → Bool
  without_role r r' p = not (r' == r) && granted d r' p

-- What the services rely on: each read fails or answers by the view, and each write fails whole or
-- changes the view as its statements say.
pub record RoleLaws {D : Type 0} (repo : RoleRepo D) (view : RoleView D) : Type 0 where
  pub get_role :
      (u c : Uuid) (d : D)
      → Faulty (repo.get_role_id_by_user_and_course u c d)
        ⊎ (repo.get_role_id_by_user_and_course u c d ≡ found (view.role_of d u c))
  pub has :
      (r : Uuid) (p : String) (d : D)
      → Faulty (repo.has_permission r p d) ⊎ (repo.has_permission r p d ≡ ok (view.granted d r p))
  pub belongs :
      (r c : Uuid) (d : D)
      → repo.role_belongs_to_course r c d ≡ ok true
      → (u : Uuid) × (view.role_of d u c ≡ some r)
  pub belongs_not :
      (r c : Uuid) (d : D)
      → repo.role_belongs_to_course r c d ≡ ok false
      → (u : Uuid) → ¬ (view.role_of d u c ≡ some r)
  -- The list has a row for a user, a course and a role just where it is the listed course and the user
  -- has this role in it.
  pub lists_course :
      (c : Uuid) (d : D) (rows : List UserRole)
      → repo.get_by_course_id c d ≡ ok rows
      → (u c' r : Uuid) → any (is_role u c' r) rows ≡ (c' == c && has_role (view.role_of d u c') r)
  -- The list has a row for a role and a permission just where it is the listed role and has it.
  pub lists_permissions :
      (r : Uuid) (d : D) (rows : List CourseAdminPermission)
      → repo.get_permissions r d ≡ ok rows
      → (r' : Uuid) (p : String) → any (is_grant r' p) rows ≡ (r' == r && view.granted d r' p)
  pub assign :
      (row : UserRole) (ps : List String) (d : D)
      → Writes d
          (λ d'.
            RolesAre view d (with_role view d row.user_id row.course_id (some row.role_id)) d'
            × GrantsAre view d (with_grants view d row.role_id ps) d')
          (repo.assign_role_with_permissions row ps)
  pub revoke :
      (u c r : Uuid) (d : D)
      → view.role_of d u c ≡ some r
      → Writes d
          (λ d'.
            RolesAre view d (with_role view d u c none) d'
            × GrantsAre view d (without_role view d r) d')
          (repo.revoke_role_with_permissions u c r)
  pub add :
      (r : Uuid) (ps : List String) (d : D)
      → Writes d
          (λ d'.
            RolesAre view d (view.role_of d) d' × GrantsAre view d (with_grants view d r ps) d')
          (repo.add_permissions r ps)
  pub add_one :
      (row : CourseAdminPermission) (d : D)
      → Writes d
          (λ d'.
            RolesAre view d (view.role_of d) d'
            × GrantsAre view d (with_grants view d row.role_id (row.permission ∷ [])) d')
          (repo.add_permission row)
  pub remove :
      (r : Uuid) (ps : List String) (d : D)
      → Writes d
          (λ d'.
            RolesAre view d (view.role_of d) d' × GrantsAre view d (without_grants view d r ps) d')
          (repo.remove_permissions r ps)
  pub remove_one :
      (r : Uuid) (p : String) (d : D)
      → Writes d
          (λ d'.
            RolesAre view d (view.role_of d) d'
            × GrantsAre view d (without_grants view d r (p ∷ [])) d')
          (repo.remove_permission r p)

pub found-eq-ok {ℓ} : {A : Type ℓ} (r : A) (o : Option A) → ok r ≡ found o → o ≡ some r
found-eq-ok r none h = cc
found-eq-ok r (some x) h = cc

pub found-eq-err {ℓ} :
    {A : Type ℓ} (e : Error) (o : Option A) → err e ≡ found o → (o ≡ none) × (e ≡ record_not_found)
found-eq-err e none h = (refl, cc)
found-eq-err e (some x) h = cc

pub looked_up {ℓ} :
    {A : Type ℓ} (lookup : Result A) (role : Option A) {r : A}
    → Faulty lookup ⊎ (lookup ≡ found role)
    → lookup ≡ ok r
    → role ≡ some r
looked_up (ok x) role {r} (inl f) h = absurd f
looked_up (ok x) role {r} (inr e) h = found-eq-ok r role (sym h ∙ e)
looked_up (err x) role {r} a h = cc

-- A role that was looked up is stored.
pub role_of-looked_up :
    {D : Type 0} {repo : RoleRepo D} {view : RoleView D} (laws : RoleLaws repo view) (u c : Uuid)
    (d : D) {r : Uuid}
    → repo.get_role_id_by_user_and_course u c d ≡ ok r
    → view.role_of d u c ≡ some r
role_of-looked_up laws u c d h = looked_up _ _ (laws.get_role u c d) h
