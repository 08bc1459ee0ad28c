-- ===== src/Repo/Role/Reads.antt =====
-- The reads of `RoleRepository` answer by the rows.
use fcstask_backend.Errors.Action.{Result, err, ok}
use fcstask_backend.Errors.Ensures.{bind-eq-ok}
use fcstask_backend.Model.{CourseAdminPermission, UserRole, Uuid}
use fcstask_backend.Prelude.{
  Bool, List, Option, String, any, false, false≢true, find?, inl, inr, none, refl, some, sym, true,
  ◌&&◌, ◌==◌, ◌∙◌, ◌≡◌, ◌⊎◌,
}
use fcstask_backend.Repo.Role.Interface.{Faulty, RoleView, found, has_role, is_grant, is_role}
use fcstask_backend.Repo.Role.Listed.{any-course_rows, any-owned, any-role_permissions}
use fcstask_backend.Repo.Role.Repository.{
  get_by_course_id, get_permissions, get_role_id_by_user_and_course, has_permission,
  role_belongs_to_course, role_id_of,
}
use fcstask_backend.Repo.Role.Rows.{owner_of, role_in}
use fcstask_backend.Repo.Role.Tables.{
  RoleContents, RoleTables, TableLaws, first_found, of_user_in_course,
}

module _ {D : Type 0} (contents : RoleContents D) where
  unfoldable pub role_of : D → (user_id course_id : Uuid) → Option Uuid
  role_of d u c = role_in (find? (of_user_in_course u c) (contents.user_roles d))

  unfoldable pub granted : D → (role_id : Uuid) → String → Bool
  granted d r p = any (is_grant r p) (contents.permissions d)

  abbrev pub role_view : RoleView D
  role_view = record { role_of = role_of; granted = granted }

module _ {D : Type 0} (tables : RoleTables D) (contents : RoleContents D)
    (laws : TableLaws tables contents) where
  role_id_of-found :
      (r : Result UserRole) (o : Option UserRole)
      → Faulty r ⊎ (r ≡ first_found o)
      → Faulty (role_id_of r) ⊎ (role_id_of r ≡ found (role_in o))
  role_id_of-found (ok x) o (inl f) = absurd f
  role_id_of-found (err e) o (inl f) = rw f (inl f)
  role_id_of-found r none (inr h) = rw h (inr refl)
  role_id_of-found r (some x) (inr h) = rw h (inr refl)

  pub get_role :
      (u c : Uuid) (d : D)
      → Faulty (get_role_id_by_user_and_course tables u c d)
        ⊎ (get_role_id_by_user_and_course tables u c d ≡ found (role_of contents d u c))
  unfolding get_role_id_by_user_and_course role_of
  get_role u c d = role_id_of-found _ _ (laws.firsts (of_user_in_course u c) d)

  pub has :
      (r : Uuid) (p : String) (d : D)
      → Faulty (has_permission tables r p d)
        ⊎ (has_permission tables r p d ≡ ok (granted contents d r p))
  unfolding has_permission granted
  has r p d = laws.exists (is_grant r p) d

  pub belongs :
      (r c : Uuid) (d : D)
      → role_belongs_to_course tables r c d ≡ ok true
      → (u : Uuid) × (role_of contents d u c ≡ some r)
  unfolding role_belongs_to_course role_of
  belongs r c d h =
      let (n, counted, positive) = bind-eq-ok _ _ h in
      owner_of r c _ (laws.unique d) (sym (laws.counts _ d n counted) ∙ same_ok positive)
    where
      same_ok : {a b : Bool} → ok a ≡ ok b → a ≡ b
      same_ok h' = cc

  pub belongs_not :
      (r c : Uuid) (d : D)
      → role_belongs_to_course tables r c d ≡ ok false
      → (u : Uuid) → ¬ (role_of contents d u c ≡ some r)
  unfolding role_belongs_to_course role_of
  belongs_not r c d h u owned =
      let (n, counted, zero_rows) = bind-eq-ok _ _ h in
      false≢true (sym (same_ok zero_rows) ∙ laws.counts _ d n counted ∙ any-owned r u c _ owned)
    where
      same_ok : {a b : Bool} → ok a ≡ ok b → a ≡ b
      same_ok h' = cc

  pub lists_course :
      (c : Uuid) (d : D) (rows : List UserRole)
      → get_by_course_id tables c d ≡ ok rows
      → (u c' r : Uuid)
      → any (is_role u c' r) rows ≡ (c' == c && has_role (role_of contents d u c') r)
  unfolding get_by_course_id role_of
  lists_course c d rows h =
      any-course_rows c rows (contents.user_roles d) (laws.unique d) (laws.finds_roles _ d rows h)

  pub lists_permissions :
      (r : Uuid) (d : D) (rows : List CourseAdminPermission)
      → get_permissions tables r d ≡ ok rows
      → (r' : Uuid) (p : String) → any (is_grant r' p) rows ≡ (r' == r && granted contents d r' p)
  unfolding get_permissions granted
  lists_permissions r d rows h =
      any-role_permissions r rows (contents.permissions d) (laws.finds_permissions _ d rows h)
