-- ===== src/Service/Permission/Effects.antt =====
-- What the writes of internal/service/permission.go do to the stored roles.
use fcstask_backend.Errors.{is_record_not_found}
use fcstask_backend.Errors.Action.{Result, Writes, err, ok}
use fcstask_backend.Errors.Ensures.{
  Ensures, checked-Writes, fail_step, guarded-Writes, lift_step, observe_step, refuse_if-eq-ok,
  strengthen-Writes, wrapping-Writes, write_step,
}
use fcstask_backend.Model.{UserRole, Uuid, is_nil}
use fcstask_backend.Prelude.{
  Bool-cases, List, String, ap, both_eq, false, inl, inr, none, refl, some, ◌&&◌, ◌==◌, ◌∙◌, ◌≡◌,
  ◌⊎◌,
}
use fcstask_backend.Repo.Role.Interface.{
  Faulty, GrantsAre, RoleLaws, RoleRepo, RoleView, RolesAre, found, found-eq-err, found-eq-ok,
  with_grants, with_role, without_grants,
}
use fcstask_backend.Service.Permission.Grant.{
  ensure_role, ensure_user_role_with_permissions, grant_role_permissions, revoke_role_permissions,
}

module _ {D : Type 0} (view : RoleView D) where
  -- The role that a get-or-create leaves a user with in a course.
  pub record Ensured (d : D) (new_role_id u c : Uuid) (ps : List String) (row : UserRole) (d' : D)
      : Type 0 where
    pub of_user : row.user_id ≡ u
    pub in_course : row.course_id ≡ c
    pub kept_or_new :
        (view.role_of d u c ≡ some row.role_id)
        ⊎ ((view.role_of d u c ≡ none) × (row.role_id ≡ new_role_id))
    pub roles_after : RolesAre view d (with_role view d u c (some row.role_id)) d'
    pub grants_after : GrantsAre view d (with_grants view d row.role_id ps) d'

module _ {D : Type 0} (roles : RoleRepo D) (view : RoleView D) (laws : RoleLaws roles view) where
  pub grant_role_permissions-Writes :
      (r : Uuid) (ps : List String) (d : D)
      → Writes d
          (λ d'.
            RolesAre view d (view.role_of d) d'
            × GrantsAre view d (with_grants view d r ps) d'
            × (is_nil r ≡ false))
          (grant_role_permissions roles r ps)
  unfolding grant_role_permissions
  grant_role_permissions-Writes r ps d = checked-Writes _ _ λ _ nonzero. guarded-Writes _ _ (
      strengthen-Writes (wrapping-Writes _ _ (laws.add r ps d))
        λ d' w. (w.0, w.1, refuse_if-eq-ok _ _ nonzero))

  pub revoke_role_permissions-Writes :
      (r : Uuid) (ps : List String) (d : D)
      → Writes d
          (λ d'.
            RolesAre view d (view.role_of d) d' × GrantsAre view d (without_grants view d r ps) d')
          (revoke_role_permissions roles r ps)
  unfolding revoke_role_permissions
  revoke_role_permissions-Writes r ps d =
      guarded-Writes _ _ (guarded-Writes _ _ (wrapping-Writes _ _ (laws.remove r ps d)))

  same_role :
      (u c r : Uuid) (d : D)
      → view.role_of d u c ≡ some r
      → (u' c' : Uuid) → view.role_of d u' c' ≡ with_role view d u c (some r) u' c'
  same_role u c r d h u' c' = elim (Bool-cases (u' == u && c' == c)) [
    | inl e ↦ let (eu, ec) = both_eq u' u c' c e in rw e (cc)
    | inr n ↦ rw n
  ]

  ensure_role-Ensured :
      (n u c : Uuid) (ps : List String) (d : D) (lookup : Result Uuid)
      → Faulty lookup ⊎ (lookup ≡ found (view.role_of d u c))
      → Ensures d (Ensured view d n u c ps) (ensure_role roles n u c ps lookup)
  ensure_role-Ensured n u c ps d (ok r) (inl f) = absurd f
  ensure_role-Ensured n u c ps d (ok r) (inr e) = write_step _ _ _ (laws.add r ps d) λ d' w.
      record {
        of_user = refl;
        in_course = refl;
        kept_or_new = inl (found-eq-ok r (view.role_of d u c) e);
        roles_after =
            λ u' c'. w.0 u' c' ∙ same_role u c r d (found-eq-ok r (view.role_of d u c) e) u' c';
        grants_after = w.1;
      }
  ensure_role-Ensured n u c ps d (err e) (inl f) = rw f (fail_step _)
  ensure_role-Ensured n u c ps d (err e) (inr h) =
      let (absent, missing) = found-eq-err e (view.role_of d u c) h in
      rw (ap is_record_not_found missing) (
        write_step _ _ _ (laws.assign (record { user_id = u; course_id = c; role_id = n }) ps d)
          λ d' w. record {
            of_user = refl;
            in_course = refl;
            kept_or_new = inr (absent, refl);
            roles_after = w.0;
            grants_after = w.1;
          })

  -- `EnsureUserRoleWithPermissions` fails and writes nothing, or the user has in the course the role
  -- that he had or else the new one, with the permissions added and nothing else changed.
  pub ensure_user_role_with_permissions-Ensured :
      (n u c : Uuid) (ps : List String) (d : D)
      → Ensures d (Ensured view d n u c ps) (ensure_user_role_with_permissions roles n u c ps)
  unfolding ensure_user_role_with_permissions
  ensure_user_role_with_permissions-Ensured n u c ps d = lift_step _ _ λ _ _. lift_step _ _ λ _ _.
      observe_step _ _ λ r e. ensure_role-Ensured n u c ps d r (rw e at (laws.get_role u c d))
