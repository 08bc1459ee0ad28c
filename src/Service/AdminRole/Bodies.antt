-- ===== src/Service/AdminRole/Bodies.antt =====
-- Each body of internal/service/admin_role.go has the outcome that `Outcomes` states.
use fcstask_backend.Errors.{Error}
use fcstask_backend.Errors.Action.{err, ok}
use fcstask_backend.Errors.Ensures.{
  Ensures, bind-eq-ok, effect_step, last_step, lift_step, or_else-eq-ok, query_step,
  refuse_if-eq-ok, weaken, wrapping-Writes, write_step,
}
use fcstask_backend.Model.{Uuid}
use fcstask_backend.Prelude.{
  Bool, String, ap, false, if◌then◌else◌, or_false, refl, some, true, ◌∙◌, ◌≡◌,
}
use fcstask_backend.Repo.Role.Interface.{RoleLaws, RoleRepo, RoleView, role_of-looked_up}
use fcstask_backend.Repo.User.{UserRepo}
use fcstask_backend.Service.AdminRole.{
  AddPermissionInput, AssignCourseAdminInput, CreateSuperAdminInput, RemoveCourseParticipantInput,
  RevokeCourseAdminInput, add_permission_body, assign_course_admin_body, create_super_admin_body,
  participant_role, remove_course_participant_body, remove_permission_body, require_role_in_course,
  revoke_course_admin_body,
}
use fcstask_backend.Service.AdminRole.Outcomes.{
  AddedPermission, AssignedAdmin, CreatedSuperAdmin, RemovedParticipant, RemovedPermission,
  RevokedAdmin,
}
use fcstask_backend.Service.Permission.Decision.{require_scoped_permission-allowed}
use fcstask_backend.Service.Permission.Effects.{
  ensure_user_role_with_permissions-Ensured, grant_role_permissions-Writes,
  revoke_role_permissions-Writes,
}

if_true : (b : Bool) (e : Error) {x : Unit {0}} → (if b then ok tt else err e) ≡ ok x → b ≡ true
if_true true e h = refl
if_true false e h = cc

module _ {D : Type 0} (roles : RoleRepo D) (users : UserRepo D) (view : RoleView D)
    (laws : RoleLaws roles view) (d : D) where
  participant_role-found :
      (u c : Uuid) {r : Uuid}
      → participant_role roles users u c d ≡ ok r
      → view.role_of d u c ≡ some r
  participant_role-found u c h = role_of-looked_up laws u c d (or_else-eq-ok _ _ h)

  role_in_course-owner :
      (r c : Uuid) {x : Unit {0}}
      → require_role_in_course roles users r c d ≡ ok x
      → (u : Uuid) × (view.role_of d u c ≡ some r)
  unfolding require_role_in_course
  role_in_course-owner r c h =
      let (belongs, answered, passed) = bind-eq-ok _ _ h in
      laws.belongs r c d (or_else-eq-ok _ _ (answered ∙ ap ok (if_true belongs _ passed)))

  pub assign_course_admin_body-Assigned :
      (actor : Uuid) (input : AssignCourseAdminInput)
      → Ensures d
          (AssignedAdmin view d actor input)
          (assign_course_admin_body roles users actor input)
  unfolding assign_course_admin_body
  assign_course_admin_body-Assigned actor input = lift_step _ _ λ _ valid.
      query_step _ _ λ _ permitted. query_step _ _ λ _ _. query_step _ _ λ r participant.
        effect_step _ _ (grant_role_permissions-Writes roles view laws r _ d) λ d' w. record {
          permitted = require_scoped_permission-allowed roles view laws _ _ _ d permitted;
          real_course = (or_false _ _ (refuse_if-eq-ok _ _ valid)).1;
          of_user = refl;
          in_course = refl;
          real_user = (or_false _ _ (refuse_if-eq-ok _ _ valid)).0;
          real_role = w.2;
          participant = participant_role-found _ _ participant;
          roles_after = w.0;
          grants_after = w.1;
        }

  pub create_super_admin_body-Created :
      (n actor : Uuid) (input : CreateSuperAdminInput)
      → Ensures d
          (CreatedSuperAdmin view d actor n input)
          (create_super_admin_body roles users n actor input)
  unfolding create_super_admin_body
  create_super_admin_body-Created n actor input = query_step _ _ λ _ permitted. lift_step _ _ λ _ _.
      query_step _ _ λ _ _.
        weaken (ensure_user_role_with_permissions-Ensured roles view laws n _ _ _ d) λ role d' e.
          record {
            permitted = require_scoped_permission-allowed roles view laws _ _ _ d permitted;
            ensured = e;
          }

  pub revoke_course_admin_body-Revoked :
      (actor : Uuid) (input : RevokeCourseAdminInput)
      → Ensures d
          (λ _. RevokedAdmin view d actor input)
          (revoke_course_admin_body roles users actor input)
  unfolding revoke_course_admin_body
  revoke_course_admin_body-Revoked actor input = lift_step _ _ λ _ valid.
      query_step _ _ λ _ permitted. query_step _ _ λ r participant.
        last_step _ (revoke_role_permissions-Writes roles view laws r _ d) λ d' w. record {
          permitted = require_scoped_permission-allowed roles view laws _ _ _ d permitted;
          real_course = (or_false _ _ (refuse_if-eq-ok _ _ valid)).1;
          role_id = r;
          participant = participant_role-found _ _ participant;
          roles_after = w.0;
          grants_after = w.1;
        }

  pub remove_course_participant_body-Removed :
      (actor : Uuid) (input : RemoveCourseParticipantInput)
      → Ensures d
          (λ _. RemovedParticipant view d actor input)
          (remove_course_participant_body roles users actor input)
  unfolding remove_course_participant_body
  remove_course_participant_body-Removed actor input = lift_step _ _ λ _ valid.
      query_step _ _ λ _ permitted. query_step _ _ λ r participant.
        let stored = participant_role-found _ _ participant in
        last_step _ (wrapping-Writes _ _ (laws.revoke _ _ r d stored)) λ d' w. record {
          permitted = require_scoped_permission-allowed roles view laws _ _ _ d permitted;
          real_course = (or_false _ _ (refuse_if-eq-ok _ _ valid)).1;
          role_id = r;
          participant = stored;
          roles_after = w.0;
          grants_after = w.1;
        }

  pub add_permission_body-Added :
      (actor : Uuid) (input : AddPermissionInput)
      → Ensures d (AddedPermission view d actor input) (add_permission_body roles users actor input)
  unfolding add_permission_body
  add_permission_body-Added actor input = lift_step _ _ λ _ valid. lift_step _ _ λ _ _.
      lift_step _ _ λ _ _. query_step _ _ λ _ permitted. query_step _ _ λ _ belongs.
        write_step _ _ _ (laws.add_one _ d) λ d' w. record {
          permitted = require_scoped_permission-allowed roles view laws _ _ _ d permitted;
          real_course = refuse_if-eq-ok _ _ valid;
          owner = role_in_course-owner _ _ belongs;
          roles_after = w.0;
          grants_after = w.1;
        }

  pub remove_permission_body-Removed :
      (actor c r : Uuid) (p : String)
      → Ensures d
          (λ _. RemovedPermission view d actor c r p)
          (remove_permission_body roles users actor c r p)
  unfolding remove_permission_body
  remove_permission_body-Removed actor c r p = lift_step _ _ λ _ valid. lift_step _ _ λ _ _.
      lift_step _ _ λ _ _. query_step _ _ λ _ permitted. query_step _ _ λ _ belongs.
        last_step _ (wrapping-Writes _ _ (laws.remove_one r p d)) λ d' w. record {
          permitted = require_scoped_permission-allowed roles view laws _ _ _ d permitted;
          real_course = refuse_if-eq-ok _ _ valid;
          owner = role_in_course-owner _ _ belongs;
          roles_after = w.0;
          grants_after = w.1;
        }
