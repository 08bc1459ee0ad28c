-- ===== src/Service/AdminRole/Access.antt =====
-- Who may do what after a role was changed.
-- No admin permission is the empty one.
use fcstask_backend.Errors.Action.{ok}
use fcstask_backend.Metrics.Admin.{AdminMetrics}
use fcstask_backend.Metrics.Serves.{Serves-ok}
use fcstask_backend.Metrics.World.{World}
use fcstask_backend.Model.{UserRole, Uuid, is_nil}
use fcstask_backend.Prelude.{
  Bool, Bool-cases, Option, String, ap, contains, eq_iff, eq_self, false, false≢true, if◌then◌else◌,
  inl, inr, none, not, refl, str_eq, sym, true, ◌&&◌, ◌==◌, ◌||◌, ◌∙◌, ◌≡◌,
}
use fcstask_backend.Repo.Role.Interface.{RoleLaws, RoleRepo, RoleView}
use fcstask_backend.Repo.User.{UserRepo}
use fcstask_backend.Service.AdminRole.{
  AssignCourseAdminInput, RemoveCourseParticipantInput, RevokeCourseAdminInput, assign_course_admin,
  remove_course_participant, revoke_course_admin,
}
use fcstask_backend.Service.AdminRole.Methods.{
  assign_course_admin-Serves, remove_course_participant-Serves, revoke_course_admin-Serves,
}
use fcstask_backend.Service.AdminRole.Outcomes.{AssignedAdmin, RemovedParticipant, RevokedAdmin}
use fcstask_backend.Service.Permission.Decision.{
  allowed, allowed-holds, holds, holds-absent, holds-granted, role_grants,
}
use fcstask_backend.Service.Permission.Names.{course_admin_permissions, permission_course_read}

admin_permission_nonempty :
    (p : String) → contains course_admin_permissions p ≡ true → str_eq p "" ≡ false
admin_permission_nonempty p h = elim (Bool-cases (str_eq p "")) [
  | inl e ↦
      absurd (false≢true (ap (contains course_admin_permissions) (sym ((eq_iff p "").0 e)) ∙ h))
  | inr n ↦ n
]

granted_listed :
    (b : Bool) (r : Uuid) (p : String)
    → contains course_admin_permissions p ≡ true
    → (b || (r == r && contains course_admin_permissions p)) ≡ true
granted_listed true r p h = refl
granted_listed false r p h = rw h (rw (eq_self r))

revoked :
    (n b listed : Bool) (r : Uuid)
    → (not n && (b && not (r == r && listed))) ≡ ((not n && b) && not listed)
revoked n b listed r = rw (eq_self r) (regroup n b listed)
  where
    regroup : (x y z : Bool) → (not x && (y && not z)) ≡ ((not x && y) && not z)
    regroup true y z = refl
    regroup false y z = refl

removed : (u c : Uuid) (o : Option Uuid) → (if u == u && c == c then none else o) ≡ none
removed u c o = rw (eq_self u, eq_self c)

module _ {D : Type 0} (view : RoleView D) (d d' : D) (actor : Uuid) where
  -- After a user was made a course admin, the check lets him pass for every admin permission there.
  AssignedAdmin-allowed :
      (input : AssignCourseAdminInput) (role : UserRole)
      → AssignedAdmin view d actor input role d'
      → (p : String) → contains course_admin_permissions p ≡ true
      → allowed view d' input.user_id input.course_id p ≡ true
  AssignedAdmin-allowed input role a p listed =
      let stored = a.roles_after input.user_id input.course_id ∙ a.participant in
      let gained = a.grants_after role.role_id p in
      allowed-holds view d' _ _ p a.real_user (admin_permission_nonempty p listed) (
        holds-granted view d' _ _ p role.role_id stored a.real_role
        ∙ gained
        ∙ granted_listed (view.granted d role.role_id p) role.role_id p listed)

  -- After a course admin was revoked, his role in the course holds none of the admin permissions,
  -- and every permission outside that list as before.
  RevokedAdmin-holds :
      (input : RevokeCourseAdminInput)
      → RevokedAdmin view d actor input d'
      → (p : String)
      → holds view d' input.user_id input.course_id p ≡ (
          holds view d input.user_id input.course_id p && not (contains course_admin_permissions p))
  unfolding holds
  RevokedAdmin-holds input a p =
      let listed = contains course_admin_permissions p in
      let kept = a.roles_after input.user_id input.course_id ∙ a.participant in
      ap (λ o. role_grants view d' o p) kept
      ∙ ap (λ (b : Bool). not (is_nil a.role_id) && b) (a.grants_after a.role_id p)
      ∙ revoked (is_nil a.role_id) (view.granted d a.role_id p) listed a.role_id
      ∙ ap (λ o. role_grants view d o p && not listed) (sym a.participant)

  -- A participant who was removed holds no permission in the course.
  RemovedParticipant-holds :
      (input : RemoveCourseParticipantInput)
      → RemovedParticipant view d actor input d'
      → (p : String) → holds view d' input.user_id input.course_id p ≡ false
  RemovedParticipant-holds input a p =
      holds-absent view d' _ _ p
        (a.roles_after input.user_id input.course_id ∙ removed input.user_id input.course_id _)

module _ {D M : Type 0} (roles : RoleRepo D) (users : UserRepo D) (view : RoleView D)
    (laws : RoleLaws roles view) (metrics : Option (AdminMetrics M)) (w : World D M)
    (actor : Uuid) where
  -- Once `AssignCourseAdmin` has succeeded, the user passes the permission check in that course for
  -- every permission of the admin list.
  pub assign_course_admin-allowed :
      (input : AssignCourseAdminInput) (role : UserRole) (p : String)
      → (assign_course_admin roles users metrics actor input w).0 ≡ ok role
      → contains course_admin_permissions p ≡ true
      → allowed view
          (assign_course_admin roles users metrics actor input w).1.db
          input.user_id
          input.course_id
          p
        ≡ true
  assign_course_admin-allowed input role p done listed =
      AssignedAdmin-allowed view w.db _ actor input role
        (Serves-ok (assign_course_admin-Serves roles users view laws metrics w actor input) done) p
        listed

  -- Once `RevokeCourseAdmin` has succeeded, the user's role in that course grants what it granted
  -- before, less the admin list: also the permissions of that list that it had as a student.
  pub revoke_course_admin-holds :
      (input : RevokeCourseAdminInput) (p : String)
      → (revoke_course_admin roles users metrics actor input w).0 ≡ ok tt
      → holds view
          (revoke_course_admin roles users metrics actor input w).1.db
          input.user_id
          input.course_id
          p
        ≡ (holds view w.db input.user_id input.course_id p
            && not (contains course_admin_permissions p))
  revoke_course_admin-holds input p done =
      RevokedAdmin-holds view w.db _ actor input
        (Serves-ok (revoke_course_admin-Serves roles users view laws metrics w actor input) done) p

  -- Every student permission to read the course is in the admin list too, so a participant who was
  -- made an admin, and is revoked, can no longer read the course that he could read as a student.
  pub revoked_cannot_read :
      (input : RevokeCourseAdminInput)
      → (revoke_course_admin roles users metrics actor input w).0 ≡ ok tt
      → holds view
          (revoke_course_admin roles users metrics actor input w).1.db
          input.user_id
          input.course_id
          permission_course_read
        ≡ false
  revoked_cannot_read input done =
      revoke_course_admin-holds input permission_course_read done ∙ and_false _
    where
      and_false : (b : Bool) → (b && false) ≡ false
      and_false true = refl
      and_false false = refl

  -- Once `RemoveCourseParticipant` has succeeded, the user holds nothing in that course.
  pub remove_course_participant-holds :
      (input : RemoveCourseParticipantInput) (p : String)
      → (remove_course_participant roles users metrics actor input w).0 ≡ ok tt
      → holds view
          (remove_course_participant roles users metrics actor input w).1.db
          input.user_id
          input.course_id
          p
        ≡ false
  remove_course_participant-holds input p done =
      RemovedParticipant-holds view w.db _ actor input
        (Serves-ok (remove_course_participant-Serves roles users view laws metrics w actor input)
          done)
        p
