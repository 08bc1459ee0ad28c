-- ===== src/Service/AdminRole/Isolation.antt =====
-- Requests about one course leave every other course, and the global roles, as they were.
-- A role has one owner: `user_roles` has a unique index on role_id, and one on user and course.
use fcstask_backend.Model.{CourseAdminPermission, UserRole, Uuid, is_nil}
use fcstask_backend.Prelude.{
  ==_iff, Bool, Bool-cases, List, Option, String, [], ap, arith, false, false≢true, if◌then◌else◌,
  inl, inr, none, not, refl, some, sym, true, ◌&&◌, ◌==◌, ◌||◌, ◌∙◌, ◌∷◌, ◌≡◌,
}
use fcstask_backend.Repo.Role.Interface.{
  RoleView, RolesAre, with_grants, without_grants, without_role,
}
use fcstask_backend.Service.AdminRole.{
  AddPermissionInput, AssignCourseAdminInput, RemoveCourseParticipantInput, RevokeCourseAdminInput,
}
use fcstask_backend.Service.AdminRole.Outcomes.{
  AddedPermission, AssignedAdmin, RemovedParticipant, RemovedPermission, RevokedAdmin,
}
use fcstask_backend.Service.Permission.Decision.{holds, role_grants}
use fcstask_backend.Service.Permission.Names.{course_admin_permissions}

pub record IsSeparate {D : Type 0} (view : RoleView D) (d : D) : Type 0 where
  pub owner :
      (u c u' c' r : Uuid)
      → view.role_of d u c ≡ some r
      → view.role_of d u' c' ≡ some r
      → (u ≡ u') × (c ≡ c')

-- Nobody's permissions in course `c'` differ.
abbrev pub SameIn : {D : Type 0} → RoleView D → Uuid → D → D → Type 0
SameIn view c' d d' = (v : Uuid) (p : String) → holds view d' v c' p ≡ holds view d v c' p

module _ {D : Type 0} (view : RoleView D) (d : D) (r : Uuid) (ps : List String) (r' : Uuid)
    (p : String) (ne : (r' == r) ≡ false) where
  with_grants_other : with_grants view d r ps r' p ≡ view.granted d r' p
  with_grants_other = rw ne (absorb (view.granted d r' p))
    where
      absorb : (b : Bool) → (b || false) ≡ b
      absorb true = refl
      absorb false = refl

  without_grants_other : without_grants view d r ps r' p ≡ view.granted d r' p
  without_grants_other = rw ne (absorb (view.granted d r' p))
    where
      absorb : (b : Bool) → (b && true) ≡ b
      absorb true = refl
      absorb false = refl

without_role_other :
    {D : Type 0} (view : RoleView D) (d : D) (r r' : Uuid) (p : String)
    → (r' == r) ≡ false
    → without_role view d r r' p ≡ view.granted d r' p
without_role_other view d r r' p ne = rw ne

unremoved : (b : Bool) (o : Option Uuid) (r : Uuid) → (if b then none else o) ≡ some r → o ≡ some r
unremoved true o r e = cc
unremoved false o r e = e

elsewhere :
    (b : Bool) (c' c : Uuid) (o : Option Uuid)
    → (c == c') ≡ false
    → (if b && c' == c then none else o) ≡ o
elsewhere b c' c o ne = ground arith

module _ {D : Type 0} (view : RoleView D) (d d' : D) (separate : IsSeparate view d) where
  other_role :
      (u c r v c' r' : Uuid)
      → view.role_of d u c ≡ some r
      → view.role_of d v c' ≡ some r'
      → (c == c') ≡ false
      → (r' == r) ≡ false
  other_role u c r v c' r' own there ne = elim (Bool-cases (r' == r)) [
    | inr n ↦ n
    | inl e ↦
        let same = (==_iff r' r).0 e in
        let (_, ec) = separate.owner u c v c' r own (there ∙ ap some same) in
        absurd (false≢true (sym ne ∙ (==_iff c c').1 ec))
  ]

  -- A write that touches the permissions of one role, owned in `c`, and the roles of `c`.
  elsewhere-SameIn :
      (u c r c' : Uuid)
      → view.role_of d u c ≡ some r
      → (c == c') ≡ false
      → ((v : Uuid) → view.role_of d' v c' ≡ view.role_of d v c')
      → ((r' : Uuid) (p : String) → (r' == r) ≡ false → view.granted d' r' p ≡ view.granted d r' p)
      → SameIn view c' d d'
  unfolding holds
  elsewhere-SameIn u c r c' own ne roles_same grants_same v p =
      ap (λ o. role_grants view d' o p) (roles_same v) ∙ settled (view.role_of d v c') refl
    where
      settled :
          (o : Option Uuid)
          → view.role_of d v c' ≡ o
          → role_grants view d' o p ≡ role_grants view d o p
      settled none e = refl
      settled (some r') e =
          ap (λ (b : Bool). not (is_nil r') && b)
            (grants_same r' p (other_role u c r v c' r' own e ne))

  -- A request about course `c` took no role from another and changed nothing in another course.
  pub record Isolated (c : Uuid) : Type 0 where
    pub among : (u k r : Uuid) → view.role_of d' u k ≡ some r → view.role_of d u k ≡ some r
    pub same_in : (c' : Uuid) → (c == c') ≡ false → SameIn view c' d d'

  kept :
      (u c r : Uuid)
      → view.role_of d u c ≡ some r
      → RolesAre view d (view.role_of d) d'
      → ((r' : Uuid) (p : String) → (r' == r) ≡ false → view.granted d' r' p ≡ view.granted d r' p)
      → Isolated c
  kept u c r own roles_after grants_same = record {
    among = λ u' k r' e. sym (roles_after u' k) ∙ e;
    same_in = λ c' ne. elsewhere-SameIn u c r c' own ne (λ v. roles_after v c') grants_same;
  }

  pub AssignedAdmin-Isolated :
      (actor : Uuid) (input : AssignCourseAdminInput) (role : UserRole)
      → AssignedAdmin view d actor input role d'
      → Isolated input.course_id
  AssignedAdmin-Isolated actor input role a =
      kept _ _ role.role_id a.participant a.roles_after
        (λ r' p n. a.grants_after r' p ∙ with_grants_other view d _ course_admin_permissions r' p n)

  pub RevokedAdmin-Isolated :
      (actor : Uuid) (input : RevokeCourseAdminInput)
      → RevokedAdmin view d actor input d'
      → Isolated input.course_id
  RevokedAdmin-Isolated actor input a = kept _ _ a.role_id a.participant a.roles_after (λ r' p n.
      a.grants_after r' p ∙ without_grants_other view d _ course_admin_permissions r' p n)

  pub AddedPermission-Isolated :
      (actor : Uuid) (input : AddPermissionInput) (perm : CourseAdminPermission)
      → AddedPermission view d actor input perm d'
      → Isolated input.course_id
  AddedPermission-Isolated actor input perm a =
      kept a.owner.0 _ input.role_id a.owner.1 a.roles_after
        (λ r' p n. a.grants_after r' p ∙ with_grants_other view d _ (input.permission ∷ []) r' p n)

  pub RemovedPermission-Isolated :
      (actor c r : Uuid) (q : String) → RemovedPermission view d actor c r q d' → Isolated c
  RemovedPermission-Isolated actor c r q a =
      kept a.owner.0 c r a.owner.1 a.roles_after
        (λ r' p n. a.grants_after r' p ∙ without_grants_other view d _ (q ∷ []) r' p n)

  pub RemovedParticipant-Isolated :
      (actor : Uuid) (input : RemoveCourseParticipantInput)
      → RemovedParticipant view d actor input d'
      → Isolated input.course_id
  RemovedParticipant-Isolated actor input a = record {
    among = λ u k r e.
        unremoved (u == input.user_id && k == input.course_id) _ r (sym (a.roles_after u k) ∙ e);
    same_in = λ c' ne.
        elsewhere-SameIn input.user_id input.course_id a.role_id c' a.participant ne
          (λ v. a.roles_after v c' ∙ elsewhere (v == input.user_id) c' input.course_id _ ne)
          (λ r' p n. a.grants_after r' p ∙ without_role_other view d a.role_id r' p n);
  }

-- Roles that were separate stay so.
pub Isolated-IsSeparate :
    {D : Type 0} (view : RoleView D) (d d' : D) (separate : IsSeparate view d) (c : Uuid)
    → Isolated view d d' separate c
    → IsSeparate view d'
Isolated-IsSeparate view d d' separate c i = record {
  owner = λ u k u' k' r e e'. separate.owner u k u' k' r (i.among u k r e) (i.among u' k' r e');
}
