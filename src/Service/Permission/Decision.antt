-- ===== src/Service/Permission/Decision.antt =====
-- The permission check decides a plain predicate on the stored roles.
use fcstask_backend.Errors.Action.{Result, err, ok}
use fcstask_backend.Model.{Uuid, is_nil, uuid_nil}
use fcstask_backend.Prelude.{
  Bool, Bool-cases, Option, String, false, inl, inr, none, not, refl, some, str_eq, subst, true,
  ◌&&◌, ◌||◌, ◌≡◌, ◌⊎◌,
}
use fcstask_backend.Repo.Role.Interface.{Faulty, RoleLaws, RoleRepo, RoleView, found}
use fcstask_backend.Service.Permission.Check.{
  by_role, has_permission, has_scoped_permission, has_super_admin, or_check, require,
  require_scoped_permission,
}
use fcstask_backend.Service.Permission.Names.{permission_is_super_admin}

abbrev pub by_option : Option Uuid → (Uuid → Bool) → Bool → Bool
by_option none present absent = absent
by_option (some r) present absent = present r

abbrev pub role_grants : {D : Type 0} → RoleView D → D → Option Uuid → String → Bool
role_grants view d role p = by_option role (λ r. not (is_nil r) && view.granted d r p) false

-- The role of a user in a course grants a permission.
unfoldable pub holds : {D : Type 0} → RoleView D → D → Uuid → Uuid → String → Bool
holds view d u c p = role_grants view d (view.role_of d u c) p

-- What `HasScopedPermission` means: the role in the course, or else the global super admin's.
unfoldable pub allowed : {D : Type 0} → RoleView D → D → Uuid → Uuid → String → Bool
allowed view d u c p =
    not (is_nil u)
    && (not (str_eq p "")
        && (holds view d u c p
            || not (is_nil c) && holds view d u uuid_nil permission_is_super_admin))

-- The read failed, or it gave the answer.
abbrev pub Answers : Result Bool → Bool → Type 0
Answers r b = Faulty r ⊎ (r ≡ ok b)

module _ {D : Type 0} (view : RoleView D) (d : D) (u c : Uuid) (p : String) where
  pub holds-granted :
      (r : Uuid)
      → view.role_of d u c ≡ some r
      → is_nil r ≡ false
      → holds view d u c p ≡ view.granted d r p
  unfolding holds
  holds-granted r e n = rw (e, by_option) (rw n)

  pub holds-absent : view.role_of d u c ≡ none → holds view d u c p ≡ false
  unfolding holds
  holds-absent e = rw (e, by_option)

  pub allowed-holds :
      is_nil u ≡ false
      → str_eq p "" ≡ false
      → holds view d u c p ≡ true
      → allowed view d u c p ≡ true
  unfolding allowed
  allowed-holds x y h = rw (x, y, h)

by_role-Answers :
    (lookup : Result Uuid) (role : Option Uuid) (check : Uuid → Result Bool) (absent : Result Bool)
    (b : Uuid → Bool) (c : Bool)
    → Faulty lookup ⊎ (lookup ≡ found role)
    → ((r : Uuid) → Answers (check r) (b r))
    → Answers absent c
    → Answers (by_role lookup check absent) (by_option role b c)
by_role-Answers lookup role check absent b c (inr e) hb hc = rw e (settled role)
  where
    settled : (o : Option Uuid) → Answers (by_role (found o) check absent) (by_option o b c)
    settled none = hc
    settled (some r) = hb r
by_role-Answers (ok r) role check absent b c (inl f) hb hc = absurd f
by_role-Answers (err e) role check absent b c (inl f) hb hc = rw f (inl f)

or_check-Answers :
    (first next : Result Bool) (a b : Bool)
    → Answers first a
    → Answers next b
    → Answers (or_check first next) (a || b)
or_check-Answers (ok x) next a b (inl f) hb = absurd f
or_check-Answers (err e) next a b (inl f) hb = inl f
or_check-Answers first next true b (inr e) hb = rw e (inr refl)
or_check-Answers first next false b (inr e) hb = rw e hb

module _ {D : Type 0} (roles : RoleRepo D) (view : RoleView D) (laws : RoleLaws roles view) where
  has_permission-Answers :
      (r : Uuid) (p : String) (d : D)
      → str_eq p "" ≡ false
      → Answers (has_permission roles r p d) (not (is_nil r) && view.granted d r p)
  unfolding has_permission
  has_permission-Answers r p d ne = elim (Bool-cases (is_nil r)) [
    | inl z ↦ rw z (inr refl)
    | inr z ↦ rw (z, ne) (laws.has r p d)
  ]

  has_super_admin-Answers :
      (u c : Uuid) (d : D)
      → Answers
          (has_super_admin roles u c d)
          (not (is_nil c) && holds view d u uuid_nil permission_is_super_admin)
  unfolding has_super_admin holds
  has_super_admin-Answers u c d = elim (Bool-cases (is_nil c)) [
    | inl z ↦ rw z (inr refl)
    | inr z ↦ rw z (
        by_role-Answers _ (view.role_of d u uuid_nil) _ _
          (λ r. not (is_nil r) && view.granted d r permission_is_super_admin) false
          (laws.get_role u uuid_nil d)
          (λ r. has_permission-Answers r permission_is_super_admin d refl) (inr refl))
  ]

  scoped-Answers :
      (u c : Uuid) (p : String) (d : D) (s : Bool) (super : Result Bool)
      → str_eq p "" ≡ false
      → Answers super s
      → Answers
          (by_role
            (roles.get_role_id_by_user_and_course u c d)
            (λ r. or_check (has_permission roles r p d) super)
            super)
          (holds view d u c p || s)
  unfolding holds
  scoped-Answers u c p d s super ne h = subst (Answers _) (settled (view.role_of d u c)) (
      by_role-Answers _ (view.role_of d u c) _ _ (λ r. (not (is_nil r) && view.granted d r p) || s)
        s (laws.get_role u c d) (λ r. or_check-Answers _ _ _ _ (has_permission-Answers r p d ne) h)
        h)
    where
      settled :
          (o : Option Uuid)
          → by_option o (λ r. not (is_nil r) && view.granted d r p || s) s
            ≡ (role_grants view d o p || s)
      settled none = refl
      settled (some r) = refl

  -- For every user, course and permission, `HasScopedPermission` returns an error that is not
  -- `ErrRecordNotFound`, or decides `allowed`: the role in the course, else the super admin's.
  pub has_scoped_permission-decides :
      (u c : Uuid) (p : String) (d : D)
      → Answers (has_scoped_permission roles u c p d) (allowed view d u c p)
  unfolding has_scoped_permission allowed
  has_scoped_permission-decides u c p d = elim (Bool-cases (is_nil u)) [
    | inl z ↦ rw z (inr refl)
    | inr z ↦ elim (Bool-cases (str_eq p "")) [
      | inl y ↦ rw (z, y) (inr refl)
      | inr y ↦ rw (z, y) (scoped-Answers u c p d _ _ y (has_super_admin-Answers u c d))
    ]
  ]

  require_granted :
      (r : Result Bool) (b : Bool) {u : Unit {0}} → Answers r b → require r ≡ ok u → b ≡ true
  require_granted (ok true) b (inl f) h = absurd f
  require_granted (ok true) b (inr e) h = cc
  require_granted (ok false) b a h = cc
  require_granted (err e) b a h = cc

  -- A user who passes `RequireScopedPermission` is allowed.
  pub require_scoped_permission-allowed :
      (u c : Uuid) (p : String) (d : D) {x : Unit {0}}
      → require_scoped_permission roles u c p d ≡ ok x
      → allowed view d u c p ≡ true
  unfolding require_scoped_permission
  require_scoped_permission-allowed u c p d h =
      require_granted _ _ (has_scoped_permission-decides u c p d) h
