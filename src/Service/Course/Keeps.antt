-- ===== src/Service/Course/Keeps.antt =====
-- `EnsureUserRoleWithPermissions` leaves the courses alone.
-- A call that leaves the rows of courses as they were, errors included.
use fcstask_backend.Errors.{Error, is_record_not_found}
use fcstask_backend.Errors.Action.{
  Action, Result, continue, err, lift, observe, ok, or_else, pure, query, wrapping, ◌>>=◌,
}
use fcstask_backend.Errors.Ensures.{Ended, Ensures}
use fcstask_backend.Model.{Course, UserRole, Uuid}
use fcstask_backend.Prelude.{Bool-cases, List, Option, String, inl, inr, refl, sym, ◌∙◌, ◌≡◌}
use fcstask_backend.Repo.Course.{course_table}
use fcstask_backend.Repo.Role.Interface.{RoleRepo}
use fcstask_backend.Repo.Stored.{AllRows}
use fcstask_backend.Service.Permission.Grant.{ensure_role, ensure_user_role_with_permissions}

pub record KeepsRows {D A : Type 0} (rows : D → Uuid → Option Course) (d : D) (m : Action D A)
    : Type 0 where
  pub kept : (id : Uuid) → rows (m d).1 id ≡ rows d id

-- The writes of the role repository do not touch the courses.
pub record RolesApart {D : Type 0} (roles : RoleRepo D) (rows : D → Uuid → Option Course)
    : Type 0 where
  pub assigns :
      (row : UserRole) (ps : List String) (d : D) (id : Uuid)
      → rows (roles.assign_role_with_permissions row ps d).1 id ≡ rows d id
  pub adds :
      (r : Uuid) (ps : List String) (d : D) (id : Uuid)
      → rows (roles.add_permissions r ps d).1 id ≡ rows d id

module _ {D : Type 0} (rows : D → Uuid → Option Course) (d : D) where
  kept_after :
      {A B : Type 0} (x : Result A × D) (wrap : Error → Error) (b : B)
      → ((id : Uuid) → rows x.1 id ≡ rows d id)
      → (id : Uuid) → rows (continue (or_else x.0 wrap) (λ _. pure b) x.1).1 id ≡ rows d id
  unfolding pure
  kept_after (ok a, d') wrap b h = h
  kept_after (err e, d') wrap b h = h

  kept_lift :
      {A B : Type 0} (r : Result A) (m : Action D B)
      → KeepsRows rows d m
      → (id : Uuid) → rows (continue r (λ _. m) d).1 id ≡ rows d id
  kept_lift (ok a) m h = h.kept
  kept_lift (err e) m h = λ id. refl

  continue-kept :
      {A B : Type 0} (r : Result A) (f : A → Action D B)
      → ((a : A) → KeepsRows rows d (f a))
      → (id : Uuid) → rows (continue r f d).1 id ≡ rows d id
  continue-kept (ok a) f h = (h a).kept
  continue-kept (err e) f h = λ id. refl

  pub query-KeepsRows :
      {A B : Type 0} (q : D → Result A) (f : A → Action D B)
      → ((a : A) → KeepsRows rows d (f a))
      → KeepsRows rows d (query q >>= f)
  unfolding ◌>>=◌
  query-KeepsRows q f h = record { kept = continue-kept (q d) f h }

  pub lift_each-KeepsRows :
      {A B : Type 0} (r : Result A) (f : A → Action D B)
      → ((a : A) → KeepsRows rows d (f a))
      → KeepsRows rows d (lift r >>= f)
  unfolding ◌>>=◌
  lift_each-KeepsRows r f h = record { kept = continue-kept r f h }

  pub wrapping-KeepsRows :
      {A B : Type 0} (m : Action D A) (wrap : Error → Error) (b : B)
      → KeepsRows rows d m
      → KeepsRows rows d (wrapping m wrap >>= λ _. pure b)
  unfolding ◌>>=◌
  wrapping-KeepsRows m wrap b h = record { kept = kept_after (m d) wrap b h.kept }

  lift-KeepsRows :
      {A B : Type 0} (r : Result A) (m : Action D B)
      → KeepsRows rows d m
      → KeepsRows rows d (lift r >>= λ _. m)
  unfolding ◌>>=◌
  lift-KeepsRows r m h = record { kept = kept_lift r m h }

module _ {D : Type 0} (roles : RoleRepo D) (rows : D → Uuid → Option Course)
    (apart : RolesApart roles rows) where
  ensure_role-KeepsRows :
      (n u c : Uuid) (ps : List String) (d : D) (lookup : Result Uuid)
      → KeepsRows rows d (ensure_role roles n u c ps lookup)
  unfolding ◌>>=◌
  ensure_role-KeepsRows n u c ps d (ok r) = record {
    kept = kept_after rows d _ _ _ (apart.adds r ps d);
  }
  ensure_role-KeepsRows n u c ps d (err e) = elim (Bool-cases (is_record_not_found e)) [
    | inl h ↦ rw h (record { kept = kept_after rows d _ _ _ (apart.assigns _ ps d) })
    | inr h ↦ rw h (record { kept = λ id. refl })
  ]

  pub ensure_user_role_with_permissions-KeepsRows :
      (n u c : Uuid) (ps : List String) (d : D)
      → KeepsRows rows d (ensure_user_role_with_permissions roles n u c ps)
  unfolding ensure_user_role_with_permissions observe
  ensure_user_role_with_permissions-KeepsRows n u c ps d = lift-KeepsRows rows d _ _ (
      lift-KeepsRows rows d _ _ (record {
        kept = (ensure_role-KeepsRows n u c ps d (roles.get_role_id_by_user_and_course u c d)).kept;
      }))

Ended-kept :
    {D A : Type 0} (rows : D → Uuid → Option Course) (P : Course → Type 0) (d : D)
    (R : A → D → Type 0) (x : Result A × D)
    → Ended d R x
    → AllRows (course_table rows) P x.1
    → Ended d (λ _. AllRows (course_table rows) P) x
Ended-kept rows P d R (ok a, d') h all = all
Ended-kept rows P d R (err e, d') h all = h

-- A call that keeps the rows keeps what holds of all of them.
pub kept-All :
    {D A : Type 0} (rows : D → Uuid → Option Course) (P : Course → Type 0) (d : D) (m : Action D A)
    → KeepsRows rows d m
    → AllRows (course_table rows) P d
    → AllRows (course_table rows) P (m d).1
kept-All rows P d m k all id row h = all id row (sym (k.kept id) ∙ h)

pub kept-Ensures :
    {D A : Type 0} (rows : D → Uuid → Option Course) (P : Course → Type 0) (d : D)
    {R : A → D → Type 0} (m : Action D A)
    → Ensures d R m
    → KeepsRows rows d m
    → AllRows (course_table rows) P d
    → Ensures d (λ _. AllRows (course_table rows) P) m
kept-Ensures rows P d {R} m e k all = record {
  ended = Ended-kept rows P d R (m d) e.ended (kept-All rows P d m k all);
}
