-- ===== src/Tests/Store.antt =====
-- The two tables of roles as lists: an instance of `RoleTables` that never fails.
use mathlib.Core.List.{Permᴰ}
use mathlib.Core.List.Permᴰ
use fcstask_backend.Errors.Action.{Result, err, ok}
use fcstask_backend.Model.{Course, CourseAdminPermission, Deadline, Homework, Task, UserRole, Uuid}
use fcstask_backend.Prelude.{
  Bool, Bool-cases, List, [], any, arith, both_eq, false, filter, find?, find?-filter_absent, inl,
  inr, length, ltb, none, not, refl, subst, suc, sym, true, ℕ, ◌∙◌, ◌∷◌, ◌≡◌,
}
use fcstask_backend.Repo.Role.Interface.{RoleLaws, RoleRepo, RoleView}
use fcstask_backend.Repo.Role.Laws.{role_repository-RoleLaws}
use fcstask_backend.Repo.Role.Reads.{role_view}
use fcstask_backend.Repo.Role.Repository.{role_repository}
use fcstask_backend.Repo.Role.Tables.{
  first_found, IsUnique, RoleContents, RoleTables, TableLaws, Transacted, insert_missing,
  of_user_in_course, upsert,
}
use fcstask_backend.Tests.Memory.{Memory}

find?-upsert_absent :
    (row : UserRole) (u c : Uuid) (xs : List UserRole)
    → of_user_in_course u c row ≡ false
    → find? (of_user_in_course u c) xs ≡ none
    → find? (of_user_in_course u c) (upsert row xs) ≡ none
unfolding upsert
find?-upsert_absent row u c [] ne h = rw ne
find?-upsert_absent row u c (x ∷ xs) ne h = ground (arith, find?-upsert_absent row u c xs ne)

pub upsert-IsUnique : (row : UserRole) (xs : List UserRole) → IsUnique xs → IsUnique (upsert row xs)
unfolding upsert
upsert-IsUnique row [] h = (refl, tt)
upsert-IsUnique row (x ∷ xs) h = elim (Bool-cases (of_user_in_course row.user_id row.course_id x)) [
  | inl same ↦
      let (eu, ec) = both_eq x.user_id row.user_id x.course_id row.course_id same in
      rw same ((λ i. find? (of_user_in_course (sym eu i) (sym ec i)) xs) ∙ h.0, h.1)
  | inr other ↦ rw other (
    find?-upsert_absent row x.user_id x.course_id xs (apart x row other) h.0,
    upsert-IsUnique row xs h.1,
  )
]
  where
    apart :
        (x row : UserRole)
        → of_user_in_course row.user_id row.course_id x ≡ false
        → of_user_in_course x.user_id x.course_id row ≡ false
    apart x row h = ground arith

pub filter-IsUnique :
    (keep : UserRole → Bool) (xs : List UserRole) → IsUnique xs → IsUnique (filter keep xs)
filter-IsUnique keep [] h = tt
filter-IsUnique keep (x ∷ xs) h = elim (Bool-cases (keep x)) [
  | inl e ↦ rw e (find?-filter_absent _ keep xs h.0, filter-IsUnique keep xs h.1)
  | inr e ↦ rw e (filter-IsUnique keep xs h.1)
]

abbrev pub homework_id : Homework → Uuid
homework_id hw = hw.hw_id

abbrev pub task_id_of : Task → Uuid
task_id_of task = task.task_id

abbrev pub deadline_id : Deadline → Uuid
deadline_id deadline = deadline.id

abbrev pub course_id : Course → Uuid
course_id course = course.id

pub record Store : Type 0 where
  pub roles : List UserRole
  pub unique : IsUnique roles
  pub perms : List CourseAdminPermission
  pub homeworks : Memory homework_id
  pub tasks : Memory task_id_of
  pub deadlines : Memory deadline_id
  pub courses : Memory course_id

abbrev pub roll_back : Store → Result (Unit {0}) × Store → Result (Unit {0}) × Store
roll_back d (ok u, d') = (ok u, d')
roll_back d (err e, d') = (err e, d)

abbrev pub store_tables : RoleTables Store
store_tables = record {
  transaction = λ m d. roll_back d (m d);
  upsert_role = λ row d. (
    ok tt,
    record d { roles = upsert row d.roles; unique = upsert-IsUnique row d.roles d.unique },
  );
  insert_permissions = λ rows d. (ok tt, record d { perms = insert_missing rows d.perms });
  delete_permissions =
      λ test d. (ok tt, record d { perms = filter (λ row. not (test row)) d.perms });
  delete_roles = λ test d. (
    ok tt,
    record d {
      roles = filter (λ row. not (test row)) d.roles;
      unique = filter-IsUnique (λ row. not (test row)) d.roles d.unique;
    },
  );
  find_roles = λ test d. ok (filter test d.roles);
  first_role = λ test d. first_found (find? test d.roles);
  count_roles = λ test d. ok (length (filter test d.roles));
  exists_permission = λ test d. ok (any test d.perms);
  find_permissions = λ test d. ok (filter test d.perms);
}

abbrev pub store_contents : RoleContents Store
store_contents = record { user_roles = λ d. d.roles; permissions = λ d. d.perms }

counted :
    (test : UserRole → Bool) (xs : List UserRole) → ltb 0 (length (filter test xs)) ≡ any test xs
counted test [] = refl
counted test (x ∷ xs) = elim (Bool-cases (test x)) [
  | inl e ↦ rw e (positive (length (filter test xs)))
  | inr e ↦ rw e (counted test xs)
]
  where
    positive : (n : ℕ) → ltb 0 (suc n) ≡ true
    positive n = ground arith

transacts : (d : Store) (x : Result (Unit {0}) × Store) → Transacted d x (roll_back d x)
transacts d (ok u, d') = refl
transacts d (err e, d') = refl

same_count :
    (xs : List UserRole) (test : UserRole → Bool) (n : ℕ)
    → ok (length (filter test xs)) ≡ ok n
    → ltb 0 n ≡ any test xs
same_count xs test n h = rw (← same h) (counted test xs)
  where
    same : {a b : ℕ} → ok a ≡ ok b → a ≡ b
    same e = cc

same_rows : {A : Type 0} {a b : List A} → ok a ≡ ok b → a ≡ b
same_rows e = cc

pub store-TableLaws : TableLaws store_tables store_contents
store-TableLaws = record {
  unique = λ d. d.unique;
  transact = λ m d. transacts d (m d);
  upserts = λ row d. record { written = (refl, refl) };
  inserts = λ rows d. record { written = (refl, refl) };
  deletes_permissions = λ test d. record { written = (refl, refl) };
  deletes_roles = λ test d. record { written = (refl, refl) };
  firsts = λ test d. inr refl;
  finds_roles =
      λ test d rows h. subst (λ x. Permᴰ x (filter test d.roles)) (same_rows h) (Permᴰ.refl _);
  finds_permissions =
      λ test d rows h. subst (λ x. Permᴰ x (filter test d.perms)) (same_rows h) (Permᴰ.refl _);
  counts = λ test d n h. same_count d.roles test n h;
  exists = λ test d. inr refl;
}

abbrev pub store_roles : RoleRepo Store
store_roles = role_repository store_tables

abbrev pub store_view : RoleView Store
store_view = role_view store_contents

pub store-RoleLaws : RoleLaws store_roles store_view
store-RoleLaws = role_repository-RoleLaws store_tables store_contents store-TableLaws
