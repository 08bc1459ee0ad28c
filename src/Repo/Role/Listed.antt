-- ===== src/Repo/Role/Listed.antt =====
-- The rows that `Find` answers, in any order, as a reader of one role or one permission sees them.
use mathlib.Core.List.{Permᴰ}
use fcstask_backend.Model.{CourseAdminPermission, UserRole, Uuid}
use fcstask_backend.Prelude.{
  ==_iff, Bool, Bool-cases, List, String, [], and_true, any, any-filter, ap, arith, both_eq, false,
  filter, find?, inl, inr, none, refl, some, sym, true, ℕ, ◌&&◌, ◌==◌, ◌||◌, ◌∙◌, ◌∷◌, ◌≡◌,
}
use fcstask_backend.Repo.Role.Interface.{has_role, is_grant, is_role}
use fcstask_backend.Repo.Role.Rows.{role_in}
use fcstask_backend.Repo.Role.Tables.{IsUnique, of_user_in_course}

any-perm : {A : Type 0} (test : A → Bool) {xs ys : List A} → Permᴰ xs ys → any test xs ≡ any test ys
any-perm test Permᴰ.nil = refl
any-perm test (Permᴰ.cons {a} {b} {l₁} {l₂} e p) =
    ap (λ x. test x || any test l₁) e ∙ ap (λ z. test b || z) (any-perm test p)
any-perm test (Permᴰ.swap {a} {b} {a'} {b'} {l} e f) =
    swapped (test a) (test b) (any test l)
    ∙ ap (λ x. test x || (test a || any test l)) f
    ∙ ap (λ x. test a' || (test x || any test l)) e
  where
    swapped : (x y z : Bool) → (x || (y || z)) ≡ (y || (x || z))
    swapped x y z = ground arith
any-perm test (Permᴰ.trans p q) = any-perm test p ∙ any-perm test q

-- A user's row for a role is there just where the role is found for him.
any-role_in :
    (u c r : Uuid) (xs : List UserRole)
    → IsUnique xs
    → any (is_role u c r) xs ≡ has_role (role_in (find? (of_user_in_course u c) xs)) r
any-role_in u c r [] unique = refl
any-role_in u c r (x ∷ xs) unique = elim (Bool-cases (of_user_in_course u c x)) [
  | inr other ↦ rw other (any-role_in u c r xs unique.1)
  | inl here ↦
      let (eu, ec) = both_eq x.user_id u x.course_id c here in
      let none_left : find? (of_user_in_course u c) xs ≡ none =
        (λ i. find? (of_user_in_course (sym eu i) (sym ec i)) xs) ∙ unique.0 in
      rw here (
        alone (x.role_id == r) _
          (any-role_in u c r xs unique.1 ∙ ap (λ o. has_role (role_in o) r) none_left))
]
  where
    alone : (a b : Bool) → b ≡ false → (a || b) ≡ a
    alone a b h = ground arith

-- The rows of one course, in any order.
pub any-course_rows :
    (c : Uuid) (rows xs : List UserRole)
    → IsUnique xs
    → Permᴰ rows (filter (λ row. row.course_id == c) xs)
    → (u c' r : Uuid)
    → any (is_role u c' r) rows
      ≡ (c' == c && has_role (role_in (find? (of_user_in_course u c') xs)) r)
any-course_rows c rows xs unique p u c' r =
    any-perm (is_role u c' r) p
    ∙ any-filter (is_role u c' r) _ (c' == c) xs
        (λ x h. ap (λ (k : ℕ). k == c) (both_eq x.user_id u x.course_id c' (and_true _ _ h).0).1)
    ∙ swap (any (is_role u c' r) xs) (c' == c)
    ∙ ap (λ (b : Bool). c' == c && b) (any-role_in u c' r xs unique)
  where
    swap : (a b : Bool) → (a && b) ≡ (b && a)
    swap a b = ground arith

-- The permissions of one role, in any order.
pub any-role_permissions :
    (r : Uuid) (rows xs : List CourseAdminPermission)
    → Permᴰ rows (filter (λ row. row.role_id == r) xs)
    → (r' : Uuid) (p : String) → any (is_grant r' p) rows ≡ (r' == r && any (is_grant r' p) xs)
any-role_permissions r rows xs perm r' p =
    any-perm (is_grant r' p) perm
    ∙ any-filter (is_grant r' p) _ (r' == r) xs
        (λ x h. ap (λ (k : ℕ). k == r) ((==_iff x.role_id r').0 (and_true _ _ h).0))
    ∙ swap (any (is_grant r' p) xs) (r' == r)
  where
    swap : (a b : Bool) → (a && b) ≡ (b && a)
    swap a b = ground arith

-- The role that is found for a user of the course has a row there.
pub any-owned :
    (r u c : Uuid) (xs : List UserRole)
    → role_in (find? (of_user_in_course u c) xs) ≡ some r
    → any (λ row. row.role_id == r && row.course_id == c) xs ≡ true
any-owned r u c [] e = cc
any-owned r u c (x ∷ xs) e = elim (Bool-cases (of_user_in_course u c x)) [
  | inr other ↦ later (x.role_id == r && x.course_id == c) _ (any-owned r u c xs (rw other at e))
  | inl here ↦
      let (_, ec) = both_eq x.user_id u x.course_id c here in
      let gone = (==_iff x.role_id r).1 (same_role x.role_id r (rw here at e)) in
      rw (gone, (==_iff x.course_id c).1 ec) refl
]
  where
    later : (a b : Bool) → b ≡ true → (a || b) ≡ true
    later a b h = ground arith

    same_role : (a b : Uuid) → some a ≡ some b → a ≡ b
    same_role a b h = cc
