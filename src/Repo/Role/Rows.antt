-- ===== src/Repo/Role/Rows.antt =====
-- The statements' effects on the rows, as a reader of one role or one permission sees them.
use fcstask_backend.Model.{CourseAdminPermission, UserRole, Uuid}
use fcstask_backend.Prelude.{
  ==_iff, Bool, Bool-cases, List, Option, String, [], and_true, any, any-append, any-filter, ap,
  arith, both_eq, contains, eq_iff, eq_self, false, false≢true, filter, find?, find?-filter,
  find?-filter_absent, if◌then◌else◌, inl, inr, none, not, refl, some, str_eq, sym, true, ℕ, ◌&&◌,
  ◌++◌, ◌==◌, ◌||◌, ◌∙◌, ◌∷◌, ◌≡◌,
}
use fcstask_backend.Repo.Role.Interface.{is_grant}
use fcstask_backend.Repo.Role.Repository.{permission_rows}
use fcstask_backend.Repo.Role.Tables.{IsUnique, insert_missing, of_user_in_course, upsert}

abbrev pub role_in : Option UserRole → Option Uuid
role_in none = none
role_in (some row) = some row.role_id

pub role_in-upsert :
    (row : UserRole) (u c : Uuid) (xs : List UserRole)
    → role_in (find? (of_user_in_course u c) (upsert row xs)) ≡ (
        if u == row.user_id && c == row.course_id
        then some row.role_id
        else role_in (find? (of_user_in_course u c) xs))
unfolding upsert
role_in-upsert row u c [] = ground arith
role_in-upsert row u c (x ∷ xs) = ground (arith, role_in-upsert row u c xs)

any_same :
    (r r₀ : Uuid) (p p₀ : String) (table : List CourseAdminPermission)
    → (r == r₀ && str_eq p₀ p) ≡ true
    → any (is_grant r p) table ≡ any (is_grant r₀ p₀) table
any_same r r₀ p p₀ table h =
    let (same_role, same_name) = and_true _ _ h in
    let role : r ≡ r₀ = (==_iff r r₀).0 same_role in
    let name : p₀ ≡ p = (eq_iff p₀ p).0 same_name in λ i. any (is_grant (role i) (sym name i)) table

-- One row that is inserted if it is missing.
any-insert :
    (r r₀ : Uuid) (p p₀ : String) (table : List CourseAdminPermission)
    → any (is_grant r p) (
        if any (is_grant r₀ p₀) table
        then table
        else table ++ record { role_id = r₀; permission = p₀ } ∷ [])
      ≡ (any (is_grant r p) table || (r == r₀ && str_eq p₀ p))
any-insert r r₀ p p₀ table = elim (Bool-cases (any (is_grant r₀ p₀) table)) [
  | inr missing ↦ rw missing (
      any-append (is_grant r p) table _
      ∙ ap (λ (b : Bool). any (is_grant r p) table || b) (single r r₀ (str_eq p₀ p)))
  | inl present ↦ rw present (known _ _ λ h. any_same r r₀ p p₀ table h ∙ present)
]
  where
    single : (x y : ℕ) (b : Bool) → ((y == x && b) || false) ≡ (x == y && b)
    single x y b = ground arith

    known : (a b : Bool) → (b ≡ true → a ≡ true) → a ≡ (a || b)
    known true b h = refl
    known false true h = h refl
    known false false h = refl

pub any-insert_missing :
    (r r₀ : Uuid) (p : String) (ps : List String) (table : List CourseAdminPermission)
    → any (is_grant r p) (insert_missing (permission_rows r₀ ps) table)
      ≡ (any (is_grant r p) table || (r == r₀ && contains ps p))
unfolding insert_missing
any-insert_missing r r₀ p [] table = ground arith
any-insert_missing r r₀ p (p₀ ∷ ps) table =
    any-insert_missing r r₀ p ps _
    ∙ ap (λ (b : Bool). b || (r == r₀ && contains ps p)) (any-insert r r₀ p p₀ table)
    ∙ regroup (any (is_grant r p) table) (r == r₀) (str_eq p₀ p) (contains ps p)
  where
    regroup : (a b x y : Bool) → ((a || (b && x)) || (b && y)) ≡ (a || (b && (x || y)))
    regroup a b x y = ground arith

-- Deleting the permissions of a role.
pub any-delete_role :
    (r r' : Uuid) (p : String) (table : List CourseAdminPermission)
    → any (is_grant r' p) (filter (λ row. not (row.role_id == r)) table)
      ≡ (not (r' == r) && any (is_grant r' p) table)
any-delete_role r r' p table =
    any-filter (is_grant r' p) _ (not (r' == r)) table (λ x h. same_test _ (and_true _ _ h).0)
    ∙ swap (any (is_grant r' p) table) (not (r' == r))
  where
    same_test : (y : ℕ) → (y == r') ≡ true → not (y == r) ≡ not (r' == r)
    same_test y e = ap (λ (k : ℕ). not (k == r)) ((==_iff y r').0 e)

    swap : (a b : Bool) → (a && b) ≡ (b && a)
    swap a b = ground arith

pub any-delete_listed :
    (r r' : Uuid) (p : String) (ps : List String) (table : List CourseAdminPermission)
    → any
        (is_grant r' p)
        (filter (λ row. not (row.role_id == r && contains ps row.permission)) table)
      ≡ (any (is_grant r' p) table && not (r' == r && contains ps p))
any-delete_listed r r' p ps table =
    any-filter (is_grant r' p) _ (not (r' == r && contains ps p)) table λ x h.
      let (same_role, same_name) = and_true _ _ h in
      let role : x.role_id ≡ r' = (==_iff x.role_id r').0 same_role in
      let name : x.permission ≡ p = (eq_iff x.permission p).0 same_name in
      λ i. not (role i == r && contains ps (name i))

same_some : (a b : Uuid) → some a ≡ some b → a ≡ b
same_some a b h = cc

deleted_role :
    (u c r : Uuid) (xs : List UserRole)
    → role_in (find? (of_user_in_course u c) xs) ≡ some r
    → IsUnique xs
    → find?
        (of_user_in_course u c)
        (filter (λ row. not (of_user_in_course u c row && row.role_id == r)) xs)
      ≡ none
deleted_role u c r [] e unique = cc
deleted_role u c r (x ∷ xs) e unique = elim (Bool-cases (of_user_in_course u c x)) [
  | inr other ↦ rw other (rw other (deleted_role u c r xs (rw other at e) unique.1))
  | inl here ↦
      let (eu, ec) = both_eq x.user_id u x.course_id c here in
      let gone : (x.role_id == r) ≡ true =
        (==_iff x.role_id r).1 (same_some x.role_id r (rw here at e)) in
      let none_left : find? (of_user_in_course u c) xs ≡ none =
        (λ i. find? (of_user_in_course (sym eu i) (sym ec i)) xs) ∙ unique.0 in
      rw (here, gone) (find?-filter_absent (of_user_in_course u c) _ xs none_left)
]

pub role_in-delete :
    (u c r u' c' : Uuid) (xs : List UserRole)
    → role_in (find? (of_user_in_course u c) xs) ≡ some r
    → IsUnique xs
    → role_in (
        find?
          (of_user_in_course u' c')
          (filter (λ row. not (of_user_in_course u c row && row.role_id == r)) xs))
      ≡ (if u' == u && c' == c then none else role_in (find? (of_user_in_course u' c') xs))
role_in-delete u c r u' c' xs e unique = elim (Bool-cases (u' == u && c' == c)) [
  | inl same ↦
      let (eu, ec) = both_eq u' u c' c same in
      let kept =
        filter (λ (row : UserRole). not (of_user_in_course u c row && row.role_id == r)) xs in
      rw same (
        (λ i. role_in (find? (of_user_in_course (eu i) (ec i)) kept))
        ∙ ap role_in (deleted_role u c r xs e unique))
  | inr other ↦
      rw other (ap role_in (find?-filter (of_user_in_course u' c') _ xs λ x h. ground arith))
]

-- A row that is found behind another one has another key.
behind :
    (r u c : Uuid) (x : UserRole) (xs : List UserRole)
    → find? (of_user_in_course x.user_id x.course_id) xs ≡ none
    → role_in (find? (of_user_in_course u c) xs) ≡ some r
    → role_in (find? (of_user_in_course u c) (x ∷ xs)) ≡ some r
behind r u c x xs first later = elim (Bool-cases (of_user_in_course u c x)) [
  | inr other ↦ rw other later
  | inl here ↦
      let (eu, ec) = both_eq x.user_id u x.course_id c here in
      let absent : role_in (find? (of_user_in_course u c) xs) ≡ none =
        (λ i. role_in (find? (of_user_in_course (sym eu i) (sym ec i)) xs)) ∙ ap role_in first in
      cc (absent, later)
]

pub owner_of :
    (r c : Uuid) (xs : List UserRole)
    → IsUnique xs
    → any (λ row. row.role_id == r && row.course_id == c) xs ≡ true
    → (u : Uuid) × (role_in (find? (of_user_in_course u c) xs) ≡ some r)
owner_of r c [] unique h = absurd (false≢true h)
owner_of r c (x ∷ xs) unique h = elim (Bool-cases (x.role_id == r && x.course_id == c)) [
  | inl here ↦
      let (er, ec) = both_eq x.role_id r x.course_id c here in
      (x.user_id, rw (eq_self x.user_id, (==_iff x.course_id c).1 ec) (ap some er))
  | inr there ↦
      let (u, found_later) = owner_of r c xs unique.1 (rw there at h) in
      (u, behind r u c x xs unique.0 found_later)
]
