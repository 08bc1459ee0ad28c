-- ===== src/Service/Course/Access.antt =====
-- Who is shown a course by `GetCourse`.
-- A user may see a hidden course with the permission to read hidden ones, any public course, and any
-- other with the permission to read the course.
use fcstask_backend.Errors.{Error, forbidden, internal, not_found}
use fcstask_backend.Errors.Action.{Result, bind, err, ok, or_else}
use fcstask_backend.Errors.Ensures.{same_ok}
use fcstask_backend.Model.{Course, Uuid}
use fcstask_backend.Prelude.{
  Bool, Bool-cases, String, ap, false, if◌then◌else◌, inl, inr, refl, some, str_eq, sym, true, ◌||◌,
  ◌∙◌, ◌≡◌, ◌⊎◌,
}
use fcstask_backend.Repo.Course.{CourseRepo}
use fcstask_backend.Repo.Role.Interface.{RoleLaws, RoleRepo, RoleView}
use fcstask_backend.Service.Course.{get_course, show_course}
use fcstask_backend.Service.CourseInput.{course_type_public, is_hidden_course}
use fcstask_backend.Service.Dates.{TimeFormat}
use fcstask_backend.Service.Permission.Check.{require, require_scoped_permission}
use fcstask_backend.Service.Permission.Decision.{Answers, allowed, has_scoped_permission-decides}
use fcstask_backend.Service.Permission.Names.{permission_course_hidden_read, permission_course_read}

unfoldable pub may_see : {D : Type 0} → RoleView D → D → Uuid → Course → Bool
may_see view d u course =
    if is_hidden_course course
    then allowed view d u course.id permission_course_hidden_read
    else str_eq course.type course_type_public || allowed view d u course.id permission_course_read

-- What is answered to a user who may not see the course.
unfoldable pub refusal : Course → Error
refusal course =
    if is_hidden_course course
    then not_found "course not found"
    else forbidden "You don't have permission to access this resource"

refused_hidden :
    (course : Course)
    → is_hidden_course course ≡ true
    → refusal course ≡ not_found "course not found"
unfolding refusal
refused_hidden course e = rw e refl

refused_other :
    (course : Course)
    → is_hidden_course course ≡ false
    → refusal course ≡ forbidden "You don't have permission to access this resource"
unfolding refusal
refused_other course e = rw e refl

-- The permissions could not be read, or the course is shown to those who may see it.
abbrev pub ShownTo : Bool → Course → Result Course → Type 0
ShownTo visible course r =
    ((e : Error) × (r ≡ err (internal "Failed to check permissions" e)))
    ⊎ (r ≡ (if visible then ok course else err (refusal course)))

hidden_course-shown :
    (course : Course) (r : Result Bool) (b : Bool)
    → Answers r b
    → refusal course ≡ not_found "course not found"
    → ShownTo b course (
        bind
          (or_else r (internal "Failed to check permissions"))
          (λ is_allowed. if is_allowed then ok course else err (not_found "course not found")))
hidden_course-shown course (ok x) b (inl f) e = absurd f
hidden_course-shown course (err x) b (inl f) e = inl (x, refl)
hidden_course-shown course (ok x) b (inr h) e = inr (answered x b (same_ok h))
  where
    answered :
        (x b : Bool)
        → x ≡ b
        → (if x then ok course else err (not_found "course not found"))
          ≡ (if b then ok course else err (refusal course))
    answered true true h = refl
    answered false false h = ap err (sym e)
    answered true false h = cc
    answered false true h = cc
hidden_course-shown course (err x) b (inr h) e = cc

private_course-shown :
    (course : Course) (r : Result Bool) (b : Bool)
    → Answers r b
    → refusal course ≡ forbidden "You don't have permission to access this resource"
    → ShownTo b course (bind (require r) λ _. ok course)
private_course-shown course (ok x) b (inl f) e = absurd f
private_course-shown course (err x) b (inl f) e = inl (x, refl)
private_course-shown course (ok x) b (inr h) e = inr (answered x b (same_ok h))
  where
    answered :
        (x b : Bool)
        → x ≡ b
        → bind (require (ok x)) (λ _. ok course) ≡ (if b then ok course else err (refusal course))
    answered true true h = refl
    answered false false h = ap err (sym e)
    answered true false h = cc
    answered false true h = cc
private_course-shown course (err x) b (inr h) e = cc

module _ {D Group Info : Type 0} (times : TimeFormat) (courses : CourseRepo D Group Info)
    (roles : RoleRepo D) (view : RoleView D) (laws : RoleLaws roles view) where
  pub show_course-shown :
      (u : Uuid) (course : Course) (d : D)
      → ShownTo (may_see view d u course) course (show_course times courses roles u course d)
  unfolding show_course may_see require_scoped_permission
  show_course-shown u course d = elim (Bool-cases (is_hidden_course course)) [
    | inl e ↦ rw e (
        hidden_course-shown course _ _
          (has_scoped_permission-decides roles view laws u course.id permission_course_hidden_read
            d)
          (refused_hidden course e))
    | inr e ↦ rw e (elim (Bool-cases (str_eq course.type course_type_public)) [
      | inl t ↦ rw t (inr refl)
      | inr t ↦ rw t (
          private_course-shown course _ _
            (has_scoped_permission-decides roles view laws u course.id permission_course_read d)
            (refused_other course e))
    ])
  ]

  -- Where the repository finds a course, GetCourse fails to read permissions, or returns the course to
  -- exactly those who may see it. The others are told that there is no such course when it is hidden,
  -- just as if there were none, and that they have no permission when it is not.
  pub get_course-ShownTo :
      (u : Uuid) (text : String) (d : D) (course : Course)
      → courses.get_course_by_id text d ≡ ok (some course)
      → ShownTo (may_see view d u course) course (get_course times courses roles u text d)
  unfolding get_course
  get_course-ShownTo u text d course h = rw h (show_course-shown u course d)

-- What is shown is the course itself.
pub shown_same :
    (b : Bool) (x : Course) (r : Result Course) {course : Course}
    → ShownTo b x r
    → r ≡ ok course
    → x ≡ course
shown_same true x r (inr e) h = same_ok (sym e ∙ h)
shown_same false x r (inr e) h = absurd (refused (sym e ∙ h))
  where
    refused : {e : Error} {c : Course} → err e ≡ ok c → ⊥
    refused h = cc
shown_same b x r (inl f) h = absurd (refused (sym f.1 ∙ h))
  where
    refused : {e : Error} {c : Course} → err e ≡ ok c → ⊥
    refused h = cc
