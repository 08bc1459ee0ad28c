-- ===== src/Service/Course/Joinable.antt =====
-- What keeps a course joinable: the rows that `CreateCourse` and `UpdateCourse` send.
-- A course that is not public has an invite code.
use fcstask_backend.Errors.Action.{ok}
use fcstask_backend.Model.{Course}
use fcstask_backend.Prelude.{
  Bool, Bool-cases, Option, String, arith, false, false≢true, inl, inr, none, not, refl, some,
  str_eq, subst, sym, true, ◌&&◌, ◌||◌, ◌∙◌, ◌≡◌,
}
use fcstask_backend.Repo.Course.{with_code}
use fcstask_backend.Service.CourseInput.{
  CourseInput, course_type_or_default, course_type_private, course_type_public,
  create_course_checks, created_course, invite_code_for_course, is_valid_course_type, or_generated,
  refuse_all-eq-ok, update_course_checks, updated_course, updated_invite_code,
  validate_create_course, validate_update_course,
}
use fcstask_backend.Service.Dates.{TimeFormat, is_some}

abbrev pub is_joinable : Course → Bool
is_joinable course = str_eq course.type course_type_public || is_some course.invite_code

abbrev pub IsJoinable : Course → Type 0
IsJoinable course = is_joinable course ≡ true

or_generated-some : (g : String) (o : Option String) → is_some (or_generated g o) ≡ true
or_generated-some g none = refl
or_generated-some g (some c) = refl

or_true : (b : Bool) → (b || true) ≡ true
or_true b = ground arith

private_code :
    (g : String) (o : Option String)
    → is_some (invite_code_for_course g course_type_private o) ≡ true
unfolding invite_code_for_course
private_code g o = or_generated-some g o

typed_code :
    (g : String) (t : String) (o : Option String)
    → (not (str_eq t "") && not (is_valid_course_type t)) ≡ false
    → (str_eq (course_type_or_default t) course_type_public
        || is_some (invite_code_for_course g (course_type_or_default t) o))
      ≡ true
unfolding invite_code_for_course
typed_code g t o h = elim (Bool-cases (str_eq t "")) [
  | inl e ↦ rw e (or_generated-some g o)
  | inr e ↦ rw e (elim (Bool-cases (str_eq t course_type_public)) [
    | inl p ↦ rw p refl
    | inr p ↦ elim (Bool-cases (str_eq t course_type_private)) [
      | inl q ↦ rw (p, q) (or_generated-some g o)
      | inr q ↦ absurd (false≢true (sym h ∙ invalid e p q))
    ]
  ])
]
  where
    invalid :
        str_eq t "" ≡ false
        → str_eq t course_type_public ≡ false
        → str_eq t course_type_private ≡ false
        → (not (str_eq t "") && not (is_valid_course_type t)) ≡ true
    invalid e p q = rw (e, p, q) refl

pub created_course-IsJoinable :
    (times : TimeFormat) (g : String) (input : CourseInput) {u : Unit {0}}
    → validate_create_course times input ≡ ok u
    → IsJoinable (created_course times g input)
unfolding validate_create_course created_course
created_course-IsJoinable times g input h =
    let passed = refuse_all-eq-ok (create_course_checks times input) h in
    typed_code g input.type input.invite_code passed.1.1.1.1.0

-- The new type is the old one, or was given and is valid.
updated_code :
    (g : String) (times : TimeFormat) (t : String) (input : CourseInput) (kept : Option String)
    → (str_eq t course_type_public || is_some kept) ≡ true
    → (str_eq t course_type_public || is_some (updated_invite_code times g t input kept)) ≡ true
unfolding updated_invite_code
updated_code g times t input kept was = elim (Bool-cases (str_eq t course_type_public)) [
  | inl p ↦ rw p refl
  | inr p ↦
      rw p
        (elim (Bool-cases (
          str_eq t course_type_private
          && (not (str_eq input.type "") || is_some input.invite_code))) [
            | inl q ↦ rw q (private_code g input.invite_code)
            | inr q ↦ rw q (sym (rw p refl) ∙ was)
          ])
]

new_type_code :
    (g : String) (times : TimeFormat) (input : CourseInput) (kept : Option String)
    → str_eq input.type "" ≡ false
    → (not (str_eq input.type "") && not (is_valid_course_type input.type)) ≡ false
    → (str_eq input.type course_type_public
        || is_some (updated_invite_code times g input.type input kept))
      ≡ true
unfolding updated_invite_code
new_type_code g times input kept e h = elim (Bool-cases (str_eq input.type course_type_public)) [
  | inl p ↦ rw p refl
  | inr p ↦ elim (Bool-cases (str_eq input.type course_type_private)) [
    | inl q ↦ rw (p, q, e) (private_code g input.invite_code)
    | inr q ↦ absurd (false≢true (sym h ∙ invalid p q))
  ]
]
  where
    invalid :
        str_eq input.type course_type_public ≡ false
        → str_eq input.type course_type_private ≡ false
        → (not (str_eq input.type "") && not (is_valid_course_type input.type)) ≡ true
    invalid p q = rw (e, p, q) refl

pub updated_course-IsJoinable :
    (times : TimeFormat) (g : String) (input : CourseInput) (course : Course) {u : Unit {0}}
    → validate_update_course times input ≡ ok u
    → IsJoinable course
    → IsJoinable (updated_course times g input course)
unfolding validate_update_course updated_course
updated_course-IsJoinable times g input course h was =
    let passed = refuse_all-eq-ok (update_course_checks times input) h in
    elim (Bool-cases (str_eq input.type "")) [
      | inl e ↦ rw e (updated_code g times course.type input course.invite_code was)
      | inr e ↦ rw e (new_type_code g times input course.invite_code e passed.1.0)
    ]

same_some : {a b : Course} → some a ≡ some b → a ≡ b
same_some e = cc

-- A course whose code was replaced is joinable.
pub coded :
    (g : String) (o : Option Course) (x : Course) → with_code (some g) o ≡ some x → IsJoinable x
coded g none x h = cc
coded g (some c) x h = subst IsJoinable (same_some h) (or_true (str_eq c.type course_type_public))

-- The slug does not matter.
pub stored-IsJoinable :
    (sent course : Course)
    → course ≡ record sent { slug = course.slug }
    → IsJoinable sent
    → (x : Course) → some course ≡ some x
    → IsJoinable x
stored-IsJoinable sent course e good x h =
    subst IsJoinable (same_some h) (subst IsJoinable (sym e) good)
