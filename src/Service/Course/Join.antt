-- ===== src/Service/Course/Join.antt =====
-- `JoinCourse`: whom it lets in, what he gains, and when it panics.
use fcstask_backend.Errors.{forbidden}
use fcstask_backend.Errors.Action.{Result, err, ok}
use fcstask_backend.Errors.Ensures.{
  Ensures, lift_step, or_else-eq-ok, pure_step, query_step, refuse_if-eq-ok, same_ok,
}
use fcstask_backend.Errors.Outcomes.{if_ok, value_step}
use fcstask_backend.Metrics.Serves.{Serves, deferring-Serves}
use fcstask_backend.Metrics.World.{World}
use fcstask_backend.Model.{Course, UserRole, Uuid}
use fcstask_backend.Prelude.{
  Bool, Option, String, ap, false, if◌then◌else◌, inl, inr, none, refl, some, str_eq, subst, true,
  ◌∙◌, ◌≡◌, ◌⊎◌,
}
use fcstask_backend.Repo.Course.{CourseLaws, CourseRepo}
use fcstask_backend.Repo.Role.Interface.{RoleLaws, RoleRepo, RoleView}
use fcstask_backend.Service.Course.{
  CourseMetrics, Joined, admit, check_invite_code, enter, existing_course, inc_join, is_joined,
  join_course, join_course_body, join_outcome, panicked,
}
use fcstask_backend.Service.CourseInput.{course_type_public, is_finished_course, is_hidden_course}
use fcstask_backend.Service.Dates.{TimeFormat}
use fcstask_backend.Service.Permission.Decision.{Answers, allowed, has_scoped_permission-decides}
use fcstask_backend.Service.Permission.Effects.{Ensured, ensure_user_role_with_permissions-Ensured}
use fcstask_backend.Service.Permission.Names.{course_student_permissions, permission_course_read}

module _ {D : Type 0} (rows : D → Uuid → Option Course) (view : RoleView D) (d : D) (u : Uuid) where
  -- The course is stored, neither hidden nor finished, and the user could not read it before.
  pub record MayJoin (course : Course) : Type 0 where
    pub stored : rows d course.id ≡ some course
    pub not_hidden : is_hidden_course course ≡ false
    pub not_finished : is_finished_course course ≡ false
    pub new : allowed view d u course.id permission_course_read ≡ false

  -- After a join: the course is public or the code is its invite code, and the user's role there, kept
  -- or new, gains the student permissions; nothing else changes.
  pub record JoinedCourse (new_role_id : Uuid) (code : String) (d' : D) : Type 0 where
    pub course : Course
    pub may_join : MayJoin course
    pub invited :
        (str_eq course.type course_type_public ≡ true)
        ⊎ ((invite : String) × (course.invite_code ≡ some invite) × (str_eq invite code ≡ true))
    pub role : UserRole
    pub ensured : Ensured view d new_role_id u course.id course_student_permissions role d'

  -- A panic: the course is not public and has no invite code; nothing changes.
  pub record PanickedJoin (d' : D) : Type 0 where
    pub course : Course
    pub may_join : MayJoin course
    pub not_public : str_eq course.type course_type_public ≡ false
    pub no_code : course.invite_code ≡ none
    pub unchanged : d' ≡ d

  abbrev pub JoinEnds : Uuid → String → Joined → D → Type 0
  JoinEnds new_role_id code is_joined d' = JoinedCourse new_role_id code d'
  JoinEnds new_role_id code panicked d' = PanickedJoin d'

-- `admit` on each branch.
abbrev pub Admitted : Course → String → Joined → Type 0
Admitted course code is_joined =
    (str_eq course.type course_type_public ≡ true)
    ⊎ ((invite : String) × (course.invite_code ≡ some invite) × (str_eq invite code ≡ true))
Admitted course code panicked =
    (str_eq course.type course_type_public ≡ false) × (course.invite_code ≡ none)

checked_code :
    (o : Option String) (code : String) (j : Joined) (course : Course)
    → course.invite_code ≡ o
    → str_eq course.type course_type_public ≡ false
    → check_invite_code o code ≡ ok j
    → Admitted course code j
checked_code none code panicked course e t h = (t, e)
checked_code none code is_joined course e t h = cc
checked_code (some invite) code j course e t h =
    let (same_code, same) =
      if_ok (str_eq invite code) is_joined (forbidden "invalid invite code") h in
    subst (Admitted course code) same (inr (invite, e, same_code))

admit-Admitted :
    {D Group Info : Type 0} (times : TimeFormat) (courses : CourseRepo D Group Info)
    (roles : RoleRepo D) (course : Course) (code : String) (j : Joined)
    → admit times courses roles course code ≡ ok j
    → Admitted course code j
admit-Admitted times courses roles course code j h =
    go (str_eq course.type course_type_public) refl h
  where
    go :
        (b : Bool)
        → str_eq course.type course_type_public ≡ b
        → (if b then ok is_joined else check_invite_code course.invite_code code) ≡ ok j
        → Admitted course code j
    go true e h = subst (Admitted course code) (same_ok h) (inl e)
    go false e h = checked_code course.invite_code code j course refl e h

answered-false : (r : Result Bool) (b : Bool) → Answers r b → r ≡ ok false → b ≡ false
answered-false (ok x) b (inl f) h = absurd f
answered-false (ok x) b (inr e) h = cc
answered-false (err x) b a h = cc

pub existing_course-some :
    (o : Option Course) {course : Course} → existing_course o ≡ ok course → o ≡ some course
existing_course-some none h = cc
existing_course-some (some c) h = ap some (same_ok h)

module _ {D Group Info : Type 0} (times : TimeFormat) (courses : CourseRepo D Group Info)
    (roles : RoleRepo D) (rows : D → Uuid → Option Course) (view : RoleView D)
    (laws : RoleLaws roles view) (stored : CourseLaws courses rows view) where
  enter-Ends :
      (d : D) (n u : Uuid) (code : String) (course : Course) (j : Joined)
      → MayJoin rows view d u course
      → Admitted course code j
      → Ensures d (JoinEnds rows view d u n code) (enter times courses roles n u course.id j)
  enter-Ends d n u code course panicked m a =
      pure_step _ (record {
        course = course;
        may_join = m;
        not_public = a.0;
        no_code = a.1;
        unchanged = refl;
      })
  enter-Ends d n u code course is_joined m a =
      value_step _ _ _ (ensure_user_role_with_permissions-Ensured roles view laws n u course.id _ d)
        λ role d' e. record { course = course; may_join = m; invited = a; role = role; ensured = e }

  pub join_course_body-Ends :
      (d : D) (n u : Uuid) (text code : String)
      → Ensures d
          (JoinEnds rows view d u n code)
          (join_course_body times courses roles n u text code)
  unfolding join_course_body
  join_course_body-Ends d n u text code = query_step _ _ λ found_course read.
      lift_step _ _ λ course existing. lift_step _ _ λ _ shown. lift_step _ _ λ _ open_course.
        query_step _ _ λ already answer. lift_step _ _ λ _ outsider. lift_step _ _ λ j admitted.
          enter-Ends d n u code course j
            (record {
              stored =
                  stored.looks_up text d
                    (or_else-eq-ok _ _ read ∙ ap ok (existing_course-some _ existing));
              not_hidden = refuse_if-eq-ok _ _ shown;
              not_finished = refuse_if-eq-ok _ _ open_course;
              new =
                  answered-false _ _
                    (has_scoped_permission-decides roles view laws u course.id
                      permission_course_read d)
                    (or_else-eq-ok _ _ answer ∙ ap ok (refuse_if-eq-ok _ _ outsider));
            })
            (admit-Admitted times courses roles course code j admitted)

  -- `JoinCourse` fails and leaves the database as it was, or lets a user in who could not read the
  -- course, which is stored, neither hidden nor finished, and public or entered by its invite code:
  -- his role there, kept or new, gains exactly the student permissions. The one other end is a panic,
  -- with nothing changed, at a course that is not public and has no invite code. Every end is
  -- counted, a panic as a success.
  pub join_course-Serves :
      {M : Type 0} (metrics : Option (CourseMetrics M)) (w : World D M) (n u : Uuid)
      (text code : String)
      → Serves w
          (JoinEnds rows view w.db u n code)
          (λ r. inc_join metrics (join_outcome r))
          (join_course times courses roles metrics n u text code)
  unfolding join_course
  join_course-Serves metrics w n u text code =
      deferring-Serves w _ _ (join_course_body-Ends w.db n u text code)
