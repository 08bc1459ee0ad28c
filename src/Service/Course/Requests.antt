-- ===== src/Service/Course/Requests.antt =====
-- Requests to create, update and join courses and to renew invite codes: courses stay joinable, so
-- `JoinCourse` does not panic.
use fcstask_backend.Errors.Action.{Result, err, ok, pure}
use fcstask_backend.Errors.Ensures.{
  Ended, Ensures, bind-eq-ok, lift_step, or_else-eq-ok, query_step, weaken, write_step,
}
use fcstask_backend.Errors.Outcomes.{after, value_step}
use fcstask_backend.Errors.Settles.{
  Settles, after_settled, lift-Settles, query-Settles, two_writes-Settles,
}
use fcstask_backend.Model.{Course, Uuid}
use fcstask_backend.Prelude.{
  List, Option, String, [], ap, false, false≢true, none, refl, some, str_eq, subst, sym, ◌∙◌, ◌∷◌,
  ◌≡◌,
}
use fcstask_backend.Repo.Course.{CourseLaws, CourseRepo, course_table}
use fcstask_backend.Repo.Role.Interface.{RoleLaws, RoleRepo, RoleView}
use fcstask_backend.Repo.Stored.{AllRows, Inserted-All, Replaced-All}
use fcstask_backend.Service.Course.{
  Joined, create_course, enter, get_course, is_joined, join_course_body, panicked,
  regenerate_invite_code, show_course, update_course,
}
use fcstask_backend.Service.Course.Access.{may_see, show_course-shown, shown_same}
use fcstask_backend.Service.Course.Join.{JoinEnds, existing_course-some, join_course_body-Ends}
use fcstask_backend.Service.Course.Joinable.{
  IsJoinable, coded, created_course-IsJoinable, is_joinable, stored-IsJoinable,
  updated_course-IsJoinable,
}
use fcstask_backend.Service.Course.Keeps.{
  KeepsRows, RolesApart, ensure_user_role_with_permissions-KeepsRows, kept-All, kept-Ensures,
  lift_each-KeepsRows, query-KeepsRows, wrapping-KeepsRows,
}
use fcstask_backend.Service.CourseInput.{
  CourseInput, course_type_public, created_course, updated_course,
}
use fcstask_backend.Service.Dates.{TimeFormat}
use fcstask_backend.Service.Permission.Effects.{ensure_user_role_with_permissions-Ensured}
use fcstask_backend.Service.Permission.Names.{course_admin_permissions}

pub data CourseChange : Type 0 where
  create_it : (new_role_id : Uuid) (generated : String) (actor : Uuid) → CourseInput → CourseChange
  update_it : (generated : String) (actor : Uuid) (text : String) → CourseInput → CourseChange
  renew_code : (generated : String) (actor : Uuid) (text : String) → CourseChange
  join_it : (new_role_id actor : Uuid) (text code : String) → CourseChange

module _ {D Group Info : Type 0} (times : TimeFormat) (courses : CourseRepo D Group Info)
    (roles : RoleRepo D) where
  unfoldable pub handle_course : CourseChange → D → D
  handle_course (create_it n g actor input) d =
      (create_course times courses roles n g actor input d).1
  handle_course (update_it g actor text input) d =
      (update_course times courses roles g actor text input d).1
  handle_course (renew_code g actor text) d =
      (regenerate_invite_code times courses roles g actor text d).1
  handle_course (join_it n actor text code) d =
      (join_course_body times courses roles n actor text code d).1

  unfoldable pub serve_courses : List CourseChange → D → D
  serve_courses [] d = d
  serve_courses (q ∷ qs) d = serve_courses qs (handle_course q d)

  module _ (rows : D → Uuid → Option Course) (view : RoleView D) (laws : RoleLaws roles view)
      (stored : CourseLaws courses rows view) (apart : RolesApart roles rows) where
    abbrev AllJoinable : D → Type 0
    AllJoinable = AllRows (course_table rows) IsJoinable

    get_course-stored :
        (u : Uuid) (text : String) (d : D) {course : Course}
        → get_course times courses roles u text d ≡ ok course
        → rows d course.id ≡ some course
    unfolding get_course
    get_course-stored u text d {course} h =
        let (found_course, read, h1) = bind-eq-ok _ _ h in
        let (x, existing, shown) = bind-eq-ok _ _ h1 in
        subst (λ y. rows d y.id ≡ some y) (same_shown u x d shown)
          (stored.looks_up text d
            (or_else-eq-ok _ _ read ∙ ap ok (existing_course-some _ existing)))
      where
        same_shown :
            (u : Uuid) (x : Course) (d : D)
            → show_course times courses roles u x d ≡ ok course
            → x ≡ course
        same_shown u x d h =
            shown_same (may_see view d u x) x _
              (show_course-shown times courses roles view laws u x d) h

    regenerated :
        (g : String) (u : Uuid) (text : String) (d : D)
        → AllJoinable d
        → Ensures d (λ _. AllJoinable) (regenerate_invite_code times courses roles g u text)
    unfolding regenerate_invite_code
    regenerated g u text d all = lift_step _ _ λ _ _. query_step _ _ λ course read.
        query_step _ _ λ _ _. lift_step _ _ λ _ _.
          write_step _ _ _ (stored.updates_code course.id (some g) d) λ d' w.
            Replaced-All (course_table rows) IsJoinable d d' view course.id _
              (coded g (rows d course.id)) all w

    updated :
        (g : String) (u : Uuid) (text : String) (input : CourseInput) (d : D)
        → AllJoinable d
        → Ensures d (λ _. AllJoinable) (update_course times courses roles g u text input)
    unfolding update_course
    updated g u text input d all = query_step _ _ λ course read. query_step _ _ λ _ _.
        lift_step _ _ λ _ valid. lift_step _ _ λ _ _.
          let good =
            updated_course-IsJoinable times g input course valid
              (all course.id course (get_course-stored u text d read)) in
          weaken (stored.updates text (updated_course times g input course) d) λ course' d' w.
            Replaced-All (course_table rows) IsJoinable d d' view _ (some course')
              (stored-IsJoinable (updated_course times g input course) course' w.1 good) all w.0

    created :
        (n : Uuid) (g : String) (u : Uuid) (input : CourseInput) (d : D)
        → AllJoinable d
        → Settles d (λ _. AllJoinable) AllJoinable (create_course times courses roles n g u input)
    unfolding create_course
    created n g u input d all = query-Settles _ _ λ _ _. lift-Settles _ _ λ _ valid.
        query-Settles _ _ λ _ _. lift-Settles _ _ λ _ _.
          two_writes-Settles _ _ _
            (weaken (stored.creates (created_course times g input) d) λ course d' i.
              Inserted-All (course_table rows) IsJoinable d d' view _ course
                (subst IsJoinable (sym i.filled) (created_course-IsJoinable times g input valid))
                all i)
            (λ course d' now.
              value_step _ _ _
                (kept-Ensures rows IsJoinable d' _
                  (ensure_user_role_with_permissions-Ensured roles view laws n u course.id
                    course_admin_permissions d')
                  (ensure_user_role_with_permissions-KeepsRows roles rows apart n u course.id _ d')
                  now)
                λ _ d'' a. a)
            λ _ d' now. now

    entered-KeepsRows :
        (n u c : Uuid) (j : Joined) (d : D) → KeepsRows rows d (enter times courses roles n u c j)
    unfolding pure
    entered-KeepsRows n u c panicked d = record { kept = λ id. refl }
    entered-KeepsRows n u c is_joined d =
        wrapping-KeepsRows rows d _ _ _
          (ensure_user_role_with_permissions-KeepsRows roles rows apart n u c _ d)

    joined-KeepsRows :
        (n u : Uuid) (text code : String) (d : D)
        → KeepsRows rows d (join_course_body times courses roles n u text code)
    unfolding join_course_body
    joined-KeepsRows n u text code d = query-KeepsRows rows d _ _ λ _.
        lift_each-KeepsRows rows d _ _ λ course. lift_each-KeepsRows rows d _ _ λ _.
          lift_each-KeepsRows rows d _ _ λ _. query-KeepsRows rows d _ _ λ _.
            lift_each-KeepsRows rows d _ _
              λ _. lift_each-KeepsRows rows d _ _ λ j. entered-KeepsRows n u course.id j d

    handle_course-AllJoinable :
        (q : CourseChange) (d : D) → AllJoinable d → AllJoinable (handle_course q d)
    unfolding handle_course
    handle_course-AllJoinable (create_it n g actor input) d all =
        after_settled d AllJoinable _ (created n g actor input d all) all (λ _ d' h. h) (λ d' h. h)
    handle_course-AllJoinable (update_it g actor text input) d all =
        after d AllJoinable _ (updated g actor text input d all) all (λ _ d' h. h)
    handle_course-AllJoinable (renew_code g actor text) d all =
        after d AllJoinable _ (regenerated g actor text d all) all (λ _ d' h. h)
    handle_course-AllJoinable (join_it n actor text code) d all =
        kept-All rows IsJoinable d _ (joined-KeepsRows n actor text code d) all

    pub serve_courses-AllJoinable :
        (qs : List CourseChange) (d : D) → AllJoinable d → AllJoinable (serve_courses qs d)
    unfolding serve_courses
    serve_courses-AllJoinable [] d all = all
    serve_courses-AllJoinable (q ∷ qs) d all =
        serve_courses-AllJoinable qs (handle_course q d) (handle_course-AllJoinable q d all)

    no_panic :
        (d : D) (n u : Uuid) (code : String) (x : Result Joined × D)
        → AllJoinable d
        → Ended d (JoinEnds rows view d u n code) x
        → (x.0 ≡ ok panicked → ⊥)
    no_panic d n u code (ok is_joined, d') all h e = cc
    no_panic d n u code (err x, d') all h e = cc
    no_panic d n u code (ok panicked, d') all h e =
        false≢true
          (sym (unjoinable h.course h.not_public h.no_code) ∙ all _ h.course h.may_join.stored)
      where
        unjoinable :
            (c : Course)
            → str_eq c.type course_type_public ≡ false
            → c.invite_code ≡ none
            → is_joinable c ≡ false
        unjoinable c t i = rw (t, i) refl

    -- Where every stored course that is not public has an invite code, then after any sequence of
    -- requests that create, update and join courses and renew invite codes, whoever makes them and
    -- whether they succeed or fail, it is still so, and no call of `JoinCourse` panics.
    pub join_course_body-never_panics :
        (qs : List CourseChange) (d : D)
        → AllRows (course_table rows) IsJoinable d
        → AllRows (course_table rows) IsJoinable (serve_courses qs d)
          × ((n u : Uuid) (text code : String)
              → ¬ (
                  (join_course_body times courses roles n u text code (serve_courses qs d)).0
                  ≡ ok panicked))
    join_course_body-never_panics qs d all =
        let now = serve_courses-AllJoinable qs d all in
        (
          now,
          λ n u text code. no_panic (serve_courses qs d) n u code _ now (
              (join_course_body-Ends times courses roles rows view laws stored (serve_courses qs d)
                n u text code).ended),
        )
