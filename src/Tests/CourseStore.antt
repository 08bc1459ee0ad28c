-- ===== src/Tests/CourseStore.antt =====
-- The courses of the store, looked up by one slug.
use fcstask_backend.Errors.Action.{Action, ok, ◌>>=◌}
use fcstask_backend.Errors.Ensures.{same_ok}
use fcstask_backend.Model.{Course, UserRole, Uuid}
use fcstask_backend.Prelude.{
  Bool, List, Option, String, [], ap, false, if◌then◌else◌, none, refl, some, str_eq, sym, true,
  ◌∙◌, ◌∷◌, ◌≡◌,
}
use fcstask_backend.Repo.Course.{CourseLaws, CourseRepo, with_code}
use fcstask_backend.Repo.Role.Reads.{granted, role_of}
use fcstask_backend.Repo.Role.Repository.{add_permissions, assign_role_with_permissions}
use fcstask_backend.Service.Course.Keeps.{RolesApart}
use fcstask_backend.Tests.Memory.{Memory, insert_row, memory-RowLaws, named_some, put}
use fcstask_backend.Tests.Store.{Store, course_id, store_roles, store_view}

abbrev pub numbered_course : Uuid → Course → Course
numbered_course id course = record course { id = id }

abbrev pub set_courses : Memory course_id → Store → Store
set_courses m d = record d { courses = m }

abbrev pub course_rows : Store → Uuid → Option Course
course_rows d id = d.courses.rows id

abbrev pub save_course : String → Course → Action Store Course
save_course text course d = (
  ok course,
  set_courses (put (course_id course) (some course) (named_some course_id course) d.courses) d,
)

pub named_coded :
    (code : Option String) (d : Store) (id : Uuid) (x : Course)
    → with_code code (d.courses.rows id) ≡ some x
    → course_id x ≡ id
named_coded code d id x h = go (d.courses.rows id) refl h
  where
    go : (o : Option Course) → d.courses.rows id ≡ o → with_code code o ≡ some x → course_id x ≡ id
    go none e h = cc
    go (some c) e h = ap course_id (sym (same h)) ∙ d.courses.own id c e
      where
        same : {a b : Course} → some a ≡ some b → a ≡ b
        same e = cc

abbrev pub save_code : Uuid → Option String → Action Store (Unit {0})
save_code id code d = (
  ok tt,
  set_courses (put id (with_code code (d.courses.rows id)) (named_coded code d id) d.courses) d,
)

abbrev pub by_slug : String → Store → Option Course
by_slug text d = if str_eq text "algo" then d.courses.rows 7 else none

abbrev pub store_courses : CourseRepo Store (Unit {0}) (Unit {0})
store_courses = record {
  get_courses_by_user_id = λ u status d. ok [];
  get_public_courses = λ d. ok [];
  get_course_by_id = λ text d. ok (by_slug text d);
  create_course =
      insert_row course_id (λ d. d.courses) set_courses numbered_course (λ id course. refl);
  update_course = save_course;
  get_course_board = λ text u d. ok none;
  get_course_info = λ id d. ok none;
  get_leaderboard = λ text d. ok [];
  update_invite_code = save_code;
}

found_by_slug :
    (d : Store) (b : Bool) (course : Course)
    → (if b then d.courses.rows 7 else none) ≡ some course
    → d.courses.rows course.id ≡ some course
found_by_slug d true course h = ap d.courses.rows (d.courses.own 7 course h) ∙ h
found_by_slug d false course h = cc

pub store-CourseLaws : CourseLaws store_courses course_rows store_view
unfolding role_of granted
store-CourseLaws = record {
  looks_up = λ text d h. found_by_slug d (str_eq text "algo") _ (same_ok h);
  creates = λ course d.
      (memory-RowLaws course_id (λ d. d.courses) set_courses numbered_course (λ id x. refl)
          store_view (λ sent stored. record sent { id = stored.id }) (λ m d. refl)
          (λ m d. (λ u c. refl, λ r p. refl)) (λ id x. refl)).creates
        course d;
  updates = λ text course d. record {
    ended = (record { rows_after = λ id. refl; same_roles = (λ u c. refl, λ r p. refl) }, refl);
  };
  updates_code = λ id code d. record {
    written = record { rows_after = λ id'. refl; same_roles = (λ u c. refl, λ r p. refl) };
  };
}

assign-apart :
    (row : UserRole) (ps : List String) (d : Store) (id : Uuid)
    → course_rows (store_roles.assign_role_with_permissions row ps d).1 id ≡ course_rows d id
unfolding assign_role_with_permissions ◌>>=◌
assign-apart row [] d id = refl
assign-apart row (p ∷ ps) d id = refl

add-apart :
    (r : Uuid) (ps : List String) (d : Store) (id : Uuid)
    → course_rows (store_roles.add_permissions r ps d).1 id ≡ course_rows d id
unfolding add_permissions
add-apart r ps d id = refl

pub store-RolesApart : RolesApart store_roles course_rows
store-RolesApart = record { assigns = assign-apart; adds = add-apart }
