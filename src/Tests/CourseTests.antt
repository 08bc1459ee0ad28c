-- ===== src/Tests/CourseTests.antt =====
-- Courses over the store, pages and leaderboards at concrete inputs.
use fcstask_backend.Repo.Role.Repository
use fcstask_backend.Errors.{conflict}
use fcstask_backend.Errors.Action.{ok, ◌>>=◌}
use fcstask_backend.Handler.ErrorAnswer.{
  ErrorAnswer, StatusOf, code_of, message_of, service_error, service_error-StatusOf,
}
use fcstask_backend.Metrics.Serves.{Serves}
use fcstask_backend.Metrics.World.{World}
use fcstask_backend.Model.{Course, Uuid}
use fcstask_backend.Prelude.{
  Bool-cases, List, String, [], inl, inr, none, refl, some, subst, sym, ◌==◌, ◌∙◌, ◌∷◌, ◌≡◌,
}
use fcstask_backend.Prelude.Int.{pos}
use fcstask_backend.Repo.Course.{course_table}
use fcstask_backend.Repo.Role.Repository.{
  assign_role_with_permissions, get_role_id_by_user_and_course,
}
use fcstask_backend.Repo.Stored.{AllRows}
use fcstask_backend.Service.Course.{
  CourseMetrics, get_course, inc_join, is_joined, join_course, join_course_body, join_outcome,
  panicked,
}
use fcstask_backend.Service.Course.Access.{ShownTo, get_course-ShownTo, may_see}
use fcstask_backend.Service.Course.Join.{JoinEnds, join_course-Serves}
use fcstask_backend.Service.Course.Joinable.{IsJoinable}
use fcstask_backend.Service.Course.Requests.{
  CourseChange, join_course_body-never_panics, join_it, renew_code, serve_courses, update_it,
}
use fcstask_backend.Service.CourseInput.{CourseInput}
use fcstask_backend.Service.Dates.{TimeFormat}
use fcstask_backend.Service.Pagination.{parse_pagination}
use fcstask_backend.Service.Permission.Check.{
  has_permission, has_scoped_permission, has_super_admin,
}
use fcstask_backend.Service.Permission.Grant.{ensure_user_role_with_permissions}
use fcstask_backend.Tests.CourseStore.{
  course_rows, store-CourseLaws, store-RolesApart, store_courses,
}
use fcstask_backend.Tests.School.{first_course, school}
use fcstask_backend.Tests.Store.{Store, store-RoleLaws, store_roles, store_view}

abbrev no_days : TimeFormat
no_days = record { parse = λ layout text. none; format = λ layout t. "" }

abbrev joins : CourseMetrics (List String)
joins = record { inc = λ outcome m. outcome ∷ m }

abbrev open_world : World Store (List String)
open_world = record { db = school; metrics = [] }

-- A stranger with the code joins, and one without it does not.
let_in :
    (join_course no_days store_courses store_roles (some joins) 77 5 "algo" "c0de" open_world).0
    ≡ ok is_joined
unfolding join_course join_course_body join_outcome ensure_user_role_with_permissions
    has_scoped_permission has_permission has_super_admin ◌>>=◌ get_role_id_by_user_and_course
    Repository.has_permission assign_role_with_permissions
let_in = refl

kept_out :
    (join_course no_days store_courses store_roles (some joins) 77 5 "algo" "guess" open_world).1
    ≡ record { db = school; metrics = "forbidden" ∷ [] }
unfolding join_course join_course_body join_outcome ensure_user_role_with_permissions
    has_scoped_permission has_permission has_super_admin ◌>>=◌ get_role_id_by_user_and_course
    Repository.has_permission assign_role_with_permissions
kept_out = refl

get_course-ShownTo_example :
    ShownTo
      (may_see store_view school 2 first_course)
      first_course
      (get_course no_days store_courses store_roles 2 "algo" school)
get_course-ShownTo_example =
    get_course-ShownTo no_days store_courses store_roles store_view store-RoleLaws 2 "algo" school
      first_course refl

join_course-Serves_example :
    Serves open_world
      (JoinEnds course_rows store_view school 5 77 "c0de")
      (λ r. inc_join (some joins) (join_outcome r))
      (join_course no_days store_courses store_roles (some joins) 77 5 "algo" "c0de")
join_course-Serves_example =
    join_course-Serves no_days store_courses store_roles course_rows store_view store-RoleLaws
      store-CourseLaws (some joins) open_world 77 5 "algo" "c0de"

abbrev to_private : CourseInput
to_private = record {
  name = "";
  slug = "";
  status = "";
  type = "private";
  invite_code = none;
  start_date = "";
  end_date = "";
  repo_template = "";
  description = "";
}

same_course : {a b : Course} → some a ≡ some b → a ≡ b
same_course e = cc

school-IsJoinable : AllRows (course_table course_rows) IsJoinable school
school-IsJoinable id course h = elim (Bool-cases (id == 7)) [
  | inl e ↦ subst IsJoinable (same_course {a = first_course} (sym (rw e refl) ∙ h)) refl
  | inr e ↦ absurd (no_row (sym (rw e refl) ∙ h))
]
  where
    no_row : none ≡ some course → ⊥
    no_row x = cc

abbrev changes : List CourseChange
changes =
    update_it "fresh" 1 "algo" to_private
    ∷ renew_code "newer" 1 "algo"
    ∷ join_it 78 6 "algo" "newer"
    ∷ []

join_course_body-never_panics_example :
    AllRows
      (course_table course_rows)
      IsJoinable
      (serve_courses no_days store_courses store_roles changes school)
    × ((n u : Uuid) (text code : String)
        → ¬ (
            (join_course_body no_days store_courses store_roles n u text code
              (serve_courses no_days store_courses store_roles changes school)).0
            ≡ ok panicked))
join_course_body-never_panics_example =
    join_course_body-never_panics no_days store_courses store_roles course_rows store_view
      store-RoleLaws store-CourseLaws store-RolesApart changes school school-IsJoinable

third_page : parse_pagination (pos 0) (pos 40) ≡ ok (pos 20, pos 40)
unfolding parse_pagination
third_page = refl

service_error-StatusOf_example :
    (a : ErrorAnswer) × (service_error (some (conflict "already a participant")) ≡ some a)
    × (a.message ≡ message_of (conflict "already a participant"))
    × StatusOf (code_of (conflict "already a participant")) a.status
service_error-StatusOf_example = service_error-StatusOf (conflict "already a participant")
