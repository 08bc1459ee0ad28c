-- ===== src/Repo/Course.antt =====
-- internal/db/repo/course.go: the interface that the course service calls. A course is looked up by
-- its id or its slug; `none` is Go's nil course. What a board's groups and a course's info hold is
-- left to the repository.
use fcstask_backend.Errors.Action.{Action, Result, Writes, ok}
use fcstask_backend.Errors.Ensures.{Ensures}
use fcstask_backend.Model.{Course, Uuid}
use fcstask_backend.Prelude.{List, Option, String, none, some, ◌≡◌}
use fcstask_backend.Prelude.Int.{ℤ}
use fcstask_backend.Repo.Leaderboard.{LeaderboardEntry}
use fcstask_backend.Repo.Role.Interface.{RoleView}
use fcstask_backend.Repo.Stored.{Inserted, Replaced, Table}

pub record TaskBoardSummary (Group : Type 0) : Type 0 where
  pub course_name : String
  pub course_status : String
  pub solved_score : ℤ
  pub max_score : ℤ
  pub solved_percent : ℤ
  pub groups : List Group

pub record CourseRepo (D Group Info : Type 0) : Type 0 where
  pub get_courses_by_user_id : Uuid → String → D → Result (List Course)
  pub get_public_courses : D → Result (List Course)
  pub get_course_by_id : String → D → Result (Option Course)
  pub create_course : Course → Action D Course
  pub update_course : String → Course → Action D Course
  pub get_course_board : String → Uuid → D → Result (Option (TaskBoardSummary Group))
  pub get_course_info : Uuid → D → Result (Option Info)
  pub get_leaderboard : String → D → Result (List LeaderboardEntry)
  pub update_invite_code : Uuid → Option String → Action D (Unit {0})

abbrev pub course_table : {D : Type 0} → (D → Uuid → Option Course) → Table D Course
course_table rows = record {
  row_of = rows;
  id_of = λ course. course.id;
  as_stored = λ sent stored. record sent { id = stored.id };
}

abbrev pub with_code : Option String → Option Course → Option Course
with_code code none = none
with_code code (some course) = some (record course { invite_code = code })

-- What the course service relies on. `UpdateCourse` gives a course without a slug the text that it
-- was looked up by.
pub record CourseLaws {D Group Info : Type 0} (repo : CourseRepo D Group Info)
    (rows : D → Uuid → Option Course) (view : RoleView D) : Type 0 where
  pub looks_up :
      (text : String) (d : D) {course : Course}
      → repo.get_course_by_id text d ≡ ok (some course)
      → rows d course.id ≡ some course
  pub creates :
      (course : Course) (d : D)
      → Ensures d (Inserted (course_table rows) view d course) (repo.create_course course)
  pub updates :
      (text : String) (course : Course) (d : D)
      → Ensures d
          (λ course' d'.
            Replaced (course_table rows) view d course.id (some course') d'
            × (course' ≡ record course { slug = course'.slug }))
          (repo.update_course text course)
  pub updates_code :
      (id : Uuid) (code : Option String) (d : D)
      → Writes d
          (Replaced (course_table rows) view d id (with_code code (rows d id)))
          (repo.update_invite_code id code)
