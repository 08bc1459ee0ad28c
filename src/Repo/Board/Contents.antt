-- ===== src/Repo/Board/Contents.antt =====
-- The contents of a course that GetCourseInfo returns.
use fcstask_backend.Errors.{is_record_not_found}
use fcstask_backend.Errors.Ensures.{bind-eq-ok}
use fcstask_backend.Errors.Action.{Result, bind, err, ok}
use fcstask_backend.Model.{Course, Deadline, Homework, Task, Uuid}
use fcstask_backend.Prelude.{
  Bool, List, Option, String, [], ap, filter, false, fun_ext, if◌then◌else◌, map, none, refl, some,
  subst, true, ◌==◌, ◌≡◌,
}
use fcstask_backend.Repo.Board.{
  BoardQueries, CourseInfo, HomeworkWithTasks, get_course_info, info_of_course, tasks_of_homeworks,
  unless_missing, with_contents,
}
use fcstask_backend.Repo.Grouped.{group_rows-filter}

-- A homework with its own tasks and deadlines, in the order of the rows.
abbrev pub own_contents : List Task → List Deadline → Homework → HomeworkWithTasks
own_contents tasks deadlines hw = record {
  homework = hw;
  tasks = filter (λ t. t.hw_id == hw.hw_id) tasks;
  deadlines = filter (λ dl. dl.homework_id == hw.hw_id) deadlines;
}

with_contents-own :
    (tasks : List Task) (deadlines : List Deadline) (hw : Homework)
    → with_contents tasks deadlines hw ≡ own_contents tasks deadlines hw
with_contents-own tasks deadlines hw =
    let t = group_rows-filter (λ t. t.hw_id) (λ t. true) tasks (λ id. []) hw.hw_id in
    let l = group_rows-filter (λ dl. dl.homework_id) (λ dl. true) deadlines (λ id. []) hw.hw_id in
    cc

module _ {D : Type 0} (queries : BoardQueries D) (parse_uuid : String → Option Uuid) where
  abbrev pub Contents : Uuid → D → CourseInfo → Type 0
  Contents id d info =
      (hws : List Homework) × (tasks : List Task) × (deadlines : List Deadline)
      × (queries.course_by_id id d ≡ ok info.course)
      × (queries.homeworks_by_age id d ≡ ok hws)
      × (tasks_of_homeworks queries parse_uuid hws d ≡ ok tasks)
      × (queries.course_deadlines id d ≡ ok deadlines)
      × (info.homeworks ≡ map (own_contents tasks deadlines) hws)

  of_course :
      (id : Uuid) (d : D) (course : Course) (info : CourseInfo)
      → queries.course_by_id id d ≡ ok course
      → info_of_course queries parse_uuid id d (some course) ≡ ok (some info)
      → Contents id d info
  of_course id d course info f h =
      let (hws, g, h1) = bind-eq-ok (queries.homeworks_by_age id d) _ h in
      let (tasks, t, h2) = bind-eq-ok (tasks_of_homeworks queries parse_uuid hws d) _ h1 in
      let (deadlines, l, h3) = bind-eq-ok (queries.course_deadlines id d) _ h2 in
      subst (Contents id d) (same h3) (
        hws,
        tasks,
        deadlines,
        f,
        g,
        t,
        l,
        ap (λ c. map c hws) (fun_ext (with_contents-own tasks deadlines)),
      )
    where
      same : {a b : CourseInfo} → ok (some a) ≡ ok (some b) → a ≡ b
      same e = cc

  of_found :
      (id : Uuid) (d : D) (info : CourseInfo) (r : Result Course)
      → queries.course_by_id id d ≡ r
      → bind (unless_missing r) (info_of_course queries parse_uuid id d) ≡ ok (some info)
      → Contents id d info
  of_found id d info (ok course) f h = of_course id d course info f h
  of_found id d info (err e) f h = absurd (missing (is_record_not_found e) h)
    where
      missing :
          (b : Bool)
          → bind (if b then ok none else err e) (info_of_course queries parse_uuid id d)
            ≡ ok (some info)
          → ⊥
      missing true h = cc
      missing false h = cc

  -- What GetCourseInfo returns of a course is the stored course and its public homeworks, in the order of
  -- the query, each with just its own tasks and deadlines.
  pub get_course_info-Contents :
      (id : Uuid) (d : D) (info : CourseInfo)
      → get_course_info queries parse_uuid id d ≡ ok (some info)
      → Contents id d info
  unfolding get_course_info
  get_course_info-Contents id d info h = of_found id d info (queries.course_by_id id d) refl h
