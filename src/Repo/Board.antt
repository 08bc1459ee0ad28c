-- ===== src/Repo/Board.antt =====
-- internal/db/repo/course.go, GetCourseBoard and GetCourseInfo: from the rows of their queries, which are
-- gorm's, to the board of a user and the contents of a course.
pub mod Sums
pub mod Percent
pub mod Contents
use fcstask_backend.Errors.{is_record_not_found}
use fcstask_backend.Errors.Action.{Result, bind, err, ok}
use fcstask_backend.Model.{Course, Deadline, Homework, Task, Time, Uuid, is_nil}
use fcstask_backend.Prelude.{
  Bool, List, Option, String, [], if◌then◌else◌, is_empty, map, none, not, some, suc, true, zero, ℕ,
  ◌*◌, ◌/◌, ◌∷◌,
}
use fcstask_backend.Prelude.Int.{ltb_ℤ, negsuc, pos, ℤ, ◌+ℤ◌}
use fcstask_backend.Repo.Course.{TaskBoardSummary}
use fcstask_backend.Repo.Grouped.{group_rows, index_rows}

pub record BoardDeadline : Type 0 where
  pub id : String
  pub label : String
  pub due_at : String
  pub status : String

-- `stats` is the quotient of the two numbers, and `none` 0.0. The marks that nothing sets are left out.
pub record BoardTask : Type 0 where
  pub id : String
  pub name : String
  pub score : ℤ
  pub score_earned : ℤ
  pub stats : Option (ℤ × ℤ)
  pub url : String

pub record BoardGroup : Type 0 where
  pub id : String
  pub name : String
  pub is_special : Option Bool
  pub started_at : String
  pub ends_at : String
  pub deadlines : List BoardDeadline
  pub tasks : List BoardTask

pub record ScoreRow : Type 0 where
  pub task_id : Uuid
  pub score : ℤ

pub record HomeworkWithTasks : Type 0 where
  pub homework : Homework
  pub tasks : List Task
  pub deadlines : List Deadline

pub record CourseInfo : Type 0 where
  pub course : Course
  pub homeworks : List HomeworkWithTasks

-- The queries: `First` by id and by slug; the public homeworks of a course, by position, and for the
-- contents by position and age; the public tasks and the deadlines of homeworks; the deadlines of a
-- course's public homeworks; the scores of a student in a course.
pub record BoardQueries (D : Type 0) : Type 0 where
  pub course_by_id : Uuid → D → Result Course
  pub course_by_slug : String → D → Result Course
  pub homeworks_by_position : Uuid → D → Result (List Homework)
  pub homeworks_by_age : Uuid → D → Result (List Homework)
  pub public_tasks : List Uuid → D → Result (List Task)
  pub deadlines_of : List Uuid → D → Result (List Deadline)
  pub course_deadlines : Uuid → D → Result (List Deadline)
  pub scores_of : (user_id course_id : Uuid) → D → Result (List ScoreRow)

-- `if errors.Is(err, gorm.ErrRecordNotFound) { return nil, nil }`
abbrev pub unless_missing {ℓ} : {A : Type ℓ} → Result A → Result (Option A)
unless_missing (ok a) = ok (some a)
unless_missing (err e) = if is_record_not_found e then ok none else err e

abbrev pub int_or_zero : Option ℤ → ℤ
int_or_zero none = pos 0
int_or_zero (some n) = n

abbrev pub string_ptr_value : Option String → String
string_ptr_value none = ""
string_ptr_value (some s) = s

-- Instants are in nanoseconds.
abbrev pub one_day : ℤ
one_day = pos 86400000000000

-- Go's division of integers rounds to 0.
abbrev pub negated : ℕ → ℤ
negated zero = pos 0
negated (suc n) = negsuc n

abbrev pub quotient : ℤ → ℕ → ℤ
quotient (pos n) m = pos (n / m)
quotient (negsuc n) m = negated (suc n / m)

abbrev pub hundredfold : ℤ → ℤ
hundredfold (pos n) = pos (n * 100)
hundredfold (negsuc n) = negated (suc n * 100)

-- `if totalMax > 0 { ... }`
abbrev pub percent_of : (solved max : ℤ) → ℤ
percent_of solved (pos zero) = pos 0
percent_of solved (pos (suc m)) = quotient (hundredfold solved) (suc m)
percent_of solved (negsuc m) = pos 0

pub record BoardTotals : Type 0 where
  pub total_max : ℤ
  pub total_solved : ℤ

abbrev pub hw_ids : List Homework → List Uuid
hw_ids hws = map (λ hw. hw.hw_id) hws

abbrev pub add_task : BoardTask → BoardTotals → BoardTotals
add_task task totals = record {
  total_max = totals.total_max +ℤ task.score;
  total_solved = totals.total_solved +ℤ task.score_earned;
}

abbrev pub no_rows {ℓ} : {A : Type ℓ} → Uuid → List A
no_rows id = []

abbrev pub tasks_by_hw : List Task → Uuid → List Task
tasks_by_hw tasks = group_rows (λ t. t.hw_id) (λ t. true) tasks no_rows

abbrev pub deadlines_by_hw : List Deadline → Uuid → List Deadline
deadlines_by_hw deadlines =
    group_rows (λ dl. dl.homework_id) (λ dl. not (is_nil dl.homework_id)) deadlines no_rows

abbrev pub score_map : List ScoreRow → Uuid → ℤ
score_map scores = index_rows (λ s. s.task_id) (λ s. s.score) scores (λ id. pos 0)

abbrev pub summary_of : Course → List BoardGroup × BoardTotals → TaskBoardSummary BoardGroup
summary_of course (groups, totals) = record {
  course_name = course.name;
  course_status = course.status;
  solved_score = totals.total_solved;
  max_score = totals.total_max;
  solved_percent = percent_of totals.total_solved totals.total_max;
  groups = groups;
}

abbrev pub no_totals : BoardTotals
no_totals = record { total_max = pos 0; total_solved = pos 0 }

module _ (show_uuid : Uuid → String) (format : Time → String) (now : Time) where
  abbrev pub format_time : Option Time → String
  format_time none = ""
  format_time (some t) = format t

  unfoldable pub deadline_status : Time → String
  deadline_status due =
      if ltb_ℤ due now then "expired" else if ltb_ℤ due (now +ℤ one_day) then "urgent" else "active"

  abbrev pub board_deadline : Deadline → BoardDeadline
  board_deadline dl = record {
    id = show_uuid dl.id;
    label = dl.title;
    due_at = format dl.due_date;
    status = deadline_status dl.due_date;
  }

  abbrev pub board_task : (Uuid → ℤ) → Task → BoardTask
  board_task scores task = record {
    id = show_uuid task.task_id;
    name = task.title;
    score = int_or_zero task.score;
    score_earned = scores task.task_id;
    stats =
        if ltb_ℤ (pos 0) (int_or_zero task.score)
        then some (scores task.task_id, int_or_zero task.score)
        else none;
    url = string_ptr_value task.task_url;
  }

  unfoldable pub group_tasks : (Uuid → ℤ) → List Task → BoardTotals → List BoardTask × BoardTotals
  group_tasks scores [] totals = ([], totals)
  group_tasks scores (task ∷ tasks) totals =
      let rest = group_tasks scores tasks (add_task (board_task scores task) totals) in
      (board_task scores task ∷ rest.0, rest.1)

  abbrev pub board_group : Homework → List Deadline → List BoardTask → BoardGroup
  board_group hw deadlines tasks = record {
    id = show_uuid hw.hw_id;
    name = hw.title;
    is_special = hw.is_public;
    started_at = format_time hw.start_date;
    ends_at = format_time hw.end_date;
    deadlines = map board_deadline deadlines;
    tasks = tasks;
  }

  unfoldable pub board_groups :
      (Uuid → List Task)
      → (Uuid → List Deadline)
      → (Uuid → ℤ)
      → List Homework
      → BoardTotals
      → List BoardGroup × BoardTotals
  board_groups tasks deadlines scores [] totals = ([], totals)
  board_groups tasks deadlines scores (hw ∷ hws) totals =
      let own = group_tasks scores (tasks hw.hw_id) totals in
      let rest = board_groups tasks deadlines scores hws own.1 in
      (board_group hw (deadlines hw.hw_id) own.0 ∷ rest.0, rest.1)

  abbrev pub board_of_rows :
      Course
      → List Homework
      → List Task
      → List Deadline
      → List ScoreRow
      → TaskBoardSummary BoardGroup
  board_of_rows course hws tasks deadlines scores = summary_of course (
      board_groups (tasks_by_hw tasks) (deadlines_by_hw deadlines) (score_map scores) hws no_totals)

abbrev pub with_contents : List Task → List Deadline → Homework → HomeworkWithTasks
with_contents tasks deadlines hw = record {
  homework = hw;
  tasks = group_rows (λ t. t.hw_id) (λ t. true) tasks (λ id. []) hw.hw_id;
  deadlines = group_rows (λ dl. dl.homework_id) (λ dl. true) deadlines (λ id. []) hw.hw_id;
}

module _ {D : Type 0} (queries : BoardQueries D) (parse_uuid : String → Option Uuid) where
  abbrev pub find_by : Option Uuid → String → D → Result Course
  find_by none text d = queries.course_by_slug text d
  find_by (some id) text d = queries.course_by_id id d

  unfoldable pub find_course : String → D → Result (Option Course)
  find_course text d = unless_missing (find_by (parse_uuid text) text d)

  module _ (show_uuid : Uuid → String) (format : Time → String) (now : Time) where
    abbrev pub board_of_homeworks :
        Uuid → D → Course → List Homework → Result (Option (TaskBoardSummary BoardGroup))
    board_of_homeworks user_id d course hws =
        if is_empty hws
        then ok (some (summary_of course ([], no_totals)))
        else bind (queries.public_tasks (hw_ids hws) d) λ tasks.
          bind (queries.deadlines_of (hw_ids hws) d) λ deadlines.
            bind (queries.scores_of user_id course.id d) λ scores.
              ok (some (board_of_rows show_uuid format now course hws tasks deadlines scores))

    abbrev pub board_of_course :
        Uuid → D → Option Course → Result (Option (TaskBoardSummary BoardGroup))
    board_of_course user_id d none = ok none
    board_of_course user_id d (some course) =
        bind (queries.homeworks_by_position course.id d) (board_of_homeworks user_id d course)

    unfoldable pub get_course_board :
        String → Uuid → D → Result (Option (TaskBoardSummary BoardGroup))
    get_course_board text user_id d = bind (find_course text d) (board_of_course user_id d)

  abbrev pub tasks_of_homeworks : List Homework → D → Result (List Task)
  tasks_of_homeworks [] d = ok []
  tasks_of_homeworks (hw ∷ hws) d = queries.public_tasks (hw_ids (hw ∷ hws)) d

  abbrev pub info_of_course : Uuid → D → Option Course → Result (Option CourseInfo)
  info_of_course id d none = ok none
  info_of_course id d (some course) = bind (queries.homeworks_by_age id d) λ hws.
      bind (tasks_of_homeworks hws d) λ tasks. bind (queries.course_deadlines id d) λ deadlines.
        ok (some (record { course = course; homeworks = map (with_contents tasks deadlines) hws }))

  unfoldable pub get_course_info : Uuid → D → Result (Option CourseInfo)
  get_course_info id d = bind (unless_missing (queries.course_by_id id d)) (info_of_course id d)
