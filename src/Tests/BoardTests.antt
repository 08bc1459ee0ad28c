-- ===== src/Tests/BoardTests.antt =====
-- A course of two homeworks, its board for a user, and its contents.
use fcstask_backend.Errors.{record_not_found}
use fcstask_backend.Errors.Action.{Result, err, ok}
use fcstask_backend.Model.{Course, Deadline, Homework, Task, Uuid}
use fcstask_backend.Prelude.{
  List, Option, String, [], arith, if◌then◌else◌, none, refl, some, str_eq, true, ◌==◌, ◌∷◌, ◌≡◌,
}
use fcstask_backend.Prelude.Int.{pos, ℤ, ◌+ℤ◌}
use fcstask_backend.Repo.Board.{
  get_course_board, get_course_info, BoardDeadline, BoardGroup, BoardQueries, BoardTask, CourseInfo,
  board_groups, deadline_status, find_course, group_tasks,
}
use fcstask_backend.Repo.Board.Percent.{IsWithin, get_course_board-IsWithin}
use fcstask_backend.Repo.Board.Sums.{Shown, get_course_board-Shown}
use fcstask_backend.Repo.Course.{TaskBoardSummary}
use fcstask_backend.Repo.Grouped.{group_rows, index_rows}

abbrev test_course : Course
test_course = record {
  id = 3;
  name = "algebra";
  slug = "alg";
  description = none;
  status = "in_progress";
  type = "public";
  invite_code = none;
  start_date = none;
  end_date = none;
  repo_template = none;
  url = "";
}

abbrev homework : Uuid → String → Homework
homework id title = record {
  hw_id = id;
  course_id = 3;
  title = title;
  description = none;
  position = pos 0;
  is_public = some true;
  start_date = none;
  end_date = none;
}

abbrev task_of : Uuid → Uuid → Option ℤ → Task
task_of id hw_id score = record {
  task_id = id;
  hw_id = hw_id;
  title = "task";
  is_public = some true;
  repo_url = none;
  task_url = none;
  score = score;
}

abbrev deadline_at : ℤ → Deadline
deadline_at due = record {
  id = 50;
  title = "soft";
  description = none;
  course_id = 3;
  due_date = due;
  assigned_by = none;
  homework_id = 11;
}

abbrev test_homeworks : List Homework
test_homeworks = homework 10 "one" ∷ homework 11 "two" ∷ []

abbrev test_tasks : List Task
test_tasks = task_of 40 11 (some (pos 10)) ∷ task_of 41 10 (some (pos 5)) ∷ task_of 42 11 none ∷ []

abbrev board_queries : BoardQueries (Unit {0})
board_queries = record {
  course_by_id = λ id d. if id == 3 then ok test_course else err record_not_found;
  course_by_slug = λ slug d. if str_eq slug "alg" then ok test_course else err record_not_found;
  homeworks_by_position = λ id d. ok test_homeworks;
  homeworks_by_age = λ id d. ok test_homeworks;
  public_tasks = λ ids d. ok test_tasks;
  deadlines_of = λ ids d. ok (deadline_at (pos 5) ∷ []);
  course_deadlines = λ id d. ok (deadline_at (pos 5) ∷ []);
  scores_of = λ user_id course_id d. ok (record { task_id = 40; score = pos 7 } ∷ []);
}

abbrev no_uuid : String → Option Uuid
no_uuid text = none

abbrev shown : String → Result (Option (TaskBoardSummary BoardGroup))
shown text = get_course_board board_queries no_uuid (λ id. "id") (λ t. "time") (pos 0) text 1 tt

abbrev shown_task : ℤ → ℤ → Option (ℤ × ℤ) → BoardTask
shown_task score earned stats = record {
  id = "id";
  name = "task";
  score = score;
  score_earned = earned;
  stats = stats;
  url = "";
}

abbrev shown_homework : String → List BoardDeadline → List BoardTask → BoardGroup
shown_homework title deadlines tasks = record {
  id = "id";
  name = title;
  is_special = some true;
  started_at = "";
  ends_at = "";
  deadlines = deadlines;
  tasks = tasks;
}

-- 7 of 15 points are 46 percent.
abbrev test_board : TaskBoardSummary BoardGroup
test_board = record {
  course_name = "algebra";
  course_status = "in_progress";
  solved_score = pos 7;
  max_score = pos 15;
  solved_percent = pos 46;
  groups =
      shown_homework "one" [] (shown_task (pos 5) (pos 0) (some (pos 0, pos 5)) ∷ [])
      ∷ shown_homework "two"
          (record { id = "id"; label = "soft"; due_at = "time"; status = "urgent" } ∷ [])
          (shown_task (pos 10) (pos 7) (some (pos 7, pos 10))
            ∷ shown_task (pos 0) (pos 0) none
            ∷ [])
      ∷ [];
}

board_run : shown "alg" ≡ ok (some test_board)
unfolding get_course_board find_course board_groups group_tasks group_rows index_rows
    deadline_status ◌+ℤ◌
board_run = refl

no_board_run : shown "geo" ≡ ok none
unfolding get_course_board find_course
no_board_run = refl

get_course_board-Shown_example :
    Shown (λ id. "id") (λ t. "time") (pos 0) board_queries no_uuid "alg" 1 tt test_board
get_course_board-Shown_example =
    get_course_board-Shown (λ id. "id") (λ t. "time") (pos 0) board_queries no_uuid "alg" 1 tt
      test_board board_run

get_course_board-IsWithin_example : IsWithin (pos 7) (pos 15) × IsWithin (pos 46) (pos 100)
get_course_board-IsWithin_example =
    get_course_board-IsWithin (λ id. "id") (λ t. "time") (pos 0) board_queries no_uuid "alg" 1 tt
      test_board board_run
      (
        ((omega arith, omega arith), tt),
        (((omega arith, omega arith), ((omega arith, omega arith), tt)), tt),
      )

abbrev test_info : CourseInfo
test_info = record {
  course = test_course;
  homeworks =
      record {
        homework = homework 10 "one";
        tasks = task_of 41 10 (some (pos 5)) ∷ [];
        deadlines = [];
      }
      ∷ record {
        homework = homework 11 "two";
        tasks = task_of 40 11 (some (pos 10)) ∷ task_of 42 11 none ∷ [];
        deadlines = deadline_at (pos 5) ∷ [];
      }
      ∷ [];
}

info_run : get_course_info board_queries no_uuid 3 tt ≡ ok (some test_info)
unfolding get_course_info group_rows
info_run = refl
