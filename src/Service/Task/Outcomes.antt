-- ===== src/Service/Task/Outcomes.antt =====
-- What each method of `AdminTaskService` does to the stored tasks.
-- What the methods keep of every task: a title, and a positive score where there is one.
use fcstask_backend.Errors.Action.{ok}
use fcstask_backend.Model.{Homework, Task, Uuid, uuid_nil}
use fcstask_backend.Prelude.{Option, false, none, some, str_eq, true, ◌≡◌}
use fcstask_backend.Prelude.Int.{ℤ}
use fcstask_backend.Repo.Homework.{task_table}
use fcstask_backend.Repo.Role.Interface.{RoleView}
use fcstask_backend.Repo.Stored.{Inserted, Replaced}
use fcstask_backend.Service.Deadline.{or_kept_ptr}
use fcstask_backend.Service.Homework.{new_title, not_empty}
use fcstask_backend.Service.Permission.Decision.{allowed}
use fcstask_backend.Service.Permission.Names.{
  permission_task_create, permission_task_delete, permission_task_publish, permission_task_read,
  permission_task_score_update, permission_task_update,
}
use fcstask_backend.Service.Task.{
  CreateTaskInput, PublishTaskInput, SetTaskScoreInput, UpdateTaskInput, is_not_positive,
  or_kept_score,
}

abbrev pub IsGraded : Option ℤ → Type 0
IsGraded none = Unit
IsGraded (some score) = is_not_positive score ≡ false

pub record IsSoundTask (task : Task) : Type 0 where
  pub titled : str_eq task.title "" ≡ false
  pub graded : IsGraded task.score

module _ {D : Type 0} (homework_rows : D → Uuid → Option Homework) (rows : D → Uuid → Option Task)
    (view : RoleView D) (d : D) (actor : Uuid) where
  -- The task is stored and belongs to the homework, which is stored and belongs to the course, and
  -- the actor may read tasks there.
  pub record FoundTask (course_id hw_id task_id : Uuid) (task : Task) : Type 0 where
    pub stored : rows d task_id ≡ some task
    pub own_id : task.task_id ≡ task_id
    pub in_homework : task.hw_id ≡ hw_id
    pub homework : Homework
    pub homework_stored : homework_rows d hw_id ≡ some homework
    pub in_course : homework.course_id ≡ course_id
    pub may_read : allowed view d actor course_id permission_task_read ≡ true

  -- `CreateTask`: the homework belongs to the course, and one row with the input is new.
  pub record CreatedTask (input : CreateTaskInput) (task : Task) (d' : D) : Type 0 where
    pub permitted : allowed view d actor input.course_id permission_task_create ≡ true
    pub homework : Homework
    pub homework_stored : homework_rows d task.hw_id ≡ some homework
    pub in_course : homework.course_id ≡ input.course_id
    pub title_of : input.title ≡ some task.title
    pub sound : IsSoundTask task
    pub inserted :
        Inserted
          (task_table rows)
          view
          d
          (record {
            task_id = uuid_nil;
            hw_id = input.hw_id;
            title = task.title;
            is_public = none;
            repo_url = not_empty input.repo_url;
            task_url = not_empty input.task_url;
            score = some input.score;
          })
          task
          d'

  -- `UpdateTask`: the row keeps its id, its homework, its visibility and what the input leaves out; a
  -- score that is not positive counts as left out.
  pub record UpdatedTask (course_id hw_id task_id : Uuid) (input : UpdateTaskInput) (task : Task)
      (d' : D) : Type 0 where
    pub old : Task
    pub found : FoundTask course_id hw_id task_id old
    pub permitted : allowed view d actor course_id permission_task_update ≡ true
    pub title_after : new_title input.title old.title ≡ ok task.title
    pub rest_after : task ≡ record old {
      title = task.title;
      repo_url = or_kept_ptr input.repo_url old.repo_url;
      task_url = or_kept_ptr input.task_url old.task_url;
      score = or_kept_score input.score old.score;
    }
    pub replaced : Replaced (task_table rows) view d task_id (some task) d'

  -- `PublishTask`: the row changes in its visibility only.
  pub record PublishedTask (input : PublishTaskInput) (task : Task) (d' : D) : Type 0 where
    pub old : Task
    pub found : FoundTask input.course_id input.hw_id input.task_id old
    pub permitted : allowed view d actor input.course_id permission_task_publish ≡ true
    pub shown : task ≡ record old { is_public = some input.is_public }
    pub replaced : Replaced (task_table rows) view d input.task_id (some task) d'

  -- `DeleteTask`: the row is gone.
  pub record DeletedTask (course_id hw_id task_id : Uuid) (d' : D) : Type 0 where
    pub old : Task
    pub found : FoundTask course_id hw_id task_id old
    pub permitted : allowed view d actor course_id permission_task_delete ≡ true
    pub replaced : Replaced (task_table rows) view d task_id none d'

  -- What `SetScore` has written: the score, and nothing else of the row.
  pub record ScoredTask (input : SetTaskScoreInput) (d' : D) : Type 0 where
    pub old : Task
    pub found : FoundTask input.course_id input.hw_id input.task_id old
    pub permitted : allowed view d actor input.course_id permission_task_score_update ≡ true
    pub positive : is_not_positive input.score ≡ false
    pub replaced :
        Replaced
          (task_table rows)
          view
          d
          input.task_id
          (some (record old { score = some input.score }))
          d'

  -- What `SetScore` has done where it returns a task: the stored row, with the new score.
  pub record ReturnedTask (input : SetTaskScoreInput) (task : Task) (d' : D) : Type 0 where
    pub written : ScoredTask input d'
    pub new_score : task.score ≡ some input.score
    pub read_back : rows d' input.task_id ≡ some task
