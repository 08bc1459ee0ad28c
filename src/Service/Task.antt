-- ===== src/Service/Task.antt =====
-- internal/service/admin_task.go and consistency.go: the tasks of a homework.
pub mod Outcomes
pub mod Bodies
pub mod Methods
pub mod Score
pub mod Requests
use fcstask_backend.Errors.{bad_request, internal, not_found}
use fcstask_backend.Errors.Action.{
  Action, Result, bind, err, lift, ok, or_else, pure, query, refuse_if, wrapping, ◌>>=◌, ◌>>◌,
}
use fcstask_backend.Metrics.Admin.{AdminAction, AdminMetrics, count_action, score_task}
use fcstask_backend.Metrics.World.{World, deferring}
use fcstask_backend.Model.{Homework, Task, Uuid, is_nil, uuid_nil}
use fcstask_backend.Prelude.{Bool, List, Option, String, if◌then◌else◌, none, some, str_eq, ◌==◌}
use fcstask_backend.Prelude.Int.{leb_ℤ, pos, ℤ}
use fcstask_backend.Repo.Homework.{HomeworkRepo, TaskRepo}
use fcstask_backend.Repo.Role.Interface.{RoleRepo}
use fcstask_backend.Service.Deadline.{or_kept_ptr}
use fcstask_backend.Service.Homework.{new_title, not_empty, require_homework_in_course}
use fcstask_backend.Service.Permission.Check.{require_scoped_permission}
use fcstask_backend.Service.Permission.Names.{
  permission_task_create, permission_task_delete, permission_task_publish, permission_task_read,
  permission_task_score_update, permission_task_update,
}

pub record CreateTaskInput : Type 0 where
  pub course_id : Uuid
  pub hw_id : Uuid
  pub title : Option String
  pub repo_url : String
  pub task_url : String
  pub score : ℤ

pub record UpdateTaskInput : Type 0 where
  pub title : Option String
  pub repo_url : String
  pub task_url : String
  pub score : ℤ

pub record PublishTaskInput : Type 0 where
  pub course_id : Uuid
  pub hw_id : Uuid
  pub task_id : Uuid
  pub is_public : Bool

pub record SetTaskScoreInput : Type 0 where
  pub course_id : Uuid
  pub hw_id : Uuid
  pub task_id : Uuid
  pub score : ℤ

-- `input.Score <= 0`
abbrev pub is_not_positive : ℤ → Bool
is_not_positive score = leb_ℤ score (pos 0)

-- `input.Title == nil || *input.Title == ""`
abbrev pub required_title : Option String → Result String
required_title none = err (bad_request "title is required")
required_title (some title) =
    if str_eq title "" then err (bad_request "title is required") else ok title

abbrev pub or_kept_score : ℤ → Option ℤ → Option ℤ
or_kept_score score kept = if is_not_positive score then kept else some score

module _ {D : Type 0} (tasks : TaskRepo D) (homeworks : HomeworkRepo D) (roles : RoleRepo D) where
  unfoldable pub require_task_in_homework : (task_id hw_id : Uuid) → D → Result Task
  require_task_in_homework task_id hw_id d =
      bind (or_else (tasks.get_by_id task_id d) (λ _. not_found "Task not found"))
        λ task. if task.hw_id == hw_id then ok task else err (not_found "Task not found")

  unfoldable pub create_task_body : Uuid → CreateTaskInput → Action D Task
  create_task_body user_id input = do
    lift (refuse_if (is_nil input.course_id) (bad_request "course_id is required"))
    lift (refuse_if (is_nil input.hw_id) (bad_request "homework_id is required"))
    title ← lift (required_title input.title)
    hw ← query (require_homework_in_course homeworks input.hw_id input.course_id)
    query (require_scoped_permission roles user_id hw.course_id permission_task_create)
    lift (refuse_if (is_not_positive input.score) (bad_request "score must be positive"))
    wrapping
        (tasks.create (record {
          task_id = uuid_nil;
          hw_id = input.hw_id;
          title = title;
          is_public = none;
          repo_url = not_empty input.repo_url;
          task_url = not_empty input.task_url;
          score = some input.score;
        }))
        (internal "Failed to create task")

  unfoldable pub get_task : (user_id course_id hw_id task_id : Uuid) → D → Result Task
  get_task user_id course_id hw_id task_id d =
      bind (refuse_if (is_nil task_id) (bad_request "task_id is required")) λ _.
        bind (require_task_in_homework task_id hw_id d) λ task.
          bind (require_homework_in_course homeworks hw_id course_id d) λ hw.
            bind (require_scoped_permission roles user_id hw.course_id permission_task_read d)
              λ _. ok task

  unfoldable pub list_tasks : (user_id course_id hw_id : Uuid) → D → Result (List Task)
  list_tasks user_id course_id hw_id d =
      bind (refuse_if (is_nil hw_id) (bad_request "homework_id is required")) λ _.
        bind (require_homework_in_course homeworks hw_id course_id d) λ hw.
          bind (require_scoped_permission roles user_id hw.course_id permission_task_read d)
            λ _. or_else (tasks.get_by_hw_id hw_id d) (internal "Failed to fetch tasks")

  -- The homework that a task names.
  abbrev pub homework_of : Task → D → Result Homework
  homework_of task d =
      or_else (homeworks.get_by_id task.hw_id d) (λ _. not_found "Homework not found")

  unfoldable pub update_task_body :
      (user_id course_id hw_id task_id : Uuid) → UpdateTaskInput → Action D Task
  update_task_body user_id course_id hw_id task_id input = do
    task ← query (get_task user_id course_id hw_id task_id)
    hw ← query (homework_of task)
    query (require_scoped_permission roles user_id hw.course_id permission_task_update)
    title ← lift (new_title input.title task.title)
    let task : Task = record task {
      title = title;
      repo_url = or_kept_ptr input.repo_url task.repo_url;
      task_url = or_kept_ptr input.task_url task.task_url;
      score = or_kept_score input.score task.score;
    }
    wrapping (tasks.update task) (internal "Failed to update task")
    pure task

  -- No action is counted for this one.
  unfoldable pub publish_task : Uuid → PublishTaskInput → Action D Task
  publish_task user_id input = do
    lift (refuse_if (is_nil input.task_id) (bad_request "task_id is required"))
    lift (refuse_if (is_nil input.hw_id) (bad_request "homework_id is required"))
    lift (refuse_if (is_nil input.course_id) (bad_request "course_id is required"))
    task ← query (get_task user_id input.course_id input.hw_id input.task_id)
    hw ← query (homework_of task)
    query (require_scoped_permission roles user_id hw.course_id permission_task_publish)
    let task : Task = record task { is_public = some input.is_public }
    wrapping (tasks.update task) (internal "Failed to update task visibility")
    pure task

  unfoldable pub delete_task_body : (user_id course_id hw_id task_id : Uuid) → Action D (Unit {0})
  delete_task_body user_id course_id hw_id task_id = do
    lift (refuse_if (is_nil task_id) (bad_request "task_id is required"))
    task ← query (get_task user_id course_id hw_id task_id)
    hw ← query (homework_of task)
    query (require_scoped_permission roles user_id hw.course_id permission_task_delete)
    wrapping (tasks.delete task_id) (internal "Failed to delete task")

  -- The score is written before the task is read again, so an error may come after the write.
  unfoldable pub set_score_body : Uuid → SetTaskScoreInput → Action D Task
  set_score_body user_id input = do
    lift (refuse_if (is_nil input.hw_id) (bad_request "homework_id is required"))
    lift (refuse_if (is_nil input.task_id) (bad_request "task_id is required"))
    lift (refuse_if (is_nil input.course_id) (bad_request "course_id is required"))
    lift (refuse_if (is_not_positive input.score) (bad_request "score must be positive"))
    task ← query (get_task user_id input.course_id input.hw_id input.task_id)
    hw ← query (homework_of task)
    query (require_scoped_permission roles user_id hw.course_id permission_task_score_update)
    wrapping (tasks.set_score input.task_id input.score) (internal "Failed to set score")
    query (get_task user_id input.course_id input.hw_id input.task_id)

  module _ {M : Type 0} (metrics : Option (AdminMetrics M)) where
    unfoldable pub create_task : Uuid → CreateTaskInput → Action (World D M) Task
    create_task user_id input =
        deferring (count_action metrics AdminAction.create_task) (create_task_body user_id input)

    unfoldable pub update_task :
        (user_id course_id hw_id task_id : Uuid) → UpdateTaskInput → Action (World D M) Task
    update_task user_id course_id hw_id task_id input =
        deferring (count_action metrics AdminAction.update_task)
          (update_task_body user_id course_id hw_id task_id input)

    unfoldable pub delete_task :
        (user_id course_id hw_id task_id : Uuid) → Action (World D M) (Unit {0})
    delete_task user_id course_id hw_id task_id =
        deferring (count_action metrics AdminAction.delete_task)
          (delete_task_body user_id course_id hw_id task_id)

    unfoldable pub set_score : Uuid → SetTaskScoreInput → Action (World D M) Task
    set_score user_id input =
        deferring (count_action metrics score_task) (set_score_body user_id input)
