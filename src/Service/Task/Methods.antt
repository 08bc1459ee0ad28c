-- ===== src/Service/Task/Methods.antt =====
-- The methods of `AdminTaskService` but `SetScore`: permission, effect, refusal and count.
use fcstask_backend.Metrics.Admin.{AdminAction, AdminMetrics, count_action}
use fcstask_backend.Metrics.Serves.{Serves, deferring-Serves}
use fcstask_backend.Metrics.World.{World}
use fcstask_backend.Model.{Homework, Task, Uuid}
use fcstask_backend.Prelude.{Option}
use fcstask_backend.Repo.Homework.{HomeworkLaws, HomeworkRepo, TaskLaws, TaskRepo}
use fcstask_backend.Repo.Role.Interface.{RoleLaws, RoleRepo, RoleView}
use fcstask_backend.Service.Task.{
  CreateTaskInput, UpdateTaskInput, create_task, delete_task, update_task,
}
use fcstask_backend.Service.Task.Bodies.{
  create_task_body-Created, delete_task_body-Deleted, update_task_body-Updated,
}
use fcstask_backend.Service.Task.Outcomes.{CreatedTask, DeletedTask, UpdatedTask}

module _ {D M : Type 0} (tasks : TaskRepo D) (homeworks : HomeworkRepo D) (roles : RoleRepo D)
    (homework_rows : D → Uuid → Option Homework) (rows : D → Uuid → Option Task) (view : RoleView D)
    (laws : RoleLaws roles view) (stored_homeworks : HomeworkLaws view homeworks homework_rows)
    (stored : TaskLaws view tasks rows) (metrics : Option (AdminMetrics M)) (w : World D M)
    (actor : Uuid) where
  -- `CreateTask` fails and leaves the database as it was, or the actor may create tasks in the course,
  -- the homework is stored and belongs to that course, and exactly one task is new: the input under a
  -- fresh id, with a title and a positive score. The action is counted.
  pub create_task-Serves :
      (input : CreateTaskInput)
      → Serves w
          (CreatedTask homework_rows rows view w.db actor input)
          (count_action metrics AdminAction.create_task)
          (create_task tasks homeworks roles metrics actor input)
  unfolding create_task
  create_task-Serves input = deferring-Serves w _ _ (
      create_task_body-Created tasks homeworks roles homework_rows rows view laws stored_homeworks
        stored w.db actor input)

  -- `UpdateTask` fails and leaves the database as it was, or the actor may read and update tasks in
  -- the course, the task belongs to the homework and the homework to the course, and exactly that row
  -- is replaced: it keeps its id, homework, visibility and what the input leaves out.
  pub update_task-Serves :
      (course_id hw_id task_id : Uuid) (input : UpdateTaskInput)
      → Serves w
          (UpdatedTask homework_rows rows view w.db actor course_id hw_id task_id input)
          (count_action metrics AdminAction.update_task)
          (update_task tasks homeworks roles metrics actor course_id hw_id task_id input)
  unfolding update_task
  update_task-Serves course_id hw_id task_id input = deferring-Serves w _ _ (
      update_task_body-Updated tasks homeworks roles homework_rows rows view laws stored_homeworks
        stored w.db actor course_id hw_id task_id input)

  -- `DeleteTask` fails and leaves the database as it was, or the actor may read and delete tasks in
  -- the course, the task belongs to the homework and the homework to the course, and exactly that row
  -- is gone.
  pub delete_task-Serves :
      (course_id hw_id task_id : Uuid)
      → Serves w
          (λ _. DeletedTask homework_rows rows view w.db actor course_id hw_id task_id)
          (count_action metrics AdminAction.delete_task)
          (delete_task tasks homeworks roles metrics actor course_id hw_id task_id)
  unfolding delete_task
  delete_task-Serves course_id hw_id task_id = deferring-Serves w _ _ (
      delete_task_body-Deleted tasks homeworks roles homework_rows rows view laws stored_homeworks
        stored w.db actor course_id hw_id task_id)
