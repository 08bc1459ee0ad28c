-- ===== src/Service/Homework/Methods.antt =====
-- The homework methods of `AdminHomeworkService`: permission, effect, refusal and count.
use fcstask_backend.Metrics.Admin.{AdminAction, AdminMetrics, count_action}
use fcstask_backend.Metrics.Serves.{Serves, deferring-Serves}
use fcstask_backend.Metrics.World.{World}
use fcstask_backend.Model.{Homework, Uuid}
use fcstask_backend.Prelude.{Bool, Option}
use fcstask_backend.Repo.Homework.{HomeworkLaws, HomeworkRepo}
use fcstask_backend.Repo.Role.Interface.{RoleLaws, RoleRepo, RoleView}
use fcstask_backend.Service.Dates.{TimeFormat}
use fcstask_backend.Service.Homework.{
  CreateHomeworkInput, create_homework, delete_homework, publish_homework,
}
use fcstask_backend.Service.Homework.Bodies.{
  create_homework_body-Created, delete_homework_body-Deleted, publish_homework_body-Published,
}
use fcstask_backend.Service.Homework.Outcomes.{CreatedHomework, DeletedHomework, PublishedHomework}

module _ {D M : Type 0} (times : TimeFormat) (homeworks : HomeworkRepo D) (roles : RoleRepo D)
    (rows : D → Uuid → Option Homework) (view : RoleView D) (laws : RoleLaws roles view)
    (stored : HomeworkLaws view homeworks rows) (metrics : Option (AdminMetrics M)) (w : World D M)
    (actor : Uuid) where
  -- `CreateHomework` fails and leaves the database as it was, or the actor may create homeworks in
  -- the course, both dates parse and the end is after the start, and exactly one row is new: the
  -- input under a fresh id. Roles and permissions do not change. The action is counted.
  pub create_homework-Serves :
      (input : CreateHomeworkInput)
      → Serves w
          (CreatedHomework times rows view w.db actor input)
          (count_action metrics AdminAction.create_homework)
          (create_homework times homeworks roles metrics actor input)
  unfolding create_homework
  create_homework-Serves input =
      deferring-Serves w _ _
        (create_homework_body-Created times homeworks roles rows view laws stored w.db actor input)

  -- `DeleteHomework` fails and leaves the database as it was, or the actor may read and delete
  -- homeworks in the course the row belongs to, and exactly that row is gone.
  pub delete_homework-Serves :
      (course_id hw_id : Uuid)
      → Serves w
          (λ _. DeletedHomework times rows view w.db actor course_id hw_id)
          (count_action metrics AdminAction.delete_homework)
          (delete_homework times homeworks roles metrics actor course_id hw_id)
  unfolding delete_homework
  delete_homework-Serves course_id hw_id = deferring-Serves w _ _ (
      delete_homework_body-Deleted times homeworks roles rows view laws stored w.db actor course_id
        hw_id)

  -- `PublishHomework` fails and leaves the database as it was, or the actor may read and publish
  -- homeworks in the course the row belongs to, and exactly that row changes, in its visibility.
  pub publish_homework-Serves :
      (course_id hw_id : Uuid) (is_public : Bool)
      → Serves w
          (PublishedHomework times rows view w.db actor course_id hw_id is_public)
          (count_action metrics AdminAction.publish_homework)
          (publish_homework times homeworks roles metrics actor course_id hw_id is_public)
  unfolding publish_homework
  publish_homework-Serves course_id hw_id is_public = deferring-Serves w _ _ (
      publish_homework_body-Published times homeworks roles rows view laws stored w.db actor
        course_id hw_id is_public)
