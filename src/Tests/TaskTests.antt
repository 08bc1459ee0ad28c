-- ===== src/Tests/TaskTests.antt =====
-- Tasks over the store.
use fcstask_backend.Repo.Role.Repository
use fcstask_backend.Errors.Action.{ok, ◌>>=◌}
use fcstask_backend.Errors.Settles.{Settled}
use fcstask_backend.Metrics.Admin.{AdminAction, count_action, score_task}
use fcstask_backend.Metrics.Serves.{Serves}
use fcstask_backend.Model.{Task}
use fcstask_backend.Prelude.{
  Bool-cases, [], inl, inr, none, refl, some, subst, sym, ◌==◌, ◌∙◌, ◌∷◌, ◌≡◌,
}
use fcstask_backend.Prelude.Int.{pos}
use fcstask_backend.Repo.Homework.{task_table}
use fcstask_backend.Repo.Role.Repository.{get_role_id_by_user_and_course}
use fcstask_backend.Repo.Stored.{AllRows}
use fcstask_backend.Service.Homework.{require_homework_in_course}
use fcstask_backend.Service.Permission.Check.{
  has_permission, has_scoped_permission, has_super_admin, require_scoped_permission,
}
use fcstask_backend.Service.Task.{
  CreateTaskInput, SetTaskScoreInput, UpdateTaskInput, get_task, require_task_in_homework,
  set_score, set_score_body, update_task,
}
use fcstask_backend.Service.Task.Methods.{update_task-Serves}
use fcstask_backend.Service.Task.Outcomes.{IsSoundTask, ReturnedTask, ScoredTask, UpdatedTask}
use fcstask_backend.Service.Task.Requests.{TaskRequest, serve_tasks, serve_tasks-AllSound}
use fcstask_backend.Service.Task.Score.{set_score-Settled}
use fcstask_backend.Tests.School.{
  first_task, homework_rows, school, school_world, store-HomeworkLaws, store-TaskLaws,
  store_homeworks, store_metrics, store_tasks, task_rows,
}
use fcstask_backend.Tests.Store.{store-RoleLaws, store_roles, store_view}

abbrev balance : CreateTaskInput
balance = record {
  course_id = 7;
  hw_id = 30;
  title = some "balance";
  repo_url = "";
  task_url = "";
  score = pos 3;
}

abbrev ten_points : SetTaskScoreInput
ten_points = record { course_id = 7; hw_id = 30; task_id = 40; score = pos 10 }

-- The owner scores the task.
ten :
    (set_score store_tasks store_homeworks store_roles
      (some store_metrics)
      1
      ten_points
      school_world).0
    ≡ ok (record first_task { score = some (pos 10) })
unfolding set_score set_score_body get_task require_task_in_homework require_homework_in_course
    require_scoped_permission has_scoped_permission has_permission has_super_admin ◌>>=◌
    get_role_id_by_user_and_course Repository.has_permission
ten = refl

abbrev retitled : UpdateTaskInput
retitled = record { title = some "reverse twice"; repo_url = ""; task_url = ""; score = pos 0 }

update_task-Serves_example :
    Serves school_world
      (UpdatedTask homework_rows task_rows store_view school 1 7 30 40 retitled)
      (count_action (some store_metrics) AdminAction.update_task)
      (update_task store_tasks store_homeworks store_roles (some store_metrics) 1 7 30 40 retitled)
update_task-Serves_example =
    update_task-Serves store_tasks store_homeworks store_roles homework_rows task_rows store_view
      store-RoleLaws store-HomeworkLaws store-TaskLaws (some store_metrics) school_world 1 7 30 40
      retitled

set_score-Settled_example :
    Settled school
      (ReturnedTask homework_rows task_rows store_view school 1 ten_points)
      (ScoredTask homework_rows task_rows store_view school 1 ten_points)
      (
        (set_score store_tasks store_homeworks store_roles
            (some store_metrics)
            1
            ten_points
            school_world).0,
        (set_score store_tasks store_homeworks store_roles
            (some store_metrics)
            1
            ten_points
            school_world).1.db,
      )
    × ((set_score store_tasks store_homeworks store_roles
          (some store_metrics)
          1
          ten_points
          school_world).1.metrics
        ≡ count_action
            (some store_metrics)
            score_task
            (set_score store_tasks store_homeworks store_roles
              (some store_metrics)
              1
              ten_points
              school_world).0
            [])
set_score-Settled_example =
    set_score-Settled store_tasks store_homeworks store_roles homework_rows task_rows store_view
      store-RoleLaws store-HomeworkLaws store-TaskLaws (some store_metrics) school_world 1
      ten_points

same_task : {a b : Task} → some a ≡ some b → a ≡ b
same_task e = cc

school-IsSoundTask : AllRows (task_table task_rows) IsSoundTask school
school-IsSoundTask id task h = elim (Bool-cases (id == 40)) [
  | inl e ↦
      subst IsSoundTask (same_task {a = first_task} (sym (rw e refl) ∙ h))
        (record { titled = refl; graded = refl })
  | inr e ↦ absurd (no_row (sym (rw e refl) ∙ h))
]
  where
    no_row : none ≡ some task → ⊥
    no_row x = cc

serve_tasks-AllSound_example : AllRows (task_table task_rows) IsSoundTask (
    serve_tasks store_tasks store_homeworks store_roles
      (TaskRequest.create_one 1 balance
        ∷ TaskRequest.score_one 1 ten_points
        ∷ TaskRequest.update_one 1 7 30 40 retitled
        ∷ [])
      school)
serve_tasks-AllSound_example =
    serve_tasks-AllSound store_tasks store_homeworks store_roles homework_rows task_rows store_view
      store-RoleLaws store-HomeworkLaws store-TaskLaws
      (TaskRequest.create_one 1 balance
        ∷ TaskRequest.score_one 1 ten_points
        ∷ TaskRequest.update_one 1 7 30 40 retitled
        ∷ [])
      school school-IsSoundTask
