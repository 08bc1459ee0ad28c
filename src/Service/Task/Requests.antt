-- ===== src/Service/Task/Requests.antt =====
-- Any sequence of task requests, by anybody, keeps every stored task sound.
use fcstask_backend.Errors.Outcomes.{after}
use fcstask_backend.Errors.Settles.{after_settled}
use fcstask_backend.Model.{Homework, Task, Uuid}
use fcstask_backend.Prelude.{
  Bool, List, Option, [], ap, false, if◌then◌else◌, none, refl, some, subst, sym, true, ◌∷◌, ◌≡◌,
}
use fcstask_backend.Prelude.Int.{ℤ}
use fcstask_backend.Repo.Homework.{HomeworkLaws, HomeworkRepo, TaskLaws, TaskRepo, task_table}
use fcstask_backend.Repo.Role.Interface.{RoleLaws, RoleRepo, RoleView}
use fcstask_backend.Repo.Stored.{AllRows, Inserted-All, Replaced-All}
use fcstask_backend.Service.Homework.Requests.{title-kept}
use fcstask_backend.Service.Task.{
  CreateTaskInput, PublishTaskInput, SetTaskScoreInput, UpdateTaskInput, create_task_body,
  delete_task_body, is_not_positive, or_kept_score, publish_task, set_score_body, update_task_body,
}
use fcstask_backend.Service.Task.Bodies.{
  create_task_body-Created, delete_task_body-Deleted, publish_task-Published,
  update_task_body-Updated,
}
use fcstask_backend.Service.Task.Outcomes.{
  IsGraded, IsSoundTask, PublishedTask, ScoredTask, UpdatedTask,
}
use fcstask_backend.Service.Task.Score.{set_score_body-Settles}

pub data TaskRequest : Type 0 where
  create_one : (actor : Uuid) → CreateTaskInput → TaskRequest
  update_one : (actor course_id hw_id task_id : Uuid) → UpdateTaskInput → TaskRequest
  delete_one : (actor course_id hw_id task_id : Uuid) → TaskRequest
  publish_one : (actor : Uuid) → PublishTaskInput → TaskRequest
  score_one : (actor : Uuid) → SetTaskScoreInput → TaskRequest

or_kept_score-IsGraded :
    (score : ℤ) (old : Option ℤ) → IsGraded old → IsGraded (or_kept_score score old)
or_kept_score-IsGraded score old was = go (is_not_positive score) refl
  where
    go : (b : Bool) → is_not_positive score ≡ b → IsGraded (if b then old else some score)
    go true e = was
    go false e = e

module _ {D : Type 0} (tasks : TaskRepo D) (homeworks : HomeworkRepo D) (roles : RoleRepo D) where
  unfoldable pub handle_task : TaskRequest → D → D
  handle_task (create_one actor input) d = (create_task_body tasks homeworks roles actor input d).1
  handle_task (update_one actor course_id hw_id task_id input) d =
      (update_task_body tasks homeworks roles actor course_id hw_id task_id input d).1
  handle_task (delete_one actor course_id hw_id task_id) d =
      (delete_task_body tasks homeworks roles actor course_id hw_id task_id d).1
  handle_task (publish_one actor input) d = (publish_task tasks homeworks roles actor input d).1
  handle_task (score_one actor input) d = (set_score_body tasks homeworks roles actor input d).1

  unfoldable pub serve_tasks : List TaskRequest → D → D
  serve_tasks [] d = d
  serve_tasks (q ∷ qs) d = serve_tasks qs (handle_task q d)

  module _ (homework_rows : D → Uuid → Option Homework) (rows : D → Uuid → Option Task)
      (view : RoleView D) (laws : RoleLaws roles view)
      (stored_homeworks : HomeworkLaws view homeworks homework_rows)
      (stored : TaskLaws view tasks rows) where
    abbrev AllSound : D → Type 0
    AllSound = AllRows (task_table rows) IsSoundTask

    same_some : {a : Task} → IsSoundTask a → (x : Task) → some a ≡ some x → IsSoundTask x
    same_some p x e = subst IsSoundTask (same e) p
      where
        same : {a b : Task} → some a ≡ some b → a ≡ b
        same e = cc

    updated-IsSoundTask :
        (actor course_id hw_id task_id : Uuid) (input : UpdateTaskInput) (d d' : D) (task : Task)
        → UpdatedTask homework_rows rows view d actor course_id hw_id task_id input task d'
        → AllSound d
        → IsSoundTask task
    updated-IsSoundTask actor course_id hw_id task_id input d d' task u all =
        let old = all task_id u.old u.found.stored in
        record {
          titled = title-kept input.title _ u.title_after old.titled;
          graded =
              subst IsGraded (sym (ap (λ t. t.score) u.rest_after))
                (or_kept_score-IsGraded input.score u.old.score old.graded);
        }

    published-IsSoundTask :
        (actor : Uuid) (input : PublishTaskInput) (d d' : D) (task : Task)
        → PublishedTask homework_rows rows view d actor input task d'
        → AllSound d
        → IsSoundTask task
    published-IsSoundTask actor input d d' task p all =
        let old = all input.task_id p.old p.found.stored in
        subst IsSoundTask (sym p.shown) (record { titled = old.titled; graded = old.graded })

    scored-AllSound :
        (actor : Uuid) (input : SetTaskScoreInput) (d d' : D)
        → AllSound d
        → ScoredTask homework_rows rows view d actor input d'
        → AllSound d'
    scored-AllSound actor input d d' all s =
        Replaced-All (task_table rows) IsSoundTask d d' view input.task_id _
          (same_some (record {
            titled = (all input.task_id s.old s.found.stored).titled;
            graded = s.positive;
          }))
          all s.replaced

    handle_task-AllSound : (q : TaskRequest) (d : D) → AllSound d → AllSound (handle_task q d)
    unfolding handle_task
    handle_task-AllSound (create_one actor input) d all =
        after d AllSound _
          (create_task_body-Created tasks homeworks roles homework_rows rows view laws
            stored_homeworks stored d actor input)
          all
          λ task d' c.
            Inserted-All (task_table rows) IsSoundTask d d' view _ task c.sound all c.inserted
    handle_task-AllSound (update_one actor course_id hw_id task_id input) d all =
        after d AllSound _
          (update_task_body-Updated tasks homeworks roles homework_rows rows view laws
            stored_homeworks stored d actor course_id hw_id task_id input)
          all
          λ task d' u.
            Replaced-All (task_table rows) IsSoundTask d d' view task_id (some task)
              (same_some (updated-IsSoundTask actor course_id hw_id task_id input d d' task u all))
              all u.replaced
    handle_task-AllSound (delete_one actor course_id hw_id task_id) d all =
        after d AllSound _
          (delete_task_body-Deleted tasks homeworks roles homework_rows rows view laws
            stored_homeworks stored d actor course_id hw_id task_id)
          all
          λ _ d' x.
            Replaced-All (task_table rows) IsSoundTask d d' view task_id none (λ y e. cc) all
              x.replaced
    handle_task-AllSound (publish_one actor input) d all =
        after d AllSound _
          (publish_task-Published tasks homeworks roles homework_rows rows view laws
            stored_homeworks stored d actor input)
          all
          λ task d' p.
            Replaced-All (task_table rows) IsSoundTask d d' view input.task_id (some task)
              (same_some (published-IsSoundTask actor input d d' task p all)) all p.replaced
    handle_task-AllSound (score_one actor input) d all =
        after_settled d AllSound _
          (set_score_body-Settles tasks homeworks roles homework_rows rows view laws
            stored_homeworks stored d actor input)
          all (λ task d' p. p.written) (λ d' s. scored-AllSound actor input d d' all s)

    -- If every stored task has a title and, where it has a score, a positive one, then so it is after
    -- any sequence of requests that create, update, delete, publish and score tasks, whoever makes
    -- them and whether they succeed, fail or fail after their write.
    pub serve_tasks-AllSound :
        (qs : List TaskRequest) (d : D)
        → AllRows (task_table rows) IsSoundTask d
        → AllRows (task_table rows) IsSoundTask (serve_tasks qs d)
    unfolding serve_tasks
    serve_tasks-AllSound [] d all = all
    serve_tasks-AllSound (q ∷ qs) d all =
        serve_tasks-AllSound qs (handle_task q d) (handle_task-AllSound q d all)
