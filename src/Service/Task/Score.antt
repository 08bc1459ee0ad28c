-- ===== src/Service/Task/Score.antt =====
-- `SetScore` of internal/service/admin_task.go, which reads the task again after its write.
use fcstask_backend.Errors.Action.{ok}
use fcstask_backend.Errors.Ensures.{refuse_if-eq-ok, strengthen-Writes}
use fcstask_backend.Errors.Settles.{Settled, Settles, lift-Settles, query-Settles, write-Settles}
use fcstask_backend.Metrics.Admin.{AdminMetrics, count_action, score_task}
use fcstask_backend.Metrics.World.{World}
use fcstask_backend.Model.{Homework, Task, Uuid}
use fcstask_backend.Prelude.{Option, ap, eq_self, false, refl, some, subst, sym, true, ◌∙◌, ◌≡◌}
use fcstask_backend.Repo.Homework.{
  HomeworkLaws, HomeworkRepo, TaskLaws, TaskRepo, scored, task_table,
}
use fcstask_backend.Repo.Role.Interface.{RoleLaws, RoleRepo, RoleView}
use fcstask_backend.Repo.Stored.{Replaced, with_row}
use fcstask_backend.Service.Permission.Decision.{allowed}
use fcstask_backend.Service.Permission.Names.{permission_task_score_update}
use fcstask_backend.Service.Task.{
  SetTaskScoreInput, get_task, is_not_positive, set_score, set_score_body,
}
use fcstask_backend.Service.Task.Bodies.{get_task-Found, permitted_on}
use fcstask_backend.Service.Task.Outcomes.{FoundTask, ReturnedTask, ScoredTask}

module _ {D : Type 0} (tasks : TaskRepo D) (homeworks : HomeworkRepo D) (roles : RoleRepo D)
    (homework_rows : D → Uuid → Option Homework) (rows : D → Uuid → Option Task) (view : RoleView D)
    (laws : RoleLaws roles view) (stored_homeworks : HomeworkLaws view homeworks homework_rows)
    (stored : TaskLaws view tasks rows) where
  score_written :
      (d d' : D) (actor : Uuid) (input : SetTaskScoreInput) (old : Task)
      → FoundTask homework_rows rows view d actor input.course_id input.hw_id input.task_id old
      → allowed view d actor input.course_id permission_task_score_update ≡ true
      → is_not_positive input.score ≡ false
      → Replaced
          (task_table rows)
          view
          d
          input.task_id
          (scored view input.score (rows d input.task_id))
          d'
      → ScoredTask homework_rows rows view d actor input d'
  score_written d d' actor input old f permitted positive w = record {
    old = old;
    found = f;
    permitted = permitted;
    positive = positive;
    replaced =
        subst (λ o. Replaced (task_table rows) view d input.task_id (scored view input.score o) d')
          f.stored w;
  }

  read_back :
      (d d' : D) (actor : Uuid) (input : SetTaskScoreInput) (task : Task)
      → ScoredTask homework_rows rows view d actor input d'
      → get_task tasks homeworks roles actor input.course_id input.hw_id input.task_id d' ≡ ok task
      → ReturnedTask homework_rows rows view d actor input task d'
  read_back d d' actor input task w h =
      let now =
        get_task-Found tasks homeworks roles homework_rows rows view laws stored_homeworks stored d'
          actor input.course_id input.hw_id input.task_id h in
      record {
        written = w;
        new_score =
            scored_task
              (sym now.stored ∙ w.replaced.rows_after input.task_id ∙ at_own input.task_id);
        read_back = now.stored;
      }
    where
      at_own :
          (id : Uuid)
          → with_row (task_table rows) d id (some (record w.old { score = some input.score })) id
            ≡ some (record w.old { score = some input.score })
      at_own id = rw (eq_self id) refl

      same_some : {a b : Task} → some a ≡ some b → a ≡ b
      same_some e = cc

      scored_task :
          some task ≡ some (record w.old { score = some input.score })
          → task.score ≡ some input.score
      scored_task e = ap (λ t. t.score) (same_some e)

  pub set_score_body-Settles :
      (d : D) (actor : Uuid) (input : SetTaskScoreInput)
      → Settles d
          (ReturnedTask homework_rows rows view d actor input)
          (ScoredTask homework_rows rows view d actor input)
          (set_score_body tasks homeworks roles actor input)
  unfolding set_score_body
  set_score_body-Settles d actor input = lift-Settles _ _ λ _ _. lift-Settles _ _ λ _ _.
      lift-Settles _ _ λ _ _. lift-Settles _ _ λ _ positive. query-Settles _ _ λ old read.
        query-Settles _ _ λ hw at. query-Settles _ _ λ _ permitted.
          let was =
            get_task-Found tasks homeworks roles homework_rows rows view laws stored_homeworks
              stored d actor _ _ _ read in
          let may =
            permitted_on tasks homeworks roles homework_rows rows view laws stored_homeworks stored
              d actor _ _ _ _ _ was at permitted in
          write-Settles _ _ _
            (strengthen-Writes (stored.scores input.task_id input.score d)
              (λ d' w. score_written d d' actor input old was may (refuse_if-eq-ok _ _ positive) w))
            λ d' task w back. read_back d d' actor input task w back

  -- `SetScore` returns a task, and then it is the stored row with the new score; or it fails and the
  -- database is as it was or, the one other case, has exactly the score written. What is written is
  -- a positive score of a task that belongs to the homework and the course, by an actor who may
  -- score tasks there. The action is counted with its outcome.
  pub set_score-Settled :
      {M : Type 0} (metrics : Option (AdminMetrics M)) (w : World D M) (actor : Uuid)
      (input : SetTaskScoreInput)
      → Settled w.db
          (ReturnedTask homework_rows rows view w.db actor input)
          (ScoredTask homework_rows rows view w.db actor input)
          (
            (set_score tasks homeworks roles metrics actor input w).0,
            (set_score tasks homeworks roles metrics actor input w).1.db,
          )
        × ((set_score tasks homeworks roles metrics actor input w).1.metrics
            ≡ count_action metrics score_task
                (set_score tasks homeworks roles metrics actor input w).0
                w.metrics)
  unfolding set_score
  set_score-Settled metrics w actor input =
      ((set_score_body-Settles w.db actor input).settled, refl)
