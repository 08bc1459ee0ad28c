-- ===== src/Service/Task/Bodies.antt =====
-- Each body of internal/service/admin_task.go but `SetScore` has the outcome that `Outcomes` states.
use fcstask_backend.Errors.{bad_request}
use fcstask_backend.Errors.Action.{err, ok, refuse_if}
use fcstask_backend.Errors.Ensures.{
  Ensures, bind-eq-ok, last_step, lift_step, or_else-eq-ok, query_step, refuse_if-eq-ok, same_ok,
  weaken, wrapping-Writes, write_step,
}
use fcstask_backend.Errors.Outcomes.{if_ok, wrapped_step}
use fcstask_backend.Model.{Homework, Task, Uuid, is_nil, uuid_nil}
use fcstask_backend.Prelude.{
  ==_iff, Bool, Option, String, ap, false, if◌then◌else◌, none, refl, some, str_eq, subst, sym,
  true, ◌∙◌, ◌≡◌,
}
use fcstask_backend.Repo.Homework.{HomeworkLaws, HomeworkRepo, TaskLaws, TaskRepo, task_table}
use fcstask_backend.Repo.Role.Interface.{RoleLaws, RoleRepo, RoleView}
use fcstask_backend.Repo.Stored.{Inserted, Replaced-at, row_of-read}
use fcstask_backend.Service.Homework.{not_empty}
use fcstask_backend.Service.Homework.Bodies.{require_homework_in_course-stored}
use fcstask_backend.Service.Permission.Check.{require_scoped_permission}
use fcstask_backend.Service.Permission.Decision.{allowed, require_scoped_permission-allowed}
use fcstask_backend.Service.Permission.Names.{permission_task_read}
use fcstask_backend.Service.Task.{
  CreateTaskInput, PublishTaskInput, UpdateTaskInput, create_task_body, delete_task_body, get_task,
  homework_of, publish_task, require_task_in_homework, required_title, update_task_body,
}
use fcstask_backend.Service.Task.Outcomes.{
  CreatedTask, DeletedTask, FoundTask, IsSoundTask, PublishedTask, UpdatedTask,
}

required_title-some :
    (o : Option String) {title : String}
    → required_title o ≡ ok title
    → (o ≡ some title) × (str_eq title "" ≡ false)
required_title-some none h = cc
required_title-some (some text) {title} h = go (str_eq text "") refl h
  where
    go :
        (b : Bool)
        → str_eq text "" ≡ b
        → (if b then err (bad_request "title is required") else ok text) ≡ ok title
        → (some text ≡ some title) × (str_eq title "" ≡ false)
    go true test e = cc
    go false test e = (ap some (same_ok e), subst (λ t. str_eq t "" ≡ false) (same_ok e) test)

module _ {D : Type 0} (tasks : TaskRepo D) (homeworks : HomeworkRepo D) (roles : RoleRepo D)
    (homework_rows : D → Uuid → Option Homework) (rows : D → Uuid → Option Task) (view : RoleView D)
    (laws : RoleLaws roles view) (stored_homeworks : HomeworkLaws view homeworks homework_rows)
    (stored : TaskLaws view tasks rows) (d : D) (actor : Uuid) where
  require_task_in_homework-stored :
      (task_id hw_id : Uuid) {task : Task}
      → require_task_in_homework tasks homeworks roles task_id hw_id d ≡ ok task
      → (rows d task_id ≡ some task) × (task.hw_id ≡ hw_id)
  unfolding require_task_in_homework
  require_task_in_homework-stored task_id hw_id {task} h =
      let (x, read, tested) = bind-eq-ok _ _ h in
      let (same_hw, same) = if_ok _ _ _ tested in
      (
        row_of-read stored.of_rows task_id d (or_else-eq-ok _ _ (read ∙ ap ok same)),
        subst (λ y. y.hw_id ≡ hw_id) same ((==_iff _ _).0 same_hw),
      )

  may :
      (c : Uuid) (p : String) {a : Uuid} {x : Unit {0}}
      → a ≡ c
      → require_scoped_permission roles actor a p d ≡ ok x
      → allowed view d actor c p ≡ true
  may c p {a} e h =
      subst (λ z. allowed view d actor z p ≡ true) e
        (require_scoped_permission-allowed roles view laws _ _ _ d h)

  pub get_task-Found :
      (course_id hw_id task_id : Uuid) {task : Task}
      → get_task tasks homeworks roles actor course_id hw_id task_id d ≡ ok task
      → FoundTask homework_rows rows view d actor course_id hw_id task_id task
  unfolding get_task
  get_task-Found course_id hw_id task_id {task} h =
      let (_, _, h1) =
        bind-eq-ok (refuse_if (is_nil task_id) (bad_request "task_id is required")) _ h in
      let (x, read, h2) = bind-eq-ok _ _ h1 in
      let (hw, read_hw, h3) = bind-eq-ok _ _ h2 in
      let (_, permitted, same) = bind-eq-ok _ _ h3 in
      let was = require_task_in_homework-stored task_id hw_id read in
      let at =
        require_homework_in_course-stored homeworks homework_rows view stored_homeworks d hw_id
          course_id read_hw in
      subst (FoundTask homework_rows rows view d actor course_id hw_id task_id) (same_ok same)
        (record {
          stored = was.0;
          own_id = stored.of_rows.own_id d task_id x was.0;
          in_homework = was.1;
          homework = hw;
          homework_stored = at.0;
          in_course = at.1;
          may_read = may course_id permission_task_read at.1 permitted;
        })

  -- The homework that a found task names is the one it was found in.
  pub homework_of-Found :
      (course_id hw_id task_id : Uuid) (task : Task) {hw : Homework}
      → FoundTask homework_rows rows view d actor course_id hw_id task_id task
      → homework_of tasks homeworks roles task d ≡ ok hw
      → hw.course_id ≡ course_id
  homework_of-Found course_id hw_id task_id task {hw} f read =
      ap (λ x. x.course_id)
        (same_some (
          sym (row_of-read stored_homeworks task.hw_id d (or_else-eq-ok _ _ read))
          ∙ ap (homework_rows d) f.in_homework
          ∙ f.homework_stored))
      ∙ f.in_course
    where
      same_some : {a b : Homework} → some a ≡ some b → a ≡ b
      same_some e = cc

  pub permitted_on :
      (p : String) (course_id hw_id task_id : Uuid) (task : Task) {hw : Homework} {x : Unit {0}}
      → FoundTask homework_rows rows view d actor course_id hw_id task_id task
      → homework_of tasks homeworks roles task d ≡ ok hw
      → require_scoped_permission roles actor hw.course_id p d ≡ ok x
      → allowed view d actor course_id p ≡ true
  permitted_on p course_id hw_id task_id task f read h =
      may course_id p (homework_of-Found course_id hw_id task_id task f read) h

  pub create_task_body-Created :
      (input : CreateTaskInput)
      → Ensures d
          (CreatedTask homework_rows rows view d actor input)
          (create_task_body tasks homeworks roles actor input)
  unfolding create_task_body
  create_task_body-Created input = lift_step _ _ λ _ _. lift_step _ _ λ _ _.
      lift_step _ _ λ title titled. query_step _ _ λ hw read. query_step _ _ λ _ permitted.
        lift_step _ _ λ _ positive. wrapped_step _ _ (
          weaken (stored.of_rows.creates _ d) λ task d' i.
            let at =
              require_homework_in_course-stored homeworks homework_rows view stored_homeworks d _ _
                read in
            let (given, filled) = required_title-some _ titled in
            let same_title = ap (λ x. x.title) i.filled in
            record {
              permitted = may _ _ at.1 permitted;
              homework = hw;
              homework_stored = ap (λ x. homework_rows d x.hw_id) i.filled ∙ at.0;
              in_course = at.1;
              title_of = given ∙ ap some (sym same_title);
              sound =
                  subst IsSoundTask (sym i.filled)
                    (record { titled = filled; graded = refuse_if-eq-ok _ _ positive });
              inserted = subst (sent_with input task d') (sym same_title) i;
            })
    where
      sent_with : CreateTaskInput → Task → D → String → Type 0
      sent_with input task d' title =
          Inserted (task_table rows) view d
            (record {
              task_id = uuid_nil;
              hw_id = input.hw_id;
              title = title;
              is_public = none;
              repo_url = not_empty input.repo_url;
              task_url = not_empty input.task_url;
              score = some input.score;
            })
            task d'

  pub update_task_body-Updated :
      (course_id hw_id task_id : Uuid) (input : UpdateTaskInput)
      → Ensures d
          (UpdatedTask homework_rows rows view d actor course_id hw_id task_id input)
          (update_task_body tasks homeworks roles actor course_id hw_id task_id input)
  unfolding update_task_body
  update_task_body-Updated course_id hw_id task_id input = query_step _ _ λ old read.
      query_step _ _ λ hw at. query_step _ _ λ _ permitted. lift_step _ _ λ title titles.
        let was = get_task-Found course_id hw_id task_id read in
        write_step _ _ _ (stored.of_rows.updates _ d) λ d' w. record {
          old = old;
          found = was;
          permitted = permitted_on _ _ _ _ _ was at permitted;
          title_after = titles;
          rest_after = refl;
          replaced = Replaced-at was.own_id w;
        }

  pub publish_task-Published :
      (input : PublishTaskInput)
      → Ensures d
          (PublishedTask homework_rows rows view d actor input)
          (publish_task tasks homeworks roles actor input)
  unfolding publish_task
  publish_task-Published input = lift_step _ _ λ _ _. lift_step _ _ λ _ _. lift_step _ _ λ _ _.
      query_step _ _ λ old read. query_step _ _ λ hw at. query_step _ _ λ _ permitted.
        let was = get_task-Found _ _ _ read in
        write_step _ _ _ (stored.of_rows.updates _ d) λ d' w. record {
          old = old;
          found = was;
          permitted = permitted_on _ _ _ _ _ was at permitted;
          shown = refl;
          replaced = Replaced-at was.own_id w;
        }

  pub delete_task_body-Deleted :
      (course_id hw_id task_id : Uuid)
      → Ensures d
          (λ _. DeletedTask homework_rows rows view d actor course_id hw_id task_id)
          (delete_task_body tasks homeworks roles actor course_id hw_id task_id)
  unfolding delete_task_body
  delete_task_body-Deleted course_id hw_id task_id = lift_step _ _ λ _ _. query_step _ _ λ old read.
      query_step _ _ λ hw at. query_step _ _ λ _ permitted.
        let was = get_task-Found course_id hw_id task_id read in
        last_step _ (wrapping-Writes _ _ (stored.of_rows.deletes task_id d)) λ d' w. record {
          old = old;
          found = was;
          permitted = permitted_on _ _ _ _ _ was at permitted;
          replaced = w;
        }
