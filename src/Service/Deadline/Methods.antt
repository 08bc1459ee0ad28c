-- ===== src/Service/Deadline/Methods.antt =====
-- The deadline methods of `AdminHomeworkService`: permission, effect, refusal and count.
use fcstask_backend.Errors.Action.{ok}
use fcstask_backend.Errors.Ensures.{
  Ensures, last_step, lift_step, or_else-eq-ok, query_step, refuse_if-eq-ok, same_ok, weaken,
  wrapping-Writes, write_step,
}
use fcstask_backend.Errors.Outcomes.{wrapped_step}
use fcstask_backend.Metrics.Admin.{AdminAction, AdminMetrics, count_action}
use fcstask_backend.Metrics.Serves.{Serves, deferring-Serves}
use fcstask_backend.Metrics.World.{World}
use fcstask_backend.Model.{Deadline, Homework, Time, Uuid, uuid_nil}
use fcstask_backend.Prelude.{
  Bool, Option, String, ap, false, if◌then◌else◌, inl, inr, none, refl, some, str_eq, subst, sym,
  true, ◌∙◌, ◌≡◌, ◌⊎◌,
}
use fcstask_backend.Repo.Homework.{
  DeadlineLaws, DeadlineRepo, HomeworkLaws, HomeworkRepo, deadline_table,
}
use fcstask_backend.Repo.Role.Interface.{RoleLaws, RoleRepo, RoleView}
use fcstask_backend.Repo.Stored.{Inserted, Replaced, Replaced-at, row_of-read}
use fcstask_backend.Service.Dates.{TimeFormat, or_bad_request, rfc3339}
use fcstask_backend.Service.Deadline.{
  SetDeadlineInput, UpdateDeadlineInput, delete_deadline, delete_deadline_body, new_due_date,
  or_kept, or_kept_ptr, parse_due_date, set_deadline, set_deadline_body, update_deadline,
  update_deadline_body,
}
use fcstask_backend.Service.Homework.Bodies.{require_homework_in_course-stored}
use fcstask_backend.Service.Permission.Decision.{allowed, require_scoped_permission-allowed}
use fcstask_backend.Service.Permission.Names.{
  permission_deadline_create, permission_deadline_delete, permission_deadline_update,
}

module _ {D : Type 0} (times : TimeFormat) (homework_rows : D → Uuid → Option Homework)
    (rows : D → Uuid → Option Deadline) (view : RoleView D) (d : D) (actor : Uuid) where
  -- `SetDeadline`: the homework is stored and belongs to the course that the deadline names, the due
  -- date parses, and one row is new.
  pub record DeadlineSet (input : SetDeadlineInput) (deadline : Deadline) (d' : D) : Type 0 where
    pub permitted : allowed view d actor input.course_id permission_deadline_create ≡ true
    pub homework : Homework
    pub homework_stored : homework_rows d deadline.homework_id ≡ some homework
    pub same_course : homework.course_id ≡ deadline.course_id
    pub titled : str_eq deadline.title "" ≡ false
    pub parsed : times.parse rfc3339 input.due_date ≡ some deadline.due_date
    pub inserted :
        Inserted
          (deadline_table rows)
          view
          d
          (record {
            id = uuid_nil;
            title = input.title;
            description = some input.description;
            course_id = input.course_id;
            due_date = deadline.due_date;
            assigned_by = input.assigned_by;
            homework_id = input.homework_id;
          })
          deadline
          d'

  -- `UpdateDeadline`: the row keeps its id, course, homework and assigner, and every text that the
  -- input leaves empty.
  pub record UpdatedDeadline (deadline_id : Uuid) (input : UpdateDeadlineInput)
      (deadline : Deadline) (d' : D) : Type 0 where
    pub old : Deadline
    pub stored : rows d deadline_id ≡ some old
    pub permitted : allowed view d actor old.course_id permission_deadline_update ≡ true
    pub after : deadline ≡ record old {
      title = or_kept input.title old.title;
      description = or_kept_ptr input.description old.description;
      due_date = deadline.due_date;
    }
    pub due_after :
        (deadline.due_date ≡ old.due_date)
        ⊎ (times.parse rfc3339 input.due_date ≡ some deadline.due_date)
    pub replaced : Replaced (deadline_table rows) view d deadline_id (some deadline) d'

  -- `DeleteDeadline`: the row is gone.
  pub record DeletedDeadline (deadline_id : Uuid) (d' : D) : Type 0 where
    pub old : Deadline
    pub stored : rows d deadline_id ≡ some old
    pub permitted : allowed view d actor old.course_id permission_deadline_delete ≡ true
    pub replaced : Replaced (deadline_table rows) view d deadline_id none d'

or_bad_request-some :
    {A : Type 0} (o : Option A) (message : String) {a : A}
    → or_bad_request o message ≡ ok a
    → o ≡ some a
or_bad_request-some none message h = cc
or_bad_request-some (some x) message h = ap some (same_ok h)

module _ {D : Type 0} (times : TimeFormat) (homeworks : HomeworkRepo D) (deadlines : DeadlineRepo D)
    (roles : RoleRepo D) (homework_rows : D → Uuid → Option Homework)
    (rows : D → Uuid → Option Deadline) (view : RoleView D) (laws : RoleLaws roles view)
    (stored_homeworks : HomeworkLaws view homeworks homework_rows)
    (stored : DeadlineLaws view deadlines rows) where
  new_due_date-parsed :
      (text : String) (old : Time) {due : Time}
      → new_due_date times homeworks deadlines roles text old ≡ ok due
      → (due ≡ old) ⊎ (times.parse rfc3339 text ≡ some due)
  new_due_date-parsed text old {due} h = go (str_eq text "") h
    where
      go :
          (b : Bool)
          → (if b then ok old else parse_due_date times homeworks deadlines roles text) ≡ ok due
          → (due ≡ old) ⊎ (times.parse rfc3339 text ≡ some due)
      go true h = inl (sym (same_ok h))
      go false h = inr (or_bad_request-some _ _ h)

  module _ (d : D) (actor : Uuid) where
    set_deadline_body-Set :
        (input : SetDeadlineInput)
        → Ensures d
            (DeadlineSet times homework_rows rows view d actor input)
            (set_deadline_body times homeworks deadlines roles actor input)
    unfolding set_deadline_body
    set_deadline_body-Set input = lift_step _ _ λ _ _. query_step _ _ λ _ permitted.
        lift_step _ _ λ _ _. lift_step _ _ λ _ titled. lift_step _ _ λ due parsed.
          query_step _ _ λ hw read. wrapped_step _ _ (
            weaken (stored.creates _ d) λ deadline d' i.
              let at =
                require_homework_in_course-stored homeworks homework_rows view stored_homeworks d
                  input.homework_id input.course_id read in
              let same_due = ap (λ x. x.due_date) i.filled in
              record {
                permitted = require_scoped_permission-allowed roles view laws _ _ _ d permitted;
                homework = hw;
                homework_stored = ap (λ x. homework_rows d x.homework_id) i.filled ∙ at.0;
                same_course = at.1 ∙ sym (ap (λ x. x.course_id) i.filled);
                titled = ap (λ x. str_eq x.title "") i.filled ∙ refuse_if-eq-ok _ _ titled;
                parsed = or_bad_request-some _ _ parsed ∙ ap some (sym same_due);
                inserted = subst (sent_at input deadline d') (sym same_due) i;
              })
      where
        sent_at : SetDeadlineInput → Deadline → D → Time → Type 0
        sent_at input deadline d' due =
            Inserted (deadline_table rows) view d
              (record {
                id = uuid_nil;
                title = input.title;
                description = some input.description;
                course_id = input.course_id;
                due_date = due;
                assigned_by = input.assigned_by;
                homework_id = input.homework_id;
              })
              deadline d'

    update_deadline_body-Updated :
        (deadline_id : Uuid) (input : UpdateDeadlineInput)
        → Ensures d
            (UpdatedDeadline times homework_rows rows view d actor deadline_id input)
            (update_deadline_body times homeworks deadlines roles actor deadline_id input)
    unfolding update_deadline_body
    update_deadline_body-Updated deadline_id input = lift_step _ _ λ _ _. query_step _ _ λ old read.
        query_step _ _ λ _ permitted. lift_step _ _ λ due dues.
          let was = row_of-read stored deadline_id d (or_else-eq-ok _ _ read) in
          write_step _ _ _ (stored.updates _ d) λ d' w. record {
            old = old;
            stored = was;
            permitted = require_scoped_permission-allowed roles view laws _ _ _ d permitted;
            after = refl;
            due_after = new_due_date-parsed _ _ dues;
            replaced = Replaced-at (stored.own_id d deadline_id old was) w;
          }

    delete_deadline_body-Deleted :
        (deadline_id : Uuid)
        → Ensures d
            (λ _. DeletedDeadline times homework_rows rows view d actor deadline_id)
            (delete_deadline_body times homeworks deadlines roles actor deadline_id)
    unfolding delete_deadline_body
    delete_deadline_body-Deleted deadline_id = lift_step _ _ λ _ _. query_step _ _ λ old read.
        query_step _ _ λ _ permitted.
          last_step _ (wrapping-Writes _ _ (stored.deletes deadline_id d)) λ d' w. record {
            old = old;
            stored = row_of-read stored deadline_id d (or_else-eq-ok _ _ read);
            permitted = require_scoped_permission-allowed roles view laws _ _ _ d permitted;
            replaced = w;
          }

  module _ {M : Type 0} (metrics : Option (AdminMetrics M)) (w : World D M) (actor : Uuid) where
    -- `SetDeadline` fails and leaves the database as it was, or the actor may create deadlines in the
    -- course, the homework is stored and belongs to that course, the due date parses, and exactly one
    -- deadline is new, with a title and a fresh id. The action is counted.
    pub set_deadline-Serves :
        (input : SetDeadlineInput)
        → Serves w
            (DeadlineSet times homework_rows rows view w.db actor input)
            (count_action metrics AdminAction.set_deadline)
            (set_deadline times homeworks deadlines roles metrics actor input)
    unfolding set_deadline
    set_deadline-Serves input = deferring-Serves w _ _ (set_deadline_body-Set w.db actor input)

    -- `UpdateDeadline` fails and leaves the database as it was, or the actor may update deadlines in
    -- the deadline's course, and exactly that row is replaced: it keeps its id, course, homework,
    -- assigner and what the input leaves empty. It counts as an action that sets a deadline.
    pub update_deadline-Serves :
        (deadline_id : Uuid) (input : UpdateDeadlineInput)
        → Serves w
            (UpdatedDeadline times homework_rows rows view w.db actor deadline_id input)
            (count_action metrics AdminAction.set_deadline)
            (update_deadline times homeworks deadlines roles metrics actor deadline_id input)
    unfolding update_deadline
    update_deadline-Serves deadline_id input =
        deferring-Serves w _ _ (update_deadline_body-Updated w.db actor deadline_id input)

    -- `DeleteDeadline` fails and leaves the database as it was, or the actor may delete deadlines in
    -- the deadline's course, and exactly that row is gone.
    pub delete_deadline-Serves :
        (deadline_id : Uuid)
        → Serves w
            (λ _. DeletedDeadline times homework_rows rows view w.db actor deadline_id)
            (count_action metrics AdminAction.delete_deadline)
            (delete_deadline times homeworks deadlines roles metrics actor deadline_id)
    unfolding delete_deadline
    delete_deadline-Serves deadline_id =
        deferring-Serves w _ _ (delete_deadline_body-Deleted w.db actor deadline_id)
