-- ===== src/Repo/Homework.antt =====
-- internal/db/repo/homework.go, task.go and deadline.go: the interfaces that the services call. A
-- create returns the row as it was stored, with the id that `BeforeCreate` gave it.
use fcstask_backend.Errors.Action.{Action, Result, Writes}
use fcstask_backend.Model.{Deadline, Homework, Task, Uuid}
use fcstask_backend.Prelude.{List, Option, none, some}
use fcstask_backend.Prelude.Int.{ℤ}
use fcstask_backend.Repo.Role.Interface.{RoleView}
use fcstask_backend.Repo.Stored.{Replaced, RowLaws, Table}

pub record HomeworkRepo (D : Type 0) : Type 0 where
  pub create : Homework → Action D Homework
  pub get_by_id : Uuid → D → Result Homework
  pub get_by_course_id : Uuid → D → Result (List Homework)
  pub update : Homework → Action D (Unit {0})
  pub delete : Uuid → Action D (Unit {0})

pub record TaskRepo (D : Type 0) : Type 0 where
  pub create : Task → Action D Task
  pub get_by_id : Uuid → D → Result Task
  pub get_by_hw_id : Uuid → D → Result (List Task)
  pub update : Task → Action D (Unit {0})
  pub delete : Uuid → Action D (Unit {0})
  pub set_score : Uuid → ℤ → Action D (Unit {0})

pub record DeadlineRepo (D : Type 0) : Type 0 where
  pub create : Deadline → Action D Deadline
  pub get_by_id : Uuid → D → Result Deadline
  pub get_by_homework_id : Uuid → D → Result Deadline
  pub update : Deadline → Action D (Unit {0})
  pub delete : Uuid → Action D (Unit {0})

-- The three tables. An insert gives a row its id and may fill in `is_public`.
abbrev pub homework_table : {D : Type 0} → (D → Uuid → Option Homework) → Table D Homework
homework_table rows = record {
  row_of = rows;
  id_of = λ hw. hw.hw_id;
  as_stored = λ sent stored. record sent { hw_id = stored.hw_id; is_public = stored.is_public };
}

abbrev pub task_table : {D : Type 0} → (D → Uuid → Option Task) → Table D Task
task_table rows = record {
  row_of = rows;
  id_of = λ task. task.task_id;
  as_stored = λ sent stored. record sent { task_id = stored.task_id; is_public = stored.is_public };
}

abbrev pub deadline_table : {D : Type 0} → (D → Uuid → Option Deadline) → Table D Deadline
deadline_table rows = record {
  row_of = rows;
  id_of = λ deadline. deadline.id;
  as_stored = λ sent stored. record sent { id = stored.id };
}

module _ {D : Type 0} (view : RoleView D) where
  abbrev pub HomeworkLaws : HomeworkRepo D → (D → Uuid → Option Homework) → Type 0
  HomeworkLaws repo rows =
      RowLaws (homework_table rows) view repo.create repo.get_by_id repo.update repo.delete

  abbrev pub DeadlineLaws : DeadlineRepo D → (D → Uuid → Option Deadline) → Type 0
  DeadlineLaws repo rows =
      RowLaws (deadline_table rows) view repo.create repo.get_by_id repo.update repo.delete

  abbrev pub scored : ℤ → Option Task → Option Task
  scored score none = none
  scored score (some task) = some (record task { score = some score })

  -- `SetScore` updates the one column where there is such a row.
  pub record TaskLaws (repo : TaskRepo D) (rows : D → Uuid → Option Task) : Type 0 where
    pub of_rows : RowLaws (task_table rows) view repo.create repo.get_by_id repo.update repo.delete
    pub scores :
        (id : Uuid) (score : ℤ) (d : D)
        → Writes d
            (Replaced (task_table rows) view d id (scored score (rows d id)))
            (repo.set_score id score)
