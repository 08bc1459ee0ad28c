-- ===== src/Tests/School.antt =====
-- The tables of the store over which the tests run, and one course in it.
-- A scored row keeps its id.
use fcstask_backend.Errors.{record_not_found}
use fcstask_backend.Errors.Action.{Action, err, ok}
use fcstask_backend.Metrics.Admin.{AdminMetrics}
use fcstask_backend.Metrics.World.{World}
use fcstask_backend.Model.{Course, Deadline, Homework, Task, User, Uuid, is_nil}
use fcstask_backend.Prelude.{
  List, Option, String, [], ap, false, if◌then◌else◌, none, refl, some, sym, ◌∙◌, ◌∷◌, ◌≡◌,
}
use fcstask_backend.Prelude.Int.{pos, ℤ}
use fcstask_backend.Repo.Homework.{
  DeadlineLaws, DeadlineRepo, HomeworkLaws, HomeworkRepo, TaskLaws, TaskRepo, scored,
}
use fcstask_backend.Repo.Role.Reads.{granted, role_of}
use fcstask_backend.Repo.User.{UserRepo}
use fcstask_backend.Tests.Memory.{
  Memory, delete_row, first_row, insert_row, memory-RowLaws, named_some, no_rows, put, save_row,
}
use fcstask_backend.Tests.Store.{Store, course_id, deadline_id, homework_id, store_view, task_id_of}

pub named_scored :
    (score : ℤ) (d : Store) (id : Uuid) (x : Task)
    → scored store_view score (d.tasks.rows id) ≡ some x
    → task_id_of x ≡ id
named_scored score d id x h = go (d.tasks.rows id) refl h
  where
    go :
        (o : Option Task)
        → d.tasks.rows id ≡ o
        → scored store_view score o ≡ some x
        → task_id_of x ≡ id
    go none e h = cc
    go (some t) e h = ap task_id_of (sym (same h)) ∙ d.tasks.own id t e
      where
        same : {a b : Task} → some a ≡ some b → a ≡ b
        same e = cc

-- Homeworks, tasks and deadlines in the store.
abbrev pub numbered_homework : Uuid → Homework → Homework
numbered_homework id hw = record hw { hw_id = id }

abbrev pub numbered_task : Uuid → Task → Task
numbered_task id task = record task { task_id = id }

abbrev pub numbered_deadline : Uuid → Deadline → Deadline
numbered_deadline id deadline = record deadline { id = id }

abbrev pub set_homeworks : Memory homework_id → Store → Store
set_homeworks m d = record d { homeworks = m }

abbrev pub set_tasks : Memory task_id_of → Store → Store
set_tasks m d = record d { tasks = m }

abbrev pub set_deadlines : Memory deadline_id → Store → Store
set_deadlines m d = record d { deadlines = m }

abbrev pub store_homeworks : HomeworkRepo Store
store_homeworks = record {
  create =
      insert_row homework_id (λ d. d.homeworks) set_homeworks numbered_homework (λ id hw. refl);
  get_by_id =
      first_row homework_id (λ d. d.homeworks) set_homeworks numbered_homework (λ id hw. refl);
  get_by_course_id = λ c d. ok [];
  update = save_row homework_id (λ d. d.homeworks) set_homeworks numbered_homework (λ id hw. refl);
  delete =
      delete_row homework_id (λ d. d.homeworks) set_homeworks numbered_homework (λ id hw. refl);
}

abbrev pub homework_rows : Store → Uuid → Option Homework
homework_rows d id = d.homeworks.rows id

pub store-HomeworkLaws : HomeworkLaws store_view store_homeworks homework_rows
unfolding role_of granted
store-HomeworkLaws =
    memory-RowLaws homework_id (λ d. d.homeworks) set_homeworks numbered_homework (λ id hw. refl)
      store_view (λ sent stored. record sent { hw_id = stored.hw_id; is_public = stored.is_public })
      (λ m d. refl) (λ m d. (λ u c. refl, λ r p. refl)) (λ id hw. refl)

abbrev pub score_row : Uuid → ℤ → Action Store (Unit {0})
score_row id score d = (
  ok tt,
  set_tasks (put id (scored store_view score (d.tasks.rows id)) (named_scored score d id) d.tasks)
      d,
)

abbrev pub store_tasks : TaskRepo Store
store_tasks = record {
  create = insert_row task_id_of (λ d. d.tasks) set_tasks numbered_task (λ id task. refl);
  get_by_id = first_row task_id_of (λ d. d.tasks) set_tasks numbered_task (λ id task. refl);
  get_by_hw_id = λ hw d. ok [];
  update = save_row task_id_of (λ d. d.tasks) set_tasks numbered_task (λ id task. refl);
  delete = delete_row task_id_of (λ d. d.tasks) set_tasks numbered_task (λ id task. refl);
  set_score = score_row;
}

abbrev pub task_rows : Store → Uuid → Option Task
task_rows d id = d.tasks.rows id

pub store-TaskLaws : TaskLaws store_view store_tasks task_rows
unfolding role_of granted
store-TaskLaws = record {
  of_rows =
      memory-RowLaws task_id_of (λ d. d.tasks) set_tasks numbered_task (λ id task. refl) store_view
        (λ sent stored. record sent { task_id = stored.task_id; is_public = stored.is_public })
        (λ m d. refl) (λ m d. (λ u c. refl, λ r p. refl)) (λ id task. refl);
  scores = λ id score d. record {
    written = record { rows_after = λ id'. refl; same_roles = (λ u c. refl, λ r p. refl) };
  };
}

abbrev pub store_deadlines : DeadlineRepo Store
store_deadlines = record {
  create = insert_row deadline_id (λ d. d.deadlines) set_deadlines numbered_deadline (λ id x. refl);
  get_by_id =
      first_row deadline_id (λ d. d.deadlines) set_deadlines numbered_deadline (λ id x. refl);
  get_by_homework_id = λ hw d. err record_not_found;
  update = save_row deadline_id (λ d. d.deadlines) set_deadlines numbered_deadline (λ id x. refl);
  delete = delete_row deadline_id (λ d. d.deadlines) set_deadlines numbered_deadline (λ id x. refl);
}

abbrev pub deadline_rows : Store → Uuid → Option Deadline
deadline_rows d id = d.deadlines.rows id

pub store-DeadlineLaws : DeadlineLaws store_view store_deadlines deadline_rows
unfolding role_of granted
store-DeadlineLaws =
    memory-RowLaws deadline_id (λ d. d.deadlines) set_deadlines numbered_deadline (λ id x. refl)
      store_view (λ sent stored. record sent { id = stored.id }) (λ m d. refl)
      (λ m d. (λ u c. refl, λ r p. refl)) (λ id x. refl)

-- Course 7 has a homework with one task.
abbrev pub first_homework : Homework
first_homework = record {
  hw_id = 30;
  course_id = 7;
  title = "lists";
  description = none;
  position = pos 1;
  is_public = some false;
  start_date = some (pos 100);
  end_date = some (pos 200);
}

abbrev pub first_task : Task
first_task = record {
  task_id = 40;
  hw_id = 30;
  title = "reverse";
  is_public = some false;
  repo_url = none;
  task_url = none;
  score = some (pos 5);
}

abbrev pub first_deadline : Deadline
first_deadline = record {
  id = 50;
  title = "final";
  description = some "";
  course_id = 7;
  due_date = pos 300;
  assigned_by = none;
  homework_id = 30;
}

abbrev pub first_course : Course
first_course = record {
  id = 7;
  name = "Algorithms";
  slug = "algo";
  description = some "";
  status = "in_progress";
  type = "private";
  invite_code = some "c0de";
  start_date = some (pos 1);
  end_date = some (pos 400);
  repo_template = some "";
  url = "/course/algo";
}

-- Course 7 with an owner (user 1, role 11), a student (user 2, role 12) and an outsider (user 3,
-- role 13 in course 8); user 9 is a super admin (role 19).
abbrev pub school : Store
school = record {
  roles =
      record { user_id = 1; course_id = 7; role_id = 11 }
      ∷ record { user_id = 2; course_id = 7; role_id = 12 }
      ∷ record { user_id = 3; course_id = 8; role_id = 13 }
      ∷ record { user_id = 9; course_id = 0; role_id = 19 }
      ∷ [];
  unique = (refl, (refl, (refl, (refl, tt))));
  perms =
      record { role_id = 11; permission = "course.roles.assign" }
      ∷ record { role_id = 11; permission = "course.roles.revoke" }
      ∷ record { role_id = 11; permission = "course.permissions.add" }
      ∷ record { role_id = 12; permission = "course.read" }
      ∷ record { role_id = 11; permission = "homework.create" }
      ∷ record { role_id = 11; permission = "homework.read" }
      ∷ record { role_id = 11; permission = "homework.update" }
      ∷ record { role_id = 11; permission = "task.read" }
      ∷ record { role_id = 11; permission = "task.create" }
      ∷ record { role_id = 11; permission = "task.score.update" }
      ∷ record { role_id = 11; permission = "deadline.create" }
      ∷ record { role_id = 11; permission = "homework.delete" }
      ∷ record { role_id = 11; permission = "homework.publish" }
      ∷ record { role_id = 11; permission = "task.update" }
      ∷ record { role_id = 11; permission = "task.delete" }
      ∷ record { role_id = 11; permission = "deadline.update" }
      ∷ record { role_id = 11; permission = "deadline.delete" }
      ∷ record { role_id = 13; permission = "course.read" }
      ∷ record { role_id = 19; permission = "is_super_admin" }
      ∷ record { role_id = 19; permission = "super_admin.create" }
      ∷ [];
  homeworks = put 30 (some first_homework) (named_some homework_id first_homework) no_rows;
  tasks = put 40 (some first_task) (named_some task_id_of first_task) no_rows;
  deadlines = put 50 (some first_deadline) (named_some deadline_id first_deadline) no_rows;
  courses = put 7 (some first_course) (named_some course_id first_course) no_rows;
}

-- Users are not stored: every id but 0 is a user.
abbrev pub user_row : Uuid → User
user_row id = record {
  id = id;
  email = "a@b.c";
  username = "a";
  password_hash = "";
  first_name = none;
  last_name = none;
  tg_uid = none;
  user_id = id;
}

abbrev pub store_users : UserRepo Store
store_users = record {
  create_user = λ u d. (ok u, d);
  get_user_by_id = λ id d. if is_nil id then err record_not_found else ok (user_row id);
  get_user_by_email = λ e d. err record_not_found;
  get_user_by_username = λ e d. err record_not_found;
  get_user_by_tg_uid = λ t d. err record_not_found;
  get_users_with_sessions = λ l o d. ok [];
  count_users_with_sessions = λ d. ok (pos 0);
  exists_user_by_email = λ e d. ok false;
  exists_user_by_username = λ e d. ok false;
}

-- A counter vector as the list of its increments.
abbrev pub store_metrics : AdminMetrics (List (String × String))
store_metrics = record { inc = λ action outcome m. (action, outcome) ∷ m }

abbrev pub school_world : World Store (List (String × String))
school_world = record { db = school; metrics = [] }
