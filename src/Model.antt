-- ===== src/Model.antt =====
-- internal/db/model: the rows. A `uuid.UUID` is its 128-bit number, a `time.Time` the signed
-- distance from Go's zero time, a pointer to a plain value an option. Columns that gorm fills by
-- itself (created_at, updated_at, deleted_at) and foreign-key structs are left out.
use fcstask_backend.Prelude.{Bool, Option, String, if◌then◌else◌, ℕ, ◌==◌}
use fcstask_backend.Prelude.Int.{ℤ}

abbrev pub Uuid : Type 0
Uuid = ℕ

abbrev pub uuid_nil : Uuid
uuid_nil = 0

abbrev pub is_nil : Uuid → Bool
is_nil id = id == uuid_nil

abbrev pub Time : Type 0
Time = ℤ

pub record UserRole : Type 0 where
  pub user_id : Uuid
  pub course_id : Uuid
  pub role_id : Uuid

pub record CourseAdminPermission : Type 0 where
  pub role_id : Uuid
  pub permission : String

pub record User : Type 0 where
  pub id : Uuid
  pub email : String
  pub username : String
  pub password_hash : String
  pub first_name : Option String
  pub last_name : Option String
  pub tg_uid : Option ℤ
  pub user_id : Uuid

pub record Session : Type 0 where
  pub id : Uuid
  pub user_id : Uuid
  pub ip : String
  pub user_agent : String

pub record Course : Type 0 where
  pub id : Uuid
  pub name : String
  pub slug : String
  pub description : Option String
  pub status : String
  pub type : String
  pub invite_code : Option String
  pub start_date : Option Time
  pub end_date : Option Time
  pub repo_template : Option String
  pub url : String

pub record Task : Type 0 where
  pub task_id : Uuid
  pub hw_id : Uuid
  pub title : String
  pub is_public : Option Bool
  pub repo_url : Option String
  pub task_url : Option String
  pub score : Option ℤ

pub record Homework : Type 0 where
  pub hw_id : Uuid
  pub course_id : Uuid
  pub title : String
  pub description : Option String
  pub position : ℤ
  pub is_public : Option Bool
  pub start_date : Option Time
  pub end_date : Option Time

pub record Deadline : Type 0 where
  pub id : Uuid
  pub title : String
  pub description : Option String
  pub course_id : Uuid
  pub due_date : Time
  pub assigned_by : Option Uuid
  pub homework_id : Uuid

pub record PlatformStats : Type 0 where
  pub total_courses : ℤ
  pub public_courses : ℤ
  pub private_courses : ℤ
  pub total_users : ℤ

-- `BeforeCreate`: a row without an id gets a fresh one.
unfoldable pub before_create : Uuid → Uuid → Uuid
before_create fresh id = if is_nil id then fresh else id
