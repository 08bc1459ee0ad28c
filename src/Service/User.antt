-- ===== src/Service/User.antt =====
-- internal/service/user.go: accounts and how they are found.
pub mod Accounts
use Prim.Native.String.{◌++◌ as ◌++ₛ◌, slice, len}
use text.Mathlib.Text.{find? as text_find}
use fcstask_backend.Errors.{
  Error, as_pg_error, bad_request, conflict, internal, is_record_not_found, not_found,
}
use fcstask_backend.Errors.Action.{
  Action, Result, bind, err, lift, ok, or_else, query, refuse_if, wrapping, ◌>>=◌, ◌>>◌,
}
use fcstask_backend.Model.{User, Uuid, is_nil, uuid_nil}
use fcstask_backend.Prelude.{Option, String, if◌then◌else◌, none, some, str_eq, ◌+◌, ◌||◌}
use fcstask_backend.Prelude.Int.{eq_ℤ, pos, ℤ}
use fcstask_backend.Repo.User.{UserRepo}

pub record CreateUserInput : Type 0 where
  pub email : String
  pub username : String
  pub first_name : Option String
  pub last_name : Option String
  pub tg_uid : Option ℤ
  pub user_id : Uuid

-- The text after the first underscore of `text`.
abbrev pub after_underscore : String → Option String
after_underscore text = elim (text_find text "_") [
  | none ↦ none
  | some i ↦ some (slice text (i + 1) (len text))
]

-- `strings.SplitN(name, "_", 3)`: the third part, or the name where there are fewer.
abbrev pub third_part : String → String
third_part name = elim (after_underscore name) [
  | none ↦ name
  | some rest ↦ elim (after_underscore rest) [ none ↦ name | some column ↦ column ]
]

abbrev pub constraint_column : Option (String × String) → String
constraint_column none = ""
constraint_column (some (code, constraint)) =
    if str_eq code "23505" then third_part constraint else ""

unfoldable pub unique_constraint_column : Error → String
unique_constraint_column e = constraint_column (as_pg_error e)

-- What a failed insert of a user is reported as.
unfoldable pub user_not_created : Error → Error
user_not_created e =
    if str_eq (unique_constraint_column e) ""
    then internal "Failed to create user" e
    else conflict ("User with this " ++ₛ unique_constraint_column e ++ₛ " already exists")

abbrev pub user_not_found : Error → Error
user_not_found e =
    if is_record_not_found e then not_found "User not found" else internal "Failed to get user" e

module _ {D : Type 0} (users : UserRepo D) where
  unfoldable pub refuse_taken_email : String → D → Result (Unit {0})
  refuse_taken_email email d =
      bind
        (or_else (users.exists_user_by_email email d) (internal "Failed to check email uniqueness"))
        λ exists. refuse_if exists (conflict "User with this email already exists")

  unfoldable pub refuse_taken_username : String → D → Result (Unit {0})
  refuse_taken_username username d =
      bind
        (or_else (users.exists_user_by_username username d)
          (internal "Failed to check username uniqueness"))
        λ exists. refuse_if exists (conflict "User with this username already exists")

  abbrev pub refuse_found : Result User → Result (Unit {0})
  refuse_found (ok user) = err (conflict "User with this tg_uid already exists")
  refuse_found (err e) =
      if is_record_not_found e then ok tt else err (internal "Failed to check tg_uid uniqueness" e)

  -- An account that is not given or 0 is not tested.
  unfoldable pub refuse_taken_tg_uid : Option ℤ → D → Result (Unit {0})
  refuse_taken_tg_uid none d = ok tt
  refuse_taken_tg_uid (some tg_uid) d =
      if eq_ℤ tg_uid (pos 0) then ok tt else refuse_found (users.get_user_by_tg_uid tg_uid d)

  unfoldable pub create_user : CreateUserInput → Action D User
  create_user input = do
    lift (
        refuse_if (str_eq input.email "" || str_eq input.username "" || is_nil input.user_id)
          (bad_request "Email, username and user_id are required"))
    query (refuse_taken_email input.email)
    query (refuse_taken_username input.username)
    query (refuse_taken_tg_uid input.tg_uid)
    wrapping
        (users.create_user (record {
          id = uuid_nil;
          email = input.email;
          username = input.username;
          password_hash = "";
          first_name = input.first_name;
          last_name = input.last_name;
          tg_uid = input.tg_uid;
          user_id = input.user_id;
        }))
        user_not_created

  unfoldable pub get_user_by_id : Uuid → D → Result User
  get_user_by_id id d = or_else (users.get_user_by_id id d) user_not_found

  unfoldable pub get_user_by_username : String → D → Result User
  get_user_by_username username d = or_else (users.get_user_by_username username d) user_not_found

  unfoldable pub get_user_by_email : String → D → Result User
  get_user_by_email email d = or_else (users.get_user_by_email email d) user_not_found
