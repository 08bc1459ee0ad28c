-- ===== src/Repo/User.antt =====
-- internal/db/repo/user.go, session.go and stats.go: the interfaces that the services call. A create
-- returns the row as it was stored, with the id that `BeforeCreate` gave it.
use fcstask_backend.Errors.Action.{Action, Result, Writes, ok}
use fcstask_backend.Errors.Ensures.{Ensures}
use fcstask_backend.Model.{PlatformStats, Session, User, Uuid}
use fcstask_backend.Prelude.{Bool, List, Option, String, false, none, some, str_eq, true, ◌≡◌}
use fcstask_backend.Prelude.Int.{ℤ}
use fcstask_backend.Repo.Role.Interface.{RoleView}
use fcstask_backend.Repo.Stored.{Inserted, Replaced, Table}

pub record UserRepo (D : Type 0) : Type 0 where
  pub create_user : User → Action D User
  pub get_user_by_id : Uuid → D → Result User
  pub get_user_by_email : String → D → Result User
  pub get_user_by_username : String → D → Result User
  pub get_user_by_tg_uid : ℤ → D → Result User
  pub get_users_with_sessions : (limit offset : ℤ) → D → Result (List User)
  pub count_users_with_sessions : D → Result ℤ
  pub exists_user_by_email : String → D → Result Bool
  pub exists_user_by_username : String → D → Result Bool

pub record SessionRepo (D : Type 0) : Type 0 where
  pub create_session : Session → Action D Session
  pub get_session_by_id : Uuid → D → Result Session
  pub get_sessions_with_user : (limit offset : ℤ) → D → Result (List Session)
  pub count_sessions : D → Result ℤ
  pub touch_session_accessed_at : Uuid → Action D (Unit {0})
  pub delete_session : Uuid → Action D (Unit {0})

pub record StatsRepo (D : Type 0) : Type 0 where
  pub get_stats : D → Result PlatformStats

abbrev pub user_table : {D : Type 0} → (D → Uuid → Option User) → Table D User
user_table rows = record {
  row_of = rows;
  id_of = λ user. user.id;
  as_stored = λ sent stored. record sent { id = stored.id };
}

abbrev pub session_table : {D : Type 0} → (D → Uuid → Option Session) → Table D Session
session_table rows = record {
  row_of = rows;
  id_of = λ session. session.id;
  as_stored = λ sent stored. record sent { id = stored.id };
}

-- What the services rely on: a user that was found is stored under what he was looked for by, and
-- where the answer is that none exists, none does.
pub record UserLaws {D : Type 0} (repo : UserRepo D) (rows : D → Uuid → Option User)
    (view : RoleView D) : Type 0 where
  pub creates :
      (user : User) (d : D)
      → Ensures d (Inserted (user_table rows) view d user) (repo.create_user user)
  pub by_email :
      (email : String) (d : D) {user : User}
      → repo.get_user_by_email email d ≡ ok user
      → (rows d user.id ≡ some user) × (str_eq user.email email ≡ true)
  pub by_username :
      (username : String) (d : D) {user : User}
      → repo.get_user_by_username username d ≡ ok user
      → (rows d user.id ≡ some user) × (str_eq user.username username ≡ true)
  pub free_email :
      (email : String) (d : D) (id : Uuid) (user : User)
      → repo.exists_user_by_email email d ≡ ok false
      → rows d id ≡ some user
      → str_eq user.email email ≡ false
  pub free_username :
      (username : String) (d : D) (id : Uuid) (user : User)
      → repo.exists_user_by_username username d ≡ ok false
      → rows d id ≡ some user
      → str_eq user.username username ≡ false

-- Creating a user leaves the sessions alone.
abbrev pub KeepsSessions : {D : Type 0} → UserRepo D → (D → Uuid → Option Session) → Type 0
KeepsSessions {D} users sessions =
    (user : User) (d : D) (id : Uuid) → sessions (users.create_user user d).1 id ≡ sessions d id

pub record SessionLaws {D : Type 0} (repo : SessionRepo D) (rows : D → Uuid → Option Session)
    (users : D → Uuid → Option User) (view : RoleView D) : Type 0 where
  pub creates :
      (session : Session) (d : D)
      → Ensures d (Inserted (session_table rows) view d session) (repo.create_session session)
  pub users_kept :
      (session : Session) (d : D) (id : Uuid)
      → users (repo.create_session session d).1 id ≡ users d id
  pub deletes :
      (id : Uuid) (d : D)
      → Writes d (Replaced (session_table rows) view d id none) (repo.delete_session id)
