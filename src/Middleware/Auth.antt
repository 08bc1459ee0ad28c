-- ===== src/Middleware/Auth.antt =====
-- internal/middleware/auth.go: who may reach a protected route. `uuid.Parse` is a parameter, and so
-- is the handler behind the middleware, which is given the user and the session, if any.
pub mod Guards
pub mod SignedIn
use Prim.Native.String.{slice, len}
use text.Mathlib.Text.{starts_with}
use fcstask_backend.Errors.Action.{Result, err, ok}
use fcstask_backend.Handler.ErrorAnswer.{ErrorAnswer, api_error}
use fcstask_backend.Model.{Session, User, Uuid}
use fcstask_backend.Prelude.{
  Bool, List, Option, String, contains, if◌then◌else◌, inl, inr, none, not, some, str_eq, ◌||◌, ◌⊎◌,
}
use fcstask_backend.Repo.User.{SessionRepo, UserRepo}

-- What of a request is looked at.
pub record Request : Type 0 where
  pub path : String
  pub authorization : String

abbrev pub auth_error : String → ErrorAnswer
auth_error message = api_error 401 "unauthorized" message

-- The text after `Bearer ` in the header.
unfoldable pub bearer_token : String → Option String
bearer_token header =
    if str_eq header "" || not (starts_with header "Bearer ")
    then none
    else some (slice header (len "Bearer ") (len header))

pub data Admission : Type 0 where
  refused : String → Admission
  admitted : User → Session → Admission

module _ {D : Type 0} (parse_uuid : String → Option Uuid) (users : UserRepo D)
    (sessions : SessionRepo D) where
  abbrev pub of_user : Session → Result User → Admission
  of_user session (ok user) = admitted user session
  of_user session (err e) = refused "User not found"

  abbrev pub of_session : Result Session → D → Admission
  of_session (ok session) d = of_user session (users.get_user_by_id session.user_id d)
  of_session (err e) d = refused "Session not found"

  abbrev pub of_session_id : Option Uuid → D → Admission
  of_session_id none d = refused "Invalid session token"
  of_session_id (some id) d = of_session (sessions.get_session_by_id id d) d

  abbrev pub of_token : Option String → D → Admission
  of_token none d = refused "Missing or invalid Authorization header"
  of_token (some token) d = of_session_id (parse_uuid token) d

  unfoldable pub identify : Request → D → Admission
  identify request d = of_token (bearer_token request.authorization) d

  abbrev pub answered : {A : Type 0} → A × D → (ErrorAnswer ⊎ A) × D
  answered (a, d) = (inr a, d)

  -- An error of the touch is ignored.
  abbrev pub enter :
      {A : Type 0} → (Option (User × Session) → D → A × D) → Admission → D → (ErrorAnswer ⊎ A) × D
  enter next (refused message) d = (inl (auth_error message), d)
  enter next (admitted user session) d =
      answered (next (some (user, session)) (sessions.touch_session_accessed_at session.id d).1)

  unfoldable pub auth :
      {A : Type 0}
      → (protected_paths : List String) → (Option (User × Session) → D → A × D)
      → Request
      → D
      → (ErrorAnswer ⊎ A) × D
  auth protected_paths next request d =
      if contains protected_paths request.path
      then enter next (identify request d) d
      else answered (next none d)
