-- ===== src/Service/Auth.antt =====
-- internal/service/auth.go: sign-up, sign-in and sign-out. bcrypt is a parameter. A session is created
-- last, so it is counted just where the call succeeds.
pub mod Methods
pub mod Requests
pub mod SignUp
use fcstask_backend.Errors.{
  Error, bad_request, internal, is_record_not_found, service_code, unauthorized,
}
use fcstask_backend.Errors.Action.{
  Action, Result, bind, err, fail, lift, ok, or_else, pure, query, refuse_if, wrapping, ◌>>=◌, ◌>>◌,
}
use fcstask_backend.Metrics.World.{World, deferring}
use fcstask_backend.Model.{Session, User, Uuid, uuid_nil}
use fcstask_backend.Prelude.{
  Bool, Option, String, false, if◌then◌else◌, none, not, some, str_eq, true, ◌||◌,
}
use fcstask_backend.Prelude.Int.{ℤ}
use fcstask_backend.Repo.User.{SessionRepo, UserRepo}
use fcstask_backend.Service.User.{refuse_taken_email, refuse_taken_username, user_not_created}

pub record Bcrypt : Type 0 where
  pub generate : (password : String) → Result String
  pub compare : (hash password : String) → Bool

-- `AuthMetrics` and `SessionMetrics`.
pub record AuthMetrics (M : Type 0) : Type 0 where
  pub inc_signup : (outcome : String) → M → M
  pub inc_sign_in : (outcome : String) → M → M
  pub inc_sign_out : M → M

pub record SessionMetrics (M : Type 0) : Type 0 where
  pub inc_created : M → M
  pub inc_revoked : (reason : String) → M → M

pub record SignUpInput : Type 0 where
  pub email : String
  pub username : String
  pub password : String
  pub tg_uid : Option ℤ
  pub ip : String
  pub user_agent : String

pub record SignInInput : Type 0 where
  pub email : Option String
  pub username : Option String
  pub password : String
  pub ip : String
  pub user_agent : String

pub record AuthResult : Type 0 where
  pub user : User
  pub session : Session

abbrev pub outcome_of_code : Option String → String
outcome_of_code none = "internal_error"
outcome_of_code (some code) =
    if str_eq code "bad_request"
    then "invalid_input"
    else if str_eq code "unauthorized"
    then "invalid_credentials"
    else (if str_eq code "conflict" then "user_already_exists" else "internal_error")

-- `authOutcomeFromError`
unfoldable pub auth_outcome {ℓ} : {A : Type ℓ} → Result A → String
auth_outcome (ok _) = "success"
auth_outcome (err e) = outcome_of_code (service_code e)

abbrev pub if_given {ℓ} : {A M : Type ℓ} → Option A → (A → M → M) → M → M
if_given none f m = m
if_given (some a) f m = f a m

-- A user that was not found and a wrong password are refused alike.
abbrev pub not_identified : Error → Error
not_identified e =
    if is_record_not_found e
    then unauthorized "Invalid credentials"
    else internal "Failed to find user" e

module _ {D : Type 0} (bcrypt : Bcrypt) (users : UserRepo D) (sessions : SessionRepo D) where
  unfoldable pub create_session : Uuid → String → String → Action D Session
  create_session user_id ip user_agent =
      wrapping
        (sessions.create_session
          (record { id = uuid_nil; user_id = user_id; ip = ip; user_agent = user_agent }))
        (internal "Failed to create session")

  -- `account` is what `uuid.New()` returns.
  unfoldable pub sign_up_user : (account : Uuid) → SignUpInput → Action D User
  sign_up_user account input = do
    lift (
        refuse_if (str_eq input.username "" || str_eq input.password "" || str_eq input.email "")
          (bad_request "Username, password and email are required"))
    query (refuse_taken_email users input.email)
    query (refuse_taken_username users input.username)
    hash ← lift (or_else (bcrypt.generate input.password) (internal "Failed to hash password"))
    wrapping
        (users.create_user (record {
          id = uuid_nil;
          email = input.email;
          username = input.username;
          password_hash = hash;
          first_name = none;
          last_name = none;
          tg_uid = input.tg_uid;
          user_id = account;
        }))
        user_not_created

  unfoldable pub sign_up_body : (account : Uuid) → SignUpInput → Action D AuthResult
  sign_up_body account input = do
    user ← sign_up_user account input
    session ← create_session user.id input.ip input.user_agent
    pure (record { user = user; session = session })

  -- The user that is named by his email, or else by his username.
  abbrev pub named_user : Option String → Option String → D → Result User
  named_user (some email) username d = users.get_user_by_email email d
  named_user none (some username) d = users.get_user_by_username username d
  named_user none none d = err (bad_request "Email or username is required")

  abbrev pub is_named : Option String → Option String → Bool
  is_named (some email) username = true
  is_named none (some username) = true
  is_named none none = false

  unfoldable pub authenticate : SignInInput → D → Result User
  authenticate input d =
      bind (refuse_if (str_eq input.password "") (bad_request "Password is required")) λ _.
        bind
          (refuse_if (not (is_named input.email input.username))
            (bad_request "Email or username is required"))
          λ _. bind (or_else (named_user input.email input.username d) not_identified) λ user.
            if bcrypt.compare user.password_hash input.password
            then ok user
            else err (unauthorized "Invalid credentials")

  unfoldable pub sign_in_body : SignInInput → Action D AuthResult
  sign_in_body input = do
    user ← query (authenticate input)
    session ← create_session user.id input.ip input.user_agent
    pure (record { user = user; session = session })

  abbrev pub sign_out_body : Option Session → Action D (Unit {0})
  sign_out_body none = fail (unauthorized "Not authenticated")
  sign_out_body (some session) =
      wrapping (sessions.delete_session session.id) (internal "Failed to delete session")

  module _ {M : Type 0} (auth : Option (AuthMetrics M))
      (session_metrics : Option (SessionMetrics M)) where
    abbrev pub count_created {ℓ} : {A : Type ℓ} → Result A → M → M
    count_created (ok _) m = if_given session_metrics (λ s. s.inc_created) m
    count_created (err e) m = m

    unfoldable pub sign_up : (account : Uuid) → SignUpInput → Action (World D M) AuthResult
    sign_up account input =
        deferring (λ r m. if_given auth (λ a. a.inc_signup (auth_outcome r)) (count_created r m))
          (sign_up_body account input)

    unfoldable pub sign_in : SignInInput → Action (World D M) AuthResult
    sign_in input =
        deferring (λ r m. if_given auth (λ a. a.inc_sign_in (auth_outcome r)) (count_created r m))
          (sign_in_body input)

    abbrev pub count_sign_out : Result (Unit {0}) → M → M
    count_sign_out (ok _) m =
        if_given session_metrics (λ s. s.inc_revoked "signout")
          (if_given auth (λ a. a.inc_sign_out) m)
    count_sign_out (err e) m = m

    unfoldable pub sign_out : Option Session → Action (World D M) (Unit {0})
    sign_out session = deferring count_sign_out (sign_out_body session)
