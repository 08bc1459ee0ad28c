-- ===== src/Middleware/Auth/Guards.antt =====
-- A protected route is reached just with a session that is stored, and as the user whose it is.
use fcstask_backend.Errors.Action.{Result, err, ok}
use fcstask_backend.Handler.ErrorAnswer.{ErrorAnswer}
use fcstask_backend.Middleware.Auth.{
  Admission, Request, admitted, answered, auth, auth_error, bearer_token, enter, identify,
  of_session, of_session_id, of_token, of_user, refused,
}
use fcstask_backend.Model.{Session, User, Uuid}
use fcstask_backend.Prelude.{
  List, Option, String, contains, inl, inr, none, refl, some, true, ◌≡◌, ◌⊎◌,
}
use fcstask_backend.Repo.Role.Interface.{Faulty, found, looked_up}
use fcstask_backend.Repo.User.{SessionRepo, UserRepo}

-- What a lookup by id answers: the stored row, that there is none, or a fault.
pub record LookupLaws {D : Type 0} (users : UserRepo D) (sessions : SessionRepo D)
    (rows : D → Uuid → Option User) (session_rows : D → Uuid → Option Session) : Type 0 where
  pub get_user :
      (id : Uuid) (d : D)
      → Faulty (users.get_user_by_id id d) ⊎ (users.get_user_by_id id d ≡ found (rows d id))
  pub get_session :
      (id : Uuid) (d : D)
      → Faulty (sessions.get_session_by_id id d)
        ⊎ (sessions.get_session_by_id id d ≡ found (session_rows d id))

module _ {D : Type 0} (parse_uuid : String → Option Uuid) (users : UserRepo D)
    (sessions : SessionRepo D) (rows : D → Uuid → Option User)
    (session_rows : D → Uuid → Option Session)
    (laws : LookupLaws users sessions rows session_rows) where
  -- The header names a stored session, and the user is the stored one whose it is.
  pub record Recognised (request : Request) (d : D) (user : User) (session : Session) : Type 0 where
    pub token : String
    pub given : bearer_token request.authorization ≡ some token
    pub session_id : Uuid
    pub parsed : parse_uuid token ≡ some session_id
    pub session_stored : session_rows d session_id ≡ some session
    pub user_stored : rows d session.user_id ≡ some user

  abbrev Outcome : Request → D → Admission → Type 0
  Outcome request d (refused message) = Unit {0}
  Outcome request d (admitted user session) = Recognised request d user session

  by_user :
      (request : Request) (d : D) (token : String) (id : Uuid) (session : Session)
      → bearer_token request.authorization ≡ some token
      → parse_uuid token ≡ some id
      → session_rows d id ≡ some session
      → (r : Result User) → users.get_user_by_id session.user_id d ≡ r
      → Outcome request d (of_user parse_uuid users sessions session r)
  by_user request d token id session given parsed stored (err e) read = tt
  by_user request d token id session given parsed stored (ok user) read = record {
    token = token;
    given = given;
    session_id = id;
    parsed = parsed;
    session_stored = stored;
    user_stored = looked_up _ _ (laws.get_user session.user_id d) read;
  }

  by_session :
      (request : Request) (d : D) (token : String) (id : Uuid)
      → bearer_token request.authorization ≡ some token
      → parse_uuid token ≡ some id
      → (r : Result Session) → sessions.get_session_by_id id d ≡ r
      → Outcome request d (of_session parse_uuid users sessions r d)
  by_session request d token id given parsed (err e) read = tt
  by_session request d token id given parsed (ok session) read =
      by_user request d token id session given parsed (looked_up _ _ (laws.get_session id d) read)
        (users.get_user_by_id session.user_id d) refl

  by_session_id :
      (request : Request) (d : D) (token : String)
      → bearer_token request.authorization ≡ some token
      → (o : Option Uuid) → parse_uuid token ≡ o
      → Outcome request d (of_session_id parse_uuid users sessions o d)
  by_session_id request d token given none parsed = tt
  by_session_id request d token given (some id) parsed =
      by_session request d token id given parsed (sessions.get_session_by_id id d) refl

  by_token :
      (request : Request) (d : D) (o : Option String)
      → bearer_token request.authorization ≡ o
      → Outcome request d (of_token parse_uuid users sessions o d)
  by_token request d none given = tt
  by_token request d (some token) given =
      by_session_id request d token given (parse_uuid token) refl

  identify-Outcome :
      (request : Request) (d : D) → Outcome request d (identify parse_uuid users sessions request d)
  unfolding identify
  identify-Outcome request d = by_token request d (bearer_token request.authorization) refl

  -- The request is answered 401 without the handler, or it is recognised and the handler answers,
  -- given the user and the session, after the session was touched.
  abbrev pub Guarded :
      {A : Type 0}
      → (Option (User × Session) → D → A × D)
      → Request
      → D
      → (ErrorAnswer ⊎ A) × D
      → Type 0
  Guarded next request d end =
      ((message : String) × (end ≡ (inl (auth_error message), d)))
      ⊎ ((user : User) × (session : Session) × Recognised request d user session
          × (end
              ≡ answered parse_uuid users sessions (
                  next (some (user, session)) (sessions.touch_session_accessed_at session.id d).1)))

  enter-Guarded :
      {A : Type 0} (next : Option (User × Session) → D → A × D) (request : Request) (d : D)
      (a : Admission)
      → Outcome request d a
      → Guarded next request d (enter parse_uuid users sessions next a d)
  enter-Guarded next request d (refused message) o = inl (message, refl)
  enter-Guarded next request d (admitted user session) o = inr (user, session, o, refl)

  -- A request to a protected path is answered 401, with the handler not run and the database as it
  -- was; or its bearer token is the id of a stored session whose user is stored, and the handler
  -- answers for this user and this session, after the session was touched.
  pub auth-Guarded :
      {A : Type 0} (protected_paths : List String) (next : Option (User × Session) → D → A × D)
      (request : Request) (d : D)
      → contains protected_paths request.path ≡ true
      → Guarded next request d (auth parse_uuid users sessions protected_paths next request d)
  unfolding auth
  auth-Guarded protected_paths next request d is_protected = rw is_protected (
      enter-Guarded next request d (identify parse_uuid users sessions request d)
        (identify-Outcome request d))
