-- ===== src/Service/Auth/Requests.antt =====
-- Any sequence of requests that create accounts, sign up and sign in keeps the accounts apart.
use fcstask_backend.Errors.Action.{pure, query, wrapping, ◌>>=◌}
use fcstask_backend.Errors.Ensures.{Ensures, lift_step, query_step, weaken}
use fcstask_backend.Errors.Outcomes.{after, after_both, wrapped_step}
use fcstask_backend.Model.{Session, User, Uuid}
use fcstask_backend.Prelude.{List, Option, String, [], subst, sym, ◌∙◌, ◌∷◌}
use fcstask_backend.Repo.Role.Interface.{RoleView}
use fcstask_backend.Repo.User.{SessionLaws, SessionRepo, UserLaws, UserRepo}
use fcstask_backend.Service.Auth.{
  AuthResult, Bcrypt, SignInInput, SignUpInput, authenticate, create_session, sign_in_body,
  sign_up_body, sign_up_user,
}
use fcstask_backend.Service.User.{CreateUserInput, create_user}
use fcstask_backend.Service.User.Accounts.{
  AreDistinct, Inserted-AreDistinct, IsNew, create_user-Created, passed-IsNew,
}

pub data AccountRequest : Type 0 where
  register : CreateUserInput → AccountRequest
  sign_up_as : (account : Uuid) → SignUpInput → AccountRequest
  sign_in_as : SignInInput → AccountRequest

module _ {D : Type 0} (bcrypt : Bcrypt) (users : UserRepo D) (sessions : SessionRepo D) where
  unfoldable pub handle_account : AccountRequest → D → D
  handle_account (register input) d = (create_user users input d).1
  handle_account (sign_up_as account input) d =
      (sign_up_body bcrypt users sessions account input d).1
  handle_account (sign_in_as input) d = (sign_in_body bcrypt users sessions input d).1

  unfoldable pub serve_accounts : List AccountRequest → D → D
  serve_accounts [] d = d
  serve_accounts (q ∷ qs) d = serve_accounts qs (handle_account q d)

  module _ (rows : D → Uuid → Option User) (session_rows : D → Uuid → Option Session)
      (view : RoleView D) (laws : UserLaws users rows view)
      (session_laws : SessionLaws sessions session_rows rows view) where
    signed_up-AreDistinct :
        (account : Uuid) (input : SignUpInput) (d : D)
        → AreDistinct rows d
        → Ensures d (λ _. AreDistinct rows) (sign_up_user bcrypt users sessions account input)
    unfolding sign_up_user
    signed_up-AreDistinct account input d all = lift_step _ _ λ _ _. query_step _ _ λ _ email.
        query_step _ _ λ _ username. lift_step _ _ λ hash _. wrapped_step _ _ (
          weaken (laws.creates _ d) λ user d' i.
            Inserted-AreDistinct rows view d d' _ user i
              (passed-IsNew users rows view laws d input.email input.username email username) all)

    session_opened-AreDistinct :
        (u : Uuid) (ip agent : String) (f : Session → AuthResult) (d : D)
        → AreDistinct rows d
        → AreDistinct rows
            ((create_session bcrypt users sessions u ip agent >>= λ s. pure (f s)) d).1
    unfolding create_session wrapping pure
    session_opened-AreDistinct u ip agent f d all =
        after_both d (AreDistinct rows) (create_session bcrypt users sessions u ip agent)
          (λ s. pure (f s))
          (λ i j x y hx hy s.
            all i j x y (sym (session_laws.users_kept _ d i) ∙ hx)
              (sym (session_laws.users_kept _ d j) ∙ hy) s)
          (λ s d' q. q)

    handle_account-AreDistinct :
        (q : AccountRequest) (d : D) → AreDistinct rows d → AreDistinct rows (handle_account q d)
    unfolding handle_account sign_up_body sign_in_body query
    handle_account-AreDistinct (register input) d all =
        after d (AreDistinct rows) _ (create_user-Created users rows view laws input d) all
          λ user d' c.
            Inserted-AreDistinct rows view d d' _ user c.inserted
              (subst (λ z. IsNew rows d z.email z.username) c.inserted.filled c.new) all
    handle_account-AreDistinct (sign_up_as account input) d all =
        after_both d (AreDistinct rows) (sign_up_user bcrypt users sessions account input) _
          (after d (AreDistinct rows) _ (signed_up-AreDistinct account input d all) all
            (λ _ d' q. q))
          (λ user d' q. session_opened-AreDistinct user.id input.ip input.user_agent _ d' q)
    handle_account-AreDistinct (sign_in_as input) d all =
        after_both d (AreDistinct rows) (query (authenticate bcrypt users sessions input)) _ all
          (λ user d' q. session_opened-AreDistinct user.id input.ip input.user_agent _ d' q)

    -- If no two stored users share an email or a username, then so it is after any sequence of requests
    -- that create accounts, sign up and sign in, whether they succeed, fail or fail after the account
    -- was written.
    pub serve_accounts-AreDistinct :
        (qs : List AccountRequest) (d : D)
        → AreDistinct rows d
        → AreDistinct rows (serve_accounts qs d)
    unfolding serve_accounts
    serve_accounts-AreDistinct [] d all = all
    serve_accounts-AreDistinct (q ∷ qs) d all =
        serve_accounts-AreDistinct qs (handle_account q d) (handle_account-AreDistinct q d all)
