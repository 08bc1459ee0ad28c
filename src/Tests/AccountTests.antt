-- ===== src/Tests/AccountTests.antt =====
-- The theorems on accounts and on signing in at concrete requests.
use fcstask_backend.Errors.{conflict, unauthorized}
use fcstask_backend.Errors.Action.{Result, err, ◌>>=◌}
use fcstask_backend.Errors.Ensures.{Ensures}
use fcstask_backend.Errors.Settles.{Settled}
use fcstask_backend.Metrics.Serves.{Serves}
use fcstask_backend.Metrics.World.{World}
use fcstask_backend.Model.{User}
use fcstask_backend.Prelude.{String, [], false≢true, none, refl, some, suc, sym, ℕ, ◌∷◌, ◌≡◌}
use fcstask_backend.Prelude.Int.{pos}
use fcstask_backend.Service.Auth.{
  AuthMetrics, AuthResult, SignInInput, SignUpInput, auth_outcome, authenticate, count_created,
  create_session, if_given, sign_in, sign_up, sign_up_body, sign_up_user,
}
use fcstask_backend.Service.Auth.Methods.{SignedIn, authenticate-same_refusal, sign_in-Serves}
use fcstask_backend.Service.Auth.Requests.{
  register, serve_accounts, serve_accounts-AreDistinct, sign_in_as, sign_up_as,
}
use fcstask_backend.Service.Auth.SignUp.{OnlyOpened, SignedUp, sign_up-Settled}
use fcstask_backend.Service.User.{
  CreateUserInput, constraint_column, create_user, refuse_taken_email, refuse_taken_username,
}
use fcstask_backend.Service.User.Accounts.{AreDistinct, CreatedUser, create_user-Created}
use fcstask_backend.Tests.AccountStore.{
  Accounts, account-SessionLaws, account-UserLaws, account_sessions, account_users, account_view,
  plain_bcrypt, session_rows, user_id_of, user_rows,
}
use fcstask_backend.Tests.Memory.{named_some, no_rows, put}

abbrev no_accounts : Accounts
no_accounts = record { users = no_rows; sessions = no_rows }

abbrev pub ann : User
ann = record {
  id = 1;
  email = "ann@fcs.ru";
  username = "ann";
  password_hash = "secret";
  first_name = none;
  last_name = none;
  tg_uid = none;
  user_id = 11;
}

abbrev pub with_ann : Accounts
with_ann = record {
  users = put 1 (some ann) (named_some user_id_of ann) no_rows;
  sessions = no_rows;
}

abbrev ann_signs_up : SignUpInput
ann_signs_up = record {
  email = "ann@fcs.ru";
  username = "ann";
  password = "secret";
  tg_uid = none;
  ip = "10.0.0.1";
  user_agent = "cli";
}

abbrev bob_account : CreateUserInput
bob_account = record {
  email = "bob@fcs.ru";
  username = "bob";
  first_name = some "Bob";
  last_name = none;
  tg_uid = some (pos 5);
  user_id = 12;
}

abbrev pub ann_signs_in : (password : String) → SignInInput
ann_signs_in password = record {
  email = none;
  username = some "ann";
  password = password;
  ip = "10.0.0.1";
  user_agent = "cli";
}

abbrev counting : AuthMetrics ℕ
counting = record {
  inc_signup = λ outcome n. suc n;
  inc_sign_in = λ outcome n. suc n;
  inc_sign_out = λ n. suc n;
}

abbrev signed_up : Accounts
signed_up = (sign_up_body plain_bcrypt account_users account_sessions 11 ann_signs_up no_accounts).1

-- A sign-up stores its user, and its sign-in names him.
signed_up_first : user_rows signed_up 1 ≡ some ann
unfolding sign_up_body sign_up_user refuse_taken_email refuse_taken_username create_session ◌>>=◌
signed_up_first = refl

-- The same name is refused the second time.
second_sign_up :
    (sign_up_body plain_bcrypt account_users account_sessions 12 ann_signs_up with_ann).0
    ≡ err (conflict "User with this email already exists")
unfolding sign_up_body sign_up_user refuse_taken_email ◌>>=◌
second_sign_up = refl

taken_column : constraint_column (some ("23505", "idx_users_email_key")) ≡ "email_key"
taken_column = refl

create_user-Created_example :
    Ensures with_ann
      (CreatedUser account_users user_rows account_view account-UserLaws bob_account with_ann)
      (create_user account_users bob_account)
create_user-Created_example =
    create_user-Created account_users user_rows account_view account-UserLaws bob_account with_ann

abbrev at_login : World Accounts ℕ
at_login = record { db = with_ann; metrics = 0 }

sign_in-Serves_example :
    Serves at_login
      (SignedIn plain_bcrypt account_users account_sessions user_rows session_rows account_view
        account-UserLaws account-SessionLaws
        (ann_signs_in "secret")
        with_ann)
      (λ r m.
        if_given
          (some counting)
          (λ a. a.inc_sign_in (auth_outcome r))
          (count_created plain_bcrypt account_users account_sessions (some counting) none r m))
      (sign_in plain_bcrypt account_users account_sessions
        (some counting)
        none
        (ann_signs_in "secret"))
sign_in-Serves_example =
    sign_in-Serves plain_bcrypt account_users account_sessions user_rows session_rows account_view
      account-UserLaws account-SessionLaws (some counting) none at_login (ann_signs_in "secret")

-- No account, and another password than the one of the account.
authenticate-same_refusal_example :
    unauthorized "Invalid credentials" ≡ unauthorized "Invalid credentials"
unfolding authenticate
authenticate-same_refusal_example =
    authenticate-same_refusal plain_bcrypt account_users account_sessions user_rows session_rows
      account_view account-UserLaws account-SessionLaws (ann_signs_in "wrong") no_accounts with_ann
      (unauthorized "Invalid credentials") (unauthorized "Invalid credentials")
      (λ f. false≢true (sym f)) (λ f. f) refl refl

none_stored-AreDistinct : AreDistinct user_rows no_accounts
none_stored-AreDistinct i j u v h k s = cc

serve_accounts-AreDistinct_example : AreDistinct user_rows (
    serve_accounts plain_bcrypt account_users account_sessions
      (sign_up_as 11 ann_signs_up
        ∷ register bob_account
        ∷ sign_up_as 13 ann_signs_up
        ∷ sign_in_as (ann_signs_in "secret")
        ∷ [])
      no_accounts)
serve_accounts-AreDistinct_example =
    serve_accounts-AreDistinct plain_bcrypt account_users account_sessions user_rows session_rows
      account_view account-UserLaws account-SessionLaws _ no_accounts none_stored-AreDistinct

abbrev before_sign_up : World Accounts ℕ
before_sign_up = record { db = no_accounts; metrics = 0 }

abbrev after_sign_up : Result AuthResult × World Accounts ℕ
after_sign_up =
    sign_up plain_bcrypt account_users account_sessions (some counting) none 11 ann_signs_up
      before_sign_up

sign_up-Settled_example :
    Settled no_accounts
      (SignedUp plain_bcrypt account_users account_sessions user_rows session_rows account_view
        account-UserLaws account-SessionLaws 11 ann_signs_up no_accounts)
      (OnlyOpened plain_bcrypt account_users account_sessions user_rows session_rows account_view
        account-UserLaws account-SessionLaws 11 ann_signs_up no_accounts)
      (after_sign_up.0, after_sign_up.1.db)
    × (after_sign_up.1.metrics
        ≡ if_given
            (some counting)
            (λ a. a.inc_signup (auth_outcome after_sign_up.0))
            (count_created plain_bcrypt account_users account_sessions
              (some counting)
              none
              after_sign_up.0
              0))
sign_up-Settled_example =
    sign_up-Settled plain_bcrypt account_users account_sessions user_rows session_rows account_view
      account-UserLaws account-SessionLaws (some counting) none before_sign_up 11 ann_signs_up
      (λ user d id. refl)
