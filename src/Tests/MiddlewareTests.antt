-- ===== src/Tests/MiddlewareTests.antt =====
-- Requests to protected routes, before and after a sign-in.
use fcstask_backend.Errors.Action.{ok, ◌>>=◌}
use fcstask_backend.Middleware.Auth.{Request, admitted, auth, auth_error, bearer_token, identify}
use fcstask_backend.Middleware.Auth.Guards.{Guarded, LookupLaws, auth-Guarded}
use fcstask_backend.Middleware.Auth.SignedIn.{signed_in-Identified}
use fcstask_backend.Model.{Session, User, Uuid}
use fcstask_backend.Prelude.{
  Option, String, [], if◌then◌else◌, inl, inr, none, refl, some, str_eq, ◌∷◌, ◌≡◌, ◌⊎◌,
}
use fcstask_backend.Repo.Role.Interface.{Faulty}
use fcstask_backend.Service.Auth.{AuthResult, authenticate, create_session, sign_in_body}
use fcstask_backend.Tests.AccountStore.{
  Accounts, account-SessionLaws, account-UserLaws, account_sessions, account_users, account_view,
  plain_bcrypt, session_rows, user_rows,
}
use fcstask_backend.Tests.AccountTests.{ann, ann_signs_in, with_ann}

abbrev parse_number : String → Option Uuid
parse_number text = if str_eq text "1" then some 1 else none

abbrev profile : Request
profile = record { path = "/v1/me"; authorization = "Bearer 1" }

abbrev greet : Option (User × Session) → Accounts → String × Accounts
greet none d = ("nobody", d)
greet (some (user, session)) d = (user.username, d)

account-LookupLaws : LookupLaws account_users account_sessions user_rows session_rows
account-LookupLaws = record { get_user = λ id d. inr refl; get_session = λ id d. inr refl }

abbrev ann_signed_in : Accounts
ann_signed_in =
    (sign_in_body plain_bcrypt account_users account_sessions (ann_signs_in "secret") with_ann).1

abbrev ann_result : AuthResult
ann_result = record {
  user = ann;
  session = record { id = 1; user_id = 1; ip = "10.0.0.1"; user_agent = "cli" };
}

signs_in :
    (sign_in_body plain_bcrypt account_users account_sessions (ann_signs_in "secret") with_ann).0
    ≡ ok ann_result
unfolding sign_in_body authenticate create_session ◌>>=◌
signs_in = refl

profile_token : bearer_token "Bearer 1" ≡ some "1"
unfolding bearer_token
profile_token = refl

short_header : bearer_token "Basic" ≡ none
unfolding bearer_token
short_header = refl

-- Before the sign-in the session is not there, after it the handler greets its user.
not_signed_in :
    (auth parse_number account_users account_sessions ("/v1/me" ∷ []) greet profile with_ann).0
    ≡ inl (auth_error "Session not found")
unfolding auth identify bearer_token
not_signed_in = refl

greeted :
    (auth parse_number account_users account_sessions ("/v1/me" ∷ []) greet profile ann_signed_in).0
    ≡ inr "ann"
unfolding auth identify bearer_token sign_in_body authenticate create_session ◌>>=◌
greeted = refl

auth-Guarded_example :
    Guarded parse_number account_users account_sessions user_rows session_rows account-LookupLaws
      greet profile ann_signed_in
      (auth parse_number account_users account_sessions ("/v1/me" ∷ []) greet profile ann_signed_in)
auth-Guarded_example =
    auth-Guarded parse_number account_users account_sessions user_rows session_rows
      account-LookupLaws ("/v1/me" ∷ []) greet profile ann_signed_in refl

signed_in-Identified_example :
    Faulty (account_sessions.get_session_by_id 1 ann_signed_in)
    ⊎ (Faulty (account_users.get_user_by_id 1 ann_signed_in)
        ⊎ (identify parse_number account_users account_sessions profile ann_signed_in
            ≡ admitted ann ann_result.session))
signed_in-Identified_example =
    signed_in-Identified parse_number plain_bcrypt account_users account_sessions user_rows
      session_rows account_view account-UserLaws account-SessionLaws account-LookupLaws
      (ann_signs_in "secret") with_ann ann_signed_in ann_result profile "1" signs_in profile_token
      refl refl refl
