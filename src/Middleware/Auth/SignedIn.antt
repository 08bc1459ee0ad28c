-- ===== src/Middleware/Auth/SignedIn.antt =====
-- From a sign-in to the requests with its session.
use fcstask_backend.Errors.Action.{ok}
use fcstask_backend.Errors.Ensures.{Ended-ok}
use fcstask_backend.Middleware.Auth.{
  Request, admitted, bearer_token, identify, of_session, of_session_id, of_token, of_user,
}
use fcstask_backend.Middleware.Auth.Guards.{LookupLaws}
use fcstask_backend.Model.{Session, User, Uuid}
use fcstask_backend.Prelude.{==_iff, Option, String, ap, inl, inr, refl, some, ◌∙◌, ◌≡◌, ◌⊎◌}
use fcstask_backend.Repo.Role.Interface.{Faulty, RoleView, found}
use fcstask_backend.Repo.User.{SessionLaws, SessionRepo, UserLaws, UserRepo}
use fcstask_backend.Service.Auth.{AuthResult, Bcrypt, SignInInput, sign_in_body}
use fcstask_backend.Service.Auth.Methods.{SignedIn, sign_in_body-SignedIn}

module _ {D : Type 0} (parse_uuid : String → Option Uuid) (bcrypt : Bcrypt) (users : UserRepo D)
    (sessions : SessionRepo D) (rows : D → Uuid → Option User)
    (session_rows : D → Uuid → Option Session) (view : RoleView D) (laws : UserLaws users rows view)
    (session_laws : SessionLaws sessions session_rows rows view)
    (lookups : LookupLaws users sessions rows session_rows) where
  -- The session and its user are stored after the sign-in.
  session_stored :
      (input : SignInInput) (d d' : D) (result : AuthResult)
      → SignedIn bcrypt users sessions rows session_rows view laws session_laws input d result d'
      → session_rows d' result.session.id ≡ some result.session
  session_stored input d d' result s =
      s.inserted.rows_after result.session.id
      ∙ rw ((==_iff result.session.id result.session.id).1 refl) refl

  user_stored :
      (input : SignInInput) (d d' : D) (result : AuthResult)
      → SignedIn bcrypt users sessions rows session_rows view laws session_laws input d result d'
      → rows d' result.session.user_id ≡ some result.user
  user_stored input d d' result s =
      ap (rows d') s.own_session ∙ s.same_users result.user.id ∙ s.stored

  -- Requests are identified on a replica of the database that the sign-in writes. After a sign-in that
  -- succeeds, once the replica holds for the returned session's id and for its user's id the rows that
  -- the database holds, a request whose bearer token is the id of the session is identified as the
  -- returned user with this session, unless the replica fails to read one of the two.
  pub signed_in-Identified :
      (input : SignInInput) (d replica : D) (result : AuthResult) (request : Request)
      (token : String)
      → (sign_in_body bcrypt users sessions input d).0 ≡ ok result
      → bearer_token request.authorization ≡ some token
      → parse_uuid token ≡ some result.session.id
      → session_rows replica result.session.id
        ≡ session_rows (sign_in_body bcrypt users sessions input d).1 result.session.id
      → rows replica result.session.user_id
        ≡ rows (sign_in_body bcrypt users sessions input d).1 result.session.user_id
      → Faulty (sessions.get_session_by_id result.session.id replica)
        ⊎ (Faulty (users.get_user_by_id result.session.user_id replica)
            ⊎ (identify parse_uuid users sessions request replica
                ≡ admitted result.user result.session))
  unfolding identify
  signed_in-Identified input d replica result request token returned given parsed has_session
        has_user =
      let d' = (sign_in_body bcrypt users sessions input d).1 in
      let s =
        Ended-ok d d'
          (SignedIn bcrypt users sessions rows session_rows view laws session_laws input d)
          (sign_in_body bcrypt users sessions input d).0
          (sign_in_body-SignedIn bcrypt users sessions rows session_rows view laws session_laws
            input d).ended
          returned in
      elim (lookups.get_session result.session.id replica) [
        | inl fault ↦ inl fault
        | inr session ↦ elim (lookups.get_user result.session.user_id replica) [
          | inl fault ↦ inr (inl fault)
          | inr user ↦ inr (
              inr (
                ap (λ o. of_token parse_uuid users sessions o replica) given
                ∙ ap (λ o. of_session_id parse_uuid users sessions o replica) parsed
                ∙ ap (λ r. of_session parse_uuid users sessions r replica)
                    (session ∙ ap found (has_session ∙ session_stored input d d' result s))
                ∙ ap (of_user parse_uuid users sessions result.session)
                    (user ∙ ap found (has_user ∙ user_stored input d d' result s))))
        ]
      ]
