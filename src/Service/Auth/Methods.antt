-- ===== src/Service/Auth/Methods.antt =====
-- Signing in and out: who gets a session, and what a refusal tells.
use fcstask_backend.Errors.{Error, bad_request, is_record_not_found, unauthorized}
use fcstask_backend.Errors.Action.{Result, bind, err, ok, or_else, refuse_if}
use fcstask_backend.Errors.Ensures.{Ensures, bind-eq-ok, or_else-eq-ok, query_step}
use fcstask_backend.Errors.Outcomes.{if_ok, value_step, with_state}
use fcstask_backend.Metrics.Serves.{Serves, deferring-Serves}
use fcstask_backend.Metrics.World.{World}
use fcstask_backend.Middleware.Auth.{auth}
use fcstask_backend.Model.{Session, User, Uuid, uuid_nil}
use fcstask_backend.Prelude.{
  Bool, Bool-cases, Option, String, ap, false, if◌then◌else◌, inl, inr, none, not, refl, some,
  str_eq, subst, sym, true, ◌∙◌, ◌≡◌,
}
use fcstask_backend.Repo.Role.Interface.{Faulty, RoleView}
use fcstask_backend.Repo.Stored.{Inserted}
use fcstask_backend.Repo.User.{SessionLaws, SessionRepo, UserLaws, UserRepo, session_table}
use fcstask_backend.Service.Auth.{
  AuthMetrics, AuthResult, Bcrypt, SessionMetrics, SignInInput, auth_outcome, authenticate,
  count_created, create_session, if_given, is_named, named_user, not_identified, sign_in,
  sign_in_body,
}

module _ {D : Type 0} (bcrypt : Bcrypt) (users : UserRepo D) (sessions : SessionRepo D)
    (rows : D → Uuid → Option User) (session_rows : D → Uuid → Option Session) (view : RoleView D)
    (laws : UserLaws users rows view)
    (session_laws : SessionLaws sessions session_rows rows view) where
  -- The user has the email that was given, or else the username.
  abbrev pub IsNamed : Option String → Option String → User → Type 0
  IsNamed (some email) username user = str_eq user.email email ≡ true
  IsNamed none (some username) user = str_eq user.username username ≡ true
  IsNamed none none user = ⊥

  -- `SignIn`: the user is stored, is the one named, and the password fits his hash; one session is new,
  -- and it is his. The users are as they were.
  pub record SignedIn (input : SignInInput) (d : D) (result : AuthResult) (d' : D) : Type 0 where
    pub stored : rows d result.user.id ≡ some result.user
    pub named : IsNamed input.email input.username result.user
    pub password_fits : bcrypt.compare result.user.password_hash input.password ≡ true
    pub own_session : result.session.user_id ≡ result.user.id
    pub same_users : (id : Uuid) → rows d' id ≡ rows d id
    pub inserted :
        Inserted
          (session_table session_rows)
          view
          d
          (record {
            id = uuid_nil;
            user_id = result.user.id;
            ip = input.ip;
            user_agent = input.user_agent;
          })
          result.session
          d'

  named_user-stored :
      (email username : Option String) (d : D) {user : User}
      → named_user bcrypt users sessions email username d ≡ ok user
      → (rows d user.id ≡ some user) × IsNamed email username user
  named_user-stored (some email) username d h = laws.by_email email d h
  named_user-stored none (some username) d h = laws.by_username username d h
  named_user-stored none none d h = cc

  authenticate-found :
      (input : SignInInput) (d : D) {user : User}
      → authenticate bcrypt users sessions input d ≡ ok user
      → (rows d user.id ≡ some user)
        × IsNamed input.email input.username user
        × (bcrypt.compare user.password_hash input.password ≡ true)
  unfolding authenticate
  authenticate-found input d {user} h =
      let (_, _, h1) =
        bind-eq-ok (refuse_if (str_eq input.password "") (bad_request "Password is required")) _
          h in
      let (_, _, h2) =
        bind-eq-ok
          (refuse_if (not (is_named bcrypt users sessions input.email input.username))
            (bad_request "Email or username is required"))
          _ h1 in
      let (x, read, tested) =
        bind-eq-ok
          (or_else (named_user bcrypt users sessions input.email input.username d) not_identified) _
          h2 in
      let (fits, same) = if_ok _ _ _ tested in
      let was = named_user-stored input.email input.username d (or_else-eq-ok _ _ read) in
      subst
        (λ y.
          (rows d y.id ≡ some y)
          × IsNamed input.email input.username y
          × (bcrypt.compare y.password_hash input.password ≡ true))
        same (was.0, was.1, fits)

  pub sign_in_body-SignedIn :
      (input : SignInInput) (d : D)
      → Ensures d (SignedIn input d) (sign_in_body bcrypt users sessions input)
  unfolding sign_in_body create_session
  sign_in_body-SignedIn input d = query_step _ _ λ user read.
      let was = authenticate-found input d read in
      value_step _ _ _
        (with_state {Q = λ d'. (id : Uuid) → rows d' id ≡ rows d id} _ (session_laws.creates _ d)
          (λ id. session_laws.users_kept _ d id))
        λ session d' i. record {
          stored = was.0;
          named = was.1;
          password_fits = was.2;
          own_session = ap (λ s. s.user_id) i.0.filled;
          same_users = i.1;
          inserted = i.0;
        }

  -- A sign-in fails and leaves the database as it was, or the user is stored, has the email that was
  -- given or else the username, and the password fits his hash; then exactly one session is new, and
  -- it is his, and no user changes. The attempt is counted with its outcome, and the session just where there is one.
  pub sign_in-Serves :
      {M : Type 0} (auth : Option (AuthMetrics M)) (session_metrics : Option (SessionMetrics M))
      (w : World D M) (input : SignInInput)
      → Serves w
          (SignedIn input w.db)
          (λ r m.
            if_given auth
              (λ a. a.inc_sign_in (auth_outcome r))
              (count_created bcrypt users sessions auth session_metrics r m))
          (sign_in bcrypt users sessions auth session_metrics input)
  unfolding sign_in
  sign_in-Serves auth session_metrics w input =
      deferring-Serves w _ _ (sign_in_body-SignedIn input w.db)

  same_err : {a b : Error} → ◌≡◌ {A = Result User} (err a) (err b) → a ≡ b
  same_err h = cc

  authenticated : SignInInput → Result User → Result User
  authenticated input r = bind (or_else r not_identified) λ user.
      if bcrypt.compare user.password_hash input.password
      then ok user
      else err (unauthorized "Invalid credentials")

  -- Past the checks of the input, a refusal that is no failure of the database is always this one.
  authenticated-refusal :
      (input : SignInInput) (r : Result User) (e : Error)
      → ¬ Faulty r
      → authenticated input r ≡ err e
      → e ≡ unauthorized "Invalid credentials"
  unfolding authenticated
  authenticated-refusal input (ok user) e works h =
      tested (bcrypt.compare user.password_hash input.password) h
    where
      tested :
          (fits : Bool)
          → (if fits then ok user else err (unauthorized "Invalid credentials")) ≡ err e
          → e ≡ unauthorized "Invalid credentials"
      tested true h = cc
      tested false h = cc
  authenticated-refusal input (err x) e works h = elim (Bool-cases (is_record_not_found x)) [
    | inl absent ↦ same_err (sym h) ∙ rw absent refl
    | inr fault ↦ absurd (works fault)
  ]

  -- Two sign-ins with the same input, on any two databases in neither of which the lookup of the user
  -- fails: where both are refused, they are refused with the same error. So a refusal does not tell
  -- whether the account exists or only the password is wrong.
  pub authenticate-same_refusal :
      (input : SignInInput) (d1 d2 : D) (e1 e2 : Error)
      → ¬ Faulty (named_user bcrypt users sessions input.email input.username d1)
      → ¬ Faulty (named_user bcrypt users sessions input.email input.username d2)
      → authenticate bcrypt users sessions input d1 ≡ err e1
      → authenticate bcrypt users sessions input d2 ≡ err e2
      → e1 ≡ e2
  unfolding authenticate authenticated
  authenticate-same_refusal input d1 d2 e1 e2 works1 works2 h1 h2 =
      checked (str_eq input.password "")
        (not (is_named bcrypt users sessions input.email input.username)) h1 h2
    where
      answer : (b c : Bool) → D → Result User
      answer b c d = bind (refuse_if b (bad_request "Password is required")) λ _.
          bind (refuse_if c (bad_request "Email or username is required"))
            λ _. authenticated input (named_user bcrypt users sessions input.email input.username d)

      checked : (b c : Bool) → answer b c d1 ≡ err e1 → answer b c d2 ≡ err e2 → e1 ≡ e2
      checked true c a1 a2 = same_err (sym a1 ∙ a2)
      checked false true a1 a2 = same_err (sym a1 ∙ a2)
      checked false false a1 a2 =
          authenticated-refusal input _ e1 works1 a1
          ∙ sym (authenticated-refusal input _ e2 works2 a2)
