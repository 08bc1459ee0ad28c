-- ===== src/Service/Auth/SignUp.antt =====
-- Signing up: the account first, and then its session.
use fcstask_backend.Errors.Action.{Action, Result, continue, err, ok, ◌>>=◌}
use fcstask_backend.Errors.Ensures.{
  Ended, Ensures, lift_step, or_else-eq-ok, query_step, refuse_if-eq-ok, weaken,
}
use fcstask_backend.Errors.Outcomes.{value_step, with_state, wrapped_step}
use fcstask_backend.Errors.Settles.{Settled}
use fcstask_backend.Metrics.World.{World}
use fcstask_backend.Middleware.Auth.{auth}
use fcstask_backend.Model.{Session, User, Uuid, uuid_nil}
use fcstask_backend.Prelude.{
  Option, String, ap, false, inl, inr, none, or_false, refl, str_eq, subst, sym, ◌≡◌,
}
use fcstask_backend.Repo.Role.Interface.{RoleView}
use fcstask_backend.Repo.Stored.{Inserted}
use fcstask_backend.Repo.User.{
  KeepsSessions, SessionLaws, SessionRepo, UserLaws, UserRepo, session_table, user_table,
}
use fcstask_backend.Service.Auth.{
  AuthMetrics, AuthResult, Bcrypt, SessionMetrics, SignUpInput, auth_outcome, count_created,
  create_session, if_given, sign_up, sign_up_body, sign_up_user,
}
use fcstask_backend.Service.User.Accounts.{IsNew, passed-IsNew}

module _ {D A B : Type 0} (d : D) (R : A → D → Type 0) (P : B → D → Type 0) (Q : D → Type 0) where
  after-Ended : (x : Result B × D) (d1 : D) → Q d1 → Ended d1 P x → Settled d P Q x
  after-Ended (ok b, d') d1 q p = p
  after-Ended (err e, d') d1 q p = inr (subst Q (sym p) q)

  -- Two calls that write: the second may fail with the first one's write done.
  both-Settled :
      (m : Action D A) (f : A → Action D B)
      → Ensures d R m
      → ((a : A) (d1 : D) → R a d1 → Q d1)
      → ((a : A) (d1 : D) → R a d1 → Ensures d1 P (f a))
      → Settled d P Q ((m >>= f) d)
  unfolding ◌>>=◌
  both-Settled m f first left next = go (m d) first.ended
    where
      go : (x : Result A × D) → Ended d R x → Settled d P Q (continue x.0 f x.1)
      go (ok a, d1) r = after-Ended (f a d1) d1 (left a d1 r) (next a d1 r).ended
      go (err e, d1) r = inl r

both-Ended :
    {D A : Type 0} (d : D) (P Q : A → D → Type 0) (x : Result A × D)
    → Ended d P x
    → Ended d Q x
    → Ended d (λ a d'. P a d' × Q a d') x
both-Ended d P Q (ok a, d') p q = (p, q)
both-Ended d P Q (err e, d') p q = p

both-Ensures :
    {D A : Type 0} {d : D} {P Q : A → D → Type 0} {m : Action D A}
    → Ensures d P m
    → Ensures d Q m
    → Ensures d (λ a d'. P a d' × Q a d') m
both-Ensures {D} {A} {d} {P} {Q} {m} p q = record { ended = both-Ended d P Q (m d) p.ended q.ended }

module _ {D : Type 0} (bcrypt : Bcrypt) (users : UserRepo D) (sessions : SessionRepo D)
    (rows : D → Uuid → Option User) (session_rows : D → Uuid → Option Session) (view : RoleView D)
    (laws : UserLaws users rows view)
    (session_laws : SessionLaws sessions session_rows rows view) where
  -- One new account: with a name, an email and a password that were given, the first two of
  -- which nobody had, and the hash that bcrypt made of the
  -- third.
  pub record Opened (account : Uuid) (input : SignUpInput) (d : D) (user : User) (d' : D)
      : Type 0 where
    pub username_given : str_eq input.username "" ≡ false
    pub password_given : str_eq input.password "" ≡ false
    pub email_given : str_eq input.email "" ≡ false
    pub new : IsNew rows d input.email input.username
    pub hash : String
    pub hashed : bcrypt.generate input.password ≡ ok hash
    pub inserted :
        Inserted
          (user_table rows)
          view
          d
          (record {
            id = uuid_nil;
            email = input.email;
            username = input.username;
            password_hash = hash;
            first_name = none;
            last_name = none;
            tg_uid = input.tg_uid;
            user_id = account;
          })
          user
          d'

  abbrev SameSessions : D → D → Type 0
  SameSessions d d' = (id : Uuid) → session_rows d' id ≡ session_rows d id

  -- The account, and one new session, which is its own: to the database with the account, whose sessions
  -- are those of before, one session is added, and its users stay.
  pub record SignedUp (account : Uuid) (input : SignUpInput) (d : D) (result : AuthResult) (d' : D)
      : Type 0 where
    pub between : D
    pub opened : Opened account input d result.user between
    pub same_sessions : SameSessions d between
    pub same_users : (id : Uuid) → rows d' id ≡ rows between id
    pub own_session : result.session.user_id ≡ result.user.id
    pub inserted :
        Inserted
          (session_table session_rows)
          view
          between
          (record {
            id = uuid_nil;
            user_id = result.user.id;
            ip = input.ip;
            user_agent = input.user_agent;
          })
          result.session
          d'

  -- What a failed sign-up may leave: an account, and the sessions as they were.
  abbrev pub OnlyOpened : Uuid → SignUpInput → D → D → Type 0
  OnlyOpened account input d d' = (user : User) × Opened account input d user d' × SameSessions d d'

  sign_up_user-Opened :
      (account : Uuid) (input : SignUpInput) (d : D)
      → Ensures d (Opened account input d) (sign_up_user bcrypt users sessions account input)
  unfolding sign_up_user
  sign_up_user-Opened account input d = lift_step _ _ λ _ valid. query_step _ _ λ _ email.
      query_step _ _ λ _ username. lift_step _ _ λ hash made. wrapped_step _ _ (
        weaken (laws.creates _ d) λ user d' i.
          let (names, email_given) = or_false _ _ (refuse_if-eq-ok _ _ valid) in
          let (username_given, password_given) = or_false _ _ names in
          record {
            username_given = username_given;
            password_given = password_given;
            email_given = email_given;
            new = passed-IsNew users rows view laws d input.email input.username email username;
            hash = hash;
            hashed = or_else-eq-ok _ _ made;
            inserted = i;
          })

  sign_up_user-SameSessions :
      KeepsSessions users session_rows
      → (account : Uuid) (input : SignUpInput) (d : D)
      → Ensures d (λ _. SameSessions d) (sign_up_user bcrypt users sessions account input)
  unfolding sign_up_user
  sign_up_user-SameSessions kept account input d = lift_step _ _ λ _ _. query_step _ _ λ _ _.
      query_step _ _ λ _ _. lift_step _ _ λ hash _. wrapped_step _ _ (
        weaken (with_state {Q = SameSessions d} _ (laws.creates _ d) (λ id. kept _ d id))
          λ _ _ i. i.1)

  sign_up_body-Settled :
      KeepsSessions users session_rows
      → (account : Uuid) (input : SignUpInput) (d : D)
      → Settled d
          (SignedUp account input d)
          (OnlyOpened account input d)
          (sign_up_body bcrypt users sessions account input d)
  unfolding sign_up_body create_session
  sign_up_body-Settled kept account input d =
      both-Settled d (λ user d1. Opened account input d user d1 × SameSessions d d1)
        (SignedUp account input d) (OnlyOpened account input d)
        (sign_up_user bcrypt users sessions account input) _
        (both-Ensures (sign_up_user-Opened account input d)
          (sign_up_user-SameSessions kept account input d))
        (λ user d1 o. (user, o.0, o.1))
        λ user d1 o.
          value_step _ _ _
            (with_state {Q = λ d'. (id : Uuid) → rows d' id ≡ rows d1 id} _
              (session_laws.creates _ d1) (λ id. session_laws.users_kept _ d1 id))
            λ session d' i. record {
              between = d1;
              opened = o.0;
              same_sessions = o.1;
              same_users = i.1;
              own_session = ap (λ s. s.user_id) i.0.filled;
              inserted = i.0;
            }

  -- Where creating a user leaves the stored sessions alone: a sign-up returns one new account, with an
  -- email and a username that nobody had and the hash of the password that was given, and adds one
  -- session, which is his, to the sessions of before; or it fails and the database is as it was or, the
  -- one other case, has exactly that account more and the sessions of before. The attempt is counted
  -- with its outcome, and the session just where there is one.
  pub sign_up-Settled :
      {M : Type 0} (auth : Option (AuthMetrics M)) (session_metrics : Option (SessionMetrics M))
      (w : World D M) (account : Uuid) (input : SignUpInput)
      → KeepsSessions users session_rows
      → let call = sign_up bcrypt users sessions auth session_metrics account input w in
        Settled w.db
          (SignedUp account input w.db)
          (OnlyOpened account input w.db)
          (call.0, call.1.db)
        × (call.1.metrics
            ≡ if_given auth
                (λ a. a.inc_signup (auth_outcome call.0))
                (count_created bcrypt users sessions auth session_metrics call.0 w.metrics))
  unfolding sign_up
  sign_up-Settled auth session_metrics w account input kept =
      (sign_up_body-Settled kept account input w.db, refl)
