-- ===== src/Service/User/Accounts.antt =====
-- Accounts stay apart: no two stored users share an email or a username.
-- Two users that share one are the same.
use fcstask_backend.Errors.{Error}
use fcstask_backend.Errors.Action.{Result, bind, err, ok, or_else, refuse_if}
use fcstask_backend.Errors.Ensures.{Ensures, lift_step, query_step, refuse_if-eq-ok, weaken}
use fcstask_backend.Errors.Outcomes.{wrapped_step}
use fcstask_backend.Model.{User, Uuid, uuid_nil}
use fcstask_backend.Prelude.{
  ==_iff, Bool, Bool-cases, Option, String, ap, false, false≢true, inl, inr, or_false, refl, some,
  str_eq, str_eq_comm, subst, sym, true, ◌==◌, ◌∙◌, ◌≡◌, ◌⊎◌,
}
use fcstask_backend.Repo.Role.Interface.{RoleView}
use fcstask_backend.Repo.Stored.{Inserted}
use fcstask_backend.Repo.User.{UserLaws, UserRepo, user_table}
use fcstask_backend.Service.User.{
  CreateUserInput, create_user, refuse_taken_email, refuse_taken_username,
}

abbrev pub Shared : User → User → Type 0
Shared u v = (str_eq u.email v.email ≡ true) ⊎ (str_eq u.username v.username ≡ true)

abbrev pub AreDistinct : {D : Type 0} → (D → Uuid → Option User) → D → Type 0
AreDistinct rows d =
    (i j : Uuid) (u v : User) → rows d i ≡ some u → rows d j ≡ some v → Shared u v → i ≡ j

-- Nobody stored has the email or the username.
abbrev pub IsNew : {D : Type 0} → (D → Uuid → Option User) → D → (email username : String) → Type 0
IsNew rows d email username =
    (id : Uuid) (u : User)
    → rows d id ≡ some u
    → (str_eq u.email email ≡ false) × (str_eq u.username username ≡ false)

not-Shared :
    (u sent : User)
    → (str_eq u.email sent.email ≡ false) × (str_eq u.username sent.username ≡ false)
    → Shared u sent
    → ⊥
not-Shared u sent h (inl e) = false≢true (sym h.0 ∙ e)
not-Shared u sent h (inr e) = false≢true (sym h.1 ∙ e)

swapped : (u v : User) → Shared u v → Shared v u
swapped u v (inl e) = inl (str_eq_comm v.email u.email ∙ e)
swapped u v (inr e) = inr (str_eq_comm v.username u.username ∙ e)

same_some : {a b : User} → some a ≡ some b → a ≡ b
same_some e = cc

-- A new account keeps the stored ones apart.
pub Inserted-AreDistinct :
    {D : Type 0} (rows : D → Uuid → Option User) (view : RoleView D) (d d' : D) (sent stored : User)
    → Inserted (user_table rows) view d sent stored d'
    → IsNew rows d sent.email sent.username
    → AreDistinct rows d
    → AreDistinct rows d'
Inserted-AreDistinct rows view d d' sent stored ins new all i j u v hu hv s =
    elim (Bool-cases (i == stored.id)) [
      | inl a ↦ elim (Bool-cases (j == stored.id)) [
        | inl b ↦ (==_iff i stored.id).0 a ∙ sym ((==_iff j stored.id).0 b)
        | inr b ↦ absurd (clash j v u (at_old j v b hv) (at_new i u a hu) (swapped u v s))
      ]
      | inr a ↦ elim (Bool-cases (j == stored.id)) [
        | inl b ↦ absurd (clash i u v (at_old i u a hu) (at_new j v b hv) s)
        | inr b ↦ all i j u v (at_old i u a hu) (at_old j v b hv) s
      ]
    ]
  where
    at_old :
        (i : Uuid) (u : User) → (i == stored.id) ≡ false → rows d' i ≡ some u → rows d i ≡ some u
    at_old i u a h = sym (rw a refl) ∙ sym (ins.rows_after i) ∙ h

    at_new : (i : Uuid) (u : User) → (i == stored.id) ≡ true → rows d' i ≡ some u → stored ≡ u
    at_new i u a h = same_some (sym (rw a refl) ∙ sym (ins.rows_after i) ∙ h)

    clash : (k : Uuid) (x y : User) → rows d k ≡ some x → stored ≡ y → Shared x y → ⊥
    clash k x y h e s =
        not-Shared x sent (new k x h)
          (subst (λ z. Shared x z) ins.filled (subst (λ z. Shared x z) (sym e) s))

refused_taken :
    (r : Result Bool) (wrap : Error → Error) (e : Error) {u : Unit {0}}
    → bind (or_else r wrap) (λ exists. refuse_if exists e) ≡ ok u
    → r ≡ ok false
refused_taken (ok true) wrap e h = cc
refused_taken (ok false) wrap e h = refl
refused_taken (err x) wrap e h = cc

module _ {D : Type 0} (users : UserRepo D) (rows : D → Uuid → Option User) (view : RoleView D)
    (laws : UserLaws users rows view) where
  -- What passed the two tests of uniqueness is new.
  pub passed-IsNew :
      (d : D) (email username : String) {a b : Unit {0}}
      → refuse_taken_email users email d ≡ ok a
      → refuse_taken_username users username d ≡ ok b
      → IsNew rows d email username
  unfolding refuse_taken_email refuse_taken_username
  passed-IsNew d email username h k id u stored = (
    laws.free_email email d id u (refused_taken _ _ _ h) stored,
    laws.free_username username d id u (refused_taken _ _ _ k) stored,
  )

  -- What `CreateUser` leaves: one new account, whose email and username nobody had.
  pub record CreatedUser (input : CreateUserInput) (d : D) (user : User) (d' : D) : Type 0 where
    pub email_given : str_eq user.email "" ≡ false
    pub username_given : str_eq user.username "" ≡ false
    pub new : IsNew rows d user.email user.username
    pub inserted :
        Inserted
          (user_table rows)
          view
          d
          (record {
            id = uuid_nil;
            email = input.email;
            username = input.username;
            password_hash = "";
            first_name = input.first_name;
            last_name = input.last_name;
            tg_uid = input.tg_uid;
            user_id = input.user_id;
          })
          user
          d'

  -- `CreateUser` fails and leaves the database as it was, or exactly one account is new: the input
  -- under a fresh id, with an email and a username that were given and that no stored account had.
  pub create_user-Created :
      (input : CreateUserInput) (d : D) → Ensures d (CreatedUser input d) (create_user users input)
  unfolding create_user
  create_user-Created input d = lift_step _ _ λ _ valid. query_step _ _ λ _ email.
      query_step _ _ λ _ username. query_step _ _ λ _ _. wrapped_step _ _ (
        weaken (laws.creates _ d) λ user d' i.
          let (given, _) = or_false _ _ (refuse_if-eq-ok _ _ valid) in
          record {
            email_given = ap (λ x. str_eq x.email "") i.filled ∙ (or_false _ _ given).0;
            username_given = ap (λ x. str_eq x.username "") i.filled ∙ (or_false _ _ given).1;
            new =
                subst (λ z. IsNew rows d z.email z.username) (sym i.filled)
                  (passed-IsNew d input.email input.username email username);
            inserted = i;
          })
