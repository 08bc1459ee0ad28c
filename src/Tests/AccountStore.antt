-- ===== src/Tests/AccountStore.antt =====
-- Users and sessions in memory, searched row by row: an instance of the laws of both repositories.
use fcstask_backend.Errors.Action.{ok}
use fcstask_backend.Errors.Ensures.{same_ok}
use fcstask_backend.Errors.Outcomes.{after}
use fcstask_backend.Model.{Session, User, Uuid}
use fcstask_backend.Prelude.{
  ==_iff, Bool, Bool-cases, Option, String, [], ap, arith, false, if◌then◌else◌, inl, inr, ltb,
  none, refl, some, str_eq, suc, sym, true, zero, ℕ, ◌<◌, ◌==◌, ◌∙◌, ◌≡◌, ◌≤◌,
}
use fcstask_backend.Prelude.Int.{eq_ℤ, pos, ℤ}
use fcstask_backend.Repo.Role.Interface.{RoleView, found}
use fcstask_backend.Repo.User.{SessionLaws, SessionRepo, UserLaws, UserRepo}
use fcstask_backend.Service.Auth.{Bcrypt}
use fcstask_backend.Tests.Memory.{Memory, delete_row, insert_row, memory-RowLaws}

abbrev pub user_id_of : User → Uuid
user_id_of user = user.id

abbrev pub session_id_of : Session → Uuid
session_id_of session = session.id

pub record Accounts : Type 0 where
  pub users : Memory user_id_of
  pub sessions : Memory session_id_of

abbrev pub set_users : Memory user_id_of → Accounts → Accounts
set_users m d = record d { users = m }

abbrev pub set_sessions : Memory session_id_of → Accounts → Accounts
set_sessions m d = record d { sessions = m }

abbrev pub numbered_user : Uuid → User → User
numbered_user id user = record user { id = id }

abbrev pub numbered_session : Uuid → Session → Session
numbered_session id session = record session { id = id }

-- One row under test, and what is found after it.
abbrev pub or_later : (User → Bool) → Option User → Option User → Option User
or_later test none later = later
or_later test (some user) later = if test user then some user else later

-- The first row that passes, from the ids below `n` downwards.
abbrev pub search : (User → Bool) → (Uuid → Option User) → (n : ℕ) → Option User
search test rows zero = none
search test rows (suc n) = or_later test (rows n) (search test rows n)

same_some : {a b : User} → some a ≡ some b → a ≡ b
same_some e = cc

module _ (test : User → Bool) (rows : Uuid → Option User) where
  or_later-found :
      (here later : Option User) (P : User → Type 0) {user : User}
      → ((x : User) → here ≡ some x → test x ≡ true → P x)
      → ((x : User) → later ≡ some x → P x)
      → or_later test here later ≡ some user
      → P user
  or_later-found none later P now after h = after _ h
  or_later-found (some x) later P now after h = elim (Bool-cases (test x)) [
    | inl e ↦ now _ (sym (rw e refl) ∙ h) (ap test (sym (same_some (sym (rw e refl) ∙ h))) ∙ e)
    | inr e ↦ after _ (sym (rw e refl) ∙ h)
  ]

  pub search-found :
      (n : ℕ) {user : User}
      → ((id : Uuid) (x : User) → rows id ≡ some x → x.id ≡ id)
      → search test rows n ≡ some user
      → (rows user.id ≡ some user) × (test user ≡ true)
  search-found zero own h = cc
  search-found (suc n) own h =
      or_later-found (rows n) (search test rows n) (λ x. (rows x.id ≡ some x) × (test x ≡ true))
        (λ x e t. (ap rows (own n x e) ∙ e, t)) (λ x e. search-found n own e) h

  or_later-none :
      (here later : Option User) (x : User)
      → or_later test here later ≡ none
      → here ≡ some x
      → test x ≡ false
  or_later-none none later x h e = cc
  or_later-none (some y) later x h e = elim (Bool-cases (test y)) [
    | inl t ↦ absurd (nothing (sym (rw t refl) ∙ h))
    | inr t ↦ ap test (sym (same_some e)) ∙ t
  ]
    where
      nothing : some y ≡ none → ⊥
      nothing e = cc

  or_later-rest : (here later : Option User) → or_later test here later ≡ none → later ≡ none
  or_later-rest none later h = h
  or_later-rest (some y) later h = elim (Bool-cases (test y)) [
    | inl t ↦ absurd (nothing (sym (rw t refl) ∙ h))
    | inr t ↦ sym (rw t refl) ∙ h
  ]
    where
      nothing : some y ≡ none → ⊥
      nothing e = cc

  pub search-none :
      (n : ℕ)
      → search test rows n ≡ none
      → (id : Uuid) (x : User) → id < n
      → rows id ≡ some x
      → test x ≡ false
  search-none zero h id x lt e = absurd (omega (arith, lt))
  search-none (suc n) h id x lt e = elim (Bool-cases (id == n)) [
    | inl s ↦
        or_later-none (rows n) (search test rows n) x h (ap rows (sym ((==_iff id n).0 s)) ∙ e)
    | inr s ↦ search-none n (or_later-rest (rows n) (search test rows n) h) id x (below id n lt s) e
  ]
    where
      below : (a b : ℕ) → a < suc b → (a == b) ≡ false → a < b
      below a b lt s = ground arith

abbrev pub is_some : Option User → Bool
is_some none = false
is_some (some user) = true

is_some-false : (o : Option User) → is_some o ≡ false → o ≡ none
is_some-false none h = refl
is_some-false (some user) h = cc

found-ok : (o : Option User) {user : User} → found o ≡ ok user → o ≡ some user
found-ok none h = cc
found-ok (some x) h = ap some (same_ok h)

abbrev pub has_email : String → User → Bool
has_email email user = str_eq user.email email

abbrev pub has_username : String → User → Bool
has_username username user = str_eq user.username username

abbrev pub has_tg_uid : ℤ → User → Bool
has_tg_uid tg_uid user = elim user.tg_uid [ none ↦ false | some x ↦ eq_ℤ x tg_uid ]

abbrev pub search_users : (User → Bool) → Accounts → Option User
search_users test d = search test d.users.rows d.users.next

abbrev pub account_users : UserRepo Accounts
account_users = record {
  create_user = insert_row user_id_of (λ d. d.users) set_users numbered_user (λ id user. refl);
  get_user_by_id = λ id d. found (d.users.rows id);
  get_user_by_email = λ email d. found (search_users (has_email email) d);
  get_user_by_username = λ username d. found (search_users (has_username username) d);
  get_user_by_tg_uid = λ tg_uid d. found (search_users (has_tg_uid tg_uid) d);
  get_users_with_sessions = λ limit offset d. ok [];
  count_users_with_sessions = λ d. ok (pos 0);
  exists_user_by_email = λ email d. ok (is_some (search_users (has_email email) d));
  exists_user_by_username = λ username d. ok (is_some (search_users (has_username username) d));
}

abbrev pub account_sessions : SessionRepo Accounts
account_sessions = record {
  create_session =
      insert_row session_id_of (λ d. d.sessions) set_sessions numbered_session (λ id session. refl);
  get_session_by_id = λ id d. found (d.sessions.rows id);
  get_sessions_with_user = λ limit offset d. ok [];
  count_sessions = λ d. ok (pos 0);
  touch_session_accessed_at = λ id d. (ok tt, d);
  delete_session =
      delete_row session_id_of (λ d. d.sessions) set_sessions numbered_session (λ id session. refl);
}

abbrev pub user_rows : Accounts → Uuid → Option User
user_rows d id = d.users.rows id

abbrev pub session_rows : Accounts → Uuid → Option Session
session_rows d id = d.sessions.rows id

-- The accounts hold no roles.
abbrev pub account_view : RoleView Accounts
account_view = record { role_of = λ d u c. none; granted = λ d r p. false }

found_by :
    (test : User → Bool) (d : Accounts) {user : User}
    → found (search_users test d) ≡ ok user
    → (user_rows d user.id ≡ some user) × (test user ≡ true)
found_by test d h =
    search-found test d.users.rows d.users.next d.users.own (found-ok (search_users test d) h)

free_of :
    (test : User → Bool) (d : Accounts) (id : Uuid) (user : User)
    → ok (is_some (search_users test d)) ≡ ok false
    → user_rows d id ≡ some user
    → test user ≡ false
free_of test d id user h stored = elim (Bool-cases (ltb id d.users.next)) [
  | inl lt ↦
      search-none test d.users.rows d.users.next (is_some-false (search_users test d) (same_ok h))
        id user (below id d.users.next lt) stored
  | inr le ↦ absurd (nothing (sym stored ∙ d.users.free id (beyond id d.users.next le)))
]
  where
    nothing : some user ≡ none → ⊥
    nothing e = cc

    below : (a b : ℕ) → ltb a b ≡ true → a < b
    below a b h = ground arith

    beyond : (a b : ℕ) → ltb a b ≡ false → b ≤ a
    beyond a b h = ground arith

pub account-UserLaws : UserLaws account_users user_rows account_view
account-UserLaws = record {
  creates =
      (memory-RowLaws user_id_of (λ d. d.users) set_users numbered_user (λ id x. refl) account_view
        (λ sent stored. record sent { id = stored.id }) (λ m d. refl)
        (λ m d. (λ u c. refl, λ r p. refl)) (λ id x. refl)).creates;
  by_email = λ email d h. found_by (has_email email) d h;
  by_username = λ username d h. found_by (has_username username) d h;
  free_email = λ email d id user h stored. free_of (has_email email) d id user h stored;
  free_username = λ username d id user h stored. free_of (has_username username) d id user h stored;
}

pub account-SessionLaws : SessionLaws account_sessions session_rows user_rows account_view
account-SessionLaws =
    let laws =
      memory-RowLaws session_id_of (λ d. d.sessions) set_sessions numbered_session (λ id x. refl)
        account_view (λ sent stored. record sent { id = stored.id }) (λ m d. refl)
        (λ m d. (λ u c. refl, λ r p. refl)) (λ id x. refl) in
    record { creates = laws.creates; users_kept = λ session d id. refl; deletes = laws.deletes }

-- A hash that is the password itself.
abbrev pub plain_bcrypt : Bcrypt
plain_bcrypt = record {
  generate = λ password. ok password;
  compare = λ hash password. str_eq hash password;
}
