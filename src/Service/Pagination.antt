-- ===== src/Service/Pagination.antt =====
-- internal/service/pagination.go and the lists that it cuts: session.go, stats.go, and the page of
-- user.go.
use fcstask_backend.Errors.{Error, bad_request, internal}
use fcstask_backend.Errors.Action.{Result, bind, err, ok, or_else}
use fcstask_backend.Errors.Ensures.{same_ok}
use fcstask_backend.Model.{PlatformStats, Session, User, Uuid, uuid_nil}
use fcstask_backend.Prelude.{
  Bool, Bool-cases, List, ap, arith, false, if◌then◌else◌, inl, inr, refl, subst, sym, true, ◌||◌,
  ◌∙◌, ◌≡◌, ◌⊎◌,
}
use fcstask_backend.Prelude.Int.{eq_ℤ, ltb_ℤ, pos, ℤ, ◌≤ℤ◌}
use fcstask_backend.Repo.Role.Interface.{RoleRepo}
use fcstask_backend.Repo.User.{SessionRepo, StatsRepo, UserRepo}
use fcstask_backend.Service.Permission.Check.{require_scoped_permission}
use fcstask_backend.Service.Permission.Names.{permission_stats_read}

abbrev pub default_limit : ℤ → ℤ
default_limit limit = if eq_ℤ limit (pos 0) then pos 20 else limit

unfoldable pub parse_pagination : ℤ → ℤ → Result (ℤ × ℤ)
parse_pagination limit offset =
    let limit' = default_limit limit in
    if ltb_ℤ limit' (pos 1) || ltb_ℤ (pos 100) limit'
    then err (bad_request "Limit must be between 1 and 100")
    else if ltb_ℤ offset (pos 0)
    then err (bad_request "Offset must be non-negative")
    else ok (limit', offset)

module _ {D : Type 0} (sessions : SessionRepo D) where
  unfoldable pub get_sessions : ℤ → ℤ → D → Result (List Session × ℤ)
  get_sessions limit offset d = bind (parse_pagination limit offset) λ page.
      bind (or_else (sessions.count_sessions d) (internal "Failed to count sessions")) λ total.
        bind
          (or_else (sessions.get_sessions_with_user page.0 page.1 d)
            (internal "Failed to get sessions"))
          λ found_sessions. ok (found_sessions, total)

module _ {D : Type 0} (users : UserRepo D) where
  unfoldable pub get_users_with_sessions : ℤ → ℤ → D → Result (List User × ℤ)
  get_users_with_sessions limit offset d = bind (parse_pagination limit offset) λ page.
      bind (or_else (users.count_users_with_sessions d) (internal "Failed to count users")) λ total.
        bind
          (or_else (users.get_users_with_sessions page.0 page.1 d)
            (internal "Failed to get users with sessions"))
          λ found_users. ok (found_users, total)

module _ {D : Type 0} (stats : StatsRepo D) (roles : RoleRepo D) where
  unfoldable pub get_stats : Uuid → D → Result PlatformStats
  get_stats user_id d =
      bind (require_scoped_permission roles user_id uuid_nil permission_stats_read d)
        λ _. or_else (stats.get_stats d) (internal "Failed to get platform stats")

-- A page that the repositories may be asked for.
pub record IsPage (page : ℤ × ℤ) : Type 0 where
  pub at_least_one : pos 1 ≤ℤ page.0
  pub at_most_hundred : page.0 ≤ℤ pos 100
  pub not_before : pos 0 ≤ℤ page.1

bounded-IsPage :
    (l o : ℤ)
    → (ltb_ℤ l (pos 1) || ltb_ℤ (pos 100) l) ≡ false
    → ltb_ℤ o (pos 0) ≡ false
    → IsPage (l, o)
bounded-IsPage l o h k = record {
  at_least_one = ground arith;
  at_most_hundred = ground arith;
  not_before = ground arith;
}

accepted :
    (l o : ℤ) (b c : Bool) (e f : Error) {page : ℤ × ℤ}
    → (ltb_ℤ l (pos 1) || ltb_ℤ (pos 100) l) ≡ b
    → ltb_ℤ o (pos 0) ≡ c
    → (if b then err e else if c then err f else ok (l, o)) ≡ ok page
    → IsPage page × (page.1 ≡ o) × (page.0 ≡ l)
accepted l o true c e f hb hc h = cc
accepted l o false true e f hb hc h = cc
accepted l o false false e f hb hc h = (
  subst IsPage (same_ok h) (bounded-IsPage l o hb hc),
  ap (λ p. p.1) (sym (same_ok h)),
  ap (λ p. p.0) (sym (same_ok h)),
)

limited :
    (limit : ℤ) {l : ℤ} → l ≡ default_limit limit → (l ≡ limit) ⊎ ((limit ≡ pos 0) × (l ≡ pos 20))
limited limit {l} h = elim (Bool-cases (eq_ℤ limit (pos 0))) [
  | inl e ↦ inr (zero_limit limit e, h ∙ defaulted e)
  | inr e ↦ inl (h ∙ kept e)
]
  where
    zero_limit : (l : ℤ) → eq_ℤ l (pos 0) ≡ true → l ≡ pos 0
    zero_limit l h = ground arith

    defaulted : eq_ℤ limit (pos 0) ≡ true → default_limit limit ≡ pos 20
    defaulted e = rw e refl

    kept : eq_ℤ limit (pos 0) ≡ false → default_limit limit ≡ limit
    kept e = rw e refl

-- For any limit and offset, what ParsePagination accepts is a page: a limit from 1 to 100 and an offset
-- of at least 0, the offset being the one asked for, and the limit too unless it was 0, which gives 20.
pub parse_pagination-IsPage :
    (limit offset : ℤ) {page : ℤ × ℤ}
    → parse_pagination limit offset ≡ ok page
    → IsPage page × (page.1 ≡ offset) × ((page.0 ≡ limit) ⊎ ((limit ≡ pos 0) × (page.0 ≡ pos 20)))
unfolding parse_pagination
parse_pagination-IsPage limit offset {page} h =
    let (page_ok, kept, defaulted) = accepted (default_limit limit) offset _ _ _ _ refl refl h in
    (page_ok, kept, limited limit defaulted)
