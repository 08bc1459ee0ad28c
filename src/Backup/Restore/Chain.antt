-- ===== src/Backup/Restore/Chain.antt =====
-- Which backups `selectChain` takes from a catalog.
use fcstask_backend.Backup.Catalog.{
  BackupType, Instant, Metadata, full_backup, incremental_backup, is_full,
}
use fcstask_backend.Backup.Catalog.Linked.{Follows, HasDistinctIds, IsCatalog, IsInOrder, IsLinked}
use fcstask_backend.Backup.Restore.{at_or_before, chain_of, is_in_chain, newest_base, select_chain}
use fcstask_backend.Errors.Action.{ok}
use fcstask_backend.Prelude.{
  All, Bool-cases, List, Option, [], and_true, ap, false, filter, inl, inr, none, refl, some,
  str_eq, subst, true, ◌&&◌, ◌++◌, ◌<◌, ◌∷◌, ◌≡◌, ◌⊎◌,
}

-- Not a full backup up to the target.
abbrev pub IsNoBase : Option Instant → Metadata → Type 0
IsNoBase target m = (is_full m.backup_type && at_or_before target m.snapshot_time) ≡ false

-- The base that was found stands somewhere in the list.
pub record FoundBase (target : Option Instant) (backups : List Metadata) (base : Metadata)
    : Type 0 where
  pub before : List Metadata
  pub behind : List Metadata
  pub splits : backups ≡ before ++ (base ∷ behind)
  pub full : is_full base.backup_type ≡ true
  pub in_time : at_or_before target base.snapshot_time ≡ true
  pub no_newer : All (IsNoBase target) behind

newest_base-found :
    (target : Option Instant) (ms : List Metadata) (acc : Option Metadata) {base : Metadata}
    → newest_base target ms acc ≡ some base
    → ((acc ≡ some base) × All (IsNoBase target) ms) ⊎ FoundBase target ms base
unfolding newest_base
newest_base-found target [] acc h = inl (h, tt)
newest_base-found target (m ∷ ms) acc {base} h =
    elim (Bool-cases (is_full m.backup_type && at_or_before target m.snapshot_time)) [
      | inl e ↦
          let k : newest_base target ms (some m) ≡ some base = rw e at h in
          elim (newest_base-found target ms (some m) k) [
            | inl (here, none_newer) ↦ inr (
                let (full, in_time) =
                  and_true (is_full m.backup_type) (at_or_before target m.snapshot_time) e in
                let same : m ≡ base = cc in
                record {
                  before = [];
                  behind = ms;
                  splits = ap (λ x. x ∷ ms) same;
                  full = subst (λ x. is_full x.backup_type ≡ true) same full;
                  in_time = subst (λ x. at_or_before target x.snapshot_time ≡ true) same in_time;
                  no_newer = none_newer;
                })
            | inr f ↦ inr (further f)
          ]
      | inr e ↦
          let k : newest_base target ms acc ≡ some base = rw e at h in
          elim (newest_base-found target ms acc k) [
            | inl (old, none_newer) ↦ inl (old, (e, none_newer))
            | inr f ↦ inr (further f)
          ]
    ]
  where
    further : FoundBase target ms base → FoundBase target (m ∷ ms) base
    further f = record {
      before = m ∷ f.before;
      behind = f.behind;
      splits = ap (λ l. m ∷ l) f.splits;
      full = f.full;
      in_time = f.in_time;
      no_newer = f.no_newer;
    }

-- What a catalog says around a full backup in it.
pub record Around (before : List Metadata) (base : Metadata) (behind : List Metadata) : Type 0 where
  pub earlier : All (λ x. x.snapshot_time < base.snapshot_time) before
  pub own_base : base.base_full ≡ base.id
  pub linked : IsLinked (some base) behind
  pub in_order : IsInOrder (base ∷ behind)
  pub others : All (λ x. str_eq x.id base.id ≡ false) behind

All-last :
    (P : Metadata → Type 0) (xs : List Metadata) (x : Metadata) (ys : List Metadata)
    → All P (xs ++ (x ∷ ys))
    → P x
All-last P [] x ys h = h.0
All-last P (z ∷ zs) x ys h = All-last P zs x ys h.1

around :
    (prev : Option Metadata) (before : List Metadata) (base : Metadata) (behind : List Metadata)
    → is_full base.backup_type ≡ true
    → IsLinked prev (before ++ (base ∷ behind))
    → IsInOrder (before ++ (base ∷ behind))
    → HasDistinctIds (before ++ (base ∷ behind))
    → Around before base behind
around prev [] base behind full linked in_order distinct = record {
  earlier = tt;
  own_base = own base.backup_type full linked.0;
  linked = linked.1;
  in_order = in_order;
  others = distinct.0;
}
  where
    own :
        (type : BackupType)
        → is_full type ≡ true
        → Follows prev base type
        → base.base_full ≡ base.id
    own full_backup e f = f
    own incremental_backup e f = cc
around prev (m ∷ ms) base behind full linked in_order distinct =
    let a = around (some m) ms base behind full linked.1 in_order.1 distinct.1 in
    record {
      earlier =
          (All-last (λ x. m.snapshot_time < x.snapshot_time) ms base behind in_order.0, a.earlier);
      own_base = a.own_base;
      linked = a.linked;
      in_order = a.in_order;
      others = a.others;
    }

pub record Selected (target : Option Instant) (backups : List Metadata) (base : Metadata)
    (incrementals : List Metadata) : Type 0 where
  pub base_found : FoundBase target backups base
  pub rest_taken : incrementals ≡ filter (is_in_chain target base) backups

pub select_chain-Selected :
    (target : Option Instant) (backups : List Metadata) {base : Metadata}
    {incrementals : List Metadata}
    → select_chain target backups ≡ ok (base, incrementals)
    → Selected target backups base incrementals
unfolding select_chain
select_chain-Selected target [] h = cc
select_chain-Selected target (m ∷ ms) {base} {incrementals} h =
    go (newest_base target (m ∷ ms) none) refl h
  where
    go :
        (o : Option Metadata)
        → newest_base target (m ∷ ms) none ≡ o
        → chain_of target (m ∷ ms) o ≡ ok (base, incrementals)
        → Selected target (m ∷ ms) base incrementals
    go none found h = cc
    go (some b) found h =
        let same : b ≡ base = cc in
        record {
          base_found = elim (newest_base-found target (m ∷ ms) none found) [
            | inl (absent, _) ↦ absurd (nothing b absent)
            | inr f ↦ subst (FoundBase target (m ∷ ms)) same f
          ];
          rest_taken = cc;
        }
      where
        nothing : (b : Metadata) → none ≡ some b → ⊥
        nothing b e = cc

pub Selected-Around :
    (target : Option Instant) (backups : List Metadata) {base : Metadata}
    {incrementals : List Metadata}
    → IsCatalog backups
    → (s : Selected target backups base incrementals)
    → Around s.base_found.before base s.base_found.behind
Selected-Around target backups c s =
    around none s.base_found.before _ s.base_found.behind s.base_found.full
      (subst (IsLinked none) s.base_found.splits c.linked)
      (subst IsInOrder s.base_found.splits c.in_order)
      (subst HasDistinctIds s.base_found.splits c.distinct)
