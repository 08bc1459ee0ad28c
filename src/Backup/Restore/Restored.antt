-- ===== src/Backup/Restore/Restored.antt =====
-- What `RestoreToTime` leaves in the database.
use fcstask_backend.Backup.Catalog.{Instant, Metadata, is_full}
use fcstask_backend.Backup.Catalog.Linked.{IsCatalog}
use fcstask_backend.Backup.Restore.{
  Contents, RestoreTools, Source, applied, apply_incrementals, at_or_before, dumped, is_applied,
  is_in_chain, restore_chain, restore_to_time, select_chain, sweep_at, swept,
}
use fcstask_backend.Backup.Restore.Chain.{
  Around, IsNoBase, Selected, Selected-Around, select_chain-Selected,
}
use fcstask_backend.Backup.Restore.PointInTime.{
  IsContinuous, at_or_before-le, before_base, covers, covers-before, is_applied-covers,
  not_taken-full, taken-IsContinuous,
}
use fcstask_backend.Backup.Restore.Succeeds.{AllWork, restore_chain-ok}
use fcstask_backend.Backup.Restore.Versions.{all_applied}
use fcstask_backend.Errors.Action.{Result, continue, err, ok, pure, ◌>>=◌}
use fcstask_backend.Errors.Outcomes.{lift-eq-ok}
use fcstask_backend.Prelude.{
  All, Bool, Bool-cases, List, Option, [], any, any-append, ap, arith, eq_iff, false≢true, filter,
  inl, inr, leb, leb→le, none, refl, some, subst, sym, true, ◌&&◌, ◌++◌, ◌<◌, ◌||◌, ◌∙◌, ◌∷◌, ◌≡◌,
  ◌≤◌,
}

filter-append :
    (keep : Metadata → Bool) (xs ys : List Metadata)
    → filter keep (xs ++ ys) ≡ filter keep xs ++ filter keep ys
filter-append keep [] ys = refl
filter-append keep (x ∷ xs) ys = elim (Bool-cases (keep x)) [
  | inl e ↦ rw e (ap (λ l. x ∷ l) (filter-append keep xs ys))
  | inr e ↦ rw e (filter-append keep xs ys)
]

module _ (target : Option Instant) (backups : List Metadata) {base : Metadata}
    {incrementals : List Metadata} (catalog : IsCatalog backups)
    (selected : select_chain target backups ≡ ok (base, incrementals)) where
  abbrev s : Selected target backups base incrementals
  s = select_chain-Selected target backups selected

  abbrev a : Around s.base_found.before base s.base_found.behind
  a = Selected-Around target backups catalog s

  taken_behind : incrementals ≡ filter (is_in_chain target base) s.base_found.behind
  taken_behind =
      s.rest_taken
      ∙ ap (filter (is_in_chain target base)) s.base_found.splits
      ∙ filter-append (is_in_chain target base) s.base_found.before (base ∷ s.base_found.behind)
      ∙ rw
          (
            before_base target base s.base_found.before a.earlier,
            not_taken-full target base base s.base_found.full,
          )
          refl

  -- The backups that `selectChain` takes from a catalog continue one another without a gap, from a
  -- full backup that is not after the target on.
  pub select_chain-IsContinuous :
      (is_full base.backup_type ≡ true)
      × (at_or_before target base.snapshot_time ≡ true)
      × IsContinuous base incrementals
  select_chain-IsContinuous = (
    s.base_found.full,
    s.base_found.in_time,
    subst (IsContinuous base) (sym taken_behind) (
        taken-IsContinuous target base base s.base_found.behind a.own_base (omega arith) a.linked
          a.in_order a.others),
  )

  -- The instants to which the base reaches or whose changes an incremental backup of the chain has to put
  -- back are those up to the target to which a backup with this base reaches.
  pub restored-covers :
      (t : Instant)
      → (leb t base.snapshot_time || any (λ m. is_applied target m t) incrementals)
        ≡ (at_or_before target t && any (covers target base t) backups)
  restored-covers t =
      let before = s.base_found.before in
      let behind = s.base_found.behind in
      let whole =
        is_applied-covers target base t base behind a.own_base (omega arith) a.linked a.in_order
          a.others in
      ap (λ l. leb t base.snapshot_time || any (λ m. is_applied target m t) l) taken_behind
      ∙ ap (λ b. b || any (λ m. is_applied target m t) (filter (is_in_chain target base) behind))
          (in_time (leb t base.snapshot_time) (at_or_before target t)
            (λ h. at_or_before-le target t base.snapshot_time (leb→le _ _ h) s.base_found.in_time))
      ∙ whole
      ∙ ap (λ b. at_or_before target t && b)
          (sym (
            ap (any (covers target base t)) s.base_found.splits
            ∙ any-append (covers target base t) before (base ∷ behind)
            ∙ ap
                (λ b.
                  any (covers target base t) before
                  || ((b && leb t base.snapshot_time) || any (covers target base t) behind))
                ((eq_iff base.base_full base.id).1 a.own_base)
            ∙ absorbed (any (covers target base t) before) (leb t base.snapshot_time)
                (any (covers target base t) behind) (covers-before target base t before a.earlier)))
    where
      in_time : (b w : Bool) → (b ≡ true → w ≡ true) → b ≡ (b && w)
      in_time b w h = ground arith

      absorbed : (x b y : Bool) → (x ≡ true → b ≡ true) → (x || ((true && b) || y)) ≡ (b || y)
      absorbed x b y h = ground arith

module _ (target : Option Instant) where
  -- The full backup that a restore starts from: no full backup up to the target is newer.
  pub record StartsFrom (backups : List Metadata) (base : Metadata) : Type 0 where
    pub full : is_full base.backup_type ≡ true
    pub in_time : at_or_before target base.snapshot_time ≡ true
    pub newest :
        All
          (λ m.
            (is_full m.backup_type && at_or_before target m.snapshot_time) ≡ true
            → m.snapshot_time ≤ base.snapshot_time)
          backups

  newest_in :
      (before : List Metadata) (base : Metadata) (behind : List Metadata)
      → All (λ x. x.snapshot_time < base.snapshot_time) before
      → All (IsNoBase target) behind
      → All
          (λ m.
            (is_full m.backup_type && at_or_before target m.snapshot_time) ≡ true
            → m.snapshot_time ≤ base.snapshot_time)
          (before ++ (base ∷ behind))
  newest_in [] base behind h none_newer = (λ x. omega arith, no_base behind none_newer)
    where
      no_base :
          (ms : List Metadata)
          → All (IsNoBase target) ms
          → All
              (λ m.
                (is_full m.backup_type && at_or_before target m.snapshot_time) ≡ true
                → m.snapshot_time ≤ base.snapshot_time)
              ms
      no_base [] h = tt
      no_base (m ∷ ms) h = (λ x. absurd (false≢true (sym h.0 ∙ x)), no_base ms h.1)
  newest_in (m ∷ ms) base behind h none_newer =
      (λ x. omega (arith, h.0), newest_in ms base behind h.1 none_newer)

  pub select_chain-StartsFrom :
      (backups : List Metadata) {base : Metadata} {incrementals : List Metadata}
      → IsCatalog backups
      → select_chain target backups ≡ ok (base, incrementals)
      → StartsFrom backups base
  select_chain-StartsFrom backups {base} catalog selected =
      let s = select_chain-Selected target backups selected in
      let a = Selected-Around target backups catalog s in
      record {
        full = s.base_found.full;
        in_time = s.base_found.in_time;
        newest =
            subst
              (All λ m.
                (is_full m.backup_type && at_or_before target m.snapshot_time) ≡ true
                → m.snapshot_time ≤ base.snapshot_time)
              (sym s.base_found.splits)
              (newest_in s.base_found.before base s.base_found.behind a.earlier
                s.base_found.no_newer);
      }

abbrev pub swept_by : Source → Option Instant → Contents → Contents
swept_by source none db = db
swept_by source (some bound) db = swept source bound db

-- The rows that a restore leaves.
module _ (source : Source) (tools : RestoreTools) (target : Option Instant) where
  apply_incrementals-contents :
      (ms : List Metadata) (db : Contents)
      → (apply_incrementals source tools target ms db).0 ≡ ok tt
      → (apply_incrementals source tools target ms db).1 ≡ all_applied source target ms db
  unfolding apply_incrementals ◌>>=◌ pure
  apply_incrementals-contents [] db h = refl
  apply_incrementals-contents (m ∷ ms) db h =
      let (u, e, same) = lift-eq-ok db _ (tools.apply_incremental m) h in
      ap (λ x. x.1) same
      ∙ apply_incrementals-contents ms (applied source target m db) (sym (ap (λ x. x.0) same) ∙ h)

  sweep_at-contents :
      (o : Option Instant) (db : Contents)
      → (sweep_at source tools target o db).0 ≡ ok tt
      → (sweep_at source tools target o db).1 ≡ swept_by source o db
  unfolding ◌>>=◌ pure
  sweep_at-contents none db h = refl
  sweep_at-contents (some bound) db h =
      let (u, e, same) = lift-eq-ok db _ tools.sweep_soft_deletes h in ap (λ x. x.1) same

  restore_chain-contents :
      (base : Metadata) (incrementals : List Metadata) (db : Contents)
      → (restore_chain source tools target (base, incrementals) db).0 ≡ ok tt
      → (restore_chain source tools target (base, incrementals) db).1
        ≡ swept_by source target (all_applied source target incrementals (dumped source base))
  unfolding restore_chain ◌>>=◌
  restore_chain-contents base incrementals db h =
      let (u, e, same) = lift-eq-ok db _ tools.prepare_target h in
      let h1 = sym (ap (λ x. x.0) same) ∙ h in
      let (v, f, same') = lift-eq-ok db _ (tools.restore_base base) h1 in
      let h2 = sym (ap (λ x. x.0) same') ∙ h1 in
      ap (λ x. x.1) same
      ∙ ap (λ x. x.1) same'
      ∙ swept_rows (apply_incrementals source tools target incrementals (dumped source base)) refl
          h2
    where
      swept_rows :
          (x : Result (Unit {0}) × Contents)
          → apply_incrementals source tools target incrementals (dumped source base) ≡ x
          → (continue x.0 (λ _. sweep_at source tools target target) x.1).0 ≡ ok tt
          → (continue x.0 (λ _. sweep_at source tools target target) x.1).1
            ≡ swept_by source target (all_applied source target incrementals (dumped source base))
      swept_rows (ok u, db') e h =
          sweep_at-contents target db' h
          ∙ ap (swept_by source target) (
              ap (λ x. x.1) (sym e)
              ∙ apply_incrementals-contents incrementals (dumped source base) (ap (λ x. x.0) e))
      swept_rows (err x, db') e h = cc

  -- A restore with tools that work leaves the rows of a dump, of the incremental backups behind it, and swept.
  pub restore_to_time-rows :
      (backups : List Metadata) (db : Contents) (base : Metadata) (incrementals : List Metadata)
      → AllWork tools
      → select_chain target backups ≡ ok (base, incrementals)
      → ((restore_to_time source tools target backups db).0 ≡ ok tt)
        × ((restore_to_time source tools target backups db).1
            ≡ swept_by source target (all_applied source target incrementals (dumped source base)))
  unfolding restore_to_time ◌>>=◌
  restore_to_time-rows backups db base incrementals work selected =
      let done = restore_chain-ok target source tools work base incrementals db in
      (
        ap (λ r. (continue r (restore_chain source tools target) db).0) selected ∙ done,
        ap (λ r. (continue r (restore_chain source tools target) db).1) selected
            ∙ restore_chain-contents base incrementals db done,
      )
