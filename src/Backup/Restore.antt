-- ===== src/Backup/Restore.antt =====
-- backup-service/internal/restore/restorer.go: which backups a restore takes, and what it brings back.
-- A row of the database is the instant of the change that made the version of it that the database has.
pub mod Chain
pub mod PointInTime
pub mod Versions
pub mod Restored
pub mod Recovery
pub mod Succeeds
use fcstask_backend.Backup.Catalog.{Instant, Metadata, is_full}
use fcstask_backend.Errors.{Error, other_error}
use fcstask_backend.Errors.Action.{Action, Result, err, lift, ok, pure, ◌>>=◌, ◌>>◌}
use fcstask_backend.Prelude.{
  Bool, List, Option, [], filter, if◌then◌else◌, leb, ltb, none, not, some, str_eq, suc, true, zero,
  ℕ, ◌&&◌, ◌∷◌,
}

-- The target of a restore: an instant, or `none` for the latest state.
abbrev pub at_or_before : Option Instant → Instant → Bool
at_or_before none t = true
at_or_before (some target) t = leb t target

-- `for _, m := range backups { if ... { base = m } }`
unfoldable pub newest_base : Option Instant → List Metadata → Option Metadata → Option Metadata
newest_base target [] base = base
newest_base target (m ∷ ms) base =
    newest_base target ms
      (if is_full m.backup_type && at_or_before target m.snapshot_time then some m else base)

unfoldable pub is_in_chain : Option Instant → Metadata → Metadata → Bool
is_in_chain target base m =
    not (is_full m.backup_type)
    && str_eq m.base_full base.id
    && ltb base.snapshot_time m.snapshot_time
    && at_or_before target m.since

abbrev pub no_backups : Error
no_backups = other_error "no backups found"

abbrev pub no_full_backup : Error
no_full_backup = other_error "no full backup at or before the requested time"

abbrev pub chain_of :
    Option Instant → List Metadata → Option Metadata → Result (Metadata × List Metadata)
chain_of target backups none = err no_full_backup
chain_of target backups (some base) = ok (base, filter (is_in_chain target base) backups)

unfoldable pub select_chain : Option Instant → List Metadata → Result (Metadata × List Metadata)
select_chain target [] = err no_backups
select_chain target (m ∷ ms) = chain_of target (m ∷ ms) (newest_base target (m ∷ ms) none)

-- The database that is backed up. A row is a number; `changed row t` says that a change of the row has the
-- instant `t` in its columns of times, and is seen from `t` on. `deleted_at row t` is the deleted_at of
-- the version that the change at `t` made, 0 for none and for a table that a restore does not sweep.
-- `copied_at m` is when pg_dump or the COPY
-- transaction of a backup reads, and `copied m row` that the row's table is one that an incremental
-- backup copies, and that the target has it with its primary key.
pub record Source : Type 0 where
  pub changed : (row : ℕ) → Instant → Bool
  pub deleted_at : (row : ℕ) → Instant → Instant
  pub copied_at : Metadata → Instant
  pub copied : Metadata → (row : ℕ) → Bool

-- The version of every row that a database holds, by the instant of its change, and 0 for no row.
abbrev pub Contents : Type 0
Contents = (row : ℕ) → Instant

module _ (source : Source) where
  -- What a reader at an instant sees of a row: its last change up to then.
  unfoldable pub version_at : (row : ℕ) → Instant → Instant
  version_at row zero = 0
  version_at row (suc t) =
      let before = version_at row t in if source.changed row (suc t) then suc t else before

  -- The dump of a full backup, which pg_dump reads after the snapshot time was taken.
  abbrev pub dumped : Metadata → Contents
  dumped base row = version_at row (source.copied_at base)

-- `createIncremental` copies the rows whose last change, as the copy sees it, is after `since` and up to the
-- snapshot, and the script of `buildApplyScript` drops those whose change is after the bound.
unfoldable pub is_applied : Option Instant → Metadata → Instant → Bool
is_applied target m t = ltb m.since t && leb t m.snapshot_time && at_or_before target t

module _ (source : Source) (target : Option Instant) where
  -- The rows that are left are put over those of the target.
  unfoldable pub applied : Metadata → Contents → Contents
  applied m db row =
      let version = version_at source row (source.copied_at m) in
      if source.copied m row && is_applied target m version then version else db row

-- `DELETE ... WHERE deleted_at IS NOT NULL AND deleted_at <= bound`
abbrev pub swept : Source → Instant → Contents → Contents
swept source bound db row =
    let deleted = source.deleted_at row (db row) in
    if ltb 0 deleted && leb deleted bound then 0 else db row

-- How the steps of a restore end: dropping and making the database, checking, assembling and
-- restoring the base, checking, assembling and applying an incremental backup, and the deletes at the end.
pub record RestoreTools : Type 0 where
  pub prepare_target : Result (Unit {0})
  pub restore_base : Metadata → Result (Unit {0})
  pub apply_incremental : Metadata → Result (Unit {0})
  pub sweep_soft_deletes : Result (Unit {0})

module _ (source : Source) (tools : RestoreTools) (target : Option Instant) where
  abbrev pub set_contents : (Contents → Contents) → Action Contents (Unit {0})
  set_contents f db = (ok tt, f db)

  unfoldable pub apply_incrementals : List Metadata → Action Contents (Unit {0})
  apply_incrementals [] = pure tt
  apply_incrementals (m ∷ ms) = do
    lift (tools.apply_incremental m)
    set_contents (applied source target m)
    apply_incrementals ms

  abbrev pub sweep_at : Option Instant → Action Contents (Unit {0})
  sweep_at none = pure tt
  sweep_at (some bound) = do lift tools.sweep_soft_deletes; set_contents (swept source bound)

  unfoldable pub restore_chain : Metadata × List Metadata → Action Contents (Unit {0})
  restore_chain (base, incrementals) = do
    lift tools.prepare_target
    lift (tools.restore_base base)
    set_contents (λ db. dumped source base)
    apply_incrementals incrementals
    sweep_at target

  unfoldable pub restore_to_time : List Metadata → Action Contents (Unit {0})
  restore_to_time backups = do chain ← lift (select_chain target backups); restore_chain chain
