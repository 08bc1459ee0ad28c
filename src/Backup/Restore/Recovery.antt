-- ===== src/Backup/Restore/Recovery.antt =====
-- Backups that the service made, and a restore from them.
use fcstask_backend.Backup.Catalog.{BackupConfig, Instant, Metadata}
use fcstask_backend.Backup.Restore.{Contents, RestoreTools, Source, swept, version_at}
use fcstask_backend.Backup.Restore.PointInTime.{covers}
use fcstask_backend.Backup.Restore.Versions.{Catches, ReadsAfter}
use fcstask_backend.Prelude.{All, List, String, any, some, true, ℕ, ◌≡◌, ◌≤◌, ◌⊎◌}

-- For a restore to `x` from these backups: a listed backup with this base reaches the last change of the row
-- up to `x`, and the backup that has to bring it catches it; where it is the base, pg_dump reads before
-- the row is changed again after `x`.
pub record IsCaught (source : Source) (x : Instant) (backups : List Metadata) (base : Metadata)
    (incrementals : List Metadata) (row : ℕ) : Type 0 where
  pub reached : any (covers (some x) base (version_at source row x)) backups ≡ true
  pub dumped_in_time :
      version_at source row x ≤ base.snapshot_time
      → version_at source row (source.copied_at base) ≤ x
  pub copied_in_time : All (Catches source row x) incrementals

-- The row as a reader at `x` sees it, without the version that is deleted by then.
abbrev pub row_at : Source → Instant → (row : ℕ) → Instant
row_at source x row = swept source x (λ r. version_at source r x) row

module _ (database : String) (format_time : Instant → String) (config : BackupConfig)
    (source : Source) (reads : ReadsAfter source) (tools : RestoreTools) where
  -- What a restore to `x` leaves: the row as it was at `x`, and no row that is newer, except as the dump of
  -- the base has it.
  abbrev pub Recovered : Instant → Metadata → (row : ℕ) → Contents → Type 0
  Recovered x base row db =
      (db row ≡ row_at source x row)
      × ((r : ℕ) → (db r ≤ x) ⊎ (db r ≡ version_at source r (source.copied_at base)))
