-- ===== src/Backup/Wal.antt =====
-- backup-service/internal/wal/basebackup.go and restore.go: physical base backups, the archive of the
-- write-ahead log, and the data directory that a recovery prepares.
pub mod Archiver
pub mod Label
pub mod Bases
pub mod Trimming
pub mod Recovered
use Prim.Native.String.{◌++◌ as ◌++ₛ◌}
use fcstask_backend.Backup.Catalog.{Instant, last_of, microseconds_per_day}
use fcstask_backend.Backup.Restore.{at_or_before}
use fcstask_backend.Errors.{Error, other_error}
use fcstask_backend.Errors.Action.{
  Action, Result, err, lift, ok, pure, query, refuse_if, ◌>>=◌, ◌>>◌,
}
use fcstask_backend.Prelude.{
  Bool, List, Option, String, [], any, filter, if◌then◌else◌, is_empty, leb, ltb, none, not, some,
  str_eq, true, ℕ, ◌%◌, ◌&&◌, ◌*◌, ◌++◌, ◌-◌, ◌==◌, ◌||◌, ◌∷◌,
}

-- wal_base_metadata.json, without the address of the server.
pub record BaseMetadata : Type 0 where
  pub id : String
  pub started_at : Instant
  pub finished_at : Instant
  pub start_wal_file : String

-- An entry of the directory of base backups, with the metadata that can be read in it.
pub record BaseEntry : Type 0 where
  pub name : String
  pub is_dir : Bool
  pub metadata : Option BaseMetadata

abbrev pub listed_base : BaseEntry → Option BaseMetadata
listed_base entry = if entry.is_dir then entry.metadata else none

abbrev pub cons_base : Option BaseMetadata → List BaseMetadata → List BaseMetadata
cons_base none bases = bases
cons_base (some m) bases = m ∷ bases

unfoldable pub collect_bases : List BaseEntry → List BaseMetadata
collect_bases [] = []
collect_bases (entry ∷ entries) = cons_base (listed_base entry) (collect_bases entries)

-- `sort.Slice` by the start of the backup; equal ones keep their order here.
unfoldable pub insert_base : BaseMetadata → List BaseMetadata → List BaseMetadata
insert_base m [] = m ∷ []
insert_base m (x ∷ xs) = if leb m.started_at x.started_at then m ∷ x ∷ xs else x ∷ insert_base m xs

unfoldable pub sort_bases : List BaseMetadata → List BaseMetadata
sort_bases [] = []
sort_bases (m ∷ ms) = insert_base m (sort_bases ms)

unfoldable pub list_base_backups : List BaseEntry → List BaseMetadata
list_base_backups entries = sort_bases (collect_bases entries)

-- `for _, m := range bases { if ... { base = m } }`
unfoldable pub newest_start :
    Option Instant → List BaseMetadata → Option BaseMetadata → Option BaseMetadata
newest_start target [] base = base
newest_start target (m ∷ ms) base =
    newest_start target ms (if at_or_before target m.started_at then some m else base)

abbrev pub base_or_error : Option BaseMetadata → Result BaseMetadata
base_or_error none = err (other_error "no base backup at or before the requested time")
base_or_error (some m) = ok m

unfoldable pub select_base : Option Instant → List BaseMetadata → Result BaseMetadata
select_base target bases =
    if is_empty bases
    then err (other_error "no base backups found")
    else base_or_error (newest_start target bases none)

-- The segments of the archive, and the directory of base backups.
pub record WalStore : Type 0 where
  pub entries : List BaseEntry
  pub archive : List String

-- What a run meets: whether pg_basebackup and the directory are there, the clock at the start and at the
-- end, how pg_basebackup, the reading of backup_label and the writing of the metadata go, the clock of the
-- cleanup, which directories can be removed, and whether and how pg_archivecleanup runs.
pub record BaseRun : Type 0 where
  pub prepared : Result (Unit {0})
  pub started : Instant
  pub finished : Instant
  pub copied : Result (Unit {0})
  pub label : Result String
  pub written : Result (Unit {0})
  pub now : Instant
  pub removable : String → Bool
  pub has_cleanup : Bool
  pub trimmed : Result (Unit {0})

abbrev pub label_or_empty : Result String → String
label_or_empty (ok file) = file
label_or_empty (err e) = ""

-- The base backups that are too old, the newest one never.
abbrev pub is_old_base : (cutoff : Instant) → Option BaseMetadata → BaseMetadata → Bool
is_old_base cutoff none m = not true
is_old_base cutoff (some newest) m = not (str_eq m.id newest.id) && ltb m.finished_at cutoff

unfoldable pub remove_bases :
    (cutoff : Instant) → (String → Bool) → List BaseMetadata → List BaseEntry → List BaseEntry
remove_bases cutoff removable bases = filter λ entry. not (
    any (λ m. str_eq m.id entry.name && is_old_base cutoff (last_of bases) m) bases
    && removable entry.name)

-- `older a b`: segment `a` comes before segment `b`. pg_archivecleanup removes the segments before the one
-- it is given.
module _ (older : String → String → Bool) where
  abbrev pub archive_cleanup : String → List String → List String
  archive_cleanup start = filter (λ segment. not (older segment start))

  abbrev pub trim_behind : BaseRun → Option BaseMetadata → List String → List String
  trim_behind run none archive = archive
  trim_behind run (some oldest) archive =
      if str_eq oldest.start_wal_file "" || not run.has_cleanup
      then archive
      else archive_cleanup oldest.start_wal_file archive

  abbrev pub first_of : List BaseMetadata → Option BaseMetadata
  first_of [] = none
  first_of (m ∷ ms) = some m

  -- `cleanup`, whose errors are only logged; where pg_archivecleanup fails the archive is as it was.
  abbrev pub trim : BaseRun → WalStore → WalStore
  trim run s = record s {
    archive = elim run.trimmed [
      | ok u ↦ trim_behind run (first_of (list_base_backups s.entries)) s.archive
      | err e ↦ s.archive
    ];
  }

  abbrev pub remove_old : Instant → (String → Bool) → WalStore → WalStore
  remove_old cutoff removable s = record s {
    entries = remove_bases cutoff removable (list_base_backups s.entries) s.entries;
  }

  unfoldable pub cleanup : (retention_days : ℕ) → BaseRun → WalStore → WalStore
  cleanup retention_days run s =
      if retention_days == 0 || is_empty (list_base_backups s.entries)
      then s
      else trim run (remove_old (run.now - retention_days * microseconds_per_day) run.removable s)

  module _ (format_time : Instant → String) (retention_days : ℕ) where
    abbrev pub base_id : Instant → String
    base_id started = "base_" ++ₛ format_time started

    abbrev pub base_metadata : BaseRun → BaseMetadata
    base_metadata run = record {
      id = base_id run.started;
      started_at = run.started;
      finished_at = run.finished;
      start_wal_file = label_or_empty run.label;
    }

    abbrev pub change : (WalStore → WalStore) → Action WalStore (Unit {0})
    change f s = (ok tt, f s)

    abbrev pub add_entry : BaseEntry → WalStore → WalStore
    add_entry entry s = record s { entries = s.entries ++ (entry ∷ []) }

    -- Where pg_basebackup fails, its directory is removed; where the metadata cannot be written, the
    -- directory stays and is not listed.
    abbrev pub unlisted : BaseRun → BaseEntry
    unlisted run = record { name = base_id run.started; is_dir = true; metadata = none }

    abbrev pub after_copy : BaseRun → Result (Unit {0}) → Action WalStore (Unit {0})
    after_copy run (ok u) s =
        (ok tt, add_entry (record (unlisted run) { metadata = some (base_metadata run) }) s)
    after_copy run (err e) s = (err e, add_entry (unlisted run) s)

    unfoldable pub take_base_backup : BaseRun → Action WalStore BaseMetadata
    take_base_backup run = do
      lift run.prepared
      query (λ s.
          refuse_if (any (λ entry. str_eq entry.name (base_id run.started)) s.entries)
            (other_error "base backup directory already exists"))
      lift run.copied
      after_copy run run.written
      change (cleanup retention_days run)
      pure (base_metadata run)

-- The directory that the recovery prepares; `over` says that it was copied over the files that were there.
pub data DataDir : Type 0 where
  empty_dir occupied_dir : DataDir
  copied_base : (over : Bool) → String → DataDir
  configured : (over : Bool) → String → Option Instant → DataDir

abbrev pub is_occupied : DataDir → Bool
is_occupied empty_dir = not true
is_occupied occupied_dir = true
is_occupied (copied_base over id) = true
is_occupied (configured over id target) = true

abbrev pub had_files : DataDir → Bool
had_files empty_dir = not true
had_files occupied_dir = true
had_files (copied_base over id) = over
had_files (configured over id target) = over

-- `targetTime.UTC().Format("2006-01-02 15:04:05+00")`: the second that the target falls in.
abbrev pub whole_seconds : Option Instant → Option Instant
whole_seconds none = none
whole_seconds (some t) = some (t - t % 1000000)

-- Whether a directory is configured and can be read, and how copying, writing the configuration and
-- starting the server go. Where a copy or a write of the configuration fails, it may have left files.
pub record RecoverTools : Type 0 where
  pub has_data_dir : Bool
  pub readable : Bool
  pub copy_tree : BaseMetadata → Result (Unit {0})
  pub write_config : Result (Unit {0})
  pub start_instance : Result (Unit {0})

abbrev pub copy_base : BaseMetadata → Result (Unit {0}) → Action DataDir (Unit {0})
copy_base base (ok u) d = (ok tt, copied_base (is_occupied d) base.id)
copy_base base (err e) d = (err e, occupied_dir)

abbrev pub not_configured : Error
not_configured = other_error "restore_data_dir is not configured"

abbrev pub not_empty : Error
not_empty = other_error "restore_data_dir is not empty; refusing to overwrite"

abbrev pub write_recovery_config :
    Option Instant → BaseMetadata → Result (Unit {0}) → Action DataDir (Unit {0})
write_recovery_config target base (ok u) d =
    (ok tt, configured (had_files d) base.id (whole_seconds target))
write_recovery_config target base (err e) d = (err e, occupied_dir)

-- The recovery behind the copy.
abbrev pub configure : RecoverTools → Option Instant → BaseMetadata → Action DataDir (Unit {0})
configure tools target base = do
  write_recovery_config target base tools.write_config
  lift tools.start_instance

abbrev pub recover_base : RecoverTools → Option Instant → BaseMetadata → Action DataDir (Unit {0})
recover_base tools target base = do
  query (λ d. refuse_if (tools.readable && is_occupied d) not_empty)
  copy_base base (tools.copy_tree base)
  configure tools target base

unfoldable pub recover_to_time :
    RecoverTools → Option Instant → List BaseMetadata → Action DataDir (Unit {0})
recover_to_time tools target bases = do
  lift (refuse_if (not tools.has_data_dir) not_configured)
  base ← lift (select_base target bases)
  recover_base tools target base
