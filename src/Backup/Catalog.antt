-- ===== src/Backup/Catalog.antt =====
-- backup-service/internal/backup/metadata.go and backuper.go: the backups in the output directory, and
-- which kind is made next. An instant is a number, and 0 is Go's zero time.
pub mod Linked
pub mod Listing
pub mod Sorting
pub mod Retention
pub mod Sound
pub mod History
pub mod ChainLength
use Prim.Native.String.{◌++◌ as ◌++ₛ◌}
use text.Mathlib.Text.{starts_with}
use fcstask_backend.Errors.Action.{Action, Result, lift, ok, pure, query, ◌>>=◌, ◌>>◌}
use fcstask_backend.Prelude.{
  Bool, List, Option, String, [], any, false, filter, if◌then◌else◌, leb, length, ltb, none, not,
  some, str_eq, true, ℕ, ◌&&◌, ◌*◌, ◌++◌, ◌-◌, ◌==◌, ◌||◌, ◌∷◌,
}

abbrev pub Instant : Type 0
Instant = ℕ

pub data BackupType : Type 0 where
  full_backup incremental_backup : BackupType

pub record TableInfo : Type 0 where
  pub schema : String
  pub name : String
  pub created_at : String
  pub updated_at : String
  pub deleted_at : String
  pub change_expr : String
  pub columns : List String
  pub data_file : String
  pub row_count : ℕ

pub record SplitInfo : Type 0 where
  pub file : String
  pub parts : ℕ
  pub size : ℕ
  pub sha256 : String

-- What backup_metadata.json says, without the times of the run and the sizes.
pub record Metadata : Type 0 where
  pub backup_type : BackupType
  pub id : String
  pub database : String
  pub snapshot_time : Instant
  pub since : Instant
  pub parent : String
  pub base_full : String
  pub tables : List TableInfo
  pub splits : List SplitInfo

-- An entry of the output directory, with the metadata that can be read in it.
pub record DirEntry : Type 0 where
  pub name : String
  pub is_dir : Bool
  pub metadata : Option Metadata

abbrev pub type_name : BackupType → String
type_name full_backup = "full"
type_name incremental_backup = "incremental"

abbrev pub is_full : BackupType → Bool
is_full full_backup = true
is_full incremental_backup = false

abbrev pub has_backup_name : String → Bool
has_backup_name name = starts_with name "full_" || starts_with name "incremental_"

-- What `ListBackups` reads of an entry.
unfoldable pub listed : DirEntry → Option Metadata
listed entry = if entry.is_dir && has_backup_name entry.name then entry.metadata else none

abbrev pub cons_some : Option Metadata → List Metadata → List Metadata
cons_some none ms = ms
cons_some (some m) ms = m ∷ ms

unfoldable pub collect_metadata : List DirEntry → List Metadata
collect_metadata [] = []
collect_metadata (entry ∷ entries) = cons_some (listed entry) (collect_metadata entries)

-- `sort.Slice` by the time of the snapshot. It promises no order of equal times; here they keep theirs.
unfoldable pub insert_by_snapshot : Metadata → List Metadata → List Metadata
insert_by_snapshot m [] = m ∷ []
insert_by_snapshot m (x ∷ xs) =
    if leb m.snapshot_time x.snapshot_time then m ∷ x ∷ xs else x ∷ insert_by_snapshot m xs

unfoldable pub sort_by_snapshot : List Metadata → List Metadata
sort_by_snapshot [] = []
sort_by_snapshot (m ∷ ms) = insert_by_snapshot m (sort_by_snapshot ms)

unfoldable pub list_backups : List DirEntry → List Metadata
list_backups entries = sort_by_snapshot (collect_metadata entries)

abbrev pub last_of {ℓ} : {A : Type ℓ} → List A → Option A
last_of [] = none
last_of (x ∷ []) = some x
last_of (x ∷ y ∷ ys) = last_of (y ∷ ys)

-- The configuration and the flags of the command line. A negative number of days or of backups in a
-- chain does what 0 does.
pub record BackupConfig : Type 0 where
  pub force_full : Bool
  pub force_incremental : Bool
  pub pitr_enabled : Bool
  pub full_backup_every : ℕ
  pub retention_days : ℕ

-- A decision for an incremental backup comes with the parent.
pub data BackupDecision : Type 0 where
  make_full : BackupDecision
  make_incremental : Metadata → BackupDecision

abbrev pub incremental_or_full : Option Metadata → BackupDecision
incremental_or_full none = make_full
incremental_or_full (some parent) = make_incremental parent

abbrev pub chain_length : String → List Metadata → ℕ
chain_length base backups = length (filter (λ m. str_eq m.base_full base) backups)

abbrev pub extend_chain : ℕ → List Metadata → Option Metadata → BackupDecision
extend_chain every backups none = make_full
extend_chain every backups (some last) =
    if leb every (chain_length last.base_full backups) then make_full else make_incremental last

unfoldable pub decide_backup : BackupConfig → List Metadata → BackupDecision
decide_backup config backups =
    if config.force_full
    then make_full
    else if config.force_incremental
    then incremental_or_full (last_of backups)
    else if not config.pitr_enabled || leb config.full_backup_every 1
    then make_full
    else extend_chain config.full_backup_every backups (last_of backups)

-- What a run meets: whether the tools and the directory are there, the time of the server, what the
-- dump or the copy left after splitting and the checksums, whether the metadata could be written, the
-- clock at the end, and which directories can be removed.
pub record Captured : Type 0 where
  pub tables : List TableInfo
  pub splits : List SplitInfo

pub record BackupRun : Type 0 where
  pub prepared : Result (Unit {0})
  pub server_time : Result Instant
  pub captured : BackupDecision → Result Captured
  pub written : Result (Unit {0})
  pub now : Instant
  pub removable : String → Bool

abbrev pub decision_type : BackupDecision → BackupType
decision_type make_full = full_backup
decision_type (make_incremental parent) = incremental_backup

-- `os.MkdirAll`
unfoldable pub make_dir : String → List DirEntry → List DirEntry
make_dir name entries =
    if any (λ entry. str_eq entry.name name) entries
    then entries
    else entries ++ (record { name = name; is_dir = true; metadata = none } ∷ [])

-- `writeMetadata`: a temporary file that is renamed.
unfoldable pub write_metadata : Metadata → List DirEntry → List DirEntry
write_metadata m [] = []
write_metadata m (entry ∷ entries) =
    (if str_eq entry.name m.id then record entry { metadata = some m } else entry)
    ∷ write_metadata m entries

-- The newest snapshot of a chain, `none` as long as the map has no entry for it.
unfoldable pub newest_of : String → List Metadata → Instant
newest_of base [] = 0
newest_of base (m ∷ ms) =
    let newest = newest_of base ms in
    if str_eq m.base_full base && ltb newest m.snapshot_time then m.snapshot_time else newest

-- A chain is expired where its newest snapshot is. One without a snapshot after the zero time has no
-- entry in the map, and is kept.
unfoldable pub is_expired : Instant → List Metadata → String → Bool
is_expired cutoff backups base =
    ltb 0 (newest_of base backups) && ltb (newest_of base backups) cutoff

abbrev pub microseconds_per_day : ℕ
microseconds_per_day = 86400000000

-- `RemoveAll` of every member of an expired chain; one that fails is only logged.
unfoldable pub remove_expired :
    (cutoff : Instant) → (String → Bool) → List Metadata → List DirEntry → List DirEntry
remove_expired cutoff removable backups = filter λ entry. not (
    any (λ m. str_eq m.id entry.name && is_expired cutoff backups m.base_full) backups
    && removable entry.name)

unfoldable pub clean_old_backups :
    BackupConfig → (now : Instant) → (String → Bool) → List DirEntry → List DirEntry
clean_old_backups config now removable entries =
    if config.retention_days == 0
    then entries
    else remove_expired (now - config.retention_days * microseconds_per_day) removable
        (list_backups entries) entries

module _ (database : String) (format_time : Instant → String) (config : BackupConfig) where
  abbrev pub backup_id : BackupType → Instant → String
  backup_id type snapshot = type_name type ++ₛ "_" ++ₛ format_time snapshot

  unfoldable pub new_metadata : BackupDecision → Instant → Captured → Metadata
  new_metadata make_full snapshot captured = record {
    backup_type = full_backup;
    id = backup_id full_backup snapshot;
    database = database;
    snapshot_time = snapshot;
    since = 0;
    parent = "";
    base_full = backup_id full_backup snapshot;
    tables = captured.tables;
    splits = captured.splits;
  }
  new_metadata (make_incremental parent) snapshot captured = record {
    backup_type = incremental_backup;
    id = backup_id incremental_backup snapshot;
    database = database;
    snapshot_time = snapshot;
    since = parent.snapshot_time;
    parent = parent.id;
    base_full = parent.base_full;
    tables = captured.tables;
    splits = captured.splits;
  }

  -- A write of the output directory that cannot fail here: its failures are in the run.
  abbrev pub change : (List DirEntry → List DirEntry) → Action (List DirEntry) (Unit {0})
  change f entries = (ok tt, f entries)

  unfoldable pub create_backup : BackupRun → Action (List DirEntry) Metadata
  create_backup run = do
    lift run.prepared
    backups ← query (λ entries. ok (list_backups entries))
    snapshot ← lift run.server_time
    change (make_dir (backup_id (decision_type (decide_backup config backups)) snapshot))
    captured ← lift (run.captured (decide_backup config backups))
    lift run.written
    change (write_metadata (new_metadata (decide_backup config backups) snapshot captured))
    change (clean_old_backups config run.now run.removable)
    pure (new_metadata (decide_backup config backups) snapshot captured)
