-- ===== src/Tests/WalTests.antt =====
-- Base backups, a cleanup, recoveries, waits of the archiver and a backup label.
use fcstask_backend.Backup.Bytes.{Bytes, codes}
use fcstask_backend.Backup.Catalog.{Instant}
use fcstask_backend.Backup.Wal.{
  not_empty, BaseEntry, BaseMetadata, BaseRun, RecoverTools, WalStore, cleanup, collect_bases,
  configured, empty_dir, insert_base, list_base_backups, newest_start, occupied_dir,
  recover_to_time, remove_bases, select_base, sort_bases, take_base_backup,
}
use fcstask_backend.Backup.Wal.Archiver.{StreamRound, retry_waits, retry_waits-backoff, row_waits}
use fcstask_backend.Backup.Wal.Label.{
  HasNoFile, file_of_line, parse_start_wal_file, parse_start_wal_file-start_line, start_line,
}
use fcstask_backend.Backup.Wal.Recovered.{Prepared, recover_to_time-Prepared}
use fcstask_backend.Backup.Wal.Trimming.{IsForward, KeepsStart, cleanup-AllKept}
use fcstask_backend.Errors.{other_error}
use fcstask_backend.Errors.Action.{Result, err, ok, pure, ◌>>=◌}
use fcstask_backend.Prelude.{
  All, Bool, List, String, [], arith, false, if◌then◌else◌, ltb, none, refl, some, str_eq, true, ℕ,
  ◌∷◌, ◌≡◌, ◌≤◌,
}

abbrev base_at : String → Instant → String → BaseMetadata
base_at id started file = record {
  id = id;
  started_at = started;
  finished_at = started;
  start_wal_file = file;
}

abbrev base_entry : BaseMetadata → BaseEntry
base_entry m = record { name = m.id; is_dir = true; metadata = some m }

abbrev old_base : BaseMetadata
old_base = base_at "base_old" 10 "02"

abbrev new_base : BaseMetadata
new_base = base_at "base_new" 86400000000020 "03"

-- A file beside the base backups is no base backup.
abbrev base_entries : List BaseEntry
base_entries =
    record { name = "notes"; is_dir = false; metadata = some (base_at "notes" 30 "00") }
    ∷ base_entry new_base
    ∷ base_entry old_base
    ∷ []

abbrev segments : List String
segments = "01" ∷ "02" ∷ "03" ∷ "04" ∷ []

abbrev wal_store : WalStore
wal_store = record { entries = base_entries; archive = segments }

-- Of the segments here.
abbrev rank : String → ℕ
rank s = if str_eq s "01" then 1 else if str_eq s "02" then 2 else if str_eq s "03" then 3 else 4

abbrev is_older : String → String → Bool
is_older a b = ltb (rank a) (rank b)

abbrev base_run : BaseRun
base_run = record {
  prepared = ok tt;
  started = 86400000000020;
  finished = 86400000000020;
  copied = ok tt;
  label = ok "03";
  written = ok tt;
  now = 86400000000030;
  removable = λ _. true;
  has_cleanup = true;
  trimmed = ok tt;
}

-- The first backup is a day old or more, and so is its part of the log.
cleanup_run : (cleanup is_older 1 base_run wal_store).archive ≡ "03" ∷ "04" ∷ []
unfolding cleanup remove_bases list_base_backups sort_bases insert_base collect_bases
cleanup_run = refl

wal_store-IsForward : IsForward is_older (collect_bases wal_store.entries)
unfolding collect_bases
wal_store-IsForward = (
  ((λ _. refl), ((λ le. absurd (omega (arith, le))), tt)),
  (((λ _. refl), ((λ _. refl), tt)), tt),
)

cleanup-AllKept_example :
    All
      (KeepsStart is_older segments (cleanup is_older 1 base_run wal_store).archive)
      (list_base_backups (cleanup is_older 1 base_run wal_store).entries)
cleanup-AllKept_example = cleanup-AllKept is_older 1 base_run wal_store wal_store-IsForward

-- A backup of the same second is refused, and another one is taken.
abbrev first_base : Result BaseMetadata × WalStore
first_base =
    take_base_backup is_older (λ _. "t") 1 base_run (record { entries = []; archive = segments })

taken_run : first_base.0 ≡ ok (base_at "base_t" 86400000000020 "03")
unfolding take_base_backup cleanup remove_bases list_base_backups sort_bases insert_base
    collect_bases ◌>>=◌ pure
taken_run = refl

taken_again_run :
    take_base_backup is_older (λ _. "t") 1 base_run first_base.1
    ≡ (err (other_error "base backup directory already exists"), first_base.1)
unfolding take_base_backup cleanup remove_bases list_base_backups sort_bases insert_base
    collect_bases ◌>>=◌ pure
taken_again_run = refl

abbrev recover_tools : RecoverTools
recover_tools = record {
  has_data_dir = true;
  readable = true;
  copy_tree = λ _. ok tt;
  write_config = ok tt;
  start_instance = ok tt;
}

recovered_run :
    recover_to_time recover_tools (some 15) (list_base_backups base_entries) empty_dir
    ≡ (ok tt, configured false "base_old" (some 0))
unfolding recover_to_time select_base newest_start list_base_backups sort_bases insert_base
    collect_bases ◌>>=◌
recovered_run = refl

refused_run :
    recover_to_time recover_tools none (list_base_backups base_entries) occupied_dir
    ≡ (err not_empty, occupied_dir)
unfolding recover_to_time select_base newest_start list_base_backups sort_bases insert_base
    collect_bases ◌>>=◌
refused_run = refl

-- A directory that cannot be read is copied over.
copied_over_run :
    recover_to_time
      (record recover_tools { readable = false })
      (some 2000015)
      (list_base_backups base_entries)
      occupied_dir
    ≡ (ok tt, configured true "base_old" (some 2000000))
unfolding recover_to_time select_base newest_start list_base_backups sort_bases insert_base
    collect_bases ◌>>=◌
copied_over_run = refl

recover_to_time-Prepared_example :
    Prepared
      (some 15)
      recover_tools
      (list_base_backups base_entries)
      empty_dir
      (recover_to_time recover_tools (some 15) (list_base_backups base_entries) empty_dir)
recover_to_time-Prepared_example =
    recover_to_time-Prepared (some 15) recover_tools base_entries empty_dir

abbrev failure : ℕ → StreamRound
failure n = record { failed = true; lasted = n }

abbrev test_rounds : List StreamRound
test_rounds =
    failure 1
    ∷ failure 1
    ∷ failure 1
    ∷ failure 1
    ∷ failure 1
    ∷ failure 1
    ∷ failure 61
    ∷ record { failed = false; lasted = 5 }
    ∷ failure 0
    ∷ []

waits_run : retry_waits 2 test_rounds ≡ 2 ∷ 4 ∷ 8 ∷ 16 ∷ 32 ∷ 60 ∷ 2 ∷ 2 ∷ []
unfolding retry_waits
waits_run = refl

retry_waits-backoff_example :
    (retry_waits 2 test_rounds ≡ row_waits 0 test_rounds)
    × All (λ wait. (2 ≤ wait) × (wait ≤ 60)) (retry_waits 2 test_rounds)
retry_waits-backoff_example = retry_waits-backoff test_rounds

abbrev location : Bytes
location = codes "0/2000028"

abbrev segment_name : Bytes
segment_name = codes "000000010000000000000002"

line_without_file : HasNoFile (codes "LABEL: base (file x)")
unfolding file_of_line
line_without_file = refl

parse_start_wal_file-start_line_example :
    parse_start_wal_file (
      codes "LABEL: base (file x)"
      ∷ start_line location segment_name
      ∷ codes "BACKUP METHOD: streamed"
      ∷ [])
    ≡ ok segment_name
parse_start_wal_file-start_line_example =
    parse_start_wal_file-start_line (codes "LABEL: base (file x)" ∷ [])
      (codes "BACKUP METHOD: streamed" ∷ []) location segment_name (line_without_file, tt) refl refl
