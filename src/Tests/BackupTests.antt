-- ===== src/Tests/BackupTests.antt =====
-- A directory that two runs of the backup service leave, and restores from it.
use fcstask_backend.Backup.Catalog.{
  BackupConfig, BackupRun, DirEntry, Instant, Metadata, clean_old_backups, collect_metadata,
  create_backup, decide_backup, full_backup, incremental_backup, insert_by_snapshot, is_expired,
  list_backups, listed, make_dir, new_metadata, newest_of, remove_expired, sort_by_snapshot,
  write_metadata,
}
use fcstask_backend.Backup.Catalog.ChainLength.{AreShort, chain_length-le, limit}
use fcstask_backend.Backup.Catalog.History.{
  AreTimely, IsTimely, Reached, after_run, empty, list_backups-IsCatalog, next_id, run_backups,
}
use fcstask_backend.Backup.Catalog.Linked.{IsCatalog}
use fcstask_backend.Backup.Catalog.Listing.{IsFree}
use fcstask_backend.Backup.Restore.{
  Contents, RestoreTools, Source, applied, apply_incrementals, is_applied, is_in_chain, newest_base,
  restore_chain, restore_to_time, select_chain, version_at,
}
use fcstask_backend.Backup.Restore.Succeeds.{AllWork, is_base, restore_to_time-decides}
use fcstask_backend.Errors.{Error}
use fcstask_backend.Errors.Action.{Result, err, ok, pure, ◌>>=◌}
use fcstask_backend.Prelude.{
  All, List, String, [], any, ap, arith, false, if◌then◌else◌, refl, some, subst, suc, sym, true, ℕ,
  ◌&&◌, ◌<◌, ◌==◌, ◌||◌, ◌∷◌, ◌≡◌, ◌⊎◌,
}

abbrev format_test : Instant → String
format_test t = if t == 10 then "ten" else if t == 20 then "twenty" else "later"

abbrev test_config : BackupConfig
test_config = record {
  force_full = false;
  force_incremental = false;
  pitr_enabled = true;
  full_backup_every = 3;
  retention_days = 0;
}

abbrev run_at : Instant → BackupRun
run_at t = record {
  prepared = ok tt;
  server_time = ok t;
  captured = λ _. ok (record { tables = []; splits = [] });
  written = ok tt;
  now = t;
  removable = λ _. true;
}

abbrev first_backup : Metadata
first_backup = record {
  backup_type = full_backup;
  id = "full_ten";
  database = "courses";
  snapshot_time = 10;
  since = 0;
  parent = "";
  base_full = "full_ten";
  tables = [];
  splits = [];
}

abbrev second_backup : Metadata
second_backup = record {
  backup_type = incremental_backup;
  id = "incremental_twenty";
  database = "courses";
  snapshot_time = 20;
  since = 10;
  parent = "full_ten";
  base_full = "full_ten";
  tables = [];
  splits = [];
}

abbrev entry_of : Metadata → DirEntry
entry_of m = record { name = m.id; is_dir = true; metadata = some m }

abbrev after_one : List DirEntry
after_one = entry_of first_backup ∷ []

abbrev after_two : List DirEntry
after_two = entry_of first_backup ∷ entry_of second_backup ∷ []

abbrev backup : BackupRun → List DirEntry → Result Metadata × List DirEntry
backup = create_backup "courses" format_test test_config

first_run : backup (run_at 10) [] ≡ (ok first_backup, after_one)
unfolding create_backup decide_backup list_backups sort_by_snapshot insert_by_snapshot
    collect_metadata listed make_dir write_metadata new_metadata clean_old_backups ◌>>=◌ pure
first_run = refl

second_run : backup (run_at 20) after_one ≡ (ok second_backup, after_two)
unfolding create_backup decide_backup list_backups sort_by_snapshot insert_by_snapshot
    collect_metadata listed make_dir write_metadata new_metadata clean_old_backups ◌>>=◌ pure
second_run = refl

listed_after_one : list_backups after_one ≡ first_backup ∷ []
unfolding list_backups sort_by_snapshot insert_by_snapshot collect_metadata listed
listed_after_one = refl

listed_after_two : list_backups after_two ≡ first_backup ∷ second_backup ∷ []
unfolding list_backups sort_by_snapshot insert_by_snapshot collect_metadata listed
listed_after_two = refl

run_at-IsTimely :
    (n : Instant) (es : List DirEntry)
    → All (λ x. x.snapshot_time < n) (list_backups es)
    → IsFree (next_id "courses" format_test test_config es n) es
    → IsTimely "courses" format_test test_config (run_at n) es
run_at-IsTimely n es later free = record {
  later = λ t e. subst (λ u. All (λ x. x.snapshot_time < u) (list_backups es)) (same n t e) later;
  free = λ t e.
      subst (λ u. IsFree (next_id "courses" format_test test_config es u) es) (same n t e) free;
  all_removable = λ name. refl;
}
  where
    same : (n t : ℕ) → ok n ≡ ok t → n ≡ t
    same n t e = cc

after_one-IsTimely : IsTimely "courses" format_test test_config (run_at 20) after_one
unfolding decide_backup
after_one-IsTimely =
    run_at-IsTimely 20 after_one
      (subst (All λ x. x.snapshot_time < 20) (sym listed_after_one) (omega arith, tt))
      (rw listed_after_one refl)

after_two-Reached : Reached "courses" format_test test_config after_two
unfolding list_backups sort_by_snapshot insert_by_snapshot collect_metadata listed
after_two-Reached =
    after_run (run_at 20) after_one after_two
      (after_run (run_at 10) [] after_one empty (run_at-IsTimely 10 [] tt refl)
        (ap (λ x. x.1) (sym first_run)))
      after_one-IsTimely (ap (λ x. x.1) (sym second_run))

abbrev test_runs : List BackupRun
test_runs = run_at 10 ∷ run_at 20 ∷ []

abbrev after_runs : List DirEntry
after_runs = run_backups "courses" format_test test_config test_runs []

test_runs-AreTimely : AreTimely "courses" format_test test_config test_runs []
unfolding list_backups sort_by_snapshot insert_by_snapshot collect_metadata listed
test_runs-AreTimely = (
  run_at-IsTimely 10 [] tt refl,
  (
    subst (IsTimely "courses" format_test test_config (run_at 20)) (ap (λ x. x.1) (sym first_run))
        after_one-IsTimely,
    tt,
  ),
)

list_backups-IsCatalog_example : IsCatalog (list_backups after_runs)
list_backups-IsCatalog_example =
    list_backups-IsCatalog "courses" format_test test_config test_runs test_runs-AreTimely

chain_length-le_example :
    AreShort (limit "courses" format_test test_config refl) (list_backups after_two)
chain_length-le_example = chain_length-le "courses" format_test test_config refl after_two-Reached

removed_run : remove_expired 30 (λ _. true) (list_backups after_two) after_two ≡ []
unfolding remove_expired is_expired newest_of list_backups sort_by_snapshot insert_by_snapshot
    collect_metadata listed
removed_run = refl

kept_run : remove_expired 20 (λ _. true) (list_backups after_two) after_two ≡ after_two
unfolding remove_expired is_expired newest_of list_backups sort_by_snapshot insert_by_snapshot
    collect_metadata listed
kept_run = refl

abbrev test_tools : RestoreTools
test_tools = record {
  prepare_target = ok tt;
  restore_base = λ _. ok tt;
  apply_incremental = λ _. ok tt;
  sweep_soft_deletes = ok tt;
}

test_tools-AllWork : AllWork test_tools
test_tools-AllWork = record {
  prepares = refl;
  restores = λ _. refl;
  applies = λ _. refl;
  sweeps = refl;
}

-- Row 1 is changed at 8 and 15; row 2 at 12, and at 18 again; row 3 is made at 5 and deleted at 14. Every
-- backup reads at the instant after its snapshot.
abbrev test_source : Source
test_source = record {
  changed = λ row t.
      if row == 1
      then t == 8 || t == 15
      else if row == 2
      then t == 12 || t == 18
      else row == 3 && (t == 5 || t == 14);
  deleted_at = λ row t. if row == 3 && t == 14 then 14 else 0;
  copied_at = λ m. suc m.snapshot_time;
  copied = λ m row. true;
}

abbrev no_rows : Contents
no_rows row = 0

abbrev restored : Instant → Result (Unit {0}) × Contents
restored t = restore_to_time test_source test_tools (some t) (list_backups after_two) no_rows

abbrev row_after : Result (Unit {0}) × Contents → ℕ → Instant
row_after x row = x.1 row

restored_run : row_after (restored 16) 1 ≡ 15
unfolding restore_to_time restore_chain apply_incrementals select_chain newest_base is_in_chain
    applied is_applied version_at list_backups sort_by_snapshot insert_by_snapshot collect_metadata
    listed ◌>>=◌ pure
restored_run = refl

deleted_run : row_after (restored 16) 3 ≡ 0
unfolding restore_to_time restore_chain apply_incrementals select_chain newest_base is_in_chain
    applied is_applied version_at list_backups sort_by_snapshot insert_by_snapshot collect_metadata
    listed ◌>>=◌ pure
deleted_run = refl

-- The change at 12 is lost: the incremental backup has the one at 18 only, which is after the target.
lost_run : (row_after (restored 16) 2 ≡ 0) × (version_at test_source 2 16 ≡ 12)
unfolding restore_to_time restore_chain apply_incrementals select_chain newest_base is_in_chain
    applied is_applied version_at list_backups sort_by_snapshot insert_by_snapshot collect_metadata
    listed ◌>>=◌ pure
lost_run = (refl, refl)

-- There is no full backup at 5 or before.
restore_to_time-decides_example :
    ((any (is_base (some 5)) (list_backups after_two) ≡ true) × ((restored 5).0 ≡ ok tt))
    ⊎ ((any (is_base (some 5)) (list_backups after_two) ≡ false)
        × ((e : Error) × (restored 5 ≡ (err e, no_rows))))
restore_to_time-decides_example =
    restore_to_time-decides (some 5) test_source test_tools (list_backups after_two) no_rows
      test_tools-AllWork
