-- ===== src/Tests/BackupFilesTests.antt =====
-- A file that is split and put together again, SQL of names with quotes in them, and jobs of two processes.
use fcstask_backend.Backup.Sql.{
  build_upsert, change_expr, has_column, join_idents, doubled, quote_ident, validate_identifier,
}
use fcstask_backend.Backup.Sql.Statements.{read_upsert, read_upsert-build_upsert}
use fcstask_backend.Backup.Scheduler.Exclusion.{run_events-one_running}
use fcstask_backend.Backup.Bytes.{Bytes, codes, eq_bytes, join}
use fcstask_backend.Backup.Decimal.{digits, format_padded}
use fcstask_backend.Backup.Lock.{try_acquire}
use fcstask_backend.Backup.Scheduler.{
  SystemEvent, all_idle, idle, job_step, leaving, process_ends, run_events, run_job, running, step,
}
use fcstask_backend.Backup.Scheduler.Exclusion.{needs_lock}
use fcstask_backend.Backup.Split.{
  Files, is_part, last_part, part_name, set_file, split_file, split_rounds,
}
use fcstask_backend.Backup.Split.Parts.{NoParts}
use fcstask_backend.Backup.Split.RoundTrip.{Reassembles, split_file-Reassembles}
use fcstask_backend.Errors.{other_error}
use fcstask_backend.Errors.Action.{Result, err, ok}
use fcstask_backend.Prelude.{
  List, filter, not, [], arith, false, if◌then◌else◌, leb, none, refl, some, true, ℕ, ◌++◌, ◌∷◌,
  ◌≡◌,
}

abbrev test_path : Bytes
test_path = codes "d"

abbrev test_content : Bytes
test_content = codes "hello"

abbrev test_files : Files
test_files p = if eq_bytes p test_path then some test_content else none

abbrev parts_of : Result (ℕ × Files) → ℕ
parts_of (ok (n, files)) = n
parts_of (err e) = 0

split_run : parts_of (split_file 2 test_path test_files) ≡ 3
unfolding split_file split_rounds
split_run = refl

-- A file of as many bytes as two parts hold has two: the empty third one is removed.
split_exactly_run :
    parts_of (split_file 2 test_path (set_file test_path (codes "four") test_files)) ≡ 2
unfolding split_file split_rounds
split_exactly_run = refl

part_name_run : part_name test_path 7 ≡ codes "d.part007"
unfolding part_name format_padded digits
part_name_run = refl

is_part_run : (is_part (codes "d.part12") ≡ false) × (is_part (codes "d.part012.part1000") ≡ true)
unfolding is_part last_part
is_part_run = (refl, refl)

test_files-NoParts : NoParts test_path 1 test_files
unfolding part_name
test_files-NoParts i le lt = refl

split_file-Reassembles_example :
    (r : ℕ × Files) × (split_file 2 test_path test_files ≡ ok r)
    × Reassembles test_path (λ _. "sum") "d" 2 test_content test_files r
split_file-Reassembles_example =
    split_file-Reassembles test_path (λ _. "sum") "d" 2 test_content test_files (omega arith)
      (omega arith) refl test_files-NoParts

abbrev odd_name : Bytes
odd_name = codes "we\"ird"

quoted_run : quote_ident odd_name ≡ codes "\"we\"\"ird\""
unfolding quote_ident doubled
quoted_run = refl

change_run :
    change_expr (record {
      schema = codes "public";
      name = codes "users";
      created_at = codes "created_at";
      updated_at = codes "updated_at";
      deleted_at = [];
    })
    ≡ codes "GREATEST(\"updated_at\", \"created_at\")"
unfolding change_expr quote_ident doubled join
change_run = refl

upsert_run :
    build_upsert (codes "id" ∷ []) (codes "id" ∷ codes "name" ∷ [])
    ≡ codes "ON CONFLICT (\"id\") DO UPDATE SET \"name\" = EXCLUDED.\"name\""
unfolding build_upsert quote_ident doubled join join_idents
upsert_run = refl

upsert_of_keys_run :
    build_upsert (codes "a" ∷ codes "b" ∷ []) (codes "a" ∷ codes "b" ∷ [])
    ≡ codes "ON CONFLICT (\"a\", \"b\") DO NOTHING"
unfolding build_upsert quote_ident doubled join join_idents
upsert_of_keys_run = refl

validate_run :
    (validate_identifier odd_name ≡ err (other_error "identifier contains unsupported characters"))
    × (validate_identifier (codes "_a1$") ≡ ok tt)
unfolding validate_identifier
validate_run = (refl, refl)

read_upsert-build_upsert_example :
    read_upsert 2 (build_upsert (odd_name ∷ []) (odd_name ∷ codes "a" ∷ []))
    ≡ some (
      odd_name ∷ [],
      filter (λ c. not (has_column (odd_name ∷ []) c)) (odd_name ∷ codes "a" ∷ []),
    )
read_upsert-build_upsert_example =
    read_upsert-build_upsert 2 odd_name [] (odd_name ∷ codes "a" ∷ []) (omega arith) (omega arith)

-- Jobs 0 and 1 are of process 0, the others of process 1.
abbrev test_home : ℕ → ℕ
test_home i = if leb i 1 then 0 else 1

-- Job 0 runs its backup, and the first steps of the others are all refused.
abbrev test_events : List SystemEvent
test_events =
    job_step 0 (ok tt)
    ∷ job_step 1 (ok tt)
    ∷ job_step 0 (ok tt)
    ∷ job_step 2 (ok tt)
    ∷ job_step 2 (ok tt)
    ∷ []

events_run :
    ((run_events test_home test_events all_idle).job 1 ≡ idle)
    × ((run_events test_home test_events all_idle).job 2 ≡ leaving)
unfolding run_events step run_job try_acquire
events_run = (refl, refl)

-- When process 0 has ended, job 2 gets the lock.
after_end_run :
    (run_events test_home
        (test_events
          ++ (process_ends 0 ∷ job_step 2 (ok tt) ∷ job_step 2 (ok tt) ∷ job_step 2 (ok tt) ∷ []))
        all_idle).job
      2
    ≡ running
unfolding run_events step run_job try_acquire
after_end_run = refl

job_0_runs : needs_lock ((run_events test_home test_events all_idle).job 0) ≡ true
unfolding run_events step run_job try_acquire
job_0_runs = refl

run_events-one_running_example :
    needs_lock ((run_events test_home test_events all_idle).job 2) ≡ false
run_events-one_running_example =
    run_events-one_running test_home test_events 0 2 (λ e. absurd (omega (arith, e))) job_0_runs
