-- ===== src/Tests/ChecksumTests.antt =====
-- Checksums of a split file, before and after it was put together.
use fcstask_backend.Backup.Bytes.{Bytes, codes, join}
use fcstask_backend.Backup.Checksums.{
  all_of, base_name, cut_line, insert_line, integrity_failed, is_special, line_matches, sort_lines,
  split_lines, sum_lines, trim_newlines, verify_checksums, write_checksums,
}
use fcstask_backend.Backup.Checksums.Verified.{
  HasNo, PrintsSums, is_unchanged, verify_checksums-decides,
}
use fcstask_backend.Backup.Decimal.{atoi}
use fcstask_backend.Backup.Split.{
  Files, assemble_one, insert_part, last_part, part_number, read_parts, remove_parts, set_file,
  sort_parts,
}
use fcstask_backend.Errors.Action.{Result, err, ok}
use fcstask_backend.Prelude.{
  All, List, [], arith, if◌then◌else◌, none, not, refl, some, true, ℕ, ◌%◌, ◌+◌, ◌<◌, ◌==◌, ◌∷◌,
  ◌≡◌,
}

abbrev digit_sum : Bytes → Bytes
digit_sum [] = []
digit_sum (c ∷ s) = (b'a' + c % 8) ∷ digit_sum s

digit_sum-HasNo : (c : ℕ) → c < 97 → (s : Bytes) → HasNo c (digit_sum s)
digit_sum-HasNo c lt [] = refl
digit_sum-HasNo c lt (x ∷ s) = rw (other x) (digit_sum-HasNo c lt s)
  where
    other : (x : ℕ) → not ((b'a' + x % 8) == c) ≡ true
    other x = ground (arith, lt)

digit_sum-PrintsSums : PrintsSums digit_sum
digit_sum-PrintsSums = record {
  no_space = digit_sum-HasNo 32 (omega arith);
  no_newline = digit_sum-HasNo 10 (omega arith);
}

abbrev dump_path : Bytes
dump_path = codes "d"

abbrev listed_names : List Bytes
listed_names = codes "d.part002" ∷ codes "backup_metadata.json" ∷ codes "d.part001" ∷ []

-- Two parts, and no metadata yet.
abbrev split_dump : Files
split_dump =
    set_file (codes "d.part001") (codes "hel")
      (set_file (codes "d.part002") (codes "lo") (λ _. none))

abbrev dump_sums : Bytes
dump_sums = codes "afe  d.part001\neh  d.part002\n"

sums_run : write_checksums digit_sum listed_names split_dump ≡ ok dump_sums
unfolding write_checksums sum_lines is_special base_name sort_lines insert_line join
sums_run = refl

verified_run : verify_checksums digit_sum (some dump_sums) split_dump ≡ ok tt
unfolding verify_checksums line_matches split_lines trim_newlines cut_line
verified_run = refl

changed_run :
    verify_checksums digit_sum
      (some dump_sums)
      (set_file (codes "d.part001") (codes "hex") split_dump)
    ≡ err integrity_failed
unfolding verify_checksums line_matches split_lines trim_newlines cut_line
changed_run = refl

-- A first restore puts the file together and removes its parts, so that a second one fails its check.
abbrev verified_files : Result Files → Result (Unit {0})
verified_files (ok files) = verify_checksums digit_sum (some dump_sums) files
verified_files (err e) = ok tt

second_restore_run :
    verified_files (assemble_one dump_path (codes "d.part002" ∷ codes "d.part001" ∷ []) split_dump)
    ≡ err integrity_failed
unfolding verify_checksums line_matches split_lines trim_newlines cut_line assemble_one sort_parts
    insert_part part_number last_part atoi read_parts remove_parts
second_restore_run = refl

listed_names-AllPlain : All (HasNo 10) listed_names
listed_names-AllPlain = (refl, (refl, (refl, tt)))

verify_checksums-decides_example :
    verify_checksums digit_sum (some dump_sums) (set_file dump_path (codes "hello") (λ _. none)) ≡ (
      if all_of
        (is_unchanged digit_sum split_dump (set_file dump_path (codes "hello") (λ _. none)))
        listed_names
      then ok tt
      else err integrity_failed)
verify_checksums-decides_example =
    verify_checksums-decides digit_sum digit_sum-PrintsSums split_dump
      (set_file dump_path (codes "hello") (λ _. none)) listed_names dump_sums listed_names-AllPlain
      sums_run
