-- ===== src/Backup/Checksums.antt =====
-- backup-service/internal/backup/metadata.go, WriteChecksums and VerifyChecksums: the file SHA256SUMS of a
-- backup, over the names that the walk of its directory lists.
pub mod Lines
pub mod Verified
use fcstask_backend.Backup.Bytes.{Bytes, codes, eq_bytes, join}
use fcstask_backend.Backup.Split.{Files}
use fcstask_backend.Errors.{Error, other_error}
use fcstask_backend.Errors.Action.{Result, bind, err, ok}
use fcstask_backend.Prelude.{
  Bool, List, Option, [], false, if◌then◌else◌, is_empty, ltb, none, not, some, true, ℕ, ◌&&◌, ◌++◌,
  ◌==◌, ◌||◌, ◌∷◌,
}

abbrev pub newline : ℕ
newline = 10

abbrev pub space : ℕ
space = 32

-- `sort.Strings`: by the bytes.
abbrev pub before_or_same : Bytes → Bytes → Bool
before_or_same [] t = true
before_or_same (x ∷ s) [] = false
before_or_same (x ∷ s) (y ∷ t) = ltb x y || (x == y && before_or_same s t)

unfoldable pub insert_line : Bytes → List Bytes → List Bytes
insert_line l [] = l ∷ []
insert_line l (x ∷ xs) = if before_or_same l x then l ∷ x ∷ xs else x ∷ insert_line l xs

unfoldable pub sort_lines : List Bytes → List Bytes
sort_lines [] = []
sort_lines (l ∷ ls) = insert_line l (sort_lines ls)

abbrev pub all_of {ℓ} : {A : Type ℓ} → (A → Bool) → List A → Bool
all_of test [] = true
all_of test (x ∷ xs) = test x && all_of test xs

-- `info.Name()`: what stands behind the last slash.
abbrev pub has_slash : Bytes → Bool
has_slash [] = false
has_slash (c ∷ s) = c == b'/' || has_slash s

unfoldable pub base_name : Bytes → Bytes
base_name [] = []
base_name (c ∷ s) = let rest = base_name s in if has_slash (c ∷ s) then rest else c ∷ s

unfoldable pub is_special : Bytes → Bool
is_special name =
    eq_bytes (base_name name) (codes "SHA256SUMS")
    || eq_bytes (base_name name) (codes "backup_metadata.json")
    || eq_bytes (base_name name) (codes "backup_metadata.json.tmp")

-- `if content != "" { content += "\n" }`
abbrev pub ended : Bytes → Bytes
ended [] = []
ended (c ∷ s) = (c ∷ s) ++ (newline ∷ [])

-- `strings.TrimRight(s, "\n")`
unfoldable pub trim_newlines : Bytes → Bytes
trim_newlines [] = []
trim_newlines (c ∷ s) =
    let rest = trim_newlines s in if is_empty rest && c == newline then [] else c ∷ rest

-- `strings.Split(s, "\n")`
abbrev pub cons_first : ℕ → List Bytes → List Bytes
cons_first c [] = (c ∷ []) ∷ []
cons_first c (l ∷ ls) = (c ∷ l) ∷ ls

unfoldable pub split_lines : Bytes → List Bytes
split_lines [] = [] ∷ []
split_lines (c ∷ s) =
    let rest = split_lines s in if c == newline then [] ∷ rest else cons_first c rest

-- A line at its first two spaces.
abbrev pub cons_want : ℕ → Option (Bytes × Bytes) → Option (Bytes × Bytes)
cons_want c none = none
cons_want c (some (want, rel)) = some (c ∷ want, rel)

unfoldable pub cut_line : Bytes → Option (Bytes × Bytes)
cut_line [] = none
cut_line (c ∷ []) = none
cut_line (c ∷ d ∷ s) =
    let rest = cut_line (d ∷ s) in
    if c == space && d == space then some ([], s) else cons_want c rest

abbrev pub no_checksums : Error
no_checksums = other_error "no SHA256SUMS present"

abbrev pub integrity_failed : Error
integrity_failed = other_error "integrity check failed"

module _ (sha256 : Bytes → Bytes) where
  abbrev pub line_of : Bytes → Bytes → Bytes
  line_of name content = sha256 content ++ (space ∷ space ∷ name)

  abbrev pub sum_line : Bytes → Option Bytes → Result Bytes
  sum_line name none = err (other_error "open")
  sum_line name (some content) = ok (line_of name content)

  unfoldable pub sum_lines : List Bytes → Files → Result (List Bytes)
  sum_lines [] files = ok []
  sum_lines (name ∷ names) files =
      let rest = sum_lines names files in
      if is_special name
      then rest
      else bind (sum_line name (files name)) λ l. bind rest λ ls. ok (l ∷ ls)

  unfoldable pub write_checksums : List Bytes → Files → Result Bytes
  write_checksums names files =
      bind (sum_lines names files) λ ls. ok (ended (join (codes "\n") (sort_lines ls)))

  abbrev pub content_matches : Bytes → Option Bytes → Bool
  content_matches want none = false
  content_matches want (some content) = eq_bytes (sha256 content) want

  abbrev pub cut_matches : Files → Option (Bytes × Bytes) → Bool
  cut_matches files none = false
  cut_matches files (some (want, rel)) = content_matches want (files rel)

  -- A line that is no problem.
  unfoldable pub line_matches : Files → Bytes → Bool
  line_matches files line = is_empty line || cut_matches files (cut_line line)

  -- The contents of SHA256SUMS, `none` where there is no such file.
  unfoldable pub verify_checksums : Option Bytes → Files → Result (Unit {0})
  verify_checksums none files = err no_checksums
  verify_checksums (some sums) files =
      if all_of (line_matches files) (split_lines (trim_newlines sums))
      then ok tt
      else err integrity_failed
