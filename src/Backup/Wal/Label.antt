-- ===== src/Backup/Wal/Label.antt =====
-- backup-service/internal/wal/common.go, parseStartWALFile: the segment that backup_label names, on the lines
-- of the file.
use mathlib.Core.List.{append_assoc}
use fcstask_backend.Backup.Bytes.{Bytes, all_bytes, codes, cut_prefix, cut_prefix-append}
use fcstask_backend.Errors.{other_error}
use fcstask_backend.Errors.Action.{Result, err, ok}
use fcstask_backend.Prelude.{
  All, Bool, List, Option, [], and_true, ap, arith, false, if◌then◌else◌, is_empty, leb, none, not,
  refl, some, sym, true, ℕ, ◌&&◌, ◌++◌, ◌==◌, ◌||◌, ◌∙◌, ◌∷◌, ◌≡◌,
}

abbrev pub start_prefix : Bytes
start_prefix = codes "START WAL LOCATION"

abbrev pub file_mark : Bytes
file_mark = codes "(file "

-- What stands behind the first occurrence of the pattern, as with `strings.Index`.
abbrev pub or_later : Option Bytes → Option Bytes → Option Bytes
or_later (some rest) later = some rest
or_later none later = later

unfoldable pub behind_first : (pattern : Bytes) → Bytes → Option Bytes
behind_first pattern [] = cut_prefix pattern []
behind_first pattern (c ∷ s) = or_later (cut_prefix pattern (c ∷ s)) (behind_first pattern s)

abbrev pub cons_byte : ℕ → Option Bytes → Option Bytes
cons_byte c none = none
cons_byte c (some s) = some (c ∷ s)

-- What stands before the first closing parenthesis.
unfoldable pub before_close : Bytes → Option Bytes
before_close [] = none
before_close (c ∷ s) = let rest = before_close s in if c == b')' then some [] else cons_byte c rest

-- `strings.TrimSpace`, on ASCII.
abbrev pub is_space : ℕ → Bool
is_space c = c == 32 || (leb 9 c && leb c 13)

unfoldable pub trim_left : Bytes → Bytes
trim_left [] = []
trim_left (c ∷ s) = let rest = trim_left s in if is_space c then rest else c ∷ s

unfoldable pub trim_right : Bytes → Bytes
trim_right [] = []
trim_right (c ∷ s) = let rest = trim_right s in if is_empty rest && is_space c then [] else c ∷ rest

abbrev pub trimmed : Option Bytes → Option Bytes
trimmed none = none
trimmed (some s) = some (trim_right (trim_left s))

abbrev pub named_behind : Option Bytes → Option Bytes
named_behind none = none
named_behind (some rest) = trimmed (before_close rest)

abbrev pub file_behind : Bytes → Option Bytes → Option Bytes
file_behind line none = none
file_behind line (some rest) = named_behind (behind_first file_mark line)

-- The file that one line names.
unfoldable pub file_of_line : Bytes → Option Bytes
file_of_line line = file_behind line (cut_prefix start_prefix line)

abbrev pub first_found : Option Bytes → Result Bytes → Result Bytes
first_found (some file) later = ok file
first_found none later = later

unfoldable pub parse_start_wal_file : List Bytes → Result Bytes
parse_start_wal_file [] = err (other_error "START WAL LOCATION not found")
parse_start_wal_file (line ∷ lines) = first_found (file_of_line line) (parse_start_wal_file lines)

-- The line as PostgreSQL writes it.
abbrev pub start_line : (location file : Bytes) → Bytes
start_line location file =
    start_prefix ++ (codes ": " ++ (location ++ (codes " (file " ++ (file ++ codes ")"))))

abbrev pub opens : ℕ → Bool
opens c = c == b'('

-- The name of a segment is in hexadecimal digits.
abbrev pub is_hex : ℕ → Bool
is_hex c = (leb b'0' c && leb c b'9') || (leb b'A' c && leb c b'F')

abbrev pub HasNoFile : Bytes → Type 0
HasNoFile line = file_of_line line ≡ none

behind_first-skip :
    (s rest : Bytes)
    → all_bytes (λ c. not (opens c)) s ≡ true
    → behind_first file_mark (s ++ (file_mark ++ rest)) ≡ some rest
unfolding behind_first
behind_first-skip [] rest h = refl
behind_first-skip (c ∷ s) rest h =
    let (a, b) = and_true (not (opens c)) (all_bytes (λ c. not (opens c)) s) h in
    ap (λ o. or_later o (behind_first file_mark (s ++ (file_mark ++ rest))))
      (no_mark (b'(' == c) (apart c a))
    ∙ behind_first-skip s rest b
  where
    apart : (c : ℕ) → not (opens c) ≡ true → (b'(' == c) ≡ false
    apart c a = ground arith

    no_mark :
        (b : Bool)
        → b ≡ false
        → (if b then cut_prefix (codes "file ") (s ++ (file_mark ++ rest)) else none) ≡ none
    no_mark true e = cc
    no_mark false e = refl

before_close-hex :
    (file rest : Bytes)
    → all_bytes is_hex file ≡ true
    → before_close (file ++ (b')' ∷ rest)) ≡ some file
unfolding before_close
before_close-hex [] rest h = refl
before_close-hex (c ∷ s) rest h =
    let (a, b) = and_true (is_hex c) (all_bytes is_hex s) h in
    rw (not_close c a, before_close-hex s rest b) refl
  where
    not_close : (c : ℕ) → is_hex c ≡ true → (c == b')') ≡ false
    not_close c a = ground arith

trim_right-hex : (s : Bytes) → all_bytes is_hex s ≡ true → trim_right s ≡ s
unfolding trim_right
trim_right-hex [] h = refl
trim_right-hex (c ∷ s) h =
    let (a, b) = and_true (is_hex c) (all_bytes is_hex s) h in
    rw (trim_right-hex s b) (kept (is_empty s) (is_space c) (not_space c a))
  where
    not_space : (c : ℕ) → is_hex c ≡ true → is_space c ≡ false
    not_space c a = ground arith

    kept : (e b : Bool) → b ≡ false → (if e && b then [] else c ∷ s) ≡ c ∷ s
    kept e b h = ground arith

trim_left-hex : (s : Bytes) → all_bytes is_hex s ≡ true → trim_left s ≡ s
unfolding trim_left
trim_left-hex [] h = refl
trim_left-hex (c ∷ s) h = rw (not_space c (and_true (is_hex c) (all_bytes is_hex s) h).0) refl
  where
    not_space : (c : ℕ) → is_hex c ≡ true → is_space c ≡ false
    not_space c a = ground arith

file_of_line-start_line :
    (location file : Bytes)
    → all_bytes (λ c. not (opens c)) location ≡ true
    → all_bytes is_hex file ≡ true
    → file_of_line (start_line location file) ≡ some file
unfolding file_of_line
file_of_line-start_line location file plain hex =
    let line = start_line location file in
    let tail = file ++ codes ")" in
    let rest = codes ": " ++ (location ++ (codes " (file " ++ tail)) in
    ap (file_behind line) (cut_prefix-append start_prefix rest)
    ∙ ap (λ l. named_behind (behind_first file_mark (start_prefix ++ (codes ": " ++ l))))
        (sym (append_assoc location (codes " ") (file_mark ++ tail)))
    ∙ ap named_behind (
        behind_first-skip (start_prefix ++ (codes ": " ++ (location ++ codes " "))) tail
          (plain_space location plain))
    ∙ ap trimmed (before_close-hex file [] hex)
    ∙ ap (λ s. some (trim_right s)) (trim_left-hex file hex)
    ∙ ap some (trim_right-hex file hex)
  where
    plain_space :
        (s : Bytes)
        → all_bytes (λ c. not (opens c)) s ≡ true
        → all_bytes (λ c. not (opens c)) (s ++ codes " ") ≡ true
    plain_space [] h = refl
    plain_space (c ∷ s) h =
        let (a, b) = and_true (not (opens c)) (all_bytes (λ c. not (opens c)) s) h in
        rw a (plain_space s b)

-- The segment is read back from a label whose lines up to the one of the start name no file, whatever
-- follows it: the location has no parenthesis, and the name is in hexadecimal digits.
pub parse_start_wal_file-start_line :
    (before after : List Bytes) (location file : Bytes)
    → All HasNoFile before
    → all_bytes (λ c. not (opens c)) location ≡ true
    → all_bytes is_hex file ≡ true
    → parse_start_wal_file (before ++ (start_line location file ∷ after)) ≡ ok file
unfolding parse_start_wal_file
parse_start_wal_file-start_line [] after location file h plain hex =
    ap (λ o. first_found o (parse_start_wal_file after))
      (file_of_line-start_line location file plain hex)
parse_start_wal_file-start_line (line ∷ before) after location file h plain hex =
    ap (λ o. first_found o (parse_start_wal_file (before ++ (start_line location file ∷ after))))
      h.0
    ∙ parse_start_wal_file-start_line before after location file h.1 plain hex
