-- ===== src/Backup/Split.antt =====
-- backup-service/internal/backup/splitter.go and restore/assembler.go: a large file is cut into numbered
-- parts, and put together again. A file system is a function from paths to contents.
pub mod Names
pub mod Pieces
pub mod Parts
pub mod Order
pub mod RoundTrip
use fcstask_backend.Backup.Bytes.{Bytes, all_bytes, codes, cut_prefix, eq_bytes}
use fcstask_backend.Backup.Catalog.{SplitInfo}
use fcstask_backend.Backup.Decimal.{atoi, format_padded, is_digit}
use fcstask_backend.Errors.{other_error}
use fcstask_backend.Errors.Action.{Result, bind, err, ok}
use fcstask_backend.Prelude.{
  Bool, List, Option, String, [], false, if◌then◌else◌, is_empty, leb, length, ltb, none, not, some,
  str_eq, suc, zero, ℕ, ◌&&◌, ◌++◌, ◌==◌, ◌||◌, ◌∷◌,
}

abbrev pub Files : Type 0
Files = Bytes → Option Bytes

abbrev pub set_file : Bytes → Bytes → Files → Files
set_file path content files p = if eq_bytes p path then some content else files p

abbrev pub remove_file : Bytes → Files → Files
remove_file path files p = if eq_bytes p path then none else files p

abbrev pub part_suffix : Bytes
part_suffix = codes ".part"

-- `fmt.Sprintf("%s%s%03d", filePath, PartSuffix, partNum)`
unfoldable pub part_name : Bytes → ℕ → Bytes
part_name path n = path ++ (part_suffix ++ format_padded n)

abbrev pub take_bytes : ℕ → Bytes → Bytes
take_bytes zero s = []
take_bytes (suc n) [] = []
take_bytes (suc n) (c ∷ s) = c ∷ take_bytes n s

abbrev pub drop_bytes : ℕ → Bytes → Bytes
drop_bytes zero s = s
drop_bytes (suc n) [] = []
drop_bytes (suc n) (c ∷ s) = drop_bytes n s

-- The loop of `SplitFile`: each round creates a part and copies at most `max` bytes of what is left. A part
-- that got no byte is removed, and one that got fewer than `max` is the last.
unfoldable pub split_rounds : (rounds max : ℕ) → Bytes → (part_num : ℕ) → Bytes → Files → ℕ × Files
split_rounds zero max path n content files = (0, files)
split_rounds (suc rounds) max path n content files =
    let part = part_name path n in
    let chunk = take_bytes max content in
    let next =
      split_rounds rounds max path (suc n) (drop_bytes max content) (set_file part chunk files) in
    if is_empty chunk
    then (0, remove_file part (set_file part chunk files))
    else if ltb (length chunk) max
    then (1, set_file part chunk files)
    else (suc next.0, next.1)

abbrev pub split_content : ℕ → Bytes → Files → Option Bytes → Result (ℕ × Files)
split_content max path files none = err (other_error "open")
split_content max path files (some content) =
    let (parts, files') = split_rounds (suc (length content)) max path 1 content files in
    ok (parts, remove_file path files')

unfoldable pub split_file : (max : ℕ) → Bytes → Files → Result (ℕ × Files)
split_file max path files = split_content max path files (files path)

-- The last `.part` in a path, `strings.LastIndex`: what stands before it, and behind it.
abbrev pub behind_byte : ℕ → Option Bytes → Option (Bytes × Bytes) → Option (Bytes × Bytes)
behind_byte c here (some (before, behind)) = some (c ∷ before, behind)
behind_byte c none none = none
behind_byte c (some behind) none = some ([], behind)

unfoldable pub last_part : Bytes → Option (Bytes × Bytes)
last_part [] = none
last_part (c ∷ s) = behind_byte c (cut_prefix part_suffix (c ∷ s)) (last_part s)

-- The pattern `\.part\d{3,}$`.
abbrev pub ends_as_part : Option (Bytes × Bytes) → Bool
ends_as_part none = false
ends_as_part (some (before, behind)) = leb 3 (length behind) && all_bytes is_digit behind

unfoldable pub is_part : Bytes → Bool
is_part path = ends_as_part (last_part path)

abbrev pub or_zero : Option ℕ → ℕ
or_zero none = 0
or_zero (some n) = n

abbrev pub number_behind : Option (Bytes × Bytes) → ℕ
number_behind none = 0
number_behind (some (before, behind)) = or_zero (atoi behind)

unfoldable pub part_number : Bytes → ℕ
part_number path = number_behind (last_part path)

-- `sort.Slice` by the number of the part.
unfoldable pub insert_part : Bytes → List Bytes → List Bytes
insert_part p [] = p ∷ []
insert_part p (q ∷ qs) =
    if leb (part_number p) (part_number q) then p ∷ q ∷ qs else q ∷ insert_part p qs

unfoldable pub sort_parts : List Bytes → List Bytes
sort_parts [] = []
sort_parts (p ∷ ps) = insert_part p (sort_parts ps)

abbrev pub append_part : Option Bytes → Option Bytes → Option Bytes
append_part none rest = none
append_part (some s) none = none
append_part (some s) (some rest) = some (s ++ rest)

-- `io.Copy` of each part behind the ones before it.
unfoldable pub read_parts : List Bytes → Files → Option Bytes
read_parts [] files = some []
read_parts (p ∷ ps) files = append_part (files p) (read_parts ps files)

unfoldable pub remove_parts : List Bytes → Files → Files
remove_parts [] files = files
remove_parts (p ∷ ps) files = remove_parts ps (remove_file p files)

abbrev pub assembled : Bytes → List Bytes → Files → Option Bytes → Result Files
assembled path parts files none = err (other_error "open part")
assembled path parts files (some content) = ok (remove_parts parts (set_file path content files))

-- `assembleOne`, on the parts in the order in which the directory lists them.
unfoldable pub assemble_one : Bytes → List Bytes → Files → Result Files
assemble_one path parts files =
    assembled path (sort_parts parts) files (read_parts (sort_parts parts) files)

-- One file of `AssembleFiles`: the number of parts and the checksum are those that the metadata has,
-- where it has them.
abbrev pub count_differs : Option SplitInfo → List Bytes → Bool
count_differs none parts = false
count_differs (some info) parts = not (length parts == info.parts)

module _ (sha256 : Bytes → String) where
  abbrev pub differs : SplitInfo → Bytes → Bool
  differs info content =
      not (length content == info.size) || not (str_eq (sha256 content) info.sha256)

  abbrev pub verified : Option SplitInfo → Files → Option Bytes → Result Files
  verified none files content = ok files
  verified (some info) files none = err (other_error "verify")
  verified (some info) files (some content) =
      if differs info content then err (other_error "integrity check failed") else ok files

  unfoldable pub assemble_file : Option SplitInfo → Bytes → List Bytes → Files → Result Files
  assemble_file expected path parts files =
      if count_differs expected parts
      then err (other_error "wrong number of parts")
      else bind (assemble_one path parts files) λ files'. verified expected files' (files' path)
