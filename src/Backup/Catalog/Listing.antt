-- ===== src/Backup/Catalog/Listing.antt =====
-- What `ListBackups` shows after each change of the output directory.
use Prim.Native.String.{◌++◌ as ◌++ₛ◌}
use text.Mathlib.TextEquality.{starts_with_iff}
use text.Mathlib.TextLemmas.{append_assoc as text_append_assoc}
use fcstask_backend.Backup.Catalog.{
  BackupType, DirEntry, Metadata, collect_metadata, cons_some, full_backup, has_backup_name,
  incremental_backup, insert_by_snapshot, list_backups, listed, make_dir, sort_by_snapshot,
  type_name, write_metadata,
}
use fcstask_backend.Prelude.{
  All, Bool-cases, List, Option, String, [], any, ap, arith, eq_iff, false, inl, inr, leb, none,
  or_false, refl, some, str_eq, true, ◌++◌, ◌<◌, ◌∙◌, ◌∷◌, ◌≡◌,
}

-- No entry has the name.
abbrev pub IsFree : String → List DirEntry → Type 0
IsFree name entries = any (λ entry. str_eq entry.name name) entries ≡ false

pub has_backup_name-id :
    (type : BackupType) (s : String) → has_backup_name (type_name type ++ₛ "_" ++ₛ s) ≡ true
has_backup_name-id full_backup s =
    let named =
      (starts_with_iff (type_name full_backup ++ₛ "_" ++ₛ s) "full_").1
        (s, text_append_assoc "full" "_" s) in
    rw named refl
has_backup_name-id incremental_backup s =
    let named =
      (starts_with_iff (type_name incremental_backup ++ₛ "_" ++ₛ s) "incremental_").1
        (s, text_append_assoc "incremental" "_" s) in
    ground (arith, named)

collect_metadata-append :
    (xs ys : List DirEntry)
    → collect_metadata (xs ++ ys) ≡ collect_metadata xs ++ collect_metadata ys
unfolding collect_metadata
collect_metadata-append [] ys = refl
collect_metadata-append (x ∷ xs) ys = go (listed x) (collect_metadata-append xs ys)
  where
    go :
        (o : Option Metadata)
        → collect_metadata (xs ++ ys) ≡ collect_metadata xs ++ collect_metadata ys
        → cons_some o (collect_metadata (xs ++ ys))
          ≡ cons_some o (collect_metadata xs) ++ collect_metadata ys
    go none ih = ih
    go (some m) ih = ap (λ l. m ∷ l) ih

abbrev pub new_entry : String → DirEntry
new_entry name = record { name = name; is_dir = true; metadata = none }

pub make_dir-free :
    (name : String) (entries : List DirEntry)
    → IsFree name entries
    → make_dir name entries ≡ entries ++ (new_entry name ∷ [])
unfolding make_dir
make_dir-free name entries free = rw free refl

pub listed-new : (name : String) → listed (new_entry name) ≡ none
unfolding listed
listed-new name = ground arith

append-nil' : (xs : List Metadata) → xs ++ [] ≡ xs
append-nil' [] = refl
append-nil' (x ∷ xs) = ap (λ l. x ∷ l) (append-nil' xs)

-- A new directory shows no backup.
pub list_backups-make_dir :
    (name : String) (entries : List DirEntry)
    → IsFree name entries
    → list_backups (make_dir name entries) ≡ list_backups entries
unfolding list_backups collect_metadata
list_backups-make_dir name entries free = ap sort_by_snapshot (
    ap collect_metadata (make_dir-free name entries free)
    ∙ collect_metadata-append entries (new_entry name ∷ [])
    ∙ ap (λ o. collect_metadata entries ++ cons_some o []) (listed-new name)
    ∙ append-nil' (collect_metadata entries))

pub write_metadata-free :
    (m : Metadata) (entries : List DirEntry)
    → IsFree m.id entries
    → write_metadata m (entries ++ (new_entry m.id ∷ []))
      ≡ entries ++ (record (new_entry m.id) { metadata = some m } ∷ [])
unfolding write_metadata
write_metadata-free m [] free = rw ((eq_iff m.id m.id).1 refl) refl
write_metadata-free m (e ∷ es) free =
    let (other, rest) = or_false (str_eq e.name m.id) (any (λ x. str_eq x.name m.id) es) free in
    rw other (ap (λ l. e ∷ l) (write_metadata-free m es rest))

pub listed-written :
    (m : Metadata)
    → has_backup_name m.id ≡ true
    → listed (record (new_entry m.id) { metadata = some m }) ≡ some m
unfolding listed
listed-written m named = rw named refl

insert_by_snapshot-snoc :
    (x new : Metadata) (ys : List Metadata)
    → x.snapshot_time < new.snapshot_time
    → insert_by_snapshot x (ys ++ (new ∷ [])) ≡ insert_by_snapshot x ys ++ (new ∷ [])
unfolding insert_by_snapshot
insert_by_snapshot-snoc x new [] lt = ground arith
insert_by_snapshot-snoc x new (y ∷ ys) lt =
    elim (Bool-cases (leb x.snapshot_time y.snapshot_time)) [
      | inl e ↦ rw e refl
      | inr e ↦ rw e (ap (λ l. y ∷ l) (insert_by_snapshot-snoc x new ys lt))
    ]

sort_by_snapshot-snoc :
    (xs : List Metadata) (new : Metadata)
    → All (λ x. x.snapshot_time < new.snapshot_time) xs
    → sort_by_snapshot (xs ++ (new ∷ [])) ≡ sort_by_snapshot xs ++ (new ∷ [])
unfolding sort_by_snapshot insert_by_snapshot
sort_by_snapshot-snoc [] new h = refl
sort_by_snapshot-snoc (x ∷ xs) new h =
    ap (insert_by_snapshot x) (sort_by_snapshot-snoc xs new h.1)
    ∙ insert_by_snapshot-snoc x new (sort_by_snapshot xs) h.0

module _ (P : Metadata → Type 0) where
  All-insert :
      (m : Metadata) (xs : List Metadata) → All P (insert_by_snapshot m xs) → P m × All P xs
  unfolding insert_by_snapshot
  All-insert m [] h = h
  All-insert m (x ∷ xs) h = elim (Bool-cases (leb m.snapshot_time x.snapshot_time)) [
    | inl e ↦ let k : All P (m ∷ x ∷ xs) = rw e at h in k
    | inr e ↦
        let k : All P (x ∷ insert_by_snapshot m xs) = rw e at h in
        let (p, rest) = All-insert m xs k.1 in (p, (k.0, rest))
  ]

  pub All-unsorted : (xs : List Metadata) → All P (sort_by_snapshot xs) → All P xs
  unfolding sort_by_snapshot
  All-unsorted [] h = tt
  All-unsorted (x ∷ xs) h =
      let (p, rest) = All-insert x (sort_by_snapshot xs) h in (p, All-unsorted xs rest)

-- The metadata that is written into a new directory, later than all that is there, is listed last.
pub list_backups-written :
    (m : Metadata) (entries : List DirEntry)
    → has_backup_name m.id ≡ true
    → IsFree m.id entries
    → All (λ x. x.snapshot_time < m.snapshot_time) (list_backups entries)
    → list_backups (write_metadata m (make_dir m.id entries)) ≡ list_backups entries ++ (m ∷ [])
unfolding list_backups collect_metadata
list_backups-written m entries named free later =
    ap sort_by_snapshot (
      ap (λ l. collect_metadata (write_metadata m l)) (make_dir-free m.id entries free)
      ∙ ap collect_metadata (write_metadata-free m entries free)
      ∙ collect_metadata-append entries (record (new_entry m.id) { metadata = some m } ∷ [])
      ∙ ap (λ o. collect_metadata entries ++ cons_some o []) (listed-written m named))
    ∙ sort_by_snapshot-snoc (collect_metadata entries) m
        (All-unsorted _ (collect_metadata entries) later)
