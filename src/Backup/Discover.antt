-- ===== src/Backup/Discover.antt =====
-- backup-service/internal/pg/schema.go, DiscoverCDCTables: which tables an incremental backup copies, and the
-- columns that tell when a row of them changed.
pub mod Tracked
use fcstask_backend.Backup.Bytes.{Bytes, codes, eq_bytes}
use fcstask_backend.Backup.Sql.{TableRef}
use fcstask_backend.Errors.Action.{Result, bind, ok}
use fcstask_backend.Prelude.{
  Bool, List, [], any, false, if◌then◌else◌, is_empty, leb, map, true, ℕ, ◌&&◌, ◌+◌, ◌++◌, ◌==◌,
  ◌||◌, ◌∷◌,
}

-- `strings.ToLower`, on ASCII.
abbrev pub lower_byte : ℕ → ℕ
lower_byte c = if leb b'A' c && leb c b'Z' then c + 32 else c

abbrev pub to_lower : Bytes → Bytes
to_lower s = map lower_byte s

abbrev pub in_set : List Bytes → Bytes → Bool
in_set items col = any (λ item. eq_bytes (to_lower item) col) items

-- `seen` holds what was taken before.
unfoldable pub unique_lower : (seen : List Bytes) → List Bytes → List Bytes
unique_lower seen [] = []
unique_lower seen (item ∷ items) =
    let l = to_lower item in
    let drop = is_empty l || any (eq_bytes l) seen in
    let rest = unique_lower (if drop then seen else l ∷ seen) items in
    if drop then rest else l ∷ rest

-- `strings.Split(s, ",")`
abbrev pub cons_column : ℕ → List Bytes → List Bytes
cons_column c [] = (c ∷ []) ∷ []
cons_column c (col ∷ cols) = (c ∷ col) ∷ cols

unfoldable pub split_commas : Bytes → List Bytes
split_commas [] = [] ∷ []
split_commas (c ∷ s) =
    let rest = split_commas s in if c == b',' then [] ∷ rest else cons_column c rest

-- The names of the columns in the configuration.
pub record ChangeColumns : Type 0 where
  pub created_cols : List Bytes
  pub updated_cols : List Bytes
  pub deleted_cols : List Bytes

-- The first column of each kind; the kinds are tried in this order.
abbrev pub take_column : ChangeColumns → TableRef → Bytes → TableRef
take_column conf ref col =
    if in_set conf.created_cols col && is_empty ref.created_at
    then record ref { created_at = col }
    else if in_set conf.updated_cols col && is_empty ref.updated_at
    then record ref { updated_at = col }
    else if in_set conf.deleted_cols col && is_empty ref.deleted_at
    then record ref { deleted_at = col }
    else ref

unfoldable pub take_columns : ChangeColumns → TableRef → List Bytes → TableRef
take_columns conf ref [] = ref
take_columns conf ref (col ∷ cols) = take_columns conf (take_column conf ref col) cols

abbrev pub table_of : (schema name : Bytes) → TableRef
table_of schema name = record {
  schema = schema;
  name = name;
  created_at = [];
  updated_at = [];
  deleted_at = [];
}

abbrev pub no_primary_key : TableRef → Bytes
no_primary_key ref = ref.schema ++ (codes "." ++ (ref.name ++ codes " (no primary key)"))

abbrev pub has_times : TableRef → Bool
has_times ref =
    if is_empty ref.created_at then (if is_empty ref.updated_at then false else true) else true

-- The tables, and what is said of those that are skipped.
abbrev pub Discovered : Type 0
Discovered = List TableRef × List Bytes

abbrev pub add_table : TableRef → (pk : List Bytes) → Discovered → Discovered
add_table ref [] found = (found.0, no_primary_key ref ∷ found.1)
add_table ref (p ∷ ps) found = (ref ∷ found.0, found.1)

module _ (primary_key : (schema name : Bytes) → Result (List Bytes)) (conf : ChangeColumns) where
  abbrev pub keep_table : TableRef → Result Discovered → Result Discovered
  keep_table ref rest =
      if has_times ref
      then bind (primary_key ref.schema ref.name)
          (λ pk. bind rest λ found. ok (add_table ref pk found))
      else rest

  -- A row has the schema, the name and the columns of a table; a shorter one is skipped.
  abbrev pub keep_row : List Bytes → Result Discovered → Result Discovered
  keep_row [] rest = rest
  keep_row (a ∷ []) rest = rest
  keep_row (a ∷ b ∷ []) rest = rest
  keep_row (a ∷ b ∷ c ∷ more) rest =
      keep_table (take_columns conf (table_of a b) (split_commas c)) rest

  unfoldable pub discovered : List (List Bytes) → Result Discovered
  discovered [] = ok ([], [])
  discovered (row ∷ rows) = keep_row row (discovered rows)

  module _ (query : (schemas tracked : List Bytes) → Result (List (List Bytes))) where
    unfoldable pub discover_tables : List Bytes → Result Discovered
    discover_tables schemas =
        let tracked =
          unique_lower [] (conf.created_cols ++ (conf.updated_cols ++ conf.deleted_cols)) in
        if is_empty schemas || is_empty tracked
        then ok ([], [])
        else bind (query schemas tracked) discovered
