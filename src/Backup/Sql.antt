-- ===== src/Backup/Sql.antt =====
-- backup-service/internal/sqlutil/sqlutil.go, and the SQL that pg/schema.go and restorer.go put together
-- from the names of tables and columns.
pub mod Quoting
pub mod Statements
use fcstask_backend.Backup.Bytes.{Bytes, all_bytes, codes, eq_bytes, join}
use fcstask_backend.Errors.{other_error}
use fcstask_backend.Errors.Action.{Result, err, refuse_if}
use fcstask_backend.Prelude.{
  Bool, List, [], any, false, filter, if◌then◌else◌, is_empty, leb, length, ltb, map, not, ℕ, ◌&&◌,
  ◌++◌, ◌==◌, ◌||◌, ◌∷◌,
}

abbrev pub double_quote : ℕ
double_quote = 34

abbrev pub single_quote : ℕ
single_quote = 39

-- `strings.ReplaceAll` of one byte by two of it.
unfoldable pub doubled : (q : ℕ) → Bytes → Bytes
doubled q [] = []
doubled q (c ∷ s) = if c == q then q ∷ q ∷ doubled q s else c ∷ doubled q s

unfoldable pub quote_ident : Bytes → Bytes
quote_ident s = double_quote ∷ (doubled double_quote s ++ (double_quote ∷ []))

unfoldable pub escape_literal : Bytes → Bytes
escape_literal s = doubled single_quote s

unfoldable pub quote_qualified : (schema table : Bytes) → Bytes
quote_qualified schema table = quote_ident schema ++ (b'.' ∷ quote_ident table)

unfoldable pub join_idents : List Bytes → Bytes
join_idents cols = join (codes ", ") (map quote_ident cols)

-- The pattern `^[A-Za-z_][A-Za-z0-9_$]*$`.
abbrev pub is_letter : ℕ → Bool
is_letter c = (leb b'a' c && leb c b'z') || (leb b'A' c && leb c b'Z')

abbrev pub starts_ident : ℕ → Bool
starts_ident c = is_letter c || c == b'_'

abbrev pub continues_ident : ℕ → Bool
continues_ident c = starts_ident c || (leb b'0' c && leb c b'9') || c == b'$'

abbrev pub matches_ident : Bytes → Bool
matches_ident [] = false
matches_ident (c ∷ s) = starts_ident c && all_bytes continues_ident s

unfoldable pub validate_identifier : Bytes → Result (Unit {0})
validate_identifier s =
    if is_empty s
    then err (other_error "empty identifier")
    else if ltb 63 (length s)
    then err (other_error "identifier exceeds 63 bytes")
    else refuse_if (not (matches_ident s))
        (other_error "identifier contains unsupported characters")

-- `TableRef` with the columns that tell when a row changed; an empty name stands for none.
pub record TableRef : Type 0 where
  pub schema : Bytes
  pub name : Bytes
  pub created_at : Bytes
  pub updated_at : Bytes
  pub deleted_at : Bytes

unfoldable pub qualified : TableRef → Bytes
qualified t = quote_qualified t.schema t.name

abbrev pub given_columns : List Bytes → List Bytes
given_columns [] = []
given_columns (c ∷ cs) = if is_empty c then given_columns cs else quote_ident c ∷ given_columns cs

abbrev pub greatest_of : List Bytes → Bytes
greatest_of (c ∷ []) = c
greatest_of cols = codes "GREATEST(" ++ (join (codes ", ") cols ++ codes ")")

unfoldable pub change_expr : TableRef → Bytes
change_expr t = greatest_of (given_columns (t.updated_at ∷ t.created_at ∷ t.deleted_at ∷ []))

-- `pkSet[c]`
abbrev pub has_column : List Bytes → Bytes → Bool
has_column cols c = any (eq_bytes c) cols

abbrev pub assignment : Bytes → Bytes
assignment c = quote_ident c ++ (codes " = EXCLUDED." ++ quote_ident c)

abbrev pub on_conflict : (pk : List Bytes) → (sets : List Bytes) → Bytes
on_conflict pk [] = codes "ON CONFLICT (" ++ (join_idents pk ++ codes ") DO NOTHING")
on_conflict pk (s ∷ ss) =
    codes "ON CONFLICT ("
    ++ (join_idents pk ++ (codes ") DO UPDATE SET " ++ join (codes ", ") (s ∷ ss)))

unfoldable pub build_upsert : (pk cols : List Bytes) → Bytes
build_upsert pk cols = on_conflict pk (map assignment (filter (λ c. not (has_column pk c)) cols))
