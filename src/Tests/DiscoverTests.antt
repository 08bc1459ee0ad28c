-- ===== src/Tests/DiscoverTests.antt =====
-- Tables with and without columns of times and keys.
use fcstask_backend.Backup.Bytes.{Bytes, codes, eq_bytes}
use fcstask_backend.Backup.Discover.{
  ChangeColumns, discover_tables, discovered, split_commas, take_columns, unique_lower,
}
use fcstask_backend.Backup.Discover.Tracked.{IsTracked, discover_tables-AreTracked}
use fcstask_backend.Backup.Sql.{TableRef}
use fcstask_backend.Errors.Action.{Result, ok}
use fcstask_backend.Prelude.{All, List, String, [], if◌then◌else◌, refl, ◌∷◌, ◌≡◌}

abbrev test_conf : ChangeColumns
test_conf = record {
  created_cols = codes "Created_At" ∷ [];
  updated_cols = codes "updated_at" ∷ codes "modified" ∷ [];
  deleted_cols = codes "deleted_at" ∷ [];
}

-- The table of logs has no key.
abbrev test_key : Bytes → Bytes → Result (List Bytes)
test_key schema name = if eq_bytes name (codes "logs") then ok [] else ok (codes "id" ∷ [])

abbrev row_of : String → String → List Bytes
row_of name cols = codes "public" ∷ codes name ∷ codes cols ∷ []

abbrev test_query : List Bytes → List Bytes → Result (List (List Bytes))
test_query schemas tracked = ok (
    row_of "users" "deleted_at,modified,updated_at,created_at"
    ∷ row_of "logs" "created_at"
    ∷ row_of "marks" "deleted_at"
    ∷ (codes "public" ∷ [])
    ∷ [])

abbrev users_ref : TableRef
users_ref = record {
  schema = codes "public";
  name = codes "users";
  created_at = codes "created_at";
  updated_at = codes "modified";
  deleted_at = codes "deleted_at";
}

abbrev schemas : List Bytes
schemas = codes "public" ∷ []

discover_run :
    discover_tables test_key test_conf test_query schemas
    ≡ ok (users_ref ∷ [], codes "public.logs (no primary key)" ∷ [])
unfolding discover_tables discovered unique_lower split_commas take_columns
discover_run = refl

discover_tables-AreTracked_example : All (IsTracked test_key test_conf) (users_ref ∷ [])
discover_tables-AreTracked_example =
    discover_tables-AreTracked test_key test_conf test_query schemas
      (users_ref ∷ [], codes "public.logs (no primary key)" ∷ []) discover_run
