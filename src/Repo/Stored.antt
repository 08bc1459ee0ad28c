-- ===== src/Repo/Stored.antt =====
-- A table of rows with an id, to a reader of it, and what the repositories of homeworks, tasks and
-- deadlines promise about theirs: gorm's First, Create, Save and Delete by the primary key.
use fcstask_backend.Errors.Action.{Action, Result, Writes, ok}
use fcstask_backend.Errors.Ensures.{Ensures}
use fcstask_backend.Model.{Uuid}
use fcstask_backend.Prelude.{
  Bool-cases, Option, if◌then◌else◌, inl, inr, none, refl, some, subst, sym, ◌==◌, ◌∙◌, ◌≡◌, ◌⊎◌,
}
use fcstask_backend.Repo.Role.Interface.{Faulty, GrantsAre, RoleView, RolesAre, found, looked_up}

pub record Table (D Row : Type 0) : Type 0 where
  pub row_of : D → Uuid → Option Row
  pub id_of : Row → Uuid
  -- the row that was sent, with the columns that an insert may fill in as in the stored one
  pub as_stored : Row → Row → Row

module _ {D Row : Type 0} (table : Table D Row) (d : D) where
  open table use {row_of}

  abbrev pub RowsAre : (Uuid → Option Row) → D → Type 0
  RowsAre rows d' = (id : Uuid) → row_of d' id ≡ rows id

  -- The rows with the one at `id` replaced.
  abbrev pub with_row : Uuid → Option Row → Uuid → Option Row
  with_row id row id' = if id' == id then row else row_of d id'

-- Nobody's role and no permission changes.
abbrev pub SameRoles : {D : Type 0} → RoleView D → D → D → Type 0
SameRoles view d d' = RolesAre view d (view.role_of d) d' × GrantsAre view d (view.granted d) d'

-- `row'` is what was stored for `row`, under an id that was free.
pub record Inserted {D Row : Type 0} (table : Table D Row) (view : RoleView D) (d : D)
    (row row' : Row) (d' : D) : Type 0 where
  pub filled : row' ≡ table.as_stored row row'
  pub fresh : table.row_of d (table.id_of row') ≡ none
  pub rows_after : RowsAre table d (with_row table d (table.id_of row') (some row')) d'
  pub same_roles : SameRoles view d d'

pub record Replaced {D Row : Type 0} (table : Table D Row) (view : RoleView D) (d : D) (id : Uuid)
    (row : Option Row) (d' : D) : Type 0 where
  pub rows_after : RowsAre table d (with_row table d id row) d'
  pub same_roles : SameRoles view d d'

pub record RowLaws {D Row : Type 0} (table : Table D Row) (view : RoleView D)
    (create : Row → Action D Row) (get_by_id : Uuid → D → Result Row)
    (update : Row → Action D (Unit {0})) (delete : Uuid → Action D (Unit {0})) : Type 0 where
  pub own_id : (d : D) (id : Uuid) (row : Row) → table.row_of d id ≡ some row → table.id_of row ≡ id
  pub get :
      (id : Uuid) (d : D) → Faulty (get_by_id id d) ⊎ (get_by_id id d ≡ found (table.row_of d id))
  pub creates : (row : Row) (d : D) → Ensures d (Inserted table view d row) (create row)
  pub updates :
      (row : Row) (d : D)
      → Writes d (Replaced table view d (table.id_of row) (some row)) (update row)
  pub deletes : (id : Uuid) (d : D) → Writes d (Replaced table view d id none) (delete id)

-- A row that was read is stored.
module _ {D Row : Type 0} {table : Table D Row} {view : RoleView D} {create : Row → Action D Row}
    {get_by_id : Uuid → D → Result Row} {update : Row → Action D (Unit {0})}
    {delete : Uuid → Action D (Unit {0})} where
  pub row_of-read :
      RowLaws table view create get_by_id update delete
      → (id : Uuid) (d : D) {row : Row} → get_by_id id d ≡ ok row
      → table.row_of d id ≡ some row
  row_of-read laws id d h = looked_up _ _ (laws.get id d) h

-- Every stored row satisfies a predicate: kept by a write of a row that does.
abbrev pub AllRows : {D Row : Type 0} → Table D Row → (Row → Type 0) → D → Type 0
AllRows table P d = (id : Uuid) (row : _) → table.row_of d id ≡ some row → P row

module _ {D Row : Type 0} (table : Table D Row) (P : Row → Type 0) (d d' : D) where
  with_row-All :
      (id : Uuid) (row : Option Row)
      → ((x : Row) → row ≡ some x → P x)
      → AllRows table P d
      → RowsAre table d (with_row table d id row) d'
      → AllRows table P d'
  with_row-All id row good all after id' x h = elim (Bool-cases (id' == id)) [
    | inl e ↦ good x (sym (rw e refl) ∙ sym (after id') ∙ h)
    | inr e ↦ all id' x (sym (rw e refl) ∙ sym (after id') ∙ h)
  ]

  pub Replaced-All :
      (view : RoleView D) (id : Uuid) (row : Option Row)
      → ((x : Row) → row ≡ some x → P x)
      → AllRows table P d
      → Replaced table view d id row d'
      → AllRows table P d'
  Replaced-All view id row good all r = with_row-All id row good all r.rows_after

  pub Inserted-All :
      (view : RoleView D) (row row' : Row)
      → P row'
      → AllRows table P d
      → Inserted table view d row row' d'
      → AllRows table P d'
  Inserted-All view row row' good all r =
      with_row-All (table.id_of row') (some row') (λ x e. subst P (same e) good) all r.rows_after
    where
      same : {a b : Row} → some a ≡ some b → a ≡ b
      same e = cc

pub Replaced-at :
    {D Row : Type 0} {table : Table D Row} {view : RoleView D} {d d' : D} {a b : Uuid}
    {row : Option Row}
    → a ≡ b
    → Replaced table view d a row d'
    → Replaced table view d b row d'
Replaced-at {D} {Row} {table} {view} {d} {d'} {a} {b} {row} e r =
    subst (λ id. Replaced table view d id row d') e r
