-- ===== src/Backup/Discover/Tracked.antt =====
-- The tables that `DiscoverCDCTables` returns.
use fcstask_backend.Backup.Bytes.{Bytes}
use fcstask_backend.Backup.Discover.{
  ChangeColumns, Discovered, add_table, discover_tables, discovered, has_times, in_set, keep_table,
  split_commas, table_of, take_column, take_columns, unique_lower,
}
use fcstask_backend.Backup.Sql.{TableRef, given_columns}
use fcstask_backend.Errors.Action.{Result, ok, query}
use fcstask_backend.Errors.Ensures.{bind-eq-ok}
use fcstask_backend.Prelude.{
  All, Bool, Bool-cases, List, [], arith, false, if◌then◌else◌, inl, inr, is_empty, refl, subst,
  true, ◌&&◌, ◌++◌, ◌||◌, ◌∷◌, ◌≡◌,
}

module _ (primary_key : (schema name : Bytes) → Result (List Bytes)) (conf : ChangeColumns) where
  -- A column that is not of the configured ones was not taken.
  abbrev pub IsTaken : List Bytes → Bytes → Type 0
  IsTaken items col = (is_empty col || in_set items col) ≡ true

  abbrev TakesConfigured : TableRef → Type 0
  TakesConfigured ref =
      IsTaken conf.created_cols ref.created_at
      × IsTaken conf.updated_cols ref.updated_at
      × IsTaken conf.deleted_cols ref.deleted_at

  take_column-TakesConfigured :
      (ref : TableRef) (col : Bytes)
      → TakesConfigured ref
      → TakesConfigured (take_column conf ref col)
  take_column-TakesConfigured ref col (a, b, c) =
      elim (Bool-cases (in_set conf.created_cols col && is_empty ref.created_at)) [
        | inl e ↦ rw e (taken conf.created_cols ref.created_at e, b, c)
        | inr e ↦
            rw e (elim (Bool-cases (in_set conf.updated_cols col && is_empty ref.updated_at)) [
              | inl f ↦ rw f (a, taken conf.updated_cols ref.updated_at f, c)
              | inr f ↦
                  rw f
                    (elim (Bool-cases (in_set conf.deleted_cols col && is_empty ref.deleted_at)) [
                      | inl g ↦ rw g (a, b, taken conf.deleted_cols ref.deleted_at g)
                      | inr g ↦ rw g (a, b, c)
                    ])
            ])
      ]
    where
      taken :
          (items : List Bytes) (was : Bytes)
          → (in_set items col && is_empty was) ≡ true
          → IsTaken items col
      taken items was e = first (in_set items col) (is_empty was) (is_empty col) e
        where
          first : (x y z : Bool) → (x && y) ≡ true → (z || x) ≡ true
          first x y z e = ground arith

  take_columns-TakesConfigured :
      (ref : TableRef) (cols : List Bytes)
      → TakesConfigured ref
      → TakesConfigured (take_columns conf ref cols)
  unfolding take_columns
  take_columns-TakesConfigured ref [] h = h
  take_columns-TakesConfigured ref (col ∷ cols) h =
      take_columns-TakesConfigured (take_column conf ref col) cols
        (take_column-TakesConfigured ref col h)

  -- A table of an incremental backup: its columns of times are configured ones, there is one to tell when a
  -- row was made or one to tell when it was changed, and it has a key to put rows back by.
  pub record IsTracked (ref : TableRef) : Type 0 where
    pub created : IsTaken conf.created_cols ref.created_at
    pub updated : IsTaken conf.updated_cols ref.updated_at
    pub deleted : IsTaken conf.deleted_cols ref.deleted_at
    pub timed : (is_empty ref.created_at && is_empty ref.updated_at) ≡ false
    pub changes :
        is_empty (given_columns (ref.updated_at ∷ ref.created_at ∷ ref.deleted_at ∷ [])) ≡ false
    pub keyed : (p : Bytes) × (ps : List Bytes) × (primary_key ref.schema ref.name ≡ ok (p ∷ ps))

  has_times-timed :
      (a b : Bool) → (if a then (if b then false else true) else true) ≡ true → (a && b) ≡ false
  has_times-timed a b h = ground arith

  has_times-changes :
      (ref : TableRef)
      → has_times ref ≡ true
      → is_empty (given_columns (ref.updated_at ∷ ref.created_at ∷ ref.deleted_at ∷ [])) ≡ false
  has_times-changes ref h = go ref.created_at ref.updated_at h
    where
      go :
          (created updated : Bytes)
          → (if is_empty created then (if is_empty updated then false else true) else true) ≡ true
          → is_empty (given_columns (updated ∷ created ∷ ref.deleted_at ∷ [])) ≡ false
      go [] [] h = cc
      go [] (c ∷ s) h = refl
      go (c ∷ s) [] h = refl
      go (c ∷ s) (d ∷ t) h = refl

  keep_table-AreTracked :
      (ref : TableRef) (rest : Result Discovered) (found : Discovered)
      → TakesConfigured ref
      → ((found' : Discovered) → rest ≡ ok found' → All IsTracked found'.0)
      → keep_table primary_key conf ref rest ≡ ok found
      → All IsTracked found.0
  keep_table-AreTracked ref rest found (a, b, c) before h = elim (Bool-cases (has_times ref)) [
    | inl e ↦
        let (pk, f, h1) = bind-eq-ok (primary_key ref.schema ref.name) _ (rw e at h) in
        let (found', g, h2) = bind-eq-ok rest _ h1 in
        subst (λ x. All IsTracked x.0) (same h2) (added pk e f found' (before found' g))
    | inr e ↦ before found (rw e at h)
  ]
    where
      same : {a b : Discovered} → ok a ≡ ok b → a ≡ b
      same e = cc

      added :
          (pk : List Bytes)
          → has_times ref ≡ true
          → primary_key ref.schema ref.name ≡ ok pk
          → (found' : Discovered) → All IsTracked found'.0
          → All IsTracked (add_table ref pk found').0
      added [] e f found' all = all
      added (p ∷ ps) e f found' all = (
        record {
          created = a;
          updated = b;
          deleted = c;
          timed = has_times-timed (is_empty ref.created_at) (is_empty ref.updated_at) e;
          changes = has_times-changes ref e;
          keyed = (p, ps, f);
        },
        all,
      )

  discovered-AreTracked :
      (rows : List (List Bytes)) (found : Discovered)
      → discovered primary_key conf rows ≡ ok found
      → All IsTracked found.0
  unfolding discovered
  discovered-AreTracked [] found h = subst (λ x. All IsTracked x.0) (same h) tt
    where
      same : {a b : Discovered} → ok a ≡ ok b → a ≡ b
      same e = cc
  discovered-AreTracked ([] ∷ rows) found h = discovered-AreTracked rows found h
  discovered-AreTracked ((a ∷ []) ∷ rows) found h = discovered-AreTracked rows found h
  discovered-AreTracked ((a ∷ b ∷ []) ∷ rows) found h = discovered-AreTracked rows found h
  discovered-AreTracked ((a ∷ b ∷ c ∷ more) ∷ rows) found h =
      keep_table-AreTracked (take_columns conf (table_of a b) (split_commas c))
        (discovered primary_key conf rows) found
        (take_columns-TakesConfigured (table_of a b) (split_commas c) (refl, refl, refl))
        (discovered-AreTracked rows) h

  -- Every table that DiscoverCDCTables returns takes its columns of times from the configured ones, has one
  -- that tells when a row was made or one that tells when it was updated (one for deletions alone does
  -- not do), so that the expression for changes is not empty, and has a primary key.
  pub discover_tables-AreTracked :
      (query : (schemas tracked : List Bytes) → Result (List (List Bytes))) (schemas : List Bytes)
      (found : Discovered)
      → discover_tables primary_key conf query schemas ≡ ok found
      → All IsTracked found.0
  unfolding discover_tables
  discover_tables-AreTracked query schemas found h =
      let tracked =
        unique_lower [] (conf.created_cols ++ (conf.updated_cols ++ conf.deleted_cols)) in
      elim (Bool-cases (is_empty schemas || is_empty tracked)) [
        | inl e ↦ subst (λ x. All IsTracked x.0) (same (rw e at h)) tt
        | inr e ↦
            let (rows, f, h1) = bind-eq-ok (query schemas tracked) _ (rw e at h) in
            discovered-AreTracked rows found h1
      ]
    where
      same : {a b : Discovered} → ok a ≡ ok b → a ≡ b
      same e = cc
