-- ===== src/Metrics/World.antt =====
-- The database and the metrics registry, which no repository reads or writes.
use fcstask_backend.Errors.Action.{Action, Result}

pub record World (D M : Type 0) : Type 0 where
  pub db : D
  pub metrics : M

module _ {D M A : Type 0} where
  -- `defer func() { count(err) }()` around a body that works on the database.
  abbrev pub deferring : (Result A → M → M) → Action D A → Action (World D M) A
  deferring count body w =
      let (r, d') = body w.db in (r, record { db = d'; metrics = count r w.metrics })

  -- A body that counts nothing.
  abbrev pub on_db : Action D A → Action (World D M) A
  on_db body w = let (r, d') = body w.db in (r, record w { db = d' })
