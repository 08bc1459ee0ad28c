-- ===== src/Metrics/Serves.antt =====
-- A method with a deferred count: what it does to the database and to the counters.
-- The call fails and leaves the database as it was, or its value satisfies `P` with the new
-- database; either way the counters are moved as `count` says for the result.
use fcstask_backend.Errors.Action.{Action, Result, ok}
use fcstask_backend.Errors.Ensures.{Ended, Ended-ok, Ensures}
use fcstask_backend.Metrics.World.{World, deferring}
use fcstask_backend.Prelude.{refl, ◌≡◌}

pub record Serves {D M A : Type 0} (w : World D M) (P : A → D → Type 0) (count : Result A → M → M)
    (call : Action (World D M) A) : Type 0 where
  pub ended : Ended w.db P ((call w).0, (call w).1.db)
  pub counted : (call w).1.metrics ≡ count (call w).0 w.metrics

pub deferring-Serves :
    {D M A : Type 0} (w : World D M) {P : A → D → Type 0} (count : Result A → M → M)
    (body : Action D A)
    → Ensures w.db P body
    → Serves w P count (deferring count body)
deferring-Serves w count body h = record { ended = h.ended; counted = refl }

pub Serves-ok :
    {D M A : Type 0} {w : World D M} {P : A → D → Type 0} {count : Result A → M → M}
    {call : Action (World D M) A} {a : A}
    → Serves w P count call
    → (call w).0 ≡ ok a
    → P a (call w).1.db
Serves-ok {D} {M} {A} {w} {P} {count} {call} s e =
    Ended-ok w.db (call w).1.db P (call w).0 s.ended e
