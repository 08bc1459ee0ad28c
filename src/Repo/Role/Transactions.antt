-- ===== src/Repo/Role/Transactions.antt =====
-- What a transaction over one or two statements does.
-- What a body does if it succeeds; what it did before a failure is rolled back.
use fcstask_backend.Errors.Action.{Action, Result, Writes, Written, continue, err, ok, ◌>>=◌}
use fcstask_backend.Prelude.{subst}
use fcstask_backend.Repo.Role.Tables.{RoleContents, RoleTables, TableLaws, Transacted}

abbrev Succeeded : {D : Type 0} → (D → Type 0) → Result (Unit {0}) × D → Type 0
Succeeded effect (ok u, d') = effect d'
Succeeded effect (err e, d') = Unit

pub record Succeeds {D : Type 0} (d : D) (effect : D → Type 0) (m : Action D (Unit {0}))
    : Type 0 where
  pub succeeded : Succeeded effect (m d)

module _ {D : Type 0} {E F : D → Type 0} {d : D} where
  pub one_statement :
      {m : Action D (Unit {0})} → Writes d E m → ((d' : D) → E d' → F d') → Succeeds d F m
  one_statement {m} w h = record { succeeded = go (m d) w.written }
    where
      go : (x : Result (Unit {0}) × D) → Written d E x → Succeeded F x
      go (ok u, d') p = h d' p
      go (err e, d') p = tt

  pub two_statements :
      {m n : Action D (Unit {0})}
      → Writes d E m
      → ((d' : D) → E d' → Writes d' F n)
      → Succeeds d F (m >>= λ _. n)
  unfolding ◌>>=◌
  two_statements {m} {n} w h = record { succeeded = go (m d) w.written }
    where
      last : (d' : D) (x : Result (Unit {0}) × D) → Written d' F x → Succeeded F x
      last d' (ok u, d₂) p = p
      last d' (err e, d₂) p = tt

      go : (x : Result (Unit {0}) × D) → Written d E x → Succeeded F (continue x.0 (λ _. n) x.1)
      go (ok u, d') p = last d' (n d') (h d' p).written
      go (err e, d') p = tt

pub transaction-Writes :
    {D : Type 0} (tables : RoleTables D) (contents : RoleContents D)
    (laws : TableLaws tables contents) {E : D → Type 0} (m : Action D (Unit {0})) (d : D)
    → Succeeds d E m
    → Writes d E (tables.transaction m)
transaction-Writes {D} tables contents laws {E} m d s = record {
  written = committed (tables.transaction m d) (laws.transact m d);
}
  where
    committed : (x : Result (Unit {0}) × D) → Transacted d (m d) x → Written d E x
    committed (ok u, d') t = subst (Succeeded E) t s.succeeded
    committed (err e, d') t = t
