-- ===== src/Backup/Wal/Recovered.antt =====
-- The data directory that a recovery prepares, and the base backup that it takes.
use fcstask_backend.Backup.Catalog.{Instant}
use fcstask_backend.Backup.Restore.{at_or_before}
use fcstask_backend.Backup.Wal.{
  BaseEntry, BaseMetadata, DataDir, RecoverTools, base_or_error, configure, configured, copied_base,
  copy_base, empty_dir, is_occupied, list_base_backups, newest_start, not_configured, not_empty,
  occupied_dir, recover_base, recover_to_time, select_base, whole_seconds, write_recovery_config,
}
use fcstask_backend.Backup.Wal.Bases.{AreOrdered, list_base_backups-AreOrdered}
use fcstask_backend.Errors.{Error}
use fcstask_backend.Errors.Action.{Result, continue, err, lift, ok, refuse_if, ◌>>=◌}
use fcstask_backend.Prelude.{
  All, Bool-cases, List, Option, [], arith, false, false≢true, inl, inr, none, not, refl, some,
  subst, sym, true, ◌&&◌, ◌∙◌, ◌∷◌, ◌≡◌, ◌≤◌, ◌⊎◌,
}

module _ (target : Option Instant) where
  -- No base backup up to the target starts later.
  pub record IsNewest (bases : List BaseMetadata) (base : BaseMetadata) : Type 0 where
    pub in_time : at_or_before target base.started_at ≡ true
    pub newest :
        All (λ m. at_or_before target m.started_at ≡ true → m.started_at ≤ base.started_at) bases

  abbrev Below : Option BaseMetadata → List BaseMetadata → Type 0
  Below none ms = Unit
  Below (some c) ms =
      (at_or_before target c.started_at ≡ true) × All (λ m. c.started_at ≤ m.started_at) ms

  abbrev AtMost : Option BaseMetadata → BaseMetadata → Type 0
  AtMost none b = Unit
  AtMost (some c) b = c.started_at ≤ b.started_at

  newest_start-IsNewest :
      (ms : List BaseMetadata) (o : Option BaseMetadata) (b : BaseMetadata)
      → AreOrdered ms
      → Below o ms
      → newest_start target ms o ≡ some b
      → IsNewest ms b × AtMost o b
  unfolding newest_start
  newest_start-IsNewest [] none b ordered below h = cc
  newest_start-IsNewest [] (some c) b ordered below h =
      subst (λ x. IsNewest [] x × AtMost (some c) x) (same c b h)
        (record { in_time = below.0; newest = tt }, omega arith)
    where
      same : (c b : BaseMetadata) → some c ≡ some b → c ≡ b
      same c b e = cc
  newest_start-IsNewest (m ∷ ms) o b ordered below h =
      elim (Bool-cases (at_or_before target m.started_at)) [
        | inl e ↦
            let (n, le) =
              newest_start-IsNewest ms (some m) b ordered.1 (e, ordered.0) (sym (rw e refl) ∙ h) in
            (record { in_time = n.in_time; newest = (λ _. le, n.newest) }, at_most o below le)
        | inr e ↦
            let (n, le) =
              newest_start-IsNewest ms o b ordered.1 (tail o below) (sym (rw e refl) ∙ h) in
            (
              record {
                in_time = n.in_time;
                newest = (λ t. absurd (false≢true (sym e ∙ t)), n.newest);
              },
              le,
            )
      ]
    where
      at_most :
          (o : Option BaseMetadata) → Below o (m ∷ ms) → m.started_at ≤ b.started_at → AtMost o b
      at_most none below le = tt
      at_most (some c) below le = omega (arith, le, below.1.0)

      tail : (o : Option BaseMetadata) → Below o (m ∷ ms) → Below o ms
      tail none below = tt
      tail (some c) below = (below.0, below.1.1)

  select_base-IsNewest :
      (bases : List BaseMetadata) (base : BaseMetadata)
      → AreOrdered bases
      → select_base target bases ≡ ok base
      → IsNewest bases base
  unfolding select_base
  select_base-IsNewest [] base ordered h = cc
  select_base-IsNewest (m ∷ ms) base ordered h =
      (newest_start-IsNewest (m ∷ ms) none base ordered tt
        (found (newest_start target (m ∷ ms) none) h)).0
    where
      found : (o : Option BaseMetadata) → base_or_error o ≡ ok base → o ≡ some base
      found none h = cc
      found (some c) h = cc

  -- A directory that a recovery may write into: it was empty, or could not be read.
  abbrev pub IsOpen : RecoverTools → DataDir → Type 0
  IsOpen tools d = (tools.readable ≡ false) ⊎ (d ≡ empty_dir)

  -- How a recovery may end: before it touches the directory; or in a directory that was open to it, prepared
  -- for the newest base backup up to the target, or left by a step that failed.
  abbrev pub Began :
      RecoverTools → List BaseMetadata → DataDir → Result (Unit {0}) → DataDir → Type 0
  Began tools bases d (ok u) d' =
      IsOpen tools d
      × ((base : BaseMetadata) × IsNewest bases base
          × (d' ≡ configured (is_occupied d) base.id (whole_seconds target)))
  Began tools bases d (err e) d' = (d' ≡ d) ⊎ IsOpen tools d

  abbrev pub Prepared :
      RecoverTools → List BaseMetadata → DataDir → Result (Unit {0}) × DataDir → Type 0
  Prepared tools bases d x = Began tools bases d x.0 x.1

  step_or_end :
      {A : Type 0} (P : Result (Unit {0}) × DataDir → Type 0) (r : Result A)
      (k : A → DataDir → Result (Unit {0}) × DataDir) (d : DataDir)
      → ((e : Error) → P (err e, d))
      → ((a : A) → r ≡ ok a → P (k a d))
      → P (continue r k d)
  step_or_end P (ok a) k d failed goes = goes a refl
  step_or_end P (err e) k d failed goes = failed e

  passed-IsOpen :
      (tools : RecoverTools) (d : DataDir) (e : Error)
      → refuse_if (tools.readable && is_occupied d) e ≡ ok tt
      → IsOpen tools d
  passed-IsOpen tools d e h = elim (Bool-cases tools.readable) [
    | inl readable ↦ inr (is_empty_dir d (rw readable at h))
    | inr unreadable ↦ inl unreadable
  ]
    where
      is_empty_dir : (d : DataDir) → refuse_if (is_occupied d) e ≡ ok tt → d ≡ empty_dir
      is_empty_dir empty_dir h = refl
      is_empty_dir occupied_dir h = cc
      is_empty_dir (copied_base over id) h = cc
      is_empty_dir (configured over id t) h = cc

  -- A recovery never writes into a directory that it can read and that is not empty. Where it succeeds, the
  -- directory holds the newest base backup that was started at or before the target (over what was there,
  -- if it could not be read), configured for the target cut to whole seconds; where it fails, the
  -- directory is as it was, or was empty, or could not be read.
  pub recover_to_time-Prepared :
      (tools : RecoverTools) (entries : List BaseEntry) (d : DataDir)
      → Prepared tools
          (list_base_backups entries)
          d
          (recover_to_time tools target (list_base_backups entries) d)
  unfolding recover_to_time ◌>>=◌
  recover_to_time-Prepared tools entries d =
      step_or_end P (refuse_if (not tools.has_data_dir) not_configured)
        (λ _. lift (select_base target bases) >>= recover_base tools target) d (λ e. inl refl)
        λ _ _.
          step_or_end P (select_base target bases) (recover_base tools target) d (λ e. inl refl)
            λ base selected.
              step_or_end P (refuse_if (tools.readable && is_occupied d) not_empty)
                (λ _. copy_base base (tools.copy_tree base) >>= λ _. configure tools target base) d
                (λ e. inl refl)
                λ _ free.
                  copied base
                    (select_base-IsNewest bases base (list_base_backups-AreOrdered entries)
                      selected)
                    (passed-IsOpen tools d not_empty free) (tools.copy_tree base)
    where
      bases : List BaseMetadata
      bases = list_base_backups entries

      P : Result (Unit {0}) × DataDir → Type 0
      P = Prepared tools bases d

      started :
          (base : BaseMetadata)
          → IsNewest bases base
          → IsOpen tools d
          → (r : Result (Unit {0}))
          → P (r, configured (is_occupied d) base.id (whole_seconds target))
      started base newest free (ok u) = (free, (base, newest, refl))
      started base newest free (err e) = inr free

      written :
          (base : BaseMetadata)
          → IsNewest bases base
          → IsOpen tools d
          → (r : Result (Unit {0}))
          → P (
              (write_recovery_config target base r >>= λ _. lift tools.start_instance)
                (copied_base (is_occupied d) base.id))
      written base newest free (err e) = inr free
      written base newest free (ok u) = started base newest free tools.start_instance

      copied :
          (base : BaseMetadata)
          → IsNewest bases base
          → IsOpen tools d
          → (r : Result (Unit {0})) → P ((copy_base base r >>= λ _. configure tools target base) d)
      copied base newest free (err e) = inr free
      copied base newest free (ok u) = written base newest free tools.write_config
