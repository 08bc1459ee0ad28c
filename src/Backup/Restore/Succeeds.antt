-- ===== src/Backup/Restore/Succeeds.antt =====
-- When `RestoreToTime` succeeds.
use fcstask_backend.Backup.Catalog.{Instant, Metadata, is_full}
use fcstask_backend.Backup.Restore.{
  Contents, RestoreTools, Source, applied, apply_incrementals, at_or_before, chain_of, dumped,
  is_in_chain, newest_base, no_backups, no_full_backup, restore_chain, restore_to_time,
  select_chain, sweep_at,
}
use fcstask_backend.Errors.{Error}
use fcstask_backend.Errors.Action.{Result, continue, err, ok, pure, ◌>>=◌}
use fcstask_backend.Errors.Outcomes.{lift-ok}
use fcstask_backend.Prelude.{
  Bool, Bool-cases, List, Option, [], any, ap, false, filter, inl, inr, none, or_false, refl, some,
  sym, true, ◌&&◌, ◌∙◌, ◌∷◌, ◌≡◌, ◌⊎◌,
}

-- No step of the tools fails.
pub record AllWork (tools : RestoreTools) : Type 0 where
  pub prepares : tools.prepare_target ≡ ok tt
  pub restores : (base : Metadata) → tools.restore_base base ≡ ok tt
  pub applies : (m : Metadata) → tools.apply_incremental m ≡ ok tt
  pub sweeps : tools.sweep_soft_deletes ≡ ok tt

module _ (target : Option Instant) where
  abbrev pub is_base : Metadata → Bool
  is_base m = is_full m.backup_type && at_or_before target m.snapshot_time

  newest_base-some :
      (ms : List Metadata) (base : Metadata)
      → (b : Metadata) × (newest_base target ms (some base) ≡ some b)
  unfolding newest_base
  newest_base-some [] base = (base, refl)
  newest_base-some (m ∷ ms) base = elim (Bool-cases (is_base m)) [
    | inl e ↦ rw e (newest_base-some ms m)
    | inr e ↦ rw e (newest_base-some ms base)
  ]

  newest_base-any :
      (ms : List Metadata)
      → any is_base ms ≡ true
      → (b : Metadata) × (newest_base target ms none ≡ some b)
  unfolding newest_base
  newest_base-any [] h = cc
  newest_base-any (m ∷ ms) h = elim (Bool-cases (is_base m)) [
    | inl e ↦ rw e (newest_base-some ms m)
    | inr e ↦ rw e (newest_base-any ms (sym (rw e refl) ∙ h))
  ]

  newest_base-none :
      (ms : List Metadata) → any is_base ms ≡ false → newest_base target ms none ≡ none
  unfolding newest_base
  newest_base-none [] h = refl
  newest_base-none (m ∷ ms) h =
      let (a, b) = or_false (is_base m) (any is_base ms) h in rw a (newest_base-none ms b)

  pub select_chain-any :
      (backups : List Metadata)
      → any is_base backups ≡ true
      → (chain : Metadata × List Metadata) × (select_chain target backups ≡ ok chain)
  unfolding select_chain
  select_chain-any [] h = cc
  select_chain-any (m ∷ ms) h =
      let (b, found) = newest_base-any (m ∷ ms) h in
      ((b, filter (is_in_chain target b) (m ∷ ms)), ap (chain_of target (m ∷ ms)) found)

  select_chain-refuses :
      (backups : List Metadata)
      → any is_base backups ≡ false
      → (e : Error) × (select_chain target backups ≡ err e)
  unfolding select_chain
  select_chain-refuses [] h = (no_backups, refl)
  select_chain-refuses (m ∷ ms) h =
      (no_full_backup, ap (chain_of target (m ∷ ms)) (newest_base-none (m ∷ ms) h))

  module _ (source : Source) (tools : RestoreTools) where
    apply_incrementals-ok :
        AllWork tools
        → (ms : List Metadata) (db : Contents)
        → (apply_incrementals source tools target ms db).0 ≡ ok tt
    unfolding apply_incrementals ◌>>=◌ pure
    apply_incrementals-ok work [] db = refl
    apply_incrementals-ok work (m ∷ ms) db =
        ap (λ x. x.0) (lift-ok db _ (tools.apply_incremental m) (work.applies m))
        ∙ apply_incrementals-ok work ms (applied source target m db)

    sweep_at-ok :
        AllWork tools
        → (o : Option Instant) (db : Contents) → (sweep_at source tools target o db).0 ≡ ok tt
    unfolding ◌>>=◌ pure
    sweep_at-ok work none db = refl
    sweep_at-ok work (some t) db = ap (λ x. x.0) (lift-ok db _ tools.sweep_soft_deletes work.sweeps)

    pub restore_chain-ok :
        AllWork tools
        → (base : Metadata) (ms : List Metadata) (db : Contents)
        → (restore_chain source tools target (base, ms) db).0 ≡ ok tt
    unfolding restore_chain ◌>>=◌
    restore_chain-ok work base ms db =
        ap (λ x. x.0) (lift-ok db _ tools.prepare_target work.prepares)
        ∙ ap (λ x. x.0) (lift-ok db _ (tools.restore_base base) (work.restores base))
        ∙ after_sweep (apply_incrementals source tools target ms (dumped source base))
            (apply_incrementals-ok work ms (dumped source base))
      where
        after_sweep :
            (x : Result (Unit {0}) × Contents)
            → x.0 ≡ ok tt
            → (continue x.0 (λ _. sweep_at source tools target target) x.1).0 ≡ ok tt
        after_sweep (ok u, db') e = sweep_at-ok work target db'
        after_sweep (err x, db') e = cc

    -- Where every tool works, a restore succeeds exactly if there is a full backup up to the target; if
    -- there is none it is refused, and the target database is as it was.
    pub restore_to_time-decides :
        (backups : List Metadata) (db : Contents)
        → AllWork tools
        → ((any is_base backups ≡ true)
            × ((restore_to_time source tools target backups db).0 ≡ ok tt))
          ⊎ ((any is_base backups ≡ false)
              × ((e : Error) × (restore_to_time source tools target backups db ≡ (err e, db))))
    unfolding restore_to_time ◌>>=◌
    restore_to_time-decides backups db work = elim (Bool-cases (any is_base backups)) [
      | inl e ↦
          let ((base, ms), found) = select_chain-any backups e in
          inl (
            e,
            ap (λ r. (continue r (restore_chain source tools target) db).0) found
                ∙ restore_chain-ok work base ms db,
          )
      | inr e ↦
          let (x, refused) = select_chain-refuses backups e in
          inr (e, (x, ap (λ r. continue r (restore_chain source tools target) db) refused))
    ]
