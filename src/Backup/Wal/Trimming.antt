-- ===== src/Backup/Wal/Trimming.antt =====
-- The cleanup of base backups and what it leaves of the archive of the log.
use fcstask_backend.Backup.Catalog.{Instant, microseconds_per_day}
use fcstask_backend.Backup.Wal.{
  BaseMetadata, BaseRun, WalStore, archive_cleanup, cleanup, collect_bases, first_of,
  list_base_backups, remove_bases, remove_old, trim_behind,
}
use fcstask_backend.Backup.Wal.Bases.{
  AreOrdered, collect_bases-filter, list_base_backups-All, list_base_backups-AreOrdered,
}
use fcstask_backend.Errors.Action.{Result, err, ok}
use fcstask_backend.Prelude.{
  All, Bool, Bool-cases, List, String, [], arith, contains, false, if◌then◌else◌, inl, inr,
  is_empty, not, refl, str_eq, sym, true, ℕ, ap, ◌*◌, ◌-◌, ◌==◌, ◌||◌, ◌∙◌, ◌∷◌, ◌≡◌, ◌≤◌, eq_iff,
  false≢true,
}

module _ (older : String → String → Bool) where
  -- The log moves on: a base backup that starts later starts from no earlier segment.
  abbrev pub IsForward : List BaseMetadata → Type 0
  IsForward bases =
      All
        (λ a.
          All (λ b. a.started_at ≤ b.started_at → older b.start_wal_file a.start_wal_file ≡ false)
            bases)
        bases

  -- A recovery from the base backup needs the segment that it starts from.
  abbrev pub KeepsStart : List String → List String → BaseMetadata → Type 0
  KeepsStart archive archive' m =
      contains archive m.start_wal_file ≡ true → contains archive' m.start_wal_file ≡ true

  contains-cleanup :
      (start segment : String) (archive : List String)
      → older segment start ≡ false
      → contains archive segment ≡ true
      → contains (archive_cleanup older start archive) segment ≡ true
  contains-cleanup start segment [] kept h = h
  contains-cleanup start segment (x ∷ xs) kept h = elim (Bool-cases (older x start)) [
    | inl e ↦ rw e (contains-cleanup start segment xs kept (behind e (str_eq x segment) refl h))
    | inr e ↦ rw e (front (contains-cleanup start segment xs kept) (str_eq x segment) h)
  ]
    where
      behind :
          older x start ≡ true
          → (b : Bool) → str_eq x segment ≡ b
          → (b || contains xs segment) ≡ true
          → contains xs segment ≡ true
      behind e true e' h' =
          absurd
            (false≢true (sym kept ∙ sym (ap (λ z. older z start) ((eq_iff x segment).0 e')) ∙ e))
      behind e false e' h' = h'

      front :
          (contains xs segment ≡ true → contains (archive_cleanup older start xs) segment ≡ true)
          → (b : Bool) → (b || contains xs segment) ≡ true
          → (b || contains (archive_cleanup older start xs) segment) ≡ true
      front rest true h' = refl
      front rest false h' = rest h'

  same_archive :
      (archive : List String) (bases : List BaseMetadata) → All (KeepsStart archive archive) bases
  same_archive archive [] = tt
  same_archive archive (m ∷ ms) = (λ h. h, same_archive archive ms)

  trim_behind-AllKept :
      (run : BaseRun) (archive : List String) (bases : List BaseMetadata)
      → AreOrdered bases
      → IsForward bases
      → All (KeepsStart archive (trim_behind older run (first_of older bases) archive)) bases
  trim_behind-AllKept run archive [] o f = tt
  trim_behind-AllKept run archive (m ∷ ms) o f =
      trimmed (str_eq m.start_wal_file "" || not run.has_cleanup)
    where
      behind :
          (xs : List BaseMetadata)
          → All (λ x. m.started_at ≤ x.started_at) xs
          → All
              (λ b. m.started_at ≤ b.started_at → older b.start_wal_file m.start_wal_file ≡ false)
              xs
          → All (KeepsStart archive (archive_cleanup older m.start_wal_file archive)) xs
      behind [] o f = tt
      behind (x ∷ xs) o f = (contains-cleanup _ _ archive (f.0 o.0), behind xs o.1 f.1)

      trimmed :
          (b : Bool)
          → All
              (KeepsStart archive
                (if b then archive else archive_cleanup older m.start_wal_file archive))
              (m ∷ ms)
      trimmed true = same_archive archive (m ∷ ms)
      trimmed false = (contains-cleanup _ _ archive (f.0.0 (omega arith)), behind ms o.0 f.0.1)

  IsForward-filter :
      (s : WalStore) (cutoff : Instant) (removable : String → Bool)
      → IsForward (collect_bases s.entries)
      → IsForward (list_base_backups (remove_old older cutoff removable s).entries)
  unfolding remove_bases
  IsForward-filter s cutoff removable h =
      let left = (remove_old older cutoff removable s).entries in
      list_base_backups-All _ left
        (collect_bases-filter _ _ s.entries (inner (collect_bases s.entries) h))
    where
      inner :
          (xs : List BaseMetadata)
          → All
              (λ a.
                All
                  (λ b.
                    a.started_at ≤ b.started_at → older b.start_wal_file a.start_wal_file ≡ false)
                  (collect_bases s.entries))
              xs
          → All
              (λ a.
                All
                  (λ b.
                    a.started_at ≤ b.started_at → older b.start_wal_file a.start_wal_file ≡ false)
                  (list_base_backups (remove_old older cutoff removable s).entries))
              xs
      inner [] h = tt
      inner (x ∷ xs) h = (
        list_base_backups-All _ (remove_old older cutoff removable s).entries
            (collect_bases-filter _ _ s.entries h.0),
        inner xs h.1,
      )

  -- If later base backups start from no earlier segments of the log, then the cleanup after a base backup
  -- removes from the archive no segment that a base backup which it leaves starts from.
  pub cleanup-AllKept :
      (retention_days : ℕ) (run : BaseRun) (s : WalStore)
      → IsForward (collect_bases s.entries)
      → let after = cleanup older retention_days run s in
        All (KeepsStart s.archive after.archive) (list_base_backups after.entries)
  unfolding cleanup
  cleanup-AllKept retention_days run s h =
      elim (Bool-cases (retention_days == 0 || is_empty (list_base_backups s.entries))) [
        | inl e ↦ rw e (same_archive s.archive (list_base_backups s.entries))
        | inr e ↦ rw e (done run.trimmed)
      ]
    where
      cutoff : Instant
      cutoff = run.now - retention_days * microseconds_per_day

      left : WalStore
      left = remove_old older cutoff run.removable s

      done :
          (r : Result (Unit {0}))
          → All
              (KeepsStart s.archive (elim r [
                | ok u ↦
                    trim_behind older run
                      (first_of older (list_base_backups left.entries))
                      s.archive
                | err e ↦ s.archive
              ]))
              (list_base_backups left.entries)
      done (ok u) =
          trim_behind-AllKept run s.archive (list_base_backups left.entries)
            (list_base_backups-AreOrdered left.entries) (IsForward-filter s cutoff run.removable h)
      done (err e) = same_archive s.archive (list_base_backups left.entries)
