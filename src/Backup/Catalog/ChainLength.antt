-- ===== src/Backup/Catalog/ChainLength.antt =====
-- `CreateBackup` and the number of backups in a chain.
use fcstask_backend.Backup.Catalog.{
  BackupConfig, BackupDecision, BackupRun, BackupType, Captured, DirEntry, Instant, Metadata,
  chain_length, clean_old_backups, collect_metadata, create_backup, decide_backup, extend_chain,
  full_backup, incremental_backup, is_expired, last_of, list_backups, make_full, make_incremental,
  microseconds_per_day, new_metadata, remove_expired, sort_by_snapshot,
}
use fcstask_backend.Backup.Catalog.Sound.{IsSound, fresh_ids}
use fcstask_backend.Backup.Catalog.History.{
  IsTimely, Reached, Reached-IsSound, after_create_backup, after_run, completed, empty,
  list_backups-with_made, made_metadata-IsFree, next_id, with_made, with_made-IsSound,
}
use fcstask_backend.Backup.Catalog.Linked.{Follows, IsLinked}
use fcstask_backend.Backup.Catalog.Listing.{list_backups-make_dir}
use fcstask_backend.Backup.Catalog.Retention.{IsDirectory, list_backups-remove_expired}
use fcstask_backend.Errors.Action.{ok}
use fcstask_backend.Prelude.{
  All, Bool, Bool-cases, List, Option, String, [], ap, arith, eq_iff, false, filter, if◌then◌else◌,
  inl, inr, leb, none, not, refl, some, str_eq, str_eq_comm, subst, sym, true, ℕ, ◌*◌, ◌++◌, ◌+◌,
  ◌-◌, ◌<◌, ◌==◌, ◌∙◌, ◌∷◌, ◌≡◌, ◌≤◌, ◌⊎◌,
}

abbrev pub AreShort : ℕ → List Metadata → Type 0
AreShort limit backups = (base : String) → chain_length base backups ≤ limit

chain_length-filter :
    (keep : Metadata → Bool) (base : String) (ms : List Metadata)
    → chain_length base (filter keep ms) ≤ chain_length base ms
chain_length-filter keep base [] = omega arith
chain_length-filter keep base (m ∷ ms) = ground (arith, chain_length-filter keep base ms)

chain_length-snoc :
    (base : String) (ms : List Metadata) (new : Metadata)
    → chain_length base (ms ++ (new ∷ []))
      ≡ (if str_eq new.base_full base then chain_length base ms + 1 else chain_length base ms)
chain_length-snoc base [] new = ground arith
chain_length-snoc base (m ∷ ms) new = ground (arith, chain_length-snoc base ms new)

-- No backup has the base `name` where none has the id.
chain_length-fresh :
    (name : String) (prev : Option Metadata) (ms : List Metadata)
    → ((p : Metadata) → prev ≡ some p → str_eq p.base_full name ≡ false)
    → IsLinked prev ms
    → All (λ m. str_eq name m.id ≡ false) ms
    → chain_length name ms ≡ 0
chain_length-fresh name prev [] before linked fresh = refl
chain_length-fresh name prev (m ∷ ms) before linked fresh =
    let other = base_of m.backup_type prev before linked.0 in
    rw other (
      chain_length-fresh name (some m) ms
        (λ p e. subst (λ x. str_eq x.base_full name ≡ false) (same e) other) linked.1 fresh.1)
  where
    same : {a b : Metadata} → some a ≡ some b → a ≡ b
    same e = cc

    base_of :
        (type : BackupType) (prev : Option Metadata)
        → ((p : Metadata) → prev ≡ some p → str_eq p.base_full name ≡ false)
        → Follows prev m type
        → str_eq m.base_full name ≡ false
    base_of full_backup prev before f = ap (λ x. str_eq x name) f ∙ str_eq_comm m.id name ∙ fresh.0
    base_of incremental_backup none before f = absurd f
    base_of incremental_backup (some p) before f = ap (λ x. str_eq x name) f.1 ∙ before p refl

clean_old_backups-le :
    (config : BackupConfig) (now : Instant) (removable : String → Bool) (es : List DirEntry)
    → ((name : String) → removable name ≡ true)
    → IsDirectory es
    → (base : String) {limit : ℕ} → AreShort limit (list_backups es)
    → chain_length base (list_backups (clean_old_backups config now removable es)) ≤ limit
unfolding clean_old_backups
clean_old_backups-le config now removable es all_removable dir base {limit} short =
    elim (Bool-cases (config.retention_days == 0)) [
      | inl e ↦ rw e (short base)
      | inr e ↦ rw e (cut (now - config.retention_days * microseconds_per_day))
    ]
  where
    cut :
        (cutoff : Instant)
        → chain_length base (list_backups (remove_expired cutoff removable (list_backups es) es))
          ≤ limit
    cut cutoff =
        subst (λ l. chain_length base l ≤ limit)
          (sym (list_backups-remove_expired cutoff removable es all_removable dir))
          (omega (
            arith,
            short base,
            chain_length-filter (λ m. not (is_expired cutoff (list_backups es) m.base_full)) base
                (list_backups es),
          ))

module _ (database : String) (format_time : Instant → String) (config : BackupConfig)
    (not_forced : config.force_incremental ≡ false) where
  abbrev pub limit : ℕ
  limit = if leb config.full_backup_every 1 then 1 else config.full_backup_every

  -- An incremental backup is made of a chain that has room.
  extend_chain-room :
      (every : ℕ) (backups : List Metadata) (last : Option Metadata) {p : Metadata}
      → extend_chain every backups last ≡ make_incremental p
      → chain_length p.base_full backups < every
  extend_chain-room every backups none h = cc
  extend_chain-room every backups (some x) {p} h =
      go (Bool-cases (leb every (chain_length x.base_full backups)))
    where
      same : make_incremental x ≡ make_incremental p → x ≡ p
      same e = cc

      go :
          ((leb every (chain_length x.base_full backups) ≡ true)
            ⊎ (leb every (chain_length x.base_full backups) ≡ false))
          → chain_length p.base_full backups < every
      go (inl e) = absurd (impossible (rw e at h))
        where
          impossible : make_full ≡ make_incremental p → ⊥
          impossible k = cc
      go (inr e) =
          subst (λ z. chain_length z.base_full backups < every) (same (rw e at h))
            (below (chain_length x.base_full backups) e)
        where
          below : (n : ℕ) → leb every n ≡ false → n < every
          below n h = ground arith

  decide_backup-room :
      (backups : List Metadata) {p : Metadata}
      → decide_backup config backups ≡ make_incremental p
      → (chain_length p.base_full backups < config.full_backup_every)
        × (leb config.full_backup_every 1 ≡ false)
  unfolding decide_backup
  decide_backup-room backups h =
      ground
        (arith, not_forced, extend_chain-room config.full_backup_every backups (last_of backups))

  made-base :
      (decision : BackupDecision) (t : Instant) (captured : Captured) (backups : List Metadata)
      → ((p : Metadata)
          → decision ≡ make_incremental p
          → chain_length p.base_full backups + 1 ≤ limit)
      → (chain_length (new_metadata database format_time config decision t captured).id backups ≡ 0)
      → chain_length
            (new_metadata database format_time config decision t captured).base_full
            backups
          + 1
        ≤ limit
  unfolding new_metadata
  made-base make_full t captured backups room fresh = ground (arith, fresh)
  made-base (make_incremental p) t captured backups room fresh = room p refl

  room_in :
      (backups : List Metadata) (p : Metadata)
      → decide_backup config backups ≡ make_incremental p
      → chain_length p.base_full backups + 1 ≤ limit
  room_in backups p e = let (lt, more) = decide_backup-room backups e in rw more (omega (arith, lt))

  create_backup-AreShort :
      (run : BackupRun) (es : List DirEntry)
      → IsSound es
      → IsTimely database format_time config run es
      → AreShort limit (list_backups es)
      → AreShort limit (list_backups (create_backup database format_time config run es).1)
  create_backup-AreShort run es s timely short =
      after_create_backup database format_time config (λ x. AreShort limit (list_backups x)) run es
        short
        (λ t read.
          subst (AreShort limit)
            (sym (
              list_backups-make_dir (next_id database format_time config es t) es
                (timely.free t read)))
            short)
        (λ t captured read. cleaned t captured read)
    where
      made : (t : Instant) → Captured → Metadata
      made t captured =
          new_metadata database format_time config (decide_backup config (list_backups es)) t
            captured

      grown :
          (t : Instant) (captured : Captured)
          → run.server_time ≡ ok t
          → AreShort limit (list_backups es ++ (made t captured ∷ []))
      grown t captured read base =
          let room =
            made-base (decide_backup config (list_backups es)) t captured (list_backups es)
              (room_in (list_backups es))
              (chain_length-fresh (made t captured).id none (list_backups es)
                (λ p e. absurd (nothing p e)) s.catalog.linked
                (fresh_ids (made t captured).id es s.directory (
                  made_metadata-IsFree database format_time config run es s timely t captured
                    read))) in
          subst (λ n. n ≤ limit) (sym (chain_length-snoc base (list_backups es) (made t captured)))
            (elim (Bool-cases (str_eq (made t captured).base_full base)) [
              | inl e ↦ rw e (
                  subst (λ b. chain_length b (list_backups es) + 1 ≤ limit)
                    ((eq_iff (made t captured).base_full base).0 e) room)
              | inr e ↦ rw e (short base)
            ])
        where
          nothing : (p : Metadata) → none ≡ some p → ⊥
          nothing p e = cc

      cleaned :
          (t : Instant) (captured : Captured)
          → run.server_time ≡ ok t
          → AreShort limit (list_backups (completed database format_time config run es t captured))
      cleaned t captured read base =
          let all =
            subst (AreShort limit)
              (sym (
                list_backups-with_made database format_time config run es s timely t captured read))
              (grown t captured read) in
          clean_old_backups-le config run.now run.removable
            (with_made database format_time config run es s timely t captured read)
            timely.all_removable
            (with_made-IsSound database format_time config run es s timely t captured
              read).directory
            base all

  -- Where incremental backups are not forced, no chain in an output directory that runs of `CreateBackup`
  -- leave, each of which found the server's clock after every listed snapshot, the name of its new
  -- directory free and every expired directory removable, has more backups than `full_backup_every`, or
  -- than one where that is less.
  pub chain_length-le :
      {es : List DirEntry}
      → Reached database format_time config es
      → AreShort limit (list_backups es)
  unfolding list_backups collect_metadata sort_by_snapshot
  chain_length-le empty = λ base. omega arith
  chain_length-le (after_run run es es' r timely same) =
      subst (λ x. AreShort limit (list_backups x)) (sym same)
        (create_backup-AreShort run es (Reached-IsSound database format_time config r) timely
          (chain_length-le r))
