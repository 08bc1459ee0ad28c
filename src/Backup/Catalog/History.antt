-- ===== src/Backup/Catalog/History.antt =====
-- Output directories that a sequence of runs of `CreateBackup` leaves.
use fcstask_backend.Backup.Catalog.{
  BackupConfig, BackupDecision, BackupRun, Captured, DirEntry, Instant, Metadata, backup_id,
  clean_old_backups, create_backup, decide_backup, decision_type, extend_chain, has_backup_name,
  incremental_backup, incremental_or_full, last_of, list_backups, make_dir, make_full,
  make_incremental, new_metadata, write_metadata,
}
use fcstask_backend.Backup.Catalog.Linked.{Follows, IsCatalog}
use fcstask_backend.Backup.Catalog.Listing.{IsFree, has_backup_name-id, list_backups-written}
use fcstask_backend.Backup.Catalog.Sound.{
  IsSound, clean_old_backups-IsSound, make_dir-IsSound, nothing_there, write_metadata-IsSound,
}
use fcstask_backend.Errors.Action.{ok, pure, query, ◌>>=◌}
use fcstask_backend.Errors.Outcomes.{after_lift}
use fcstask_backend.Prelude.{
  All, List, Option, String, [], ap, arith, none, refl, some, subst, sym, true, ℕ, ◌++◌, ◌<◌, ◌∙◌,
  ◌∷◌, ◌≡◌,
}

extend_chain-last :
    (every : ℕ) (backups : List Metadata) (last : Option Metadata) {p : Metadata}
    → extend_chain every backups last ≡ make_incremental p
    → last ≡ some p
extend_chain-last every backups none h = cc
extend_chain-last every backups (some x) h = ground arith

incremental_or_full-last :
    (last : Option Metadata) {p : Metadata}
    → incremental_or_full last ≡ make_incremental p
    → last ≡ some p
incremental_or_full-last none h = cc
incremental_or_full-last (some x) h = cc

-- The parent is the last backup.
decide_backup-last :
    (config : BackupConfig) (backups : List Metadata) {p : Metadata}
    → decide_backup config backups ≡ make_incremental p
    → last_of backups ≡ some p
unfolding decide_backup
decide_backup-last config backups h = ground (
  arith,
  extend_chain-last config.full_backup_every backups (last_of backups),
  incremental_or_full-last (last_of backups),
)

module _ (database : String) (format_time : Instant → String) (config : BackupConfig) where
  -- The id that a run gives its backup.
  abbrev pub next_id : List DirEntry → Instant → String
  next_id es t =
      backup_id database format_time config (decision_type (decide_backup config (list_backups es)))
        t

  -- The server's clock has moved on since the last snapshot, the name of the new directory is free, and
  -- what is expired can be removed.
  pub record IsTimely (run : BackupRun) (es : List DirEntry) : Type 0 where
    pub later :
        (t : Instant) → run.server_time ≡ ok t → All (λ x. x.snapshot_time < t) (list_backups es)
    pub free : (t : Instant) → run.server_time ≡ ok t → IsFree (next_id es t) es
    pub all_removable : (name : String) → run.removable name ≡ true

  new_metadata-id :
      (decision : BackupDecision) (t : Instant) (captured : Captured)
      → (new_metadata database format_time config decision t captured).id
        ≡ backup_id database format_time config (decision_type decision) t
  unfolding new_metadata
  new_metadata-id make_full t captured = refl
  new_metadata-id (make_incremental p) t captured = refl

  new_metadata-snapshot :
      (decision : BackupDecision) (t : Instant) (captured : Captured)
      → (new_metadata database format_time config decision t captured).snapshot_time ≡ t
  unfolding new_metadata
  new_metadata-snapshot make_full t captured = refl
  new_metadata-snapshot (make_incremental p) t captured = refl

  new_metadata-Follows :
      (decision : BackupDecision) (last : Option Metadata) (t : Instant) (captured : Captured)
      → ((p : Metadata) → decision ≡ make_incremental p → last ≡ some p)
      → let m = new_metadata database format_time config decision t captured in
        Follows last m m.backup_type
  unfolding new_metadata
  new_metadata-Follows make_full last t captured parent = refl
  new_metadata-Follows (make_incremental p) last t captured parent =
      subst
        (λ l.
          Follows l (new_metadata database format_time config (make_incremental p) t captured)
            incremental_backup)
        (sym (parent p refl)) (refl, refl, refl)

  -- The directory that a run leaves that completes.
  abbrev pub completed : BackupRun → List DirEntry → Instant → Captured → List DirEntry
  completed run es t captured = clean_old_backups config run.now run.removable (
      write_metadata
        (new_metadata database format_time config (decide_backup config (list_backups es)) t
          captured)
        (make_dir (next_id es t) es))

  -- A run leaves the directory alone, or makes a new one, or completes.
  pub after_create_backup :
      (Q : List DirEntry → Type 0) (run : BackupRun) (es : List DirEntry)
      → Q es
      → ((t : Instant) → run.server_time ≡ ok t → Q (make_dir (next_id es t) es))
      → ((t : Instant) (captured : Captured)
          → run.server_time ≡ ok t
          → Q (completed run es t captured))
      → Q (create_backup database format_time config run es).1
  unfolding create_backup ◌>>=◌ pure query
  after_create_backup Q run es unchanged made done = after_lift es _ Q run.prepared unchanged λ _ _.
      after_lift es _ Q run.server_time unchanged λ t read.
        let es' = make_dir (next_id es t) es in
        after_lift es' _ Q (run.captured (decide_backup config (list_backups es))) (made t read)
          λ captured _. after_lift es' _ Q run.written (made t read) λ _ _. done t captured read

  module _ (run : BackupRun) (es : List DirEntry) (s : IsSound es) (timely : IsTimely run es)
      (t : Instant) (captured : Captured) (read : run.server_time ≡ ok t) where
    abbrev decision : BackupDecision
    decision = decide_backup config (list_backups es)

    abbrev pub made_metadata : Metadata
    made_metadata = new_metadata database format_time config decision t captured

    pub made_metadata-follows :
        Follows (last_of (list_backups es)) made_metadata made_metadata.backup_type
    made_metadata-follows =
        new_metadata-Follows decision (last_of (list_backups es)) t captured
          (λ p. decide_backup-last config (list_backups es))

    made_metadata-named : has_backup_name made_metadata.id ≡ true
    made_metadata-named =
        subst (λ name. has_backup_name name ≡ true) (sym (new_metadata-id decision t captured))
          (has_backup_name-id (decision_type decision) (format_time t))

    pub made_metadata-IsFree : IsFree made_metadata.id es
    made_metadata-IsFree =
        subst (λ name. IsFree name es) (sym (new_metadata-id decision t captured))
          (timely.free t read)

    made_metadata-later : All (λ x. x.snapshot_time < made_metadata.snapshot_time) (list_backups es)
    made_metadata-later =
        subst (λ n. All (λ x. x.snapshot_time < n) (list_backups es))
          (sym (new_metadata-snapshot decision t captured)) (timely.later t read)

    abbrev pub with_made : List DirEntry
    with_made = write_metadata made_metadata (make_dir (next_id es t) es)

    pub with_made-IsSound : IsSound with_made
    with_made-IsSound =
        subst (λ name. IsSound (write_metadata made_metadata (make_dir name es)))
          (new_metadata-id decision t captured)
          (write_metadata-IsSound made_metadata es made_metadata-named made_metadata-IsFree
            made_metadata-later made_metadata-follows s)

    pub list_backups-with_made : list_backups with_made ≡ list_backups es ++ (made_metadata ∷ [])
    list_backups-with_made =
        ap (λ name. list_backups (write_metadata made_metadata (make_dir name es)))
          (sym (new_metadata-id decision t captured))
        ∙ list_backups-written made_metadata es made_metadata-named made_metadata-IsFree
            made_metadata-later

    completed-IsSound : IsSound (completed run es t captured)
    completed-IsSound =
        clean_old_backups-IsSound config run.now run.removable _ timely.all_removable
          with_made-IsSound

  create_backup-IsSound :
      (run : BackupRun) (es : List DirEntry)
      → IsSound es
      → IsTimely run es
      → IsSound (create_backup database format_time config run es).1
  create_backup-IsSound run es s timely =
      after_create_backup IsSound run es s
        (λ t read. make_dir-IsSound (next_id es t) es (timely.free t read) s)
        (completed-IsSound run es s timely)

  -- The directories that runs of the service leave, from an empty one.
  pub data Reached : List DirEntry → Type 0 where
    empty : Reached []
    after_run :
        (run : BackupRun) (es es' : List DirEntry)
        → Reached es
        → IsTimely run es
        → es' ≡ (create_backup database format_time config run es).1
        → Reached es'

  pub Reached-IsSound : {es : List DirEntry} → Reached es → IsSound es
  Reached-IsSound empty = nothing_there
  Reached-IsSound (after_run run es es' r timely same) =
      subst IsSound (sym same) (create_backup-IsSound run es (Reached-IsSound r) timely)

  -- One run after another.
  abbrev pub run_backups : List BackupRun → List DirEntry → List DirEntry
  run_backups [] es = es
  run_backups (run ∷ runs) es =
      run_backups runs (create_backup database format_time config run es).1

  -- Every run of the sequence is timely in the directory that it finds.
  abbrev pub AreTimely : List BackupRun → List DirEntry → Type 0
  AreTimely [] es = Unit
  AreTimely (run ∷ runs) es =
      IsTimely run es × AreTimely runs (create_backup database format_time config run es).1

  run_backups-Reached :
      (runs : List BackupRun) (es : List DirEntry)
      → Reached es
      → AreTimely runs es
      → Reached (run_backups runs es)
  run_backups-Reached [] es r timely = r
  run_backups-Reached (run ∷ runs) es r timely =
      run_backups-Reached runs (create_backup database format_time config run es).1
        (after_run run es (create_backup database format_time config run es).1 r timely.0 refl)
        timely.1

  -- After any sequence of runs of `CreateBackup` on an empty output directory, failed runs included, in
  -- which every run finds the server's clock after every listed snapshot, the name of its new directory
  -- free and every expired directory removable: the list of backups is in the order of the snapshots, no
  -- two have one id, every full backup is its own base, and every incremental backup comes right behind
  -- its parent, with the base of its parent and from the parent's snapshot on.
  pub list_backups-IsCatalog :
      (runs : List BackupRun) → AreTimely runs [] → IsCatalog (list_backups (run_backups runs []))
  list_backups-IsCatalog runs timely =
      (Reached-IsSound (run_backups-Reached runs [] empty timely)).catalog
