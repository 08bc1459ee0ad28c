-- ===== src/Backup/Catalog/Sound.antt =====
-- What each change of the output directory keeps of it.
use fcstask_backend.Backup.Catalog.{
  BackupConfig, DirEntry, Instant, Metadata, clean_old_backups, collect_metadata, cons_some,
  has_backup_name, is_expired, last_of, list_backups, listed, make_dir, microseconds_per_day,
  remove_expired, sort_by_snapshot, write_metadata,
}
use fcstask_backend.Backup.Catalog.Linked.{Follows, IsCatalog, filter-IsCatalog, snoc-IsCatalog}
use fcstask_backend.Backup.Catalog.Listing.{
  IsFree, list_backups-make_dir, list_backups-written, listed-new, listed-written, make_dir-free,
  new_entry, write_metadata-free,
}
use fcstask_backend.Backup.Catalog.Retention.{
  IsDirectory, filter-IsDirectory, list_backups-remove_expired, snoc-IsDirectory,
}
use fcstask_backend.Backup.Catalog.Sorting.{All-sort}
use fcstask_backend.Prelude.{
  All, Bool, Bool-cases, List, Option, String, [], any, ap, false, inl, inr, none, not, or_false,
  refl, some, str_eq, str_eq_comm, subst, sym, true, ◌*◌, ◌-◌, ◌<◌, ◌==◌, ◌∙◌, ◌∷◌, ◌≡◌,
}

pub record IsSound (entries : List DirEntry) : Type 0 where
  pub directory : IsDirectory entries
  pub catalog : IsCatalog (list_backups entries)

pub nothing_there : IsSound []
unfolding list_backups collect_metadata sort_by_snapshot
nothing_there = record {
  directory = tt;
  catalog = record { linked = tt; in_order = tt; distinct = tt };
}

-- A listed id is the name of an entry.
All-listed :
    (P : String → Type 0) (es : List DirEntry)
    → IsDirectory es
    → All (λ e. P e.name) es
    → All (λ m. P m.id) (collect_metadata es)
unfolding collect_metadata
All-listed P [] dir h = tt
All-listed P (e ∷ es) dir h = go (listed e) refl (All-listed P es dir.2 h.1)
  where
    go :
        (o : Option Metadata)
        → listed e ≡ o
        → All (λ m. P m.id) (collect_metadata es)
        → All (λ m. P m.id) (cons_some o (collect_metadata es))
    go none l ih = ih
    go (some m) l ih = (subst P (sym (dir.1 m l)) h.0, ih)

free-All :
    (name : String) (es : List DirEntry) → IsFree name es → All (λ e. str_eq name e.name ≡ false) es
free-All name [] h = tt
free-All name (e ∷ es) h =
    let (a, b) = or_false (str_eq e.name name) (any (λ x. str_eq x.name name) es) h in
    (str_eq_comm name e.name ∙ a, free-All name es b)

pub fresh_ids :
    (name : String) (es : List DirEntry)
    → IsDirectory es
    → IsFree name es
    → All (λ m. str_eq name m.id ≡ false) (list_backups es)
unfolding list_backups
fresh_ids name es dir free =
    All-sort (λ m. str_eq name m.id ≡ false) (collect_metadata es)
      (All-listed (λ n. str_eq name n ≡ false) es dir (free-All name es free))

pub make_dir-IsSound :
    (name : String) (es : List DirEntry) → IsFree name es → IsSound es → IsSound (make_dir name es)
make_dir-IsSound name es free s = record {
  directory = subst IsDirectory (sym (make_dir-free name es free)) (
      snoc-IsDirectory es (new_entry name) s.directory free
        λ m h. absurd (nothing m (sym (listed-new name) ∙ h)));
  catalog = subst IsCatalog (sym (list_backups-make_dir name es free)) s.catalog;
}
  where
    nothing : (m : Metadata) → none ≡ some m → ⊥
    nothing m h = cc

pub write_metadata-IsSound :
    (m : Metadata) (es : List DirEntry)
    → has_backup_name m.id ≡ true
    → IsFree m.id es
    → All (λ x. x.snapshot_time < m.snapshot_time) (list_backups es)
    → Follows (last_of (list_backups es)) m m.backup_type
    → IsSound es
    → IsSound (write_metadata m (make_dir m.id es))
write_metadata-IsSound m es is_named free later follows s = record {
  directory =
      subst IsDirectory
        (sym (ap (write_metadata m) (make_dir-free m.id es free) ∙ write_metadata-free m es free))
        (snoc-IsDirectory es (record (new_entry m.id) { metadata = some m }) s.directory free
          λ x h. own x (sym (listed-written m is_named) ∙ h));
  catalog = subst IsCatalog (sym (list_backups-written m es is_named free later)) (
      snoc-IsCatalog (list_backups es) m s.catalog follows later
        (fresh_ids m.id es s.directory free));
}
  where
    own : (x : Metadata) → some m ≡ some x → x.id ≡ m.id
    own x h = cc

pub clean_old_backups-IsSound :
    (config : BackupConfig) (now : Instant) (removable : String → Bool) (es : List DirEntry)
    → ((name : String) → removable name ≡ true)
    → IsSound es
    → IsSound (clean_old_backups config now removable es)
unfolding clean_old_backups remove_expired
clean_old_backups-IsSound config now removable es all_removable s =
    elim (Bool-cases (config.retention_days == 0)) [
      | inl e ↦ rw e s
      | inr e ↦ rw e (cleaned (now - config.retention_days * microseconds_per_day))
    ]
  where
    cleaned : (cutoff : Instant) → IsSound (remove_expired cutoff removable (list_backups es) es)
    cleaned cutoff = record {
      directory = filter-IsDirectory _ es s.directory;
      catalog =
          subst IsCatalog
            (sym (list_backups-remove_expired cutoff removable es all_removable s.directory))
            (filter-IsCatalog (λ base. not (is_expired cutoff (list_backups es) base))
              (list_backups es) s.catalog);
    }
