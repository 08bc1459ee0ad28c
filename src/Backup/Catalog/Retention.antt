-- ===== src/Backup/Catalog/Retention.antt =====
-- `cleanOldBackups` and what is listed behind it.
use fcstask_backend.Backup.Catalog.{
  DirEntry, Instant, Metadata, collect_metadata, cons_some, is_expired, list_backups, listed,
  remove_expired, sort_by_snapshot,
}
use fcstask_backend.Backup.Catalog.Listing.{IsFree}
use fcstask_backend.Backup.Catalog.Sorting.{any-sort, sort_by_snapshot-filter}
use fcstask_backend.Prelude.{
  All, Bool, Bool-cases, List, Option, String, [], any, any-append, ap, eq_iff, false, filter,
  fun_ext, if◌then◌else◌, inl, inr, none, not, or_false, refl, some, str_eq, str_eq_comm, subst,
  true, ◌&&◌, ◌++◌, ◌||◌, ◌∙◌, ◌∷◌, ◌≡◌,
}

-- An entry that is listed bears the id of its backup.
abbrev pub HasOwnId : DirEntry → Type 0
HasOwnId entry = (m : Metadata) → listed entry ≡ some m → m.id ≡ entry.name

-- The names in a directory are distinct.
abbrev pub IsDirectory : List DirEntry → Type 0
IsDirectory [] = Unit
IsDirectory (e ∷ es) = IsFree e.name es × HasOwnId e × IsDirectory es

any-filter_free :
    (keep test : DirEntry → Bool) (es : List DirEntry)
    → any test es ≡ false
    → any test (filter keep es) ≡ false
any-filter_free keep test [] h = refl
any-filter_free keep test (e ∷ es) h =
    let (a, b) = or_false (test e) (any test es) h in
    elim (Bool-cases (keep e)) [
      | inl k ↦ rw (k, a) (any-filter_free keep test es b)
      | inr k ↦ rw k (any-filter_free keep test es b)
    ]

pub filter-IsDirectory :
    (keep : DirEntry → Bool) (es : List DirEntry) → IsDirectory es → IsDirectory (filter keep es)
filter-IsDirectory keep [] h = tt
filter-IsDirectory keep (e ∷ es) h = elim (Bool-cases (keep e)) [
  | inl k ↦
      rw k (
        any-filter_free keep (λ x. str_eq x.name e.name) es h.0,
        h.1,
        filter-IsDirectory keep es h.2,
      )
  | inr k ↦ rw k (filter-IsDirectory keep es h.2)
]

pub snoc-IsDirectory :
    (es : List DirEntry) (new : DirEntry)
    → IsDirectory es
    → IsFree new.name es
    → HasOwnId new
    → IsDirectory (es ++ (new ∷ []))
snoc-IsDirectory [] new h free own = (refl, own, tt)
snoc-IsDirectory (e ∷ es) new h free own =
    let (other, rest) =
      or_false (str_eq e.name new.name) (any (λ x. str_eq x.name new.name) es) free in
    (
      any-append (λ x. str_eq x.name e.name) es (new ∷ [])
          ∙ rw (h.0, str_eq_comm new.name e.name, other) refl,
      h.1,
      snoc-IsDirectory es new h.2 rest own,
    )

-- The backup that is listed under a name.
abbrev backup_at : String → List DirEntry → Option Metadata
backup_at name [] = none
backup_at name (e ∷ es) = if str_eq e.name name then listed e else backup_at name es

abbrev holds : (Metadata → Bool) → Option Metadata → Bool
holds p none = false
holds p (some m) = p m

module _ (p : Metadata → Bool) (name : String) where
  abbrev named : Metadata → Bool
  named m = str_eq m.id name && p m

  any-cons_some :
      (o : Option Metadata) (ms : List Metadata)
      → any named (cons_some o ms) ≡ (holds named o || any named ms)
  any-cons_some none ms = refl
  any-cons_some (some m) ms = refl

  holds-named :
      (e : DirEntry) (o : Option Metadata)
      → listed e ≡ o
      → HasOwnId e
      → holds named o ≡ (str_eq e.name name && holds p o)
  holds-named e none h own = go (str_eq e.name name)
    where
      go : (b : Bool) → false ≡ (b && false)
      go true = refl
      go false = refl
  holds-named e (some m) h own = ap (λ n. str_eq n name && p m) (own m h)

  any-named :
      (es : List DirEntry)
      → IsDirectory es
      → any named (collect_metadata es) ≡ any (λ e. str_eq e.name name && holds p (listed e)) es
  unfolding collect_metadata
  any-named [] h = refl
  any-named (e ∷ es) h =
      any-cons_some (listed e) (collect_metadata es)
      ∙ ap (λ b. b || any named (collect_metadata es)) (holds-named e (listed e) refl h.1)
      ∙ ap (λ b. (str_eq e.name name && holds p (listed e)) || b) (any-named es h.2)

  none_at :
      (es : List DirEntry)
      → IsFree name es
      → any (λ e. str_eq e.name name && holds p (listed e)) es ≡ false
  none_at [] free = refl
  none_at (e ∷ es) free =
      let (other, rest) = or_false (str_eq e.name name) (any (λ x. str_eq x.name name) es) free in
      rw (other, none_at es rest) refl

  at_most_one :
      (es : List DirEntry)
      → IsDirectory es
      → any (λ e. str_eq e.name name && holds p (listed e)) es ≡ holds p (backup_at name es)
  at_most_one [] h = refl
  at_most_one (e ∷ es) h = elim (Bool-cases (str_eq e.name name)) [
    | inl s ↦
        rw (s, none_at es (subst (λ n. IsFree n es) ((eq_iff e.name name).0 s) h.0))
          (or_nothing (holds p (listed e)))
    | inr s ↦ rw s (at_most_one es h.2)
  ]
    where
      or_nothing : (b : Bool) → (b || false) ≡ b
      or_nothing true = refl
      or_nothing false = refl

backup_at-rest :
    (e : DirEntry) (es s : List DirEntry)
    → IsFree e.name s
    → All (λ x. backup_at x.name es ≡ listed x) s
    → All (λ x. backup_at x.name (e ∷ es) ≡ listed x) s
backup_at-rest e es [] free h = tt
backup_at-rest e es (x ∷ xs) free h =
    let (other, rest) = or_false (str_eq x.name e.name) (any (λ y. str_eq y.name e.name) xs) free in
    (rw (str_eq_comm e.name x.name, other) h.0, backup_at-rest e es xs rest h.1)

backup_at-own : (es : List DirEntry) → IsDirectory es → All (λ x. backup_at x.name es ≡ listed x) es
backup_at-own [] h = tt
backup_at-own (e ∷ es) h =
    (rw ((eq_iff e.name e.name).1 refl) refl, backup_at-rest e es es h.0 (backup_at-own es h.2))

collect_metadata-filter :
    (gone : String → Bool) (keep : Metadata → Bool) (es : List DirEntry)
    → All (λ e. gone e.name ≡ holds (λ m. not (keep m)) (listed e)) es
    → collect_metadata (filter (λ e. not (gone e.name)) es) ≡ filter keep (collect_metadata es)
unfolding collect_metadata
collect_metadata-filter gone keep [] h = refl
collect_metadata-filter gone keep (e ∷ es) h =
    go (listed e) refl h.0 (collect_metadata-filter gone keep es h.1)
  where
    go :
        (o : Option Metadata)
        → listed e ≡ o
        → gone e.name ≡ holds (λ m. not (keep m)) o
        → collect_metadata (filter (λ e. not (gone e.name)) es) ≡ filter keep (collect_metadata es)
        → collect_metadata (
            if not (gone e.name)
            then e ∷ filter (λ x. not (gone x.name)) es
            else filter (λ x. not (gone x.name)) es)
          ≡ filter keep (cons_some o (collect_metadata es))
    go none l g ih = rw (g, l) ih
    go (some m) l g ih = elim (Bool-cases (keep m)) [
      | inl k ↦ rw (g, k, l) (ap (λ z. m ∷ z) ih)
      | inr k ↦ rw (g, k) ih
    ]

-- Where every expired directory can be removed, what is listed after the cleanup is what was listed
-- before, less the chains that are expired.
pub list_backups-remove_expired :
    (cutoff : Instant) (removable : String → Bool) (entries : List DirEntry)
    → ((name : String) → removable name ≡ true)
    → IsDirectory entries
    → let backups = list_backups entries in
      list_backups (remove_expired cutoff removable backups entries)
      ≡ filter (λ m. not (is_expired cutoff backups m.base_full)) backups
unfolding list_backups remove_expired
list_backups-remove_expired cutoff removable entries all_removable dir =
    ap (λ f. sort_by_snapshot (collect_metadata (filter f entries))) (fun_ext same_test)
    ∙ ap sort_by_snapshot (
        collect_metadata-filter gone keep entries
          (gone_expired entries (backup_at-own entries dir)))
    ∙ sort_by_snapshot-filter keep (collect_metadata entries)
  where
    backups : List Metadata
    backups = sort_by_snapshot (collect_metadata entries)

    expired : Metadata → Bool
    expired m = is_expired cutoff backups m.base_full

    keep : Metadata → Bool
    keep m = not (expired m)

    gone : String → Bool
    gone name = any (λ m. str_eq m.id name && expired m) backups

    same_test :
        (e : DirEntry)
        → not (any (λ m. str_eq m.id e.name && expired m) backups && removable e.name)
          ≡ not (gone e.name)
    same_test e = rw (all_removable e.name) (with_true (gone e.name))
      where
        with_true : (b : Bool) → not (b && true) ≡ not b
        with_true true = refl
        with_true false = refl

    twice : (o : Option Metadata) → holds expired o ≡ holds (λ m. not (keep m)) o
    twice none = refl
    twice (some m) = not_not (expired m)
      where
        not_not : (b : Bool) → b ≡ not (not b)
        not_not true = refl
        not_not false = refl

    gone_at : (name : String) → gone name ≡ holds expired (backup_at name entries)
    gone_at name =
        any-sort (λ m. str_eq m.id name && expired m) (collect_metadata entries)
        ∙ any-named expired name entries dir
        ∙ at_most_one expired name entries dir

    gone_expired :
        (s : List DirEntry)
        → All (λ x. backup_at x.name entries ≡ listed x) s
        → All (λ e. gone e.name ≡ holds (λ m. not (keep m)) (listed e)) s
    gone_expired [] h = tt
    gone_expired (x ∷ xs) h =
        (gone_at x.name ∙ ap (holds expired) h.0 ∙ twice (listed x), gone_expired xs h.1)
