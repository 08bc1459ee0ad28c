-- ===== src/Backup/Catalog/Linked.antt =====
-- What a list of backups in the order of their snapshots has to be for a restore.
use fcstask_backend.Backup.Catalog.{BackupType, Metadata, full_backup, incremental_backup, last_of}
use fcstask_backend.Prelude.{
  All, Bool, Bool-cases, List, Option, String, [], ap, false, filter, inl, inr, none, refl, some,
  str_eq, subst, sym, true, ◌++◌, ◌<◌, ◌∙◌, ◌∷◌, ◌≡◌,
}

-- A full backup is its own base. An incremental one names the backup before it as its parent, and begins where
-- that one ended.
abbrev pub Follows : Option Metadata → Metadata → BackupType → Type 0
Follows prev m full_backup = m.base_full ≡ m.id
Follows none m incremental_backup = ⊥
Follows (some p) m incremental_backup =
    (m.parent ≡ p.id) × (m.base_full ≡ p.base_full) × (m.since ≡ p.snapshot_time)

abbrev pub IsLinked : Option Metadata → List Metadata → Type 0
IsLinked prev [] = Unit
IsLinked prev (m ∷ ms) = Follows prev m m.backup_type × IsLinked (some m) ms

abbrev pub IsInOrder : List Metadata → Type 0
IsInOrder [] = Unit
IsInOrder (m ∷ ms) = All (λ x. m.snapshot_time < x.snapshot_time) ms × IsInOrder ms

abbrev pub HasDistinctIds : List Metadata → Type 0
HasDistinctIds [] = Unit
HasDistinctIds (m ∷ ms) = All (λ x. str_eq x.id m.id ≡ false) ms × HasDistinctIds ms

pub record IsCatalog (backups : List Metadata) : Type 0 where
  pub linked : IsLinked none backups
  pub in_order : IsInOrder backups
  pub distinct : HasDistinctIds backups

pub All-filter :
    (P : Metadata → Type 0) (keep : Metadata → Bool) (xs : List Metadata)
    → All P xs
    → All P (filter keep xs)
All-filter P keep [] h = tt
All-filter P keep (x ∷ xs) h = elim (Bool-cases (keep x)) [
  | inl e ↦ rw e (h.0, All-filter P keep xs h.1)
  | inr e ↦ rw e (All-filter P keep xs h.1)
]

pub All-snoc :
    {A : Type 0} (P : A → Type 0) (xs : List A) (x : A) → All P xs → P x → All P (xs ++ (x ∷ []))
All-snoc P [] x h p = (p, tt)
All-snoc P (y ∷ ys) x h p = (h.0, All-snoc P ys x h.1 p)

-- Chains that are kept or dropped whole stay linked.
module _ (keep : String → Bool) where
  abbrev kept : Metadata → Bool
  kept m = keep m.base_full

  -- `q` stands for `p` after the filter.
  abbrev StandsFor : Option Metadata → Option Metadata → Type 0
  StandsFor q p = (m : Metadata) → p ≡ some m → kept m ≡ true → q ≡ some m

  follows_kept :
      (p q : Option Metadata) (m : Metadata) (type : BackupType)
      → StandsFor q p
      → kept m ≡ true
      → Follows p m type
      → Follows q m type
  follows_kept p q m full_backup s k f = f
  follows_kept none q m incremental_backup s k f = absurd f
  follows_kept (some x) q m incremental_backup s k f =
      subst (λ z. Follows z m incremental_backup) (sym (s x refl (sym (ap keep f.1) ∙ k))) f

  filter-IsLinked :
      (p q : Option Metadata) (ms : List Metadata)
      → StandsFor q p
      → IsLinked p ms
      → IsLinked q (filter kept ms)
  filter-IsLinked p q [] s h = tt
  filter-IsLinked p q (m ∷ ms) s h = elim (Bool-cases (kept m)) [
    | inl e ↦ rw e (
      follows_kept p q m m.backup_type s e h.0,
      filter-IsLinked (some m) (some m) ms (λ x same k. same) h.1,
    )
    | inr e ↦ rw e (filter-IsLinked (some m) q ms (λ x same k. absurd (dropped m x e same k)) h.1)
  ]
    where
      dropped : (m x : Metadata) → kept m ≡ false → some m ≡ some x → kept x ≡ true → ⊥
      dropped m x e same k = cc

  filter-IsInOrder : (ms : List Metadata) → IsInOrder ms → IsInOrder (filter kept ms)
  filter-IsInOrder [] h = tt
  filter-IsInOrder (m ∷ ms) h = elim (Bool-cases (kept m)) [
    | inl e ↦ rw e (All-filter _ kept ms h.0, filter-IsInOrder ms h.1)
    | inr e ↦ rw e (filter-IsInOrder ms h.1)
  ]

  filter-HasDistinctIds : (ms : List Metadata) → HasDistinctIds ms → HasDistinctIds (filter kept ms)
  filter-HasDistinctIds [] h = tt
  filter-HasDistinctIds (m ∷ ms) h = elim (Bool-cases (kept m)) [
    | inl e ↦ rw e (All-filter _ kept ms h.0, filter-HasDistinctIds ms h.1)
    | inr e ↦ rw e (filter-HasDistinctIds ms h.1)
  ]

  pub filter-IsCatalog : (ms : List Metadata) → IsCatalog ms → IsCatalog (filter kept ms)
  filter-IsCatalog ms c = record {
    linked = filter-IsLinked none none ms (λ m same k. same) c.linked;
    in_order = filter-IsInOrder ms c.in_order;
    distinct = filter-HasDistinctIds ms c.distinct;
  }

-- The last backup, or `p` where there is none.
abbrev last_after : Option Metadata → List Metadata → Option Metadata
last_after p [] = p
last_after p (x ∷ xs) = last_after (some x) xs

last_after-last_of : (x : Metadata) (xs : List Metadata) → last_after (some x) xs ≡ last_of (x ∷ xs)
last_after-last_of x [] = refl
last_after-last_of x (y ∷ ys) = last_after-last_of y ys

last_after-none : (xs : List Metadata) → last_after none xs ≡ last_of xs
last_after-none [] = refl
last_after-none (x ∷ xs) = last_after-last_of x xs

snoc-IsLinked :
    (p : Option Metadata) (ms : List Metadata) (new : Metadata)
    → IsLinked p ms
    → Follows (last_after p ms) new new.backup_type
    → IsLinked p (ms ++ (new ∷ []))
snoc-IsLinked p [] new h f = (f, tt)
snoc-IsLinked p (m ∷ ms) new h f = (h.0, snoc-IsLinked (some m) ms new h.1 f)

snoc-IsInOrder :
    (ms : List Metadata) (new : Metadata)
    → IsInOrder ms
    → All (λ x. x.snapshot_time < new.snapshot_time) ms
    → IsInOrder (ms ++ (new ∷ []))
snoc-IsInOrder [] new h later = (tt, tt)
snoc-IsInOrder (m ∷ ms) new h later =
    (All-snoc _ ms new h.0 later.0, snoc-IsInOrder ms new h.1 later.1)

snoc-HasDistinctIds :
    (ms : List Metadata) (new : Metadata)
    → HasDistinctIds ms
    → All (λ x. str_eq new.id x.id ≡ false) ms
    → HasDistinctIds (ms ++ (new ∷ []))
snoc-HasDistinctIds [] new h fresh = (tt, tt)
snoc-HasDistinctIds (m ∷ ms) new h fresh =
    (All-snoc _ ms new h.0 fresh.0, snoc-HasDistinctIds ms new h.1 fresh.1)

-- A later backup that continues the last one joins the catalog.
pub snoc-IsCatalog :
    (ms : List Metadata) (new : Metadata)
    → IsCatalog ms
    → Follows (last_of ms) new new.backup_type
    → All (λ x. x.snapshot_time < new.snapshot_time) ms
    → All (λ x. str_eq new.id x.id ≡ false) ms
    → IsCatalog (ms ++ (new ∷ []))
snoc-IsCatalog ms new c f later fresh = record {
  linked =
      snoc-IsLinked none ms new c.linked
        (subst (λ p. Follows p new new.backup_type) (sym (last_after-none ms)) f);
  in_order = snoc-IsInOrder ms new c.in_order later;
  distinct = snoc-HasDistinctIds ms new c.distinct fresh;
}
