-- ===== src/Backup/Catalog/Sorting.antt =====
-- The sort by the time of the snapshot, and filters before and behind it.
use fcstask_backend.Backup.Catalog.{Instant, Metadata, insert_by_snapshot, sort_by_snapshot}
use fcstask_backend.Backup.Catalog.Linked.{All-filter}
use fcstask_backend.Prelude.{
  All, Bool, Bool-cases, List, [], any, ap, arith, false, filter, if◌then◌else◌, inl, inr, leb,
  refl, sym, true, ◌||◌, ◌∙◌, ◌∷◌, ◌≡◌, ◌≤◌,
}

abbrev pub IsOrdered : List Metadata → Type 0
IsOrdered [] = Unit
IsOrdered (m ∷ ms) = All (λ x. m.snapshot_time ≤ x.snapshot_time) ms × IsOrdered ms

module _ (P : Metadata → Type 0) where
  All-insert-All :
      (m : Metadata) (xs : List Metadata) → P m → All P xs → All P (insert_by_snapshot m xs)
  unfolding insert_by_snapshot
  All-insert-All m [] p h = (p, tt)
  All-insert-All m (x ∷ xs) p h = elim (Bool-cases (leb m.snapshot_time x.snapshot_time)) [
    | inl e ↦ rw e (p, h)
    | inr e ↦ rw e (h.0, All-insert-All m xs p h.1)
  ]

  pub All-sort : (xs : List Metadata) → All P xs → All P (sort_by_snapshot xs)
  unfolding sort_by_snapshot
  All-sort [] h = tt
  All-sort (x ∷ xs) h = All-insert-All x (sort_by_snapshot xs) h.0 (All-sort xs h.1)

All-later :
    (a b : Instant) (xs : List Metadata)
    → a ≤ b
    → All (λ x. b ≤ x.snapshot_time) xs
    → All (λ x. a ≤ x.snapshot_time) xs
All-later a b [] le h = tt
All-later a b (x ∷ xs) le h = (omega (arith, h.0), All-later a b xs le h.1)

insert_by_snapshot-IsOrdered :
    (m : Metadata) (xs : List Metadata) → IsOrdered xs → IsOrdered (insert_by_snapshot m xs)
unfolding insert_by_snapshot
insert_by_snapshot-IsOrdered m [] h = (tt, tt)
insert_by_snapshot-IsOrdered m (x ∷ xs) h =
    elim (Bool-cases (leb m.snapshot_time x.snapshot_time)) [
      | inl e ↦
          rw e ((ground arith, All-later m.snapshot_time x.snapshot_time xs (ground arith) h.0), h)
      | inr e ↦ rw e (
        All-insert-All (λ y. x.snapshot_time ≤ y.snapshot_time) m xs (ground arith) h.0,
        insert_by_snapshot-IsOrdered m xs h.1,
      )
    ]

pub sort_by_snapshot-IsOrdered : (xs : List Metadata) → IsOrdered (sort_by_snapshot xs)
unfolding sort_by_snapshot
sort_by_snapshot-IsOrdered [] = tt
sort_by_snapshot-IsOrdered (x ∷ xs) =
    insert_by_snapshot-IsOrdered x (sort_by_snapshot xs) (sort_by_snapshot-IsOrdered xs)

module _ (keep : Metadata → Bool) where
  insert-least :
      (x : Metadata) (ys : List Metadata)
      → All (λ y. x.snapshot_time ≤ y.snapshot_time) ys
      → insert_by_snapshot x ys ≡ x ∷ ys
  unfolding insert_by_snapshot
  insert-least x [] h = refl
  insert-least x (y ∷ ys) h = ground (arith, h.0)

  filter-insert :
      (x : Metadata) (ys : List Metadata)
      → IsOrdered ys
      → filter keep (insert_by_snapshot x ys)
        ≡ (if keep x then insert_by_snapshot x (filter keep ys) else filter keep ys)
  unfolding insert_by_snapshot
  filter-insert x [] h = refl
  filter-insert x (y ∷ ys) h = elim (Bool-cases (leb x.snapshot_time y.snapshot_time)) [
    | inl e ↦ elim (Bool-cases (keep x)) [
      | inl k ↦
          rw (e, k)
            (sym (
              insert-least x (filter keep (y ∷ ys)) (
                All-filter _ keep (y ∷ ys)
                  (ground arith, All-later x.snapshot_time y.snapshot_time ys (ground arith) h.0))))
      | inr k ↦ rw (e, k) refl
    ]
    | inr e ↦ elim (Bool-cases (keep y)) [
      | inl k ↦
          rw (e, k) (ap (λ l. y ∷ l) (filter-insert x ys h.1) ∙ moved (keep x) (filter keep ys) e)
      | inr k ↦ rw (e, k) (filter-insert x ys h.1)
    ]
  ]
    where
      moved :
          (b : Bool) (zs : List Metadata)
          → leb x.snapshot_time y.snapshot_time ≡ false
          → y ∷ (if b then insert_by_snapshot x zs else zs)
            ≡ (if b then insert_by_snapshot x (y ∷ zs) else y ∷ zs)
      moved true zs e = rw e refl
      moved false zs e = refl

  pub sort_by_snapshot-filter :
      (xs : List Metadata) → sort_by_snapshot (filter keep xs) ≡ filter keep (sort_by_snapshot xs)
  unfolding sort_by_snapshot
  sort_by_snapshot-filter [] = refl
  sort_by_snapshot-filter (x ∷ xs) = elim (Bool-cases (keep x)) [
    | inl k ↦ rw k (
        ap (insert_by_snapshot x) (sort_by_snapshot-filter xs)
        ∙ sym (filter-insert x (sort_by_snapshot xs) (sort_by_snapshot-IsOrdered xs) ∙ rw k refl))
    | inr k ↦ rw k (
        sort_by_snapshot-filter xs
        ∙ sym (filter-insert x (sort_by_snapshot xs) (sort_by_snapshot-IsOrdered xs) ∙ rw k refl))
  ]

module _ (test : Metadata → Bool) where
  any-insert :
      (m : Metadata) (xs : List Metadata)
      → any test (insert_by_snapshot m xs) ≡ (test m || any test xs)
  unfolding insert_by_snapshot
  any-insert m [] = refl
  any-insert m (x ∷ xs) = ground (arith, any-insert m xs)

  pub any-sort : (xs : List Metadata) → any test (sort_by_snapshot xs) ≡ any test xs
  unfolding sort_by_snapshot
  any-sort [] = refl
  any-sort (x ∷ xs) = any-insert x (sort_by_snapshot xs) ∙ ap (λ b. test x || b) (any-sort xs)
