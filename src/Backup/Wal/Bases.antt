-- ===== src/Backup/Wal/Bases.antt =====
-- The list of base backups and its order.
use fcstask_backend.Backup.Wal.{
  BaseEntry, BaseMetadata, collect_bases, cons_base, insert_base, list_base_backups, listed_base,
  sort_bases,
}
use fcstask_backend.Prelude.{
  All, Bool, Bool-cases, List, Option, [], arith, filter, inl, inr, leb, leb→le, none, some, ◌∷◌,
  ◌≤◌,
}

insert_base-All :
    (P : BaseMetadata → Type 0) (m : BaseMetadata) (xs : List BaseMetadata)
    → P m
    → All P xs
    → All P (insert_base m xs)
unfolding insert_base
insert_base-All P m [] p h = (p, tt)
insert_base-All P m (x ∷ xs) p h = elim (Bool-cases (leb m.started_at x.started_at)) [
  | inl e ↦ rw e (p, h)
  | inr e ↦ rw e (h.0, insert_base-All P m xs p h.1)
]

sort_bases-All :
    (P : BaseMetadata → Type 0) (xs : List BaseMetadata) → All P xs → All P (sort_bases xs)
unfolding sort_bases
sort_bases-All P [] h = tt
sort_bases-All P (x ∷ xs) h = insert_base-All P x (sort_bases xs) h.0 (sort_bases-All P xs h.1)

pub list_base_backups-All :
    (P : BaseMetadata → Type 0) (es : List BaseEntry)
    → All P (collect_bases es)
    → All P (list_base_backups es)
unfolding list_base_backups
list_base_backups-All P es h = sort_bases-All P (collect_bases es) h

cons_base-All :
    (P : BaseMetadata → Type 0) (o : Option BaseMetadata) (xs : List BaseMetadata)
    → All P (cons_base o xs)
    → All P xs
cons_base-All P none xs h = h
cons_base-All P (some m) xs h = h.1

same_head :
    (P : BaseMetadata → Type 0) (o : Option BaseMetadata) (xs ys : List BaseMetadata)
    → All P (cons_base o xs)
    → All P ys
    → All P (cons_base o ys)
same_head P none xs ys h k = k
same_head P (some m) xs ys h k = (h.0, k)

-- What is left of the entries lists nothing new.
pub collect_bases-filter :
    (P : BaseMetadata → Type 0) (keep : BaseEntry → Bool) (es : List BaseEntry)
    → All P (collect_bases es)
    → All P (collect_bases (filter keep es))
unfolding collect_bases
collect_bases-filter P keep [] h = tt
collect_bases-filter P keep (e ∷ es) h =
    let rest =
      collect_bases-filter P keep es (cons_base-All P (listed_base e) (collect_bases es) h) in
    elim (Bool-cases (keep e)) [
      | inl k ↦
          rw k
            (same_head P (listed_base e) (collect_bases es) (collect_bases (filter keep es)) h rest)
      | inr k ↦ rw k rest
    ]

-- From the first one on, none starts earlier.
abbrev pub AreOrdered : List BaseMetadata → Type 0
AreOrdered [] = Unit
AreOrdered (m ∷ ms) = All (λ x. m.started_at ≤ x.started_at) ms × AreOrdered ms

insert_base-AreOrdered :
    (m : BaseMetadata) (xs : List BaseMetadata) → AreOrdered xs → AreOrdered (insert_base m xs)
unfolding insert_base
insert_base-AreOrdered m [] h = (tt, tt)
insert_base-AreOrdered m (x ∷ xs) h = elim (Bool-cases (leb m.started_at x.started_at)) [
  | inl e ↦ rw e ((leb→le _ _ e, above (leb→le _ _ e) xs h.0), h)
  | inr e ↦ rw e (
    insert_base-All (λ y. x.started_at ≤ y.started_at) m xs (ground (arith, e)) h.0,
    insert_base-AreOrdered m xs h.1,
  )
]
  where
    above :
        m.started_at ≤ x.started_at
        → (ys : List BaseMetadata) → All (λ y. x.started_at ≤ y.started_at) ys
        → All (λ y. m.started_at ≤ y.started_at) ys
    above le [] h = tt
    above le (y ∷ ys) h = (omega (arith, le, h.0), above le ys h.1)

sort_bases-AreOrdered : (xs : List BaseMetadata) → AreOrdered (sort_bases xs)
unfolding sort_bases
sort_bases-AreOrdered [] = tt
sort_bases-AreOrdered (x ∷ xs) = insert_base-AreOrdered x (sort_bases xs) (sort_bases-AreOrdered xs)

pub list_base_backups-AreOrdered : (es : List BaseEntry) → AreOrdered (list_base_backups es)
unfolding list_base_backups
list_base_backups-AreOrdered es = sort_bases-AreOrdered (collect_bases es)
