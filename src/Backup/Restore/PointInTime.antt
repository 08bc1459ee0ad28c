-- ===== src/Backup/Restore/PointInTime.antt =====
-- What the backups of a chain bring back, up to a target.
use fcstask_backend.Backup.Catalog.{
  BackupType, Instant, Metadata, full_backup, incremental_backup, is_full,
}
use fcstask_backend.Backup.Catalog.Linked.{Follows, IsInOrder, IsLinked}
use fcstask_backend.Backup.Restore.{at_or_before, is_applied, is_in_chain}
use fcstask_backend.Prelude.{
  All, Bool, Bool-cases, List, Option, [], any, ap, arith, eq_iff, false, filter, inl, inr, leb,
  ltb, none, refl, some, str_eq, subst, sym, true, ◌&&◌, ◌<◌, ◌||◌, ◌∙◌, ◌∷◌, ◌≡◌, ◌≤◌, ◌⊎◌,
}

pub at_or_before-le :
    (target : Option Instant) (a b : Instant)
    → a ≤ b
    → at_or_before target b ≡ true
    → at_or_before target a ≡ true
at_or_before-le none a b le h = refl
at_or_before-le (some t) a b le h = ground arith

at_or_before-gt :
    (target : Option Instant) (a b : Instant)
    → a ≤ b
    → at_or_before target a ≡ false
    → at_or_before target b ≡ false
at_or_before-gt none a b le h = cc
at_or_before-gt (some t) a b le h = ground arith

-- A chain in which every backup begins where the one before it ended.
abbrev pub IsContinuous : Metadata → List Metadata → Type 0
IsContinuous prev [] = Unit
IsContinuous prev (m ∷ ms) =
    (m.parent ≡ prev.id)
    × (m.since ≡ prev.snapshot_time)
    × (prev.snapshot_time < m.snapshot_time)
    × IsContinuous m ms

module _ (target : Option Instant) (base : Metadata) where
  abbrev taken : Metadata → Bool
  taken = is_in_chain target base

  -- A backup of the chain that reaches to `t`.
  abbrev pub covers : Instant → Metadata → Bool
  covers t m = str_eq m.base_full base.id && leb t m.snapshot_time

  not_taken-base : (m : Metadata) → str_eq m.base_full base.id ≡ false → taken m ≡ false
  unfolding is_in_chain
  not_taken-base m h = ground arith

  not_taken-early : (m : Metadata) → m.snapshot_time ≤ base.snapshot_time → taken m ≡ false
  unfolding is_in_chain
  not_taken-early m h = ground arith

  pub not_taken-full : (m : Metadata) → is_full m.backup_type ≡ true → taken m ≡ false
  unfolding is_in_chain
  not_taken-full m h = ground arith

  not_taken-late : (m : Metadata) → at_or_before target m.since ≡ false → taken m ≡ false
  unfolding is_in_chain
  not_taken-late m h = ground arith

  is_taken :
      (m : Metadata)
      → is_full m.backup_type ≡ false
      → m.base_full ≡ base.id
      → base.snapshot_time < m.snapshot_time
      → at_or_before target m.since ≡ true
      → taken m ≡ true
  unfolding is_in_chain
  is_taken m inc same later in_time = ground (arith, eq_iff m.base_full base.id)

  -- What a backup is to the one before it.
  record Next (prev m : Metadata) : Type 0 where
    full_or_next :
        ((is_full m.backup_type ≡ true) × (m.base_full ≡ m.id))
        ⊎ ((is_full m.backup_type ≡ false)
            × (m.parent ≡ prev.id)
            × (m.base_full ≡ prev.base_full)
            × (m.since ≡ prev.snapshot_time))

  next : (prev m : Metadata) → Follows (some prev) m m.backup_type → Next prev m
  next prev m f = record { full_or_next = go m.backup_type refl f }
    where
      go :
          (type : BackupType)
          → m.backup_type ≡ type
          → Follows (some prev) m type
          → ((is_full m.backup_type ≡ true) × (m.base_full ≡ m.id))
            ⊎ ((is_full m.backup_type ≡ false)
                × (m.parent ≡ prev.id)
                × (m.base_full ≡ prev.base_full)
                × (m.since ≡ prev.snapshot_time))
      go full_backup e f = inl (ap is_full e, f)
      go incremental_backup e f = inr (ap is_full e, f.0, f.1, f.2)

  -- Behind another full backup nothing belongs to the chain.
  other_chain :
      (prev : Metadata) (ms : List Metadata) (t : Instant)
      → str_eq prev.base_full base.id ≡ false
      → IsLinked (some prev) ms
      → All (λ x. str_eq x.id base.id ≡ false) ms
      → (filter taken ms ≡ []) × (any (covers t) ms ≡ false)
  other_chain prev [] t other linked ids = (refl, refl)
  other_chain prev (m ∷ ms) t other linked ids =
      let n = next prev m linked.0 in
      let not_here : str_eq m.base_full base.id ≡ false = elim n.full_or_next [
        | inl (f, own) ↦ ap (λ s. str_eq s base.id) own ∙ ids.0
        | inr (i, p, same, w) ↦ ap (λ s. str_eq s base.id) same ∙ other
      ] in
      let rest = other_chain m ms t not_here linked.1 ids.1 in
      (rw (not_taken-base m not_here) rest.0, rw not_here rest.1)

  -- Once the target is passed nothing is taken.
  too_late :
      (prev : Metadata) (ms : List Metadata)
      → at_or_before target prev.snapshot_time ≡ false
      → IsLinked (some prev) ms
      → IsInOrder (prev ∷ ms)
      → filter taken ms ≡ []
  too_late prev [] late linked order = refl
  too_late prev (m ∷ ms) late linked order =
      let n = next prev m linked.0 in
      let out : taken m ≡ false = elim n.full_or_next [
        | inl (f, own) ↦ not_taken-full m f
        | inr (i, p, same, w) ↦ not_taken-late m (ap (at_or_before target) w ∙ late)
      ] in
      rw out (
        too_late m ms
          (at_or_before-gt target prev.snapshot_time m.snapshot_time (omega (arith, order.0.0))
            late)
          linked.1 order.1)

  pub before_base :
      (ms : List Metadata)
      → All (λ x. x.snapshot_time < base.snapshot_time) ms
      → filter taken ms ≡ []
  before_base [] h = refl
  before_base (m ∷ ms) h = rw (not_taken-early m (omega (arith, h.0))) (before_base ms h.1)

  pub covers-before :
      (t : Instant) (ms : List Metadata)
      → All (λ x. x.snapshot_time < base.snapshot_time) ms
      → any (covers t) ms ≡ true
      → leb t base.snapshot_time ≡ true
  covers-before t [] h c = cc
  covers-before t (m ∷ ms) h c = ground (arith, h.0, covers-before t ms h.1)

  -- The taken backups behind `prev`, which is in the chain.
  pub taken-IsContinuous :
      (prev : Metadata) (ms : List Metadata)
      → prev.base_full ≡ base.id
      → base.snapshot_time ≤ prev.snapshot_time
      → IsLinked (some prev) ms
      → IsInOrder (prev ∷ ms)
      → All (λ x. str_eq x.id base.id ≡ false) ms
      → IsContinuous prev (filter taken ms)
  taken-IsContinuous prev [] same reached linked order ids = tt
  taken-IsContinuous prev (m ∷ ms) same reached linked order ids =
      elim (next prev m linked.0).full_or_next [
        | inl (f, own) ↦ rw (not_taken-full m f) (
            subst (IsContinuous prev)
              (sym (other_chain m ms 0 (ap (λ s. str_eq s base.id) own ∙ ids.0) linked.1 ids.1).0)
              tt)
        | inr (i, p, b, w) ↦ elim (Bool-cases (at_or_before target m.since)) [
          | inl in_time ↦ rw (is_taken m i (b ∙ same) (omega (arith, order.0.0)) in_time) (
            p,
            w,
            order.0.0,
            taken-IsContinuous m ms (b ∙ same) (omega (arith, order.0.0)) linked.1 order.1 ids.1,
          )
          | inr late ↦ rw (not_taken-late m late) (
              subst (IsContinuous prev)
                (sym (
                  too_late m ms
                    (at_or_before-gt target m.since m.snapshot_time
                      (let x : m.since ≡ prev.snapshot_time = w in omega (arith, order.0.0, x))
                      late)
                    linked.1 order.1))
                tt)
        ]
      ]

  -- The changes that `prev` and the taken backups behind it bring are those that the chain covers.
  pub is_applied-covers :
      (t : Instant) (prev : Metadata) (ms : List Metadata)
      → prev.base_full ≡ base.id
      → base.snapshot_time ≤ prev.snapshot_time
      → IsLinked (some prev) ms
      → IsInOrder (prev ∷ ms)
      → All (λ x. str_eq x.id base.id ≡ false) ms
      → ((leb t prev.snapshot_time && at_or_before target t)
          || any (λ m. is_applied target m t) (filter taken ms))
        ≡ (at_or_before target t && (leb t prev.snapshot_time || any (covers t) ms))
  unfolding is_applied
  is_applied-covers t prev [] same reached linked order ids = ground arith
  is_applied-covers t prev (m ∷ ms) same reached linked order ids =
      elim (next prev m linked.0).full_or_next [
        | inl (f, own) ↦
            let rest = other_chain m ms t (ap (λ s. str_eq s base.id) own ∙ ids.0) linked.1 ids.1 in
            let not_here : str_eq m.base_full base.id ≡ false =
              ap (λ s. str_eq s base.id) own ∙ ids.0 in
            rw (not_taken-full m f, rest.0, rest.1, not_here) (ground arith)
        | inr (i, p, b, w) ↦ elim (Bool-cases (at_or_before target m.since)) [
          | inl in_time ↦
              let ih =
                is_applied-covers t m ms (b ∙ same) (omega (arith, order.0.0)) linked.1 order.1
                  ids.1 in
              rw
                (
                  is_taken m i (b ∙ same) (omega (arith, order.0.0)) in_time,
                  (eq_iff m.base_full base.id).1 (b ∙ same),
                )
                (joined t m.since prev.snapshot_time m.snapshot_time (at_or_before target t) _ _ w
                  order.0.0 ih)
          | inr late ↦
              let stop =
                too_late m ms
                  (at_or_before-gt target m.since m.snapshot_time
                    (let x : m.since ≡ prev.snapshot_time = w in omega (arith, order.0.0, x)) late)
                  linked.1 order.1 in
              rw (not_taken-late m late, stop)
                (beyond (leb t prev.snapshot_time) (at_or_before target t) _
                  (within t prev.snapshot_time m.since w late))
        ]
      ]
    where
      joined :
          (t since p q : Instant) (w x y : Bool)
          → since ≡ p
          → p < q
          → ((leb t q && w) || x) ≡ (w && (leb t q || y))
          → ((leb t p && w) || ((ltb since t && leb t q && w) || x))
            ≡ (w && (leb t p || (leb t q || y)))
      joined t since p q w x y e lt h = ground arith

      beyond : (a w x : Bool) → (w ≡ true → a ≡ true) → ((a && w) || false) ≡ (w && (a || x))
      beyond a w x h = ground arith

      within :
          (t p since : Instant)
          → since ≡ p
          → at_or_before target since ≡ false
          → at_or_before target t ≡ true
          → leb t p ≡ true
      within t p since e late h = in_target target late h
        where
          in_target :
              (o : Option Instant)
              → at_or_before o since ≡ false
              → at_or_before o t ≡ true
              → leb t p ≡ true
          in_target none late h = cc
          in_target (some x) late h = ground arith
