-- ===== src/Backup/Restore/Versions.antt =====
-- The version of a row that the backups of a chain bring back.
use fcstask_backend.Backup.Catalog.{Instant, Metadata}
use fcstask_backend.Backup.Restore.{Contents, Source, applied, at_or_before, is_applied, version_at}
use fcstask_backend.Backup.Restore.PointInTime.{IsContinuous}
use fcstask_backend.Prelude.{
  All, Bool, Bool-cases, List, Option, [], any, ap, arith, false, false≢true, if◌then◌else◌, inl,
  inr, leb, leb→le, ltb, refl, some, subst, suc, sym, true, zero, ℕ, ◌&&◌, ◌<◌, ◌||◌, ◌∙◌, ◌∷◌, ◌≡◌,
  ◌≤◌, ◌⊎◌,
}

module _ (source : Source) (row : ℕ) where
  abbrev pub seen : Instant → Instant
  seen = version_at source row

  pub seen-le : (t : Instant) → seen t ≤ t
  unfolding version_at
  seen-le zero = omega arith
  seen-le (suc t) = elim (Bool-cases (source.changed row (suc t))) [
    | inl e ↦ rw e (omega arith)
    | inr e ↦ rw e (omega (arith, seen-le t))
  ]

  pub seen_mono : (a b : Instant) → a ≤ b → seen a ≤ seen b
  unfolding version_at
  seen_mono a zero le = subst (λ n. seen n ≤ 0) (zero_at a le) (omega arith)
    where
      zero_at : (n : ℕ) → n ≤ 0 → 0 ≡ n
      zero_at n h = omega (arith, h)
  seen_mono a (suc b) le = elim (Bool-cases (leb a b)) [
    | inl e ↦ elim (Bool-cases (source.changed row (suc b))) [
      | inl f ↦ rw f (omega (arith, seen-le a, le))
      | inr f ↦ rw f (seen_mono a b (leb→le a b e))
    ]
    | inr e ↦ subst (λ n. seen n ≤ seen (suc b)) (last_one a b le e) (omega arith)
  ]
    where
      last_one : (n k : ℕ) → n ≤ suc k → leb n k ≡ false → suc k ≡ n
      last_one n k h e = ground arith

  -- What was seen later, and is not after an instant, was seen at that instant.
  pub seen-up_to : (a b : Instant) → seen a ≤ b → seen a ≤ seen b
  unfolding version_at
  seen-up_to zero b le = omega arith
  seen-up_to (suc a) b le = elim (Bool-cases (source.changed row (suc a))) [
    | inl e ↦ seen_mono (suc a) b (rw e at le)
    | inr e ↦ rw e (seen-up_to a b (rw e at le))
  ]

  -- A copy that is read at `c`, after a snapshot at `s`, sees the last change up to `x`, where this one is not
  -- after the snapshot and the row is not seen changed again after `x`.
  pub seen-same : (x s c : Instant) → s ≤ c → seen x ≤ s → seen c ≤ x → seen c ≡ seen x
  seen-same x s c read old quiet =
      let a = seen-up_to x c (omega (arith, old, read)) in
      let b = seen-up_to c x quiet in omega (arith, a, b)

-- The rows after all the incremental backups.
abbrev pub all_applied : Source → Option Instant → List Metadata → Contents → Contents
all_applied source target [] db = db
all_applied source target (m ∷ ms) db = all_applied source target ms (applied source target m db)

-- Every backup reads the rows after the time of its snapshot.
abbrev pub ReadsAfter : Source → Type 0
ReadsAfter source = (m : Metadata) → m.snapshot_time ≤ source.copied_at m

module _ (source : Source) (row : ℕ) (x : Instant) where
  -- If the backup is the one that has to bring the row's last change up to `x`, then it copies the row's
  -- table, and reads it before the row is changed again after `x`.
  abbrev pub Catches : Metadata → Type 0
  Catches m =
      is_applied (some x) m (version_at source row x) ≡ true
      → (source.copied m row ≡ true) × (version_at source row (source.copied_at m) ≤ x)

module _ (source : Source) (reads : ReadsAfter source) (row : ℕ) (x : Instant) where
  abbrev last_change : Instant
  last_change = version_at source row x

  abbrev IsBack : Metadata → Contents → Type 0
  IsBack prev db = last_change ≤ prev.snapshot_time → db row ≡ last_change

  applied-IsBack :
      (prev m : Metadata) (db : Contents)
      → m.since ≡ prev.snapshot_time
      → Catches source row x m
      → IsBack prev db
      → IsBack m (applied source (some x) m db)
  unfolding applied is_applied
  applied-IsBack prev m db since catches back old = elim (Bool-cases (ltb m.since last_change)) [
    | inl e ↦
        let (copies, quiet) =
          catches (in_window m.since last_change m.snapshot_time e old (seen-le source row x)) in
        let same =
          seen-same source row x m.snapshot_time (source.copied_at m) (reads m) old quiet in
        if_same _ _ _ _ (λ _. same)
          (λ no. absurd (
            false≢true (
              sym no
              ∙ both _ _ copies (
                  ap (λ t. ltb m.since t && leb t m.snapshot_time && at_or_before (some x) t) same
                  ∙ in_window m.since last_change m.snapshot_time e old (seen-le source row x)))))
    | inr e ↦
        if_same _ _ _ _
          (λ taken. seen-same source row x m.snapshot_time (source.copied_at m) (reads m) old (
            bounded (source.copied m row) m.since (version_at source row (source.copied_at m))
              m.snapshot_time taken))
          (λ _. back (not_later m.since last_change prev.snapshot_time since e))
  ]
    where
      if_same :
          (b : Bool) (c d v : Instant)
          → (b ≡ true → c ≡ v)
          → (b ≡ false → d ≡ v)
          → (if b then c else d) ≡ v
      if_same true c d v f g = f refl
      if_same false c d v f g = g refl

      both : (a b : Bool) → a ≡ true → b ≡ true → (a && b) ≡ true
      both a b h k = ground arith

      in_window :
          (since v until : Instant)
          → ltb since v ≡ true
          → v ≤ until
          → v ≤ x
          → (ltb since v && leb v until && leb v x) ≡ true
      in_window since v until h k l = ground arith

      bounded :
          (a : Bool) (since c until : Instant)
          → (a && (ltb since c && leb c until && leb c x)) ≡ true
          → c ≤ x
      bounded a since c until h = ground arith

      not_later : (since v p : Instant) → since ≡ p → ltb since v ≡ false → v ≤ p
      not_later since v p e h = ground arith

  -- Along a chain that reaches the last change, every backup of which catches the row.
  pub all_applied-row :
      (prev : Metadata) (ms : List Metadata) (db : Contents)
      → IsContinuous prev ms
      → All (Catches source row x) ms
      → (last_change ≤ prev.snapshot_time → db row ≡ last_change)
      → (leb last_change prev.snapshot_time || any (λ m. is_applied (some x) m last_change) ms)
        ≡ true
      → all_applied source (some x) ms db row ≡ last_change
  unfolding is_applied
  all_applied-row prev [] db chain catches back reached = back (leb→le _ _ (alone _ reached))
    where
      alone : (b : Bool) → (b || false) ≡ true → b ≡ true
      alone b h = ground arith
  all_applied-row prev (m ∷ ms) db chain catches back reached =
      all_applied-row m ms (applied source (some x) m db) chain.3 catches.1
        (applied-IsBack prev m db chain.1 catches.0 back)
        (later last_change m prev chain.2 _ reached)
    where
      later :
          (v : Instant) (m prev : Metadata)
          → prev.snapshot_time < m.snapshot_time
          → (y : Bool) → (leb v prev.snapshot_time || (is_applied (some x) m v || y)) ≡ true
          → (leb v m.snapshot_time || y) ≡ true
      later v m prev lt y h = ground arith

  -- What an incremental backup puts back is not after `x`.
  pub all_applied-bounded :
      (ms : List Metadata) (db : Contents)
      → (all_applied source (some x) ms db row ≤ x)
        ⊎ (all_applied source (some x) ms db row ≡ db row)
  unfolding applied is_applied
  all_applied-bounded [] db = inr refl
  all_applied-bounded (m ∷ ms) db = elim (all_applied-bounded ms (applied source (some x) m db)) [
    | inl le ↦ inl le
    | inr same ↦
        put_back _ _ (source.copied m row) m.since (version_at source row (source.copied_at m))
          m.snapshot_time same
  ]
    where
      put_back :
          (r old : Instant) (a : Bool) (since c until : Instant)
          → r ≡ (if a && (ltb since c && leb c until && leb c x) then c else old)
          → (r ≤ x) ⊎ (r ≡ old)
      put_back r old a since c until e =
          elim (Bool-cases (a && (ltb since c && leb c until && leb c x))) [
            | inl t ↦ inl (bounded r c e t)
            | inr f ↦ inr (e ∙ rw f refl)
          ]
        where
          bounded :
              (r c : Instant)
              → r ≡ (if a && (ltb since c && leb c until && leb c x) then c else old)
              → (a && (ltb since c && leb c until && leb c x)) ≡ true
              → r ≤ x
          bounded r c e t = ground arith
