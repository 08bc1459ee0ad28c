-- ===== src/Backup/Wal/Archiver.antt =====
-- backup-service/internal/wal/archiver.go, Run: how long it waits before it starts a stream again. Times are in
-- seconds. The list of rounds ends where the archiver is stopped.
use fcstask_backend.Prelude.{
  All, Bool, Bool-cases, List, [], ap, arith, if◌then◌else◌, inl, inr, ltb, refl, subst, suc, sym,
  zero, ℕ, ◌*◌, ◌^◌, ◌∙◌, ◌∷◌, ◌≡◌, ◌≤◌,
}

-- A stream: whether it ended with an error, and how long it lasted.
pub record StreamRound : Type 0 where
  pub failed : Bool
  pub lasted : ℕ

abbrev pub archiver_min_backoff : ℕ
archiver_min_backoff = 2

abbrev pub archiver_max_backoff : ℕ
archiver_max_backoff = 60

abbrev pub backoff_after : StreamRound → ℕ → ℕ
backoff_after round backoff =
    if ltb archiver_max_backoff round.lasted then archiver_min_backoff else backoff

abbrev pub next_backoff : ℕ → ℕ
next_backoff backoff =
    if ltb backoff archiver_max_backoff
    then (if ltb archiver_max_backoff (backoff * 2) then archiver_max_backoff else backoff * 2)
    else backoff

-- The waits of `time.After(backoff)`.
unfoldable pub retry_waits : (backoff : ℕ) → List StreamRound → List ℕ
retry_waits backoff [] = []
retry_waits backoff (round ∷ rounds) =
    let wait = backoff_after round backoff in
    let rest =
      retry_waits (if round.failed then next_backoff wait else archiver_min_backoff) rounds in
    if round.failed then wait ∷ rest else rest

-- The waits, told by the number of failures in a row: each doubles the wait, up to a minute. A stream that
-- lasted longer than that, or ended without an error, ends the row.
abbrev pub capped : ℕ → ℕ
capped n = if ltb archiver_max_backoff n then archiver_max_backoff else n

abbrev pub row_before : StreamRound → ℕ → ℕ
row_before round k = if ltb archiver_max_backoff round.lasted then 0 else k

unfoldable pub row_waits : (failures : ℕ) → List StreamRound → List ℕ
row_waits k [] = []
row_waits k (round ∷ rounds) =
    let row = row_before round k in
    let rest = row_waits (if round.failed then suc row else 0) rounds in
    if round.failed then capped (2 ^ suc row) ∷ rest else rest

next_capped : (k : ℕ) → next_backoff (capped (2 ^ suc k)) ≡ capped (2 ^ suc (suc k))
next_capped k = ground arith

retry_waits-row :
    (k : ℕ) (rounds : List StreamRound)
    → retry_waits (capped (2 ^ suc k)) rounds ≡ row_waits k rounds
unfolding retry_waits row_waits
retry_waits-row k [] = refl
retry_waits-row k (round ∷ rounds) = elim (Bool-cases round.failed) [
  | inl f ↦ elim (Bool-cases (ltb archiver_max_backoff round.lasted)) [
    | inl e ↦ rw (f, e) (ap (λ l. archiver_min_backoff ∷ l) (retry_waits-row 1 rounds))
    | inr e ↦
        rw (f, e)
          (ap (λ l. capped (2 ^ suc k) ∷ l)
            (ap (λ b. retry_waits b rounds) (next_capped k) ∙ retry_waits-row (suc k) rounds))
  ]
  | inr f ↦ rw f (retry_waits-row 0 rounds)
]

row_waits-bounds :
    (k : ℕ) (rounds : List StreamRound)
    → All
        (λ wait. (archiver_min_backoff ≤ wait) × (wait ≤ archiver_max_backoff))
        (row_waits k rounds)
unfolding row_waits
row_waits-bounds k [] = tt
row_waits-bounds k (round ∷ rounds) = elim (Bool-cases round.failed) [
  | inl f ↦
      rw f (capped-bounds (row_before round k), row_waits-bounds (suc (row_before round k)) rounds)
  | inr f ↦ rw f (row_waits-bounds 0 rounds)
]
  where
    positive : (j : ℕ) → 1 ≤ 2 ^ j
    positive zero = omega arith
    positive (suc j) = ground (arith, positive j)

    capped-bounds : (j : ℕ) → (2 ≤ capped (2 ^ suc j)) × (capped (2 ^ suc j) ≤ 60)
    capped-bounds j = ground (arith, positive j)

-- From its start on, the archiver waits before each retry as long as the number of failures in a row says:
-- 2 seconds behind the first one, doubled by each that follows, up to 60.
pub retry_waits-backoff :
    (rounds : List StreamRound)
    → (retry_waits archiver_min_backoff rounds ≡ row_waits 0 rounds)
      × All
          (λ wait. (archiver_min_backoff ≤ wait) × (wait ≤ archiver_max_backoff))
          (retry_waits archiver_min_backoff rounds)
retry_waits-backoff rounds =
    let same = retry_waits-row 0 rounds in
    (
      same,
      subst (All λ wait. (archiver_min_backoff ≤ wait) × (wait ≤ archiver_max_backoff)) (sym same)
          (row_waits-bounds 0 rounds),
    )
