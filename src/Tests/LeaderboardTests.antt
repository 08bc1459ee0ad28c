-- ===== src/Tests/LeaderboardTests.antt =====
-- A leaderboard of two users, and an insertion sort that meets the laws of `sort.Slice`.
use fcstask_backend.Model.{Uuid}
use fcstask_backend.Prelude.{
  Bool, Bool-cases, List, Permᴰ, String, [], arith, false, if◌then◌else◌, inl, inr, map, refl, true,
  ℕ, ◌∷◌, ◌≡◌,
}
use fcstask_backend.Prelude.Int.{ltb_ℤ, pos, ℤ, ◌+ℤ◌}
use fcstask_backend.Repo.Leaderboard.{
  LeaderboardEntry, TaskScoreRow, add_row, add_score, add_to_homeworks, collect, leaderboard,
  scores_higher, with_ranks,
}
use fcstask_backend.Repo.Leaderboard.Ranks.{
  IsLeaderboard, NonIncreasing, SortLaws, leaderboard-IsLeaderboard,
}
use fcstask_backend.Repo.Leaderboard.Totals.{collect-total, earned, total_of}

abbrev row_of_score : Uuid → String → Uuid → ℤ → Uuid → TaskScoreRow
row_of_score u name task score hw = record {
  user_id = u;
  username = name;
  task_id = task;
  task_title = "task";
  score = score;
  homework_id = hw;
  homework_title = "homework";
}

abbrev rows : List TaskScoreRow
rows =
    row_of_score 1 "ann" 40 (pos 3) 30
    ∷ row_of_score 2 "bob" 40 (pos 5) 30
    ∷ row_of_score 1 "ann" 41 (pos 4) 31
    ∷ row_of_score 3 "cid" 0 (pos 0) 0
    ∷ []

insert :
    (LeaderboardEntry → LeaderboardEntry → Bool)
    → LeaderboardEntry
    → List LeaderboardEntry
    → List LeaderboardEntry
insert less e [] = e ∷ []
insert less e (x ∷ xs) = let rest = insert less e xs in if less x e then x ∷ rest else e ∷ x ∷ xs

sort : (LeaderboardEntry → LeaderboardEntry → Bool) → List LeaderboardEntry → List LeaderboardEntry
sort less [] = []
sort less (x ∷ xs) = insert less x (sort less xs)

same_entries : (es : List LeaderboardEntry) → Permᴰ es es
same_entries [] = Permᴰ.nil
same_entries (e ∷ es) = Permᴰ.cons refl (same_entries es)

insert-Permᴰ :
    (less : LeaderboardEntry → LeaderboardEntry → Bool) (e : LeaderboardEntry)
    (xs : List LeaderboardEntry)
    → Permᴰ (e ∷ xs) (insert less e xs)
unfolding insert
insert-Permᴰ less e [] = Permᴰ.cons refl Permᴰ.nil
insert-Permᴰ less e (x ∷ xs) = elim (Bool-cases (less x e)) [
  | inl h ↦ rw h (Permᴰ.trans (Permᴰ.swap refl refl) (Permᴰ.cons refl (insert-Permᴰ less e xs)))
  | inr h ↦ rw h (same_entries (e ∷ x ∷ xs))
]

sort-Permᴰ :
    (less : LeaderboardEntry → LeaderboardEntry → Bool) (xs : List LeaderboardEntry)
    → Permᴰ xs (sort less xs)
unfolding sort
sort-Permᴰ less [] = Permᴰ.nil
sort-Permᴰ less (x ∷ xs) =
    Permᴰ.trans (Permᴰ.cons refl (sort-Permᴰ less xs)) (insert-Permᴰ less x (sort less xs))

lower : (a b : ℤ) → ltb_ℤ a b ≡ true → ltb_ℤ b a ≡ false
lower a b h = ground arith

insert-NonIncreasing :
    (e : LeaderboardEntry) (xs : List LeaderboardEntry)
    → NonIncreasing xs
    → NonIncreasing (insert scores_higher e xs)
unfolding insert
insert-NonIncreasing e [] h = tt
insert-NonIncreasing e (x ∷ []) h = elim (Bool-cases (scores_higher x e)) [
  | inl y ↦ rw y (lower e.total_score x.total_score y, tt)
  | inr y ↦ rw y (y, tt)
]
insert-NonIncreasing e (x ∷ y ∷ xs) h = elim (Bool-cases (scores_higher x e)) [
  | inl p ↦ rw p (below p (scores_higher y e) refl (insert-NonIncreasing e (y ∷ xs) h.1))
  | inr p ↦ rw p (p, h)
]
  where
    below :
        scores_higher x e ≡ true
        → (b : Bool) → scores_higher y e ≡ b
        → NonIncreasing (if b then y ∷ insert scores_higher e xs else e ∷ y ∷ xs)
        → NonIncreasing (x ∷ (if b then y ∷ insert scores_higher e xs else e ∷ y ∷ xs))
    below p true q r = (h.0, r)
    below p false q r = (lower e.total_score x.total_score p, r)

sort-NonIncreasing : (xs : List LeaderboardEntry) → NonIncreasing (sort scores_higher xs)
unfolding sort
sort-NonIncreasing [] = tt
sort-NonIncreasing (x ∷ xs) = insert-NonIncreasing x (sort scores_higher xs) (sort-NonIncreasing xs)

sort-SortLaws : SortLaws sort
sort-SortLaws = record { permutes = sort-Permᴰ scores_higher; orders = sort-NonIncreasing }

leaderboard-IsLeaderboard_example : IsLeaderboard (collect rows []) (leaderboard sort rows)
leaderboard-IsLeaderboard_example = leaderboard-IsLeaderboard sort sort-SortLaws rows

collect-total_example : total_of 1 (collect rows []) ≡ total_of 1 [] +ℤ earned 1 rows
collect-total_example = collect-total 1 rows []

abbrev summary : LeaderboardEntry → ℕ × String × ℤ
summary e = (e.rank, e.username, e.total_score)

-- Ann is first with 7 points.
first :
    map summary (leaderboard sort rows)
    ≡ (1, "ann", pos 7) ∷ (2, "bob", pos 5) ∷ (3, "cid", pos 0) ∷ []
unfolding leaderboard collect add_row add_score add_to_homeworks with_ranks sort insert ◌+ℤ◌
first = refl
