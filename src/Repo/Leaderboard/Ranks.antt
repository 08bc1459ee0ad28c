-- ===== src/Repo/Leaderboard/Ranks.antt =====
-- The entries that GetLeaderboard returns are the collected users, ranked from the highest total on.
-- No entry scores higher than the one before it.
use fcstask_backend.Model.{Uuid}
use fcstask_backend.Prelude.{
  All, Bool, List, Permᴰ, [], ap, false, map, refl, subst, sym, ℕ, ◌+◌, ◌∷◌, ◌≡◌,
}
use fcstask_backend.Repo.Leaderboard.{
  LeaderboardEntry, TaskScoreRow, UserScores, collect, entry_of, leaderboard, scores_higher,
  with_ranks,
}
use fcstask_backend.Repo.Leaderboard.Totals.{AddsUp, AllAddUp, collect-AllAddUp}

abbrev pub NonIncreasing : List LeaderboardEntry → Type 0
NonIncreasing [] = Unit
NonIncreasing (a ∷ []) = Unit
NonIncreasing (a ∷ b ∷ es) = (scores_higher b a ≡ false) × NonIncreasing (b ∷ es)

-- The ranks count up from `i + 1`.
abbrev pub RankedFrom : ℕ → List LeaderboardEntry → Type 0
RankedFrom i [] = Unit
RankedFrom i (e ∷ es) = (e.rank ≡ i + 1) × RankedFrom (i + 1) es

abbrev pub EntryAddsUp : LeaderboardEntry → Type 0
EntryAddsUp e = AddsUp e.homeworks e.total_score

-- `sort.Slice` with this comparison: the same entries, in order.
pub record SortLaws
    (sort_slice : (LeaderboardEntry → LeaderboardEntry → Bool)
      → List LeaderboardEntry
      → List LeaderboardEntry)
    : Type 0 where
  pub permutes : (es : List LeaderboardEntry) → Permᴰ es (sort_slice scores_higher es)
  pub orders : (es : List LeaderboardEntry) → NonIncreasing (sort_slice scores_higher es)

abbrev pub unranked : LeaderboardEntry → LeaderboardEntry
unranked e = record e { rank = 0 }

with_ranks-RankedFrom : (i : ℕ) (es : List LeaderboardEntry) → RankedFrom i (with_ranks i es)
unfolding with_ranks
with_ranks-RankedFrom i [] = tt
with_ranks-RankedFrom i (e ∷ es) = (refl, with_ranks-RankedFrom (i + 1) es)

with_ranks-NonIncreasing :
    (i : ℕ) (es : List LeaderboardEntry) → NonIncreasing es → NonIncreasing (with_ranks i es)
unfolding with_ranks
with_ranks-NonIncreasing i [] h = tt
with_ranks-NonIncreasing i (a ∷ []) h = tt
with_ranks-NonIncreasing i (a ∷ b ∷ es) h = (h.0, with_ranks-NonIncreasing (i + 1) (b ∷ es) h.1)

with_ranks-All :
    (i : ℕ) (es : List LeaderboardEntry) → All EntryAddsUp es → All EntryAddsUp (with_ranks i es)
unfolding with_ranks
with_ranks-All i [] h = tt
with_ranks-All i (e ∷ es) h = (h.0, with_ranks-All (i + 1) es h.1)

unranked-with_ranks :
    (i : ℕ) (es : List LeaderboardEntry) → map unranked (with_ranks i es) ≡ map unranked es
unfolding with_ranks
unranked-with_ranks i [] = refl
unranked-with_ranks i (e ∷ es) = ap (λ z. unranked e ∷ z) (unranked-with_ranks (i + 1) es)

Permᴰ-All : {es fs : List LeaderboardEntry} → Permᴰ es fs → All EntryAddsUp es → All EntryAddsUp fs
Permᴰ-All Permᴰ.nil h = h
Permᴰ-All (Permᴰ.cons e p) h = (subst EntryAddsUp e h.0, Permᴰ-All p h.1)
Permᴰ-All (Permᴰ.swap e e') h = (subst EntryAddsUp e' h.1.0, (subst EntryAddsUp e h.0, h.1.1))
Permᴰ-All (Permᴰ.trans p q) h = Permᴰ-All q (Permᴰ-All p h)

map-Permᴰ :
    (f : LeaderboardEntry → LeaderboardEntry) {es fs : List LeaderboardEntry}
    → Permᴰ es fs
    → Permᴰ (map f es) (map f fs)
map-Permᴰ f Permᴰ.nil = Permᴰ.nil
map-Permᴰ f (Permᴰ.cons e p) = Permᴰ.cons (ap f e) (map-Permᴰ f p)
map-Permᴰ f (Permᴰ.swap e e') = Permᴰ.swap (ap f e) (ap f e')
map-Permᴰ f (Permᴰ.trans p q) = Permᴰ.trans (map-Permᴰ f p) (map-Permᴰ f q)

entries-All :
    (users : List (Uuid × UserScores)) → AllAddUp users → All EntryAddsUp (map entry_of users)
entries-All [] h = tt
entries-All (u ∷ us) h = (h.0, entries-All us h.1)

-- What a leaderboard is: ranks from 1 on, no entry above a higher total, every total the sum of its
-- homeworks' totals and each of those the sum of its tasks' scores, and one entry for each collected
-- user.
pub record IsLeaderboard (users : List (Uuid × UserScores)) (board : List LeaderboardEntry)
    : Type 0 where
  pub ranked : RankedFrom 0 board
  pub ordered : NonIncreasing board
  pub adds_up : All EntryAddsUp board
  pub of_users : Permᴰ (map unranked (map entry_of users)) (map unranked board)

module _
    (sort_slice : (LeaderboardEntry → LeaderboardEntry → Bool)
      → List LeaderboardEntry
      → List LeaderboardEntry)
    (laws : SortLaws sort_slice) where
  -- For any rows, GetLeaderboard returns one entry for each user that it collected, ranked 1, 2, ...
  -- with totals that never increase, every total being the sum of its homeworks' totals and each of
  -- those the sum of its tasks' scores.
  pub leaderboard-IsLeaderboard :
      (rows : List TaskScoreRow) → IsLeaderboard (collect rows []) (leaderboard sort_slice rows)
  unfolding leaderboard
  leaderboard-IsLeaderboard rows =
      let entries = map entry_of (collect rows []) in
      let sorted = sort_slice scores_higher entries in
      record {
        ranked = with_ranks-RankedFrom 0 sorted;
        ordered = with_ranks-NonIncreasing 0 sorted (laws.orders entries);
        adds_up = with_ranks-All 0 sorted (
            Permᴰ-All (laws.permutes entries)
              (entries-All (collect rows []) (collect-AllAddUp rows [] tt)));
        of_users =
            subst (Permᴰ (map unranked entries)) (sym (unranked-with_ranks 0 sorted))
              (map-Permᴰ unranked (laws.permutes entries));
      }
