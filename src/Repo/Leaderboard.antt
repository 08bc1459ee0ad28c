-- ===== src/Repo/Leaderboard.antt =====
-- internal/db/repo/course.go, GetLeaderboard: from the rows of its query to the ranked entries. The
-- query is gorm's, and `sort.Slice` a parameter. The map of users with the order of their first
-- appearance is an association list in that order.
pub mod Totals
pub mod Ranks
use fcstask_backend.Model.{Uuid, is_nil}
use fcstask_backend.Prelude.{Bool, List, String, [], if◌then◌else◌, map, ℕ, ◌++◌, ◌+◌, ◌==◌, ◌∷◌}
use fcstask_backend.Prelude.Int.{ltb_ℤ, pos, ℤ, ◌+ℤ◌}

pub record TaskScoreRow : Type 0 where
  pub user_id : Uuid
  pub username : String
  pub task_id : Uuid
  pub task_title : String
  pub score : ℤ
  pub homework_id : Uuid
  pub homework_title : String

pub record TaskScore : Type 0 where
  pub task_id : Uuid
  pub title : String
  pub score : ℤ

pub record HomeworkScore : Type 0 where
  pub homework_id : Uuid
  pub homework_title : String
  pub tasks : List TaskScore
  pub total_score : ℤ

pub record UserScores : Type 0 where
  pub username : String
  pub total_score : ℤ
  pub homeworks : List HomeworkScore

pub record LeaderboardEntry : Type 0 where
  pub rank : ℕ
  pub username : String
  pub total_score : ℤ
  pub homeworks : List HomeworkScore

abbrev pub task_score : TaskScoreRow → TaskScore
task_score row = record { task_id = row.task_id; title = row.task_title; score = row.score }

-- `hw.Tasks = append(...)`, `hw.TotalScore += row.Score`
abbrev pub with_task : TaskScoreRow → HomeworkScore → HomeworkScore
with_task row hw = record hw {
  tasks = hw.tasks ++ task_score row ∷ [];
  total_score = hw.total_score +ℤ row.score;
}

abbrev pub new_homework : TaskScoreRow → HomeworkScore
new_homework row = record {
  homework_id = row.homework_id;
  homework_title = row.homework_title;
  tasks = [];
  total_score = pos 0;
}

-- The first homework with the row's id gets its task, or a new one at the end does.
unfoldable pub add_to_homeworks : TaskScoreRow → List HomeworkScore → List HomeworkScore
add_to_homeworks row [] = with_task row (new_homework row) ∷ []
add_to_homeworks row (hw ∷ hws) =
    let rest = add_to_homeworks row hws in
    if hw.homework_id == row.homework_id then with_task row hw ∷ hws else hw ∷ rest

-- `if row.TaskID != uuid.Nil { ... }`
unfoldable pub add_score : TaskScoreRow → UserScores → UserScores
add_score row us = if is_nil row.task_id then us else record us {
  homeworks = add_to_homeworks row us.homeworks;
  total_score = us.total_score +ℤ row.score;
}

abbrev pub new_user : TaskScoreRow → UserScores
new_user row = record { username = row.username; total_score = pos 0; homeworks = [] }

unfoldable pub add_row : TaskScoreRow → List (Uuid × UserScores) → List (Uuid × UserScores)
add_row row [] = (row.user_id, add_score row (new_user row)) ∷ []
add_row row (u ∷ us) =
    let rest = add_row row us in
    if u.0 == row.user_id then (u.0, add_score row u.1) ∷ us else u ∷ rest

unfoldable pub collect : List TaskScoreRow → List (Uuid × UserScores) → List (Uuid × UserScores)
collect [] users = users
collect (row ∷ rows) users = collect rows (add_row row users)

abbrev pub entry_of : Uuid × UserScores → LeaderboardEntry
entry_of u = record {
  rank = 0;
  username = u.1.username;
  total_score = u.1.total_score;
  homeworks = u.1.homeworks;
}

-- `entries[i].Rank = i + 1`
unfoldable pub with_ranks : ℕ → List LeaderboardEntry → List LeaderboardEntry
with_ranks i [] = []
with_ranks i (e ∷ es) = record e { rank = i + 1 } ∷ with_ranks (i + 1) es

-- `func(i, j int) bool { return entries[i].TotalScore > entries[j].TotalScore }`
abbrev pub scores_higher : LeaderboardEntry → LeaderboardEntry → Bool
scores_higher a b = ltb_ℤ b.total_score a.total_score

module _
    (sort_slice : (LeaderboardEntry → LeaderboardEntry → Bool)
      → List LeaderboardEntry
      → List LeaderboardEntry) where
  unfoldable pub leaderboard : List TaskScoreRow → List LeaderboardEntry
  leaderboard rows = with_ranks 0 (sort_slice scores_higher (map entry_of (collect rows [])))
