-- ===== src/Repo/Board/Percent.antt =====
-- The points and the percentage of a board.
use native.Mathlib.Nat.{div-le_of_le-mul}
use fcstask_backend.Errors.Action.{ok}
use fcstask_backend.Model.{Time, Uuid}
use fcstask_backend.Prelude.{
  All, List, Option, String, [], arith, map, some, suc, sym, subst, zero, ℕ, ◌*◌, ◌/◌, ◌∷◌, ◌≡◌,
  ◌≤◌,
}
use fcstask_backend.Prelude.Int.{negsuc, pos, +ℤ_parts, ℤ, ◌+ℤ◌, ◌≤ℤ◌}
use fcstask_backend.Repo.Board.{BoardGroup, BoardQueries, get_course_board, percent_of}
use fcstask_backend.Repo.Board.Sums.{earned_of, get_course_board-Shown, max_of, sum_of, sum_of_all}
use fcstask_backend.Repo.Course.{TaskBoardSummary}
use fcstask_backend.Repo.Leaderboard.Totals.{sum}

-- A number from 0 to another.
abbrev pub IsWithin : ℤ → ℤ → Type 0
IsWithin a b = (pos 0 ≤ℤ a) × (a ≤ℤ b)

+ℤ-IsWithin : (a b c d : ℤ) → IsWithin a b → IsWithin c d → IsWithin (a +ℤ c) (b +ℤ d)
+ℤ-IsWithin a b c d h k =
    (omega (arith, h.0, k.0, +ℤ_parts a c), omega (arith, h.1, k.1, +ℤ_parts a c, +ℤ_parts b d))

sum-IsWithin :
    {A : Type 0} (f g : A → ℤ) (xs : List A)
    → All (λ x. IsWithin (f x) (g x)) xs
    → IsWithin (sum (map f xs)) (sum (map g xs))
sum-IsWithin f g [] h = (omega arith, omega arith)
sum-IsWithin f g (x ∷ xs) h =
    +ℤ-IsWithin (f x) (g x) (sum (map f xs)) (sum (map g xs)) h.0 (sum-IsWithin f g xs h.1)

-- The tasks of a group have from none to all of their points.
abbrev pub AreWithin : BoardGroup → Type 0
AreWithin group = All (λ t. IsWithin (earned_of t) (max_of t)) group.tasks

groups-IsWithin :
    (groups : List BoardGroup)
    → All AreWithin groups
    → IsWithin (sum_of_all earned_of groups) (sum_of_all max_of groups)
groups-IsWithin groups h = sum-IsWithin (sum_of earned_of) (sum_of max_of) groups (each groups h)
  where
    each :
        (groups : List BoardGroup)
        → All AreWithin groups
        → All (λ g. IsWithin (sum_of earned_of g) (sum_of max_of g)) groups
    each [] h = tt
    each (g ∷ gs) h = (sum-IsWithin earned_of max_of g.tasks h.0, each gs h.1)

quotient-le : (n m : ℕ) → n ≤ suc m → (n * 100) / suc m ≤ 100
quotient-le n m h = div-le_of_le-mul (suc m) (omega (arith, h))

percent_of-IsWithin :
    (solved max : ℤ) → IsWithin solved max → IsWithin (percent_of solved max) (pos 100)
percent_of-IsWithin solved (pos zero) h = (omega arith, omega arith)
percent_of-IsWithin (pos n) (pos (suc m)) h =
    (omega arith, omega (arith, quotient-le n m (omega (arith, h.1))))
percent_of-IsWithin (negsuc n) (pos (suc m)) h = absurd (omega (arith, h.0))
percent_of-IsWithin solved (negsuc m) h = (omega arith, omega arith)

module _ (show_uuid : Uuid → String) (format : Time → String) (now : Time) {D : Type 0}
    (queries : BoardQueries D) (parse_uuid : String → Option Uuid) where
  -- If no task of a board that GetCourseBoard returns has more points than it gives, or fewer than none,
  -- then the points of the user are from 0 to those of the board, and the percentage is from 0 to 100.
  pub get_course_board-IsWithin :
      (text : String) (user_id : Uuid) (d : D) (summary : TaskBoardSummary BoardGroup)
      → get_course_board queries parse_uuid show_uuid format now text user_id d ≡ ok (some summary)
      → All AreWithin summary.groups
      → IsWithin summary.solved_score summary.max_score × IsWithin summary.solved_percent (pos 100)
  get_course_board-IsWithin text user_id d summary h within =
      let (course, hws, tasks, deadlines, scores, found, rows, board) =
        get_course_board-Shown show_uuid format now queries parse_uuid text user_id d summary h in
      let all =
        subst (λ m. IsWithin summary.solved_score m) (sym board.max)
          (subst (λ s. IsWithin s (sum_of_all max_of summary.groups)) (sym board.solved)
            (groups-IsWithin summary.groups within)) in
      (
        all,
        subst (λ p. IsWithin p (pos 100)) (sym board.percent)
            (percent_of-IsWithin summary.solved_score summary.max_score all),
      )
