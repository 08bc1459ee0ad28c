-- ===== src/Repo/Board/Sums.antt =====
-- The groups and the totals of a board.
use fcstask_backend.Errors.Ensures.{bind-eq-ok}
use fcstask_backend.Errors.Action.{ok}
use fcstask_backend.Model.{Course, Deadline, Homework, Task, Time, Uuid, is_nil}
use fcstask_backend.Prelude.{
  List, Option, String, [], ap, filter, fun_ext, inl, inr, map, subst, none, not, refl, some, sym,
  true, ◌&&◌, ◌==◌, ◌∙◌, ◌∷◌, ◌≡◌, ◌⊎◌,
}
use fcstask_backend.Prelude.Int.{int_laws, pos, ℤ, ◌+ℤ◌}
use fcstask_backend.Repo.Board.{
  BoardGroup, BoardQueries, BoardTask, BoardTotals, ScoreRow, add_task, board_group, board_groups,
  board_of_course, board_of_homeworks, board_of_rows, board_task, deadlines_by_hw, find_course,
  get_course_board, group_tasks, hw_ids, no_totals, percent_of, score_map, tasks_by_hw,
}
use fcstask_backend.Repo.Course.{TaskBoardSummary}
use fcstask_backend.Repo.Grouped.{group_rows-filter}
use fcstask_backend.Repo.Leaderboard.Totals.{sum}

-- The sum of a number over the tasks of a group, and of all groups.
abbrev pub sum_of : (BoardTask → ℤ) → BoardGroup → ℤ
sum_of f group = sum (map f group.tasks)

abbrev pub sum_of_all : (BoardTask → ℤ) → List BoardGroup → ℤ
sum_of_all f groups = sum (map (sum_of f) groups)

abbrev pub max_of : BoardTask → ℤ
max_of t = t.score

abbrev pub earned_of : BoardTask → ℤ
earned_of t = t.score_earned

abbrev plus : BoardTotals → (max solved : ℤ) → BoardTotals
plus totals max solved = record {
  total_max = totals.total_max +ℤ max;
  total_solved = totals.total_solved +ℤ solved;
}

+ℤ_zero : (a : ℤ) → a ≡ a +ℤ pos 0
+ℤ_zero a = grind int_laws

zero_+ℤ : (a : ℤ) → pos 0 +ℤ a ≡ a
zero_+ℤ a = grind int_laws

+ℤ_assoc : (a b c : ℤ) → a +ℤ b +ℤ c ≡ a +ℤ (b +ℤ c)
+ℤ_assoc a b c = grind int_laws

totals_eq :
    {a b : BoardTotals} → a.total_max ≡ b.total_max → a.total_solved ≡ b.total_solved → a ≡ b
totals_eq p q = cc

module _ (show_uuid : Uuid → String) (format : Time → String) (now : Time) where
  abbrev task : (Uuid → ℤ) → Task → BoardTask
  task = board_task show_uuid format now

  group_tasks-sum :
      (scores : Uuid → ℤ) (tasks : List Task) (totals : BoardTotals)
      → group_tasks show_uuid format now scores tasks totals ≡ (
        map (task scores) tasks,
        plus totals
            (sum (map max_of (map (task scores) tasks)))
            (sum (map earned_of (map (task scores) tasks))),
      )
  unfolding group_tasks
  group_tasks-sum scores [] totals =
      ap (λ t. ([], t)) (totals_eq (+ℤ_zero totals.total_max) (+ℤ_zero totals.total_solved))
  group_tasks-sum scores (t ∷ ts) totals =
      ap (λ r. (task scores t ∷ r.0, r.1))
        (group_tasks-sum scores ts (add_task (task scores t) totals)
          ∙ ap (λ z. (map (task scores) ts, z))
              (totals_eq (+ℤ_assoc totals.total_max _ _) (+ℤ_assoc totals.total_solved _ _)))

  abbrev group : Homework → List Deadline → List BoardTask → BoardGroup
  group = board_group show_uuid format now

  abbrev groups_of :
      (Uuid → List Task) → (Uuid → List Deadline) → (Uuid → ℤ) → Homework → BoardGroup
  groups_of tasks deadlines scores hw =
      group hw (deadlines hw.hw_id) (map (task scores) (tasks hw.hw_id))

  board_groups-sum :
      (tasks : Uuid → List Task) (deadlines : Uuid → List Deadline) (scores : Uuid → ℤ)
      (hws : List Homework) (totals : BoardTotals)
      → let shown = map (groups_of tasks deadlines scores) hws in
        board_groups show_uuid format now tasks deadlines scores hws totals
        ≡ (shown, plus totals (sum_of_all max_of shown) (sum_of_all earned_of shown))
  unfolding board_groups
  board_groups-sum tasks deadlines scores [] totals =
      ap (λ t. ([], t)) (totals_eq (+ℤ_zero totals.total_max) (+ℤ_zero totals.total_solved))
  board_groups-sum tasks deadlines scores (hw ∷ hws) totals =
      let own = map (task scores) (tasks hw.hw_id) in
      ap
        (λ (r : List BoardTask × BoardTotals).
          let rest = board_groups show_uuid format now tasks deadlines scores hws r.1 in
          (group hw (deadlines hw.hw_id) r.0 ∷ rest.0, rest.1))
        (group_tasks-sum scores (tasks hw.hw_id) totals)
      ∙ ap (λ (r : List BoardGroup × BoardTotals). (group hw (deadlines hw.hw_id) own ∷ r.0, r.1))
          (board_groups-sum tasks deadlines scores hws
              (plus totals (sum (map max_of own)) (sum (map earned_of own)))
            ∙ ap (λ z. (map (groups_of tasks deadlines scores) hws, z))
                (totals_eq (+ℤ_assoc totals.total_max _ _) (+ℤ_assoc totals.total_solved _ _)))

  -- A homework on the board: its own deadlines and tasks, in the order of the rows.
  abbrev pub shown_group : List Task → List Deadline → List ScoreRow → Homework → BoardGroup
  shown_group tasks deadlines scores hw =
      group hw (filter (λ dl. not (is_nil dl.homework_id) && dl.homework_id == hw.hw_id) deadlines)
        (map (task (score_map scores)) (filter (λ t. t.hw_id == hw.hw_id) tasks))

  pub record IsBoard (hws : List Homework) (tasks : List Task) (deadlines : List Deadline)
      (scores : List ScoreRow) (summary : TaskBoardSummary BoardGroup) : Type 0 where
    pub groups : summary.groups ≡ map (shown_group tasks deadlines scores) hws
    pub max : summary.max_score ≡ sum_of_all max_of summary.groups
    pub solved : summary.solved_score ≡ sum_of_all earned_of summary.groups
    pub percent : summary.solved_percent ≡ percent_of summary.solved_score summary.max_score

  board_of_rows-IsBoard :
      (course : Course) (hws : List Homework) (tasks : List Task) (deadlines : List Deadline)
      (scores : List ScoreRow)
      → IsBoard hws tasks deadlines scores
          (board_of_rows show_uuid format now course hws tasks deadlines scores)
  board_of_rows-IsBoard course hws tasks deadlines scores =
      let whole =
        board_groups-sum (tasks_by_hw tasks) (deadlines_by_hw deadlines) (score_map scores) hws
          (no_totals) in
      record {
        groups = ap (λ r. r.0) whole ∙ ap (λ f. map f hws) (fun_ext same);
        max =
            ap (λ r. r.1.total_max) whole
            ∙ zero_+ℤ _
            ∙ ap (sum_of_all max_of) (sym (ap (λ r. r.0) whole));
        solved =
            ap (λ r. r.1.total_solved) whole
            ∙ zero_+ℤ _
            ∙ ap (sum_of_all earned_of) (sym (ap (λ r. r.0) whole));
        percent = refl;
      }
    where
      same :
          (hw : Homework)
          → groups_of (tasks_by_hw tasks) (deadlines_by_hw deadlines) (score_map scores) hw
            ≡ shown_group tasks deadlines scores hw
      same hw =
          ap (λ l. group hw l (map (task (score_map scores)) (tasks_by_hw tasks hw.hw_id)))
            (group_rows-filter (λ dl. dl.homework_id) (λ dl. not (is_nil dl.homework_id)) deadlines
              (λ id. []) hw.hw_id)
          ∙ ap
              (λ l.
                group hw
                  (filter (λ dl. not (is_nil dl.homework_id) && dl.homework_id == hw.hw_id)
                    deadlines)
                  (map (task (score_map scores)) l))
              (group_rows-filter (λ t. t.hw_id) (λ t. true) tasks (λ id. []) hw.hw_id)

  module _ {D : Type 0} (queries : BoardQueries D) (parse_uuid : String → Option Uuid) where
    -- Where the rows of a board come from.
    abbrev pub RowsOf :
        Uuid → D → Course → List Homework → List Task → List Deadline → List ScoreRow → Type 0
    RowsOf user_id d course hws tasks deadlines scores =
        (queries.homeworks_by_position course.id d ≡ ok hws)
        × ((hws ≡ [])
            ⊎ (queries.public_tasks (hw_ids hws) d ≡ ok tasks)
              × (queries.deadlines_of (hw_ids hws) d ≡ ok deadlines)
              × (queries.scores_of user_id course.id d ≡ ok scores))

    abbrev pub Shown : String → Uuid → D → TaskBoardSummary BoardGroup → Type 0
    Shown text user_id d summary =
        (course : Course) × (hws : List Homework) × (tasks : List Task) × (deadlines : List
          Deadline)
        × (scores : List ScoreRow) × (find_course queries parse_uuid text d ≡ ok (some course))
        × RowsOf user_id d course hws tasks deadlines scores
        × IsBoard hws tasks deadlines scores summary

    -- A board that GetCourseBoard returns has one group for each public homework of the course that the
    -- text names, in the order of the query, with just the deadlines and the tasks of that homework, and
    -- with each task the user's score; its totals are the sums over the tasks that it shows.
    pub get_course_board-Shown :
        (text : String) (user_id : Uuid) (d : D) (summary : TaskBoardSummary BoardGroup)
        → get_course_board queries parse_uuid show_uuid format now text user_id d
          ≡ ok (some summary)
        → Shown text user_id d summary
    unfolding get_course_board
    get_course_board-Shown text user_id d summary h =
        let (found, f, h1) = bind-eq-ok (find_course queries parse_uuid text d) _ h in
        of_course found f h1
      where
        of_homeworks :
            (course : Course)
            → find_course queries parse_uuid text d ≡ ok (some course)
            → (hws : List Homework) → queries.homeworks_by_position course.id d ≡ ok hws
            → board_of_homeworks queries parse_uuid show_uuid format now user_id d course hws
              ≡ ok (some summary)
            → Shown text user_id d summary
        of_homeworks course f [] g h = (
          course,
          [],
          [],
          [],
          [],
          f,
          (g, inl refl),
          subst (IsBoard [] [] [] []) (same h)
              (record { groups = refl; max = refl; solved = refl; percent = refl }),
        )
          where
            same : {a b : TaskBoardSummary BoardGroup} → ok (some a) ≡ ok (some b) → a ≡ b
            same e = cc
        of_homeworks course f (hw ∷ hws) g h =
            let (tasks, t, h1) = bind-eq-ok (queries.public_tasks (hw_ids (hw ∷ hws)) d) _ h in
            let (deadlines, l, h2) = bind-eq-ok (queries.deadlines_of (hw_ids (hw ∷ hws)) d) _ h1 in
            let (scores, s, h3) = bind-eq-ok (queries.scores_of user_id course.id d) _ h2 in
            (
              course,
              hw ∷ hws,
              tasks,
              deadlines,
              scores,
              f,
              (g, inr (t, l, s)),
              subst (IsBoard (hw ∷ hws) tasks deadlines scores) (same h3)
                  (board_of_rows-IsBoard course (hw ∷ hws) tasks deadlines scores),
            )
          where
            same : {a b : TaskBoardSummary BoardGroup} → ok (some a) ≡ ok (some b) → a ≡ b
            same e = cc

        of_course :
            (found : Option Course)
            → find_course queries parse_uuid text d ≡ ok found
            → board_of_course queries parse_uuid show_uuid format now user_id d found
              ≡ ok (some summary)
            → Shown text user_id d summary
        of_course none f h = cc
        of_course (some course) f h =
            let (hws, g, h1) = bind-eq-ok (queries.homeworks_by_position course.id d) _ h in
            of_homeworks course f hws g h1
