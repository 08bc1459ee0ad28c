-- ===== src/Repo/Leaderboard/Totals.antt =====
-- The totals that GetLeaderboard accumulates are the sums of the scores.
use fcstask_backend.Model.{Uuid, is_nil}
use fcstask_backend.Prelude.{
  All, Bool, Bool-cases, List, [], ap, arith, false, if◌then◌else◌, inl, inr, map, refl, sym, true,
  ◌++◌, ◌==◌, ◌∙◌, ◌∷◌, ◌≡◌,
}
use fcstask_backend.Prelude.Int.{int_laws, pos, ℤ, ◌+ℤ◌}
use fcstask_backend.Repo.Leaderboard.{
  HomeworkScore, TaskScore, TaskScoreRow, UserScores, add_row, add_score, add_to_homeworks, collect,
  new_homework, new_user, task_score, with_task,
}

abbrev pub sum : List ℤ → ℤ
sum [] = pos 0
sum (x ∷ xs) = x +ℤ sum xs

-- A homework's total is the sum of its tasks' scores, a user's the sum of his homeworks' totals.
abbrev pub HomeworkAddsUp : HomeworkScore → Type 0
HomeworkAddsUp hw = hw.total_score ≡ sum (map (λ t. t.score) hw.tasks)

abbrev pub AddsUp : List HomeworkScore → ℤ → Type 0
AddsUp hws total = All HomeworkAddsUp hws × (total ≡ sum (map (λ hw. hw.total_score) hws))

+ℤ_comm : (a b : ℤ) → a +ℤ b ≡ b +ℤ a
+ℤ_comm a b = grind int_laws

+ℤ_assoc : (a b c : ℤ) → a +ℤ b +ℤ c ≡ a +ℤ (b +ℤ c)
+ℤ_assoc a b c = grind int_laws

+ℤ_zero : (a : ℤ) → a +ℤ pos 0 ≡ a
+ℤ_zero a = grind int_laws

sum-append :
    (xs : List TaskScore) (t : TaskScore)
    → sum (map (λ t. t.score) (xs ++ t ∷ [])) ≡ sum (map (λ t. t.score) xs) +ℤ t.score
sum-append [] t = +ℤ_comm t.score (pos 0)
sum-append (x ∷ xs) t =
    ap (λ z. x.score +ℤ z) (sum-append xs t)
    ∙ sym (+ℤ_assoc x.score (sum (map (λ t. t.score) xs)) t.score)

with_task-AddsUp :
    (row : TaskScoreRow) (hw : HomeworkScore)
    → HomeworkAddsUp hw
    → HomeworkAddsUp (with_task row hw)
with_task-AddsUp row hw h = ap (λ z. z +ℤ row.score) h ∙ sym (sum-append hw.tasks (task_score row))

add_to_homeworks-All :
    (row : TaskScoreRow) (hws : List HomeworkScore)
    → All HomeworkAddsUp hws
    → All HomeworkAddsUp (add_to_homeworks row hws)
unfolding add_to_homeworks
add_to_homeworks-All row [] h = (with_task-AddsUp row (new_homework row) refl, tt)
add_to_homeworks-All row (hw ∷ hws) h = elim (Bool-cases (hw.homework_id == row.homework_id)) [
  | inl e ↦ rw e (with_task-AddsUp row hw h.0, h.1)
  | inr e ↦ rw e (h.0, add_to_homeworks-All row hws h.1)
]

add_to_homeworks-sum :
    (row : TaskScoreRow) (hws : List HomeworkScore)
    → sum (map (λ hw. hw.total_score) (add_to_homeworks row hws))
      ≡ sum (map (λ hw. hw.total_score) hws) +ℤ row.score
unfolding add_to_homeworks
add_to_homeworks-sum row [] = +ℤ_zero (pos 0 +ℤ row.score)
add_to_homeworks-sum row (hw ∷ hws) = elim (Bool-cases (hw.homework_id == row.homework_id)) [
  | inl e ↦ rw e (moved hw.total_score row.score (sum (map (λ hw. hw.total_score) hws)))
  | inr e ↦ rw e (
      ap (λ z. hw.total_score +ℤ z) (add_to_homeworks-sum row hws)
      ∙ sym (+ℤ_assoc hw.total_score (sum (map (λ hw. hw.total_score) hws)) row.score))
]
  where
    moved : (a b c : ℤ) → a +ℤ b +ℤ c ≡ a +ℤ c +ℤ b
    moved a b c = grind int_laws

abbrev pub UserAddsUp : UserScores → Type 0
UserAddsUp us = AddsUp us.homeworks us.total_score

add_score-AddsUp :
    (row : TaskScoreRow) (us : UserScores) → UserAddsUp us → UserAddsUp (add_score row us)
unfolding add_score
add_score-AddsUp row us h = elim (Bool-cases (is_nil row.task_id)) [
  | inl e ↦ rw e h
  | inr e ↦ rw e (
    add_to_homeworks-All row us.homeworks h.0,
    ap (λ z. z +ℤ row.score) h.1 ∙ sym (add_to_homeworks-sum row us.homeworks),
  )
]

abbrev pub AllAddUp : List (Uuid × UserScores) → Type 0
AllAddUp users = All (λ u. UserAddsUp u.1) users

add_row-AllAddUp :
    (row : TaskScoreRow) (users : List (Uuid × UserScores))
    → AllAddUp users
    → AllAddUp (add_row row users)
unfolding add_row
add_row-AllAddUp row [] h = (add_score-AddsUp row (new_user row) (tt, refl), tt)
add_row-AllAddUp row (u ∷ us) h = elim (Bool-cases (u.0 == row.user_id)) [
  | inl e ↦ rw e (add_score-AddsUp row u.1 h.0, h.1)
  | inr e ↦ rw e (h.0, add_row-AllAddUp row us h.1)
]

pub collect-AllAddUp :
    (rows : List TaskScoreRow) (users : List (Uuid × UserScores))
    → AllAddUp users
    → AllAddUp (collect rows users)
unfolding collect
collect-AllAddUp [] users h = h
collect-AllAddUp (row ∷ rows) users h =
    collect-AllAddUp rows (add_row row users) (add_row-AllAddUp row users h)

-- The sum of a user's scores among the rows, those without a task left out.
abbrev pub counted_score : TaskScoreRow → ℤ
counted_score row = if is_nil row.task_id then pos 0 else row.score

unfoldable pub earned : Uuid → List TaskScoreRow → ℤ
earned u [] = pos 0
earned u (row ∷ rows) =
    if row.user_id == u then counted_score row +ℤ earned u rows else earned u rows

-- What the map holds for a user: nothing is a total of 0.
unfoldable pub total_of : Uuid → List (Uuid × UserScores) → ℤ
total_of u [] = pos 0
total_of u (x ∷ xs) = if x.0 == u then x.1.total_score else total_of u xs

add_score-total :
    (row : TaskScoreRow) (us : UserScores)
    → (add_score row us).total_score ≡ us.total_score +ℤ counted_score row
unfolding add_score
add_score-total row us = elim (Bool-cases (is_nil row.task_id)) [
  | inl e ↦ rw e (sym (+ℤ_zero us.total_score))
  | inr e ↦ rw e refl
]

abbrev pub share : Uuid → TaskScoreRow → ℤ
share u row = if row.user_id == u then counted_score row else pos 0

zero_added : (a : ℤ) → a ≡ a +ℤ pos 0
zero_added a = sym (+ℤ_zero a)

same_user : (a b c : Uuid) → (a == b) ≡ true → (a == c) ≡ (b == c)
same_user a b c h = ground arith

head_total :
    (row : TaskScoreRow) (u : Uuid) (x : UserScores) (b : Bool) (rest : ℤ)
    → (row.user_id == u) ≡ b
    → (if b then (add_score row x).total_score else rest)
      ≡ (if b then x.total_score else rest) +ℤ share u row
head_total row u x true rest e = rw e (add_score-total row x)
head_total row u x false rest e = rw e (zero_added rest)

add_row-total :
    (row : TaskScoreRow) (u : Uuid) (users : List (Uuid × UserScores))
    → total_of u (add_row row users) ≡ total_of u users +ℤ share u row
unfolding add_row total_of
add_row-total row u [] = elim (Bool-cases (row.user_id == u)) [
  | inl e ↦ rw e (add_score-total row (new_user row))
  | inr e ↦ rw e (zero_added (pos 0))
]
add_row-total row u (x ∷ xs) = elim (Bool-cases (x.0 == row.user_id)) [
  | inl e ↦
      rw e (head_total row u x.1 (x.0 == u) (total_of u xs) (sym (same_user x.0 row.user_id u e)))
  | inr e ↦ rw e (skipped e (add_row-total row u xs) (x.0 == u) refl)
]
  where
    apart : (a b c : Uuid) → (a == b) ≡ false → (a == c) ≡ true → (b == c) ≡ false
    apart a b c f h = ground arith

    not_shared : (row.user_id == u) ≡ false → share u row ≡ pos 0
    not_shared f = rw f refl

    kept : (total : ℤ) → share u row ≡ pos 0 → total ≡ total +ℤ share u row
    kept total f = rw f (zero_added total)

    skipped :
        (x.0 == row.user_id) ≡ false
        → total_of u (add_row row xs) ≡ total_of u xs +ℤ share u row
        → (b : Bool) → (x.0 == u) ≡ b
        → (if b then x.1.total_score else total_of u (add_row row xs))
          ≡ (if b then x.1.total_score else total_of u xs) +ℤ share u row
    skipped e r true e' = kept x.1.total_score (not_shared (apart x.0 row.user_id u e e'))
    skipped e r false e' = r

-- For any user, GetLeaderboard accumulates the sum of his scores among the rows, those of rows
-- without a task left out, whatever the order of the rows.
pub collect-total :
    (u : Uuid) (rows : List TaskScoreRow) (users : List (Uuid × UserScores))
    → total_of u (collect rows users) ≡ total_of u users +ℤ earned u rows
unfolding collect earned
collect-total u [] users = zero_added (total_of u users)
collect-total u (row ∷ rows) users =
    collect-total u rows (add_row row users)
    ∙ ap (λ z. z +ℤ earned u rows) (add_row-total row u users)
    ∙ +ℤ_assoc (total_of u users) (share u row) (earned u rows)
    ∙ ap (λ z. total_of u users +ℤ z) (earns row (row.user_id == u) (earned u rows))
  where
    earns :
        (row : TaskScoreRow) (b : Bool) (rest : ℤ)
        → (if b then counted_score row else pos 0) +ℤ rest
          ≡ (if b then counted_score row +ℤ rest else rest)
    earns row true rest = refl
    earns row false rest = +ℤ_comm (pos 0) rest ∙ +ℤ_zero rest
