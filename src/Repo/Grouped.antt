-- ===== src/Repo/Grouped.antt =====
-- internal/db/repo/course.go: maps of rows that the loops `m[k] = append(m[k], row)` and `m[k] = v` build.
-- A map is a function, which gives Go's zero value for a missing key.
use mathlib.Core.List.{append-nil, append_assoc}
use fcstask_backend.Model.{Uuid}
use fcstask_backend.Prelude.{
  Bool, List, [], false, filter, if◌then◌else◌, refl, sym, true, ◌&&◌, ◌++◌, ◌==◌, ◌∙◌, ◌∷◌, ◌≡◌,
}

module _ {A : Type 0} where
  abbrev pub append_at : Uuid → A → (Uuid → List A) → Uuid → List A
  append_at k a groups j = if k == j then groups j ++ (a ∷ []) else groups j

  -- The rows under their keys, those that the test refuses left out.
  unfoldable pub group_rows :
      (key : A → Uuid) → (counts : A → Bool) → List A → (Uuid → List A) → Uuid → List A
  group_rows key counts [] groups = groups
  group_rows key counts (row ∷ rows) groups =
      group_rows key counts rows (if counts row then append_at (key row) row groups else groups)

  -- A key has the rows that have it, in their order.
  pub group_rows-filter :
      (key : A → Uuid) (counts : A → Bool) (rows : List A) (groups : Uuid → List A) (k : Uuid)
      → group_rows key counts rows groups k
        ≡ groups k ++ filter (λ row. counts row && key row == k) rows
  unfolding group_rows
  group_rows-filter key counts [] groups k = sym (append-nil (groups k))
  group_rows-filter key counts (row ∷ rows) groups k =
      group_rows-filter key counts rows
        (if counts row then append_at (key row) row groups else groups) k
      ∙ moved (counts row) (key row == k) refl (filter (λ r. counts r && key r == k) rows)
    where
      moved :
          (b c : Bool)
          → (key row == k) ≡ c
          → (rest : List A)
          → (if b then append_at (key row) row groups else groups) k ++ rest
            ≡ groups k ++ (if b && c then row ∷ rest else rest)
      moved false c e rest = refl
      moved true true e rest = rw e (append_assoc (groups k) (row ∷ []) rest)
      moved true false e rest = rw e refl

-- `for _, s := range rows { m[key(s)] = value(s) }`
module _ {A B : Type 0} where
  unfoldable pub index_rows : (key : A → Uuid) → (value : A → B) → List A → (Uuid → B) → Uuid → B
  index_rows key value [] m = m
  index_rows key value (row ∷ rows) m =
      index_rows key value rows (λ j. if key row == j then value row else m j)
