-- ===== src/Backup/Sql/Statements.antt =====
-- Lists of columns and the clause of an upsert, and a reader of them.
use mathlib.Core.List.{append-nil, append_assoc}
use fcstask_backend.Backup.Bytes.{
  Bytes, codes, cut_prefix, cut_prefix-append, eq_bytes, eq_bytes_self, join,
}
use fcstask_backend.Backup.Sql.{
  assignment, build_upsert, double_quote, has_column, join_idents, on_conflict, quote_ident,
}
use fcstask_backend.Backup.Sql.Quoting.{NoQuote, read_ident, read_ident-quote_ident}
use fcstask_backend.Prelude.{
  Bool, List, Option, [], ap, arith, filter, if◌then◌else◌, length, map, none, not, refl, some, suc,
  sym, zero, ℕ, ◌++◌, ◌<◌, ◌∙◌, ◌∷◌, ◌≡◌, ◌≤◌,
}

abbrev pub Reader : Type 0 → Type 0
Reader A = Bytes → Option (A × Bytes)

abbrev cons_item : {A : Type 0} → A → Option (List A × Bytes) → Option (List A × Bytes)
cons_item x none = none
cons_item x (some (xs, rest)) = some (x ∷ xs, rest)

-- Behind an item: a comma and more of them, or the end of the list.
abbrev separated :
    {A : Type 0} → Reader (List A) → A → Bytes → Option Bytes → Option (List A × Bytes)
separated more x rest none = some (x ∷ [], rest)
separated more x rest (some rest') = cons_item x (more rest')

abbrev after_item : {A : Type 0} → Reader (List A) → Option (A × Bytes) → Option (List A × Bytes)
after_item more none = none
after_item more (some (x, rest)) = separated more x rest (cut_prefix (codes ", ") rest)

-- A list of one to `n` items.
unfoldable pub read_items : {A : Type 0} → (n : ℕ) → Reader A → Reader (List A)
read_items zero read s = none
read_items (suc n) read s = after_item (read_items n read) (read s)

-- Neither a quote nor a comma goes on where a list has ended.
abbrev pub EndsList : Bytes → Type 0
EndsList rest = NoQuote double_quote rest × (cut_prefix (codes ", ") rest ≡ none)

abbrev pub Prints : {A : Type 0} → (A → Bytes) → Reader A → Type 0
Prints print read =
    (x : _) (rest : Bytes) → NoQuote double_quote rest → read (print x ++ rest) ≡ some (x, rest)

read_items-join :
    {A : Type 0} (print : A → Bytes) (read : Reader A)
    → Prints print read
    → (x : A) (xs : List A) (n : ℕ) (rest : Bytes) → length xs < n
    → EndsList rest
    → read_items n read (join (codes ", ") (map print (x ∷ xs)) ++ rest) ≡ some (x ∷ xs, rest)
unfolding read_items join
read_items-join print read prints x xs zero rest lt ends = absurd (omega (arith, lt))
read_items-join print read prints x [] (suc n) rest lt ends =
    ap (after_item (read_items n read)) (prints x rest ends.0)
    ∙ ap (separated (read_items n read) x rest) ends.1
read_items-join print read prints x (y ∷ ys) (suc n) rest lt ends =
    let tail = join (codes ", ") (map print (y ∷ ys)) in
    ap (λ s. after_item (read_items n read) (read s))
      (append_assoc (print x) (codes ", " ++ tail) rest
        ∙ ap (λ s. print x ++ s) (append_assoc (codes ", ") tail rest))
    ∙ ap (after_item (read_items n read)) (prints x (codes ", " ++ (tail ++ rest)) refl)
    ∙ ap (separated (read_items n read) x (codes ", " ++ (tail ++ rest)))
        (cut_prefix-append (codes ", ") (tail ++ rest))
    ∙ ap (cons_item x) (read_items-join print read prints y ys n rest (omega (arith, lt)) ends)

-- A list of quoted columns is read back as the columns, whatever bytes are in their names.
pub read_items-join_idents :
    (c : Bytes) (cols : List Bytes) (n : ℕ) (rest : Bytes)
    → length cols < n
    → EndsList rest
    → read_items n read_ident (join_idents (c ∷ cols) ++ rest) ≡ some (c ∷ cols, rest)
unfolding join_idents
read_items-join_idents c cols n rest lt ends =
    read_items-join quote_ident read_ident read_ident-quote_ident c cols n rest lt ends

-- `"c" = EXCLUDED."c"`
abbrev same_column : Bytes → Option (Bytes × Bytes) → Option (Bytes × Bytes)
same_column c none = none
same_column c (some (d, rest)) = if eq_bytes c d then some (c, rest) else none

abbrev excluded : Bytes → Option Bytes → Option (Bytes × Bytes)
excluded c none = none
excluded c (some rest) = same_column c (read_ident rest)

abbrev after_column : Option (Bytes × Bytes) → Option (Bytes × Bytes)
after_column none = none
after_column (some (c, rest)) = excluded c (cut_prefix (codes " = EXCLUDED.") rest)

unfoldable pub read_assignment : Reader Bytes
read_assignment s = after_column (read_ident s)

read_assignment-assignment : Prints assignment read_assignment
unfolding read_assignment
read_assignment-assignment c rest ends =
    let value = quote_ident c ++ rest in
    ap (λ s. after_column (read_ident s))
      (append_assoc (quote_ident c) (codes " = EXCLUDED." ++ quote_ident c) rest
        ∙ ap (λ s. quote_ident c ++ s) (append_assoc (codes " = EXCLUDED.") (quote_ident c) rest))
    ∙ ap after_column (read_ident-quote_ident c (codes " = EXCLUDED." ++ value) refl)
    ∙ ap (excluded c) (cut_prefix-append (codes " = EXCLUDED.") value)
    ∙ ap (same_column c) (read_ident-quote_ident c rest ends)
    ∙ ap (λ b. if b then some (c, rest) else none) (eq_bytes_self c)

-- The key of the conflict, and the columns that are set.
abbrev updates : List Bytes → Option (List Bytes × Bytes) → Option (List Bytes × List Bytes)
updates pk none = none
updates pk (some (cols, rest)) = some (pk, cols)

abbrev sets_of : (n : ℕ) → List Bytes → Option Bytes → Option (List Bytes × List Bytes)
sets_of n pk none = none
sets_of n pk (some s) = updates pk (read_items n read_assignment s)

abbrev action_of : (n : ℕ) → List Bytes → Bytes → Option Bytes → Option (List Bytes × List Bytes)
action_of n pk s (some rest) = some (pk, [])
action_of n pk s none = sets_of n pk (cut_prefix (codes ") DO UPDATE SET ") s)

abbrev key_of : (n : ℕ) → Option (List Bytes × Bytes) → Option (List Bytes × List Bytes)
key_of n none = none
key_of n (some (pk, s)) = action_of n pk s (cut_prefix (codes ") DO NOTHING") s)

abbrev conflict_of : (n : ℕ) → Option Bytes → Option (List Bytes × List Bytes)
conflict_of n none = none
conflict_of n (some s) = key_of n (read_items n read_ident s)

unfoldable pub read_upsert : (n : ℕ) → Bytes → Option (List Bytes × List Bytes)
read_upsert n s = conflict_of n (cut_prefix (codes "ON CONFLICT (") s)

read_upsert-on_conflict :
    (n : ℕ) (p : Bytes) (ps sets : List Bytes)
    → length ps < n
    → length sets ≤ n
    → read_upsert n (on_conflict (p ∷ ps) (map assignment sets)) ≡ some (p ∷ ps, sets)
unfolding read_upsert
read_upsert-on_conflict n p ps [] lt le =
    ap (conflict_of n)
      (cut_prefix-append (codes "ON CONFLICT (") (join_idents (p ∷ ps) ++ codes ") DO NOTHING"))
    ∙ ap (key_of n) (read_items-join_idents p ps n (codes ") DO NOTHING") lt (refl, refl))
read_upsert-on_conflict n p ps (s ∷ ss) lt le =
    let sets = join (codes ", ") (map assignment (s ∷ ss)) in
    ap (conflict_of n) (
      cut_prefix-append (codes "ON CONFLICT (")
        (join_idents (p ∷ ps) ++ (codes ") DO UPDATE SET " ++ sets)))
    ∙ ap (key_of n)
        (read_items-join_idents p ps n (codes ") DO UPDATE SET " ++ sets) lt (refl, refl))
    ∙ ap (sets_of n (p ∷ ps)) (cut_prefix-append (codes ") DO UPDATE SET ") sets)
    ∙ ap (λ t. updates (p ∷ ps) (read_items n read_assignment t)) (sym (append-nil sets))
    ∙ ap (updates (p ∷ ps)) (
        read_items-join assignment read_assignment read_assignment-assignment s ss n []
          (omega (arith, le)) (tt, refl))

length-filter : (keep : Bytes → Bool) (xs : List Bytes) → length (filter keep xs) ≤ length xs
length-filter keep [] = omega arith
length-filter keep (x ∷ xs) = ground (arith, length-filter keep xs)

-- The clause of an upsert is read back as the key and as the assignments of exactly the columns that
-- are not in the key, in their order, whatever bytes are in the names.
pub read_upsert-build_upsert :
    (n : ℕ) (p : Bytes) (ps cols : List Bytes)
    → length ps < n
    → length cols ≤ n
    → read_upsert n (build_upsert (p ∷ ps) cols)
      ≡ some (p ∷ ps, filter (λ c. not (has_column (p ∷ ps) c)) cols)
unfolding build_upsert
read_upsert-build_upsert n p ps cols lt le =
    let kept = filter (λ c. not (has_column (p ∷ ps) c)) cols in
    read_upsert-on_conflict n p ps kept lt
      (omega (arith, le, length-filter (λ c. not (has_column (p ∷ ps) c)) cols))
