-- ===== src/Backup/Checksums/Lines.antt =====
-- The lines of SHA256SUMS, written and read.
use fcstask_backend.Backup.Bytes.{Bytes, all_bytes, codes, join}
use fcstask_backend.Backup.Checksums.{
  all_of, cut_line, ended, insert_line, newline, sort_lines, space, split_lines, trim_newlines,
  before_or_same,
}
use fcstask_backend.Prelude.{
  All, Bool, Bool-cases, List, [], and_true, ap, arith, false, if◌then◌else◌, inl, inr, is_empty,
  not, refl, some, true, ℕ, ◌&&◌, ◌++◌, ◌==◌, ◌∙◌, ◌∷◌, ◌≡◌,
}

insert_line-all_of :
    (test : Bytes → Bool) (l : Bytes) (xs : List Bytes)
    → all_of test (insert_line l xs) ≡ (test l && all_of test xs)
unfolding insert_line
insert_line-all_of test l [] = refl
insert_line-all_of test l (x ∷ xs) = ground (arith, insert_line-all_of test l xs)

pub sort_lines-all_of :
    (test : Bytes → Bool) (xs : List Bytes) → all_of test (sort_lines xs) ≡ all_of test xs
unfolding sort_lines
sort_lines-all_of test [] = refl
sort_lines-all_of test (x ∷ xs) =
    insert_line-all_of test x (sort_lines xs) ∙ ap (λ b. test x && b) (sort_lines-all_of test xs)

-- A line has bytes, and no newline among them.
abbrev pub IsLine : Bytes → Type 0
IsLine l = (is_empty l ≡ false) × (all_bytes (λ c. not (c == newline)) l ≡ true)

insert_line-AllLines :
    (l : Bytes) (xs : List Bytes) → IsLine l → All IsLine xs → All IsLine (insert_line l xs)
unfolding insert_line
insert_line-AllLines l [] h k = (h, tt)
insert_line-AllLines l (x ∷ xs) h k = elim (Bool-cases (before_or_same l x)) [
  | inl e ↦ rw e (h, k)
  | inr e ↦ rw e (k.0, insert_line-AllLines l xs h k.1)
]

pub sort_lines-AllLines : (xs : List Bytes) → All IsLine xs → All IsLine (sort_lines xs)
unfolding sort_lines
sort_lines-AllLines [] k = tt
sort_lines-AllLines (x ∷ xs) k =
    insert_line-AllLines x (sort_lines xs) k.0 (sort_lines-AllLines xs k.1)

pub cut_line-line :
    (sum name : Bytes)
    → all_bytes (λ c. not (c == space)) sum ≡ true
    → cut_line (sum ++ (space ∷ space ∷ name)) ≡ some (sum, name)
unfolding cut_line
cut_line-line [] name h = refl
cut_line-line (c ∷ []) name h =
    let (a, b) = and_true (not (c == space)) true h in rw (apart c a) refl
  where
    apart : (c : ℕ) → not (c == space) ≡ true → (c == space) ≡ false
    apart c a = ground arith
cut_line-line (c ∷ d ∷ s) name h =
    let (a, b) = and_true (not (c == space)) (all_bytes (λ c. not (c == space)) (d ∷ s)) h in
    rw (apart c a, cut_line-line (d ∷ s) name b) refl
  where
    apart : (c : ℕ) → not (c == space) ≡ true → (c == space) ≡ false
    apart c a = ground arith

trim_newlines-plain :
    (s : Bytes) → all_bytes (λ c. not (c == newline)) s ≡ true → trim_newlines s ≡ s
unfolding trim_newlines
trim_newlines-plain [] h = refl
trim_newlines-plain (c ∷ s) h =
    let (a, b) = and_true (not (c == newline)) (all_bytes (λ c. not (c == newline)) s) h in
    rw (trim_newlines-plain s b) (kept (is_empty s) (c == newline) a)
  where
    kept : (e b : Bool) → not b ≡ true → (if e && b then [] else c ∷ s) ≡ c ∷ s
    kept e b a = ground arith

trim_newlines-append :
    (s t : Bytes) → is_empty t ≡ false → trim_newlines t ≡ t → trim_newlines (s ++ t) ≡ s ++ t
unfolding trim_newlines
trim_newlines-append [] t full same = same
trim_newlines-append (c ∷ s) t full same = rw (trim_newlines-append s t full same, not_empty s) refl
  where
    not_empty : (s : Bytes) → is_empty (s ++ t) ≡ false
    not_empty [] = full
    not_empty (c ∷ s) = refl

trim_newlines-newline : (s : Bytes) → trim_newlines (s ++ (newline ∷ [])) ≡ trim_newlines s
unfolding trim_newlines
trim_newlines-newline [] = refl
trim_newlines-newline (c ∷ s) = rw (trim_newlines-newline s) refl

join-full : (l : Bytes) (ls : List Bytes) → IsLine l → is_empty (join (codes "\n") (l ∷ ls)) ≡ false
unfolding join
join-full [] ls h = cc (h.0)
join-full (c ∷ s) [] h = refl
join-full (c ∷ s) (l ∷ ls) h = refl

trim_newlines-join :
    (ls : List Bytes) → All IsLine ls → trim_newlines (join (codes "\n") ls) ≡ join (codes "\n") ls
unfolding join trim_newlines
trim_newlines-join [] h = refl
trim_newlines-join (l ∷ []) h = trim_newlines-plain l h.0.1
trim_newlines-join (l ∷ m ∷ ms) h =
    trim_newlines-append l (newline ∷ join (codes "\n") (m ∷ ms)) refl (
      trim_newlines-append (newline ∷ []) (join (codes "\n") (m ∷ ms)) (join-full m ms h.1.0)
        (trim_newlines-join (m ∷ ms) h.1))

split_lines-plain :
    (l : Bytes) → all_bytes (λ c. not (c == newline)) l ≡ true → split_lines l ≡ l ∷ []
unfolding split_lines
split_lines-plain [] h = refl
split_lines-plain (c ∷ s) h =
    let (a, b) = and_true (not (c == newline)) (all_bytes (λ c. not (c == newline)) s) h in
    rw (apart (c == newline) a, split_lines-plain s b) refl
  where
    apart : (b : Bool) → not b ≡ true → b ≡ false
    apart b a = ground arith

split_lines-line :
    (l t : Bytes)
    → all_bytes (λ c. not (c == newline)) l ≡ true
    → split_lines (l ++ (newline ∷ t)) ≡ l ∷ split_lines t
unfolding split_lines
split_lines-line [] t h = refl
split_lines-line (c ∷ s) t h =
    let (a, b) = and_true (not (c == newline)) (all_bytes (λ c. not (c == newline)) s) h in
    rw (apart (c == newline) a, split_lines-line s t b) refl
  where
    apart : (b : Bool) → not b ≡ true → b ≡ false
    apart b a = ground arith

split_lines-join :
    (l : Bytes) (ls : List Bytes)
    → All IsLine (l ∷ ls)
    → split_lines (join (codes "\n") (l ∷ ls)) ≡ l ∷ ls
unfolding join
split_lines-join l [] h = split_lines-plain l h.0.1
split_lines-join l (m ∷ ms) h =
    split_lines-line l (join (codes "\n") (m ∷ ms)) h.0.1
    ∙ ap (λ xs. l ∷ xs) (split_lines-join m ms h.1)

trim_newlines-ended : (s : Bytes) → trim_newlines (ended s) ≡ trim_newlines s
trim_newlines-ended [] = refl
trim_newlines-ended (c ∷ s) = trim_newlines-newline (c ∷ s)

-- A test that an empty line passes is passed by the lines of the file as by those that were written.
pub ended-all_of :
    (test : Bytes → Bool) (ls : List Bytes)
    → test [] ≡ true
    → All IsLine ls
    → all_of test (split_lines (trim_newlines (ended (join (codes "\n") ls)))) ≡ all_of test ls
unfolding join trim_newlines split_lines
ended-all_of test [] e h = rw e refl
ended-all_of test (l ∷ ls) e h =
    ap (λ s. all_of test (split_lines s))
      (trim_newlines-ended (join (codes "\n") (l ∷ ls)) ∙ trim_newlines-join (l ∷ ls) h)
    ∙ ap (all_of test) (split_lines-join l ls h)
