-- ===== src/Backup/Checksums/Verified.antt =====
-- `VerifyChecksums` on what `WriteChecksums` wrote.
use fcstask_backend.Backup.Bytes.{Bytes, all_bytes, eq_bytes}
use fcstask_backend.Backup.Checksums.{
  all_of, cut_line, cut_matches, integrity_failed, is_special, line_matches, line_of, newline,
  sort_lines, space, split_lines, trim_newlines, sum_line, sum_lines, verify_checksums,
  write_checksums,
}
use fcstask_backend.Backup.Checksums.Lines.{
  IsLine, cut_line-line, ended-all_of, sort_lines-AllLines, sort_lines-all_of,
}
use fcstask_backend.Backup.Split.{Files}
use fcstask_backend.Errors.Action.{Result, bind, err, ok}
use fcstask_backend.Errors.Ensures.{bind-eq-ok}
use fcstask_backend.Prelude.{
  All, Bool, List, Option, [], and_true, ap, false, if◌then◌else◌, is_empty, none, not, refl, some,
  subst, sym, true, ℕ, ◌&&◌, ◌++◌, ◌==◌, ◌||◌, ◌∙◌, ◌∷◌, ◌≡◌,
}

-- No byte of a text is `c`.
abbrev pub HasNo : ℕ → Bytes → Type 0
HasNo c s = all_bytes (λ b. not (b == c)) s ≡ true

HasNo-append : (c : ℕ) (s t : Bytes) → HasNo c s → HasNo c t → HasNo c (s ++ t)
HasNo-append c [] t h k = k
HasNo-append c (x ∷ s) t h k =
    let (a, b) = and_true (not (x == c)) (all_bytes (λ b. not (b == c)) s) h in
    rw a (HasNo-append c s t b k)

module _ (sha256 : Bytes → Bytes) where
  -- A sum is printed in hexadecimal digits, so that neither byte is in it.
  pub record PrintsSums : Type 0 where
    pub no_space : (content : Bytes) → HasNo space (sha256 content)
    pub no_newline : (content : Bytes) → HasNo newline (sha256 content)

  -- The file has the sum that it had, or is one of those that have no sum.
  abbrev pub same_sum : Option Bytes → Option Bytes → Bool
  same_sum none after = false
  same_sum (some content) none = false
  same_sum (some content) (some content') = eq_bytes (sha256 content') (sha256 content)

  abbrev pub is_unchanged : Files → Files → Bytes → Bool
  is_unchanged files files' name = is_special name || same_sum (files name) (files' name)

  module _ (prints : PrintsSums) (files files' : Files) where
    line_of-IsLine :
        (name content : Bytes) → HasNo newline name → IsLine (line_of sha256 name content)
    line_of-IsLine name content h = (
      full (sha256 content),
      HasNo-append newline (sha256 content) (space ∷ space ∷ name) (prints.no_newline content) h,
    )
      where
        full : (s : Bytes) → is_empty (s ++ (space ∷ space ∷ name)) ≡ false
        full [] = refl
        full (c ∷ s) = refl

    line_matches-line_of :
        (name content : Bytes)
        → line_matches sha256 files' (line_of sha256 name content)
          ≡ same_sum (some content) (files' name)
    unfolding line_matches
    line_matches-line_of name content =
        ap (λ b. b || cut_matches sha256 files' (cut_line (line_of sha256 name content)))
          (full (sha256 content))
        ∙ ap (cut_matches sha256 files')
            (cut_line-line (sha256 content) name (prints.no_space content))
        ∙ matches (files' name)
      where
        full : (s : Bytes) → is_empty (s ++ (space ∷ space ∷ name)) ≡ false
        full [] = refl
        full (c ∷ s) = refl

        matches :
            (o : Option Bytes)
            → cut_matches sha256 (λ _. o) (some (sha256 content, name)) ≡ same_sum (some content) o
        matches none = refl
        matches (some content') = refl

    abbrev Read : List Bytes → List Bytes → Type 0
    Read names ls =
        All IsLine ls
        × (all_of (line_matches sha256 files') ls ≡ all_of (is_unchanged files files') names)

    sum_lines-Read :
        (names ls : List Bytes)
        → All (HasNo newline) names
        → sum_lines sha256 names files ≡ ok ls
        → Read names ls
    unfolding sum_lines
    sum_lines-Read [] ls h e = subst (Read []) (same ls e) (tt, refl)
      where
        same : (ls : List Bytes) → ok [] ≡ ok ls → [] ≡ ls
        same ls e = cc
    sum_lines-Read (name ∷ names) ls h e =
        go (is_special name) (files name) refl refl (λ ls'. sum_lines-Read names ls' h.1) e
      where
        same : {a b : List Bytes} → ok a ≡ ok b → a ≡ b
        same e = cc

        go :
            (b : Bool) (o : Option Bytes)
            → is_special name ≡ b
            → files name ≡ o
            → ((ls' : List Bytes) → sum_lines sha256 names files ≡ ok ls' → Read names ls')
            → (if b
                then sum_lines sha256 names files
                else bind
                    (sum_line sha256 name o)
                    λ l. bind (sum_lines sha256 names files) λ ls'. ok (l ∷ ls'))
              ≡ ok ls
            → Read (name ∷ names) ls
        go true o s f rest e =
            let (lines, all) = rest ls e in
            (
              lines,
              all
                  ∙ ap
                      (λ b.
                        (b || same_sum (files name) (files' name))
                        && all_of (is_unchanged files files') names)
                      (sym s),
            )
        go false none s f rest e = cc
        go false (some content) s f rest e =
            let (ls', g, k) = bind-eq-ok (sum_lines sha256 names files) _ e in
            let (lines, all) = rest ls' g in
            subst (Read (name ∷ names)) (same k) (
              (line_of-IsLine name content h.0, lines),
              ap (λ b. b && all_of (line_matches sha256 files') ls')
                    (line_matches-line_of name content)
                  ∙ ap (λ b. same_sum (some content) (files' name) && b) all
                  ∙ ap (λ o. same_sum o (files' name) && all_of (is_unchanged files files') names)
                      (sym f)
                  ∙ ap
                      (λ b.
                        (b || same_sum (files name) (files' name))
                        && all_of (is_unchanged files files') names)
                      (sym s),
            )

    -- What was written is read, on the files as they are then: the check passes exactly if every file that
    -- had a sum is there with the same sum. No name has a newline, and a sum is in digits.
    pub verify_checksums-decides :
        (names : List Bytes) (sums : Bytes)
        → All (HasNo newline) names
        → write_checksums sha256 names files ≡ ok sums
        → verify_checksums sha256 (some sums) files'
          ≡ (if all_of (is_unchanged files files') names then ok tt else err integrity_failed)
    unfolding verify_checksums write_checksums line_matches
    verify_checksums-decides names sums h written =
        let (ls, e, k) = bind-eq-ok (sum_lines sha256 names files) _ written in
        let (lines, all) = sum_lines-Read names ls h e in
        ap verdict (
          ap (λ s. all_of (line_matches sha256 files') (split_lines (trim_newlines s)))
            (sym (same k))
          ∙ ended-all_of (line_matches sha256 files') (sort_lines ls) empty_line
              (sort_lines-AllLines ls lines)
          ∙ sort_lines-all_of (line_matches sha256 files') ls
          ∙ all)
      where
        verdict : Bool → Result (Unit {0})
        verdict b = if b then ok tt else err integrity_failed

        same : {a b : Bytes} → ok a ≡ ok b → a ≡ b
        same e = cc

        empty_line : line_matches sha256 files' [] ≡ true
        empty_line = refl
