-- ===== src/Backup/Split/Parts.antt =====
-- What `SplitFile` leaves: the pieces of the file under the names of its parts.
use fcstask_backend.Backup.Bytes.{Bytes, eq_bytes, eq_bytes_comm, eq_bytes_self, eq_bytes→eq}
use fcstask_backend.Backup.Split.{
  Files, append_part, drop_bytes, part_name, read_parts, remove_file, set_file, split_rounds,
  take_bytes,
}
use fcstask_backend.Backup.Split.Names.{part_name-ne, path-ne-part_name}
use fcstask_backend.Backup.Split.Pieces.{chunks, flat}
use fcstask_backend.Prelude.{
  All, Bool-cases, List, [], any, ap, arith, false, fun_ext, inl, inr, is_empty, length, ltb,
  ltb→lt, map, none, or_false, refl, some, subst, suc, sym, zero, ℕ, ◌+◌, ◌<◌, ◌^◌, ◌∙◌, ◌∷◌, ◌≡◌,
  ◌≤◌,
}

abbrev pub count_from : ℕ → ℕ → List ℕ
count_from n zero = []
count_from n (suc k) = n ∷ count_from (suc n) k

above : (n i : ℕ) → n ≤ i → ltb n i ≡ false → n ≡ i
above n i le h = ground arith

pub set_file-same : (p c : Bytes) (files : Files) → set_file p c files p ≡ some c
set_file-same p c files = rw (eq_bytes_self p) refl

pub remove_file-other :
    (path p : Bytes) (files : Files) → eq_bytes p path ≡ false → remove_file path files p ≡ files p
remove_file-other path p files h = rw h refl

module _ (path : Bytes) where
  abbrev pub names : ℕ → ℕ → List Bytes
  names n k = map (part_name path) (count_from n k)

  pub set_parts : ℕ → List Bytes → Files → Files
  set_parts n [] files = files
  set_parts n (c ∷ cs) files = set_parts (suc n) cs (set_file (part_name path n) c files)

  -- No part of the file is there, from the number `n` on.
  abbrev pub NoParts : ℕ → Files → Type 0
  NoParts n files = (i : ℕ) → n ≤ i → i < 2 ^ 63 → files (part_name path i) ≡ none

  next-NoParts :
      (n : ℕ) (c : Bytes) (files : Files)
      → n < 2 ^ 63
      → NoParts n files
      → NoParts (suc n) (set_file (part_name path n) c files)
  next-NoParts n c files bound h i le lt =
      rw (part_name-ne path i n lt bound (λ e. absurd (omega (arith, ap (λ (x : ℕ). x) e, le))))
        (h i (omega (arith, le)) lt)

  gone-again :
      (part c : Bytes) (files : Files)
      → files part ≡ none
      → remove_file part (set_file part c files) ≡ files
  gone-again part c files absent = fun_ext λ p. same p
    where
      same : (p : Bytes) → remove_file part (set_file part c files) p ≡ files p
      same p = elim (Bool-cases (eq_bytes p part)) [
        | inl e ↦ rw e (sym (ap files (eq_bytes→eq p part e) ∙ absent))
        | inr e ↦ rw e refl
      ]

  pub split_rounds-set_parts :
      (rounds max n : ℕ) (s : Bytes) (files : Files)
      → n + rounds < 2 ^ 63
      → NoParts n files
      → split_rounds rounds max path n s files
        ≡ (length (chunks rounds max s), set_parts n (chunks rounds max s) files)
  unfolding split_rounds chunks set_parts
  split_rounds-set_parts zero max n s files bound absent = refl
  split_rounds-set_parts (suc rounds) max n s files bound absent =
      elim (Bool-cases (is_empty (take_bytes max s))) [
        | inl e ↦ rw e (
            ap (λ f. (0, f))
              (gone-again (part_name path n) (take_bytes max s) files
                (absent n (omega arith) (omega (arith, bound)))))
        | inr e ↦ elim (Bool-cases (ltb (length (take_bytes max s)) max)) [
          | inl f ↦ rw (e, f) refl
          | inr f ↦
              rw (e, f)
                (ap (λ x. (suc x.0, x.1))
                  (split_rounds-set_parts rounds max (suc n) (drop_bytes max s)
                    (set_file (part_name path n) (take_bytes max s) files) (omega (arith, bound))
                    (next-NoParts n (take_bytes max s) files (omega (arith, bound)) absent)))
        ]
      ]

  later_names :
      (m n k : ℕ) → m < n → n + k ≤ 2 ^ 63 → any (eq_bytes (part_name path m)) (names n k) ≡ false
  later_names m n zero lt bound = refl
  later_names m n (suc k) lt bound =
      rw
        (part_name-ne path m n (omega (arith, lt, bound)) (omega (arith, bound))
          (λ e. absurd (omega (arith, ap (λ (x : ℕ). x) e, lt))))
        (later_names m (suc n) k (omega (arith, lt)) (omega (arith, bound)))

  pub path_apart : (n k : ℕ) → any (eq_bytes path) (names n k) ≡ false
  path_apart n zero = refl
  path_apart n (suc k) = rw (path-ne-part_name path n) (path_apart (suc n) k)

  pub set_parts-other :
      (n : ℕ) (cs : List Bytes) (files : Files) (p : Bytes)
      → any (eq_bytes p) (names n (length cs)) ≡ false
      → set_parts n cs files p ≡ files p
  unfolding set_parts
  set_parts-other n [] files p h = refl
  set_parts-other n (c ∷ cs) files p h =
      let (a, b) =
        or_false (eq_bytes p (part_name path n)) (any (eq_bytes p) (names (suc n) (length cs))) h in
      set_parts-other (suc n) cs (set_file (part_name path n) c files) p b ∙ rw a refl

  -- Each of the names has a piece.
  pub piece_at :
      (P : Bytes → Type 0) (n : ℕ) (cs : List Bytes) (files : Files)
      → n + length cs ≤ 2 ^ 63
      → All P cs
      → (i : ℕ) → n ≤ i
      → i < n + length cs
      → (c : Bytes) × (set_parts n cs files (part_name path i) ≡ some c) × P c
  unfolding set_parts
  piece_at P n [] files bound all i le lt = absurd (omega (arith, le, lt))
  piece_at P n (c ∷ cs) files bound (p, all) i le lt = elim (Bool-cases (ltb n i)) [
    | inl e ↦
        piece_at P (suc n) cs (set_file (part_name path n) c files) (omega (arith, bound)) all i
          (omega (arith, ltb→lt n i e)) (omega (arith, lt))
    | inr e ↦ (
      c,
      subst
          (λ j.
            set_parts (suc n) cs (set_file (part_name path n) c files) (part_name path j) ≡ some c)
          (above n i le e)
          (set_parts-other (suc n) cs (set_file (part_name path n) c files) (part_name path n)
              (later_names n (suc n) (length cs) (omega arith) (omega (arith, bound)))
            ∙ set_file-same (part_name path n) c files),
      p,
    )
  ]

  pub read_parts-set_parts :
      (n : ℕ) (cs : List Bytes) (files : Files)
      → n + length cs ≤ 2 ^ 63
      → read_parts (names n (length cs)) (set_parts n cs files) ≡ some (flat cs)
  unfolding read_parts set_parts flat
  read_parts-set_parts n [] files bound = refl
  read_parts-set_parts n (c ∷ cs) files bound =
      let files' = set_file (part_name path n) c files in
      ap (λ o. append_part o (read_parts (names (suc n) (length cs)) (set_parts (suc n) cs files')))
        (set_parts-other (suc n) cs files' (part_name path n)
            (later_names n (suc n) (length cs) (omega arith) (omega (arith, bound)))
          ∙ set_file-same (part_name path n) c files)
      ∙ ap (append_part (some c)) (read_parts-set_parts (suc n) cs files' (omega (arith, bound)))

  -- The parts are read where they are looked for after the original was removed.
  pub read_parts-remove_file :
      (ps : List Bytes) (files : Files)
      → any (eq_bytes path) ps ≡ false
      → read_parts ps (remove_file path files) ≡ read_parts ps files
  unfolding read_parts
  read_parts-remove_file [] files h = refl
  read_parts-remove_file (p ∷ ps) files h =
      let (a, b) = or_false (eq_bytes path p) (any (eq_bytes path) ps) h in
      ap (λ o. append_part o (read_parts ps (remove_file path files)))
        (remove_file-other path p files (eq_bytes_comm p path ∙ a))
      ∙ ap (append_part (files p)) (read_parts-remove_file ps files b)
