-- ===== src/Backup/Split/Order.antt =====
-- The parts of a file in the order of their numbers.
use mathlib.Core.List.{Permᴰ}
use fcstask_backend.Backup.Bytes.{Bytes}
use fcstask_backend.Backup.Split.{insert_part, part_name, sort_parts}
use fcstask_backend.Backup.Split.Names.{part_number-part_name}
use fcstask_backend.Backup.Split.Parts.{count_from, names}
use fcstask_backend.Prelude.{
  All, Bool-cases, List, [], ap, arith, if◌then◌else◌, inl, inr, leb, length, map, refl, subst, suc,
  sym, zero, ℕ, ◌+◌, ◌<◌, ◌^◌, ◌∙◌, ◌∷◌, ◌≡◌, ◌≤◌,
}

-- The sort, on the numbers.
insert_number : ℕ → List ℕ → List ℕ
insert_number x [] = x ∷ []
insert_number x (y ∷ ys) = if leb x y then x ∷ y ∷ ys else y ∷ insert_number x ys

sort_numbers : List ℕ → List ℕ
sort_numbers [] = []
sort_numbers (x ∷ xs) = insert_number x (sort_numbers xs)

insert_number_comm :
    (x y : ℕ) (zs : List ℕ)
    → insert_number x (insert_number y zs) ≡ insert_number y (insert_number x zs)
unfolding insert_number
insert_number_comm x y [] = ground arith
insert_number_comm x y (z ∷ zs) = ground (arith, insert_number_comm x y zs)

sort_numbers-perm : {xs ys : List ℕ} → Permᴰ xs ys → sort_numbers xs ≡ sort_numbers ys
unfolding sort_numbers
sort_numbers-perm Permᴰ.nil = refl
sort_numbers-perm (Permᴰ.cons {a} {b} {l₁} {l₂} e p) =
    ap (λ x. insert_number x (sort_numbers l₁)) e ∙ ap (insert_number b) (sort_numbers-perm p)
sort_numbers-perm (Permᴰ.swap {a} {b} {a'} {b'} {l} e f) =
    insert_number_comm a b (sort_numbers l)
    ∙ ap (λ x. insert_number x (insert_number a (sort_numbers l))) f
    ∙ ap (λ x. insert_number a' (insert_number x (sort_numbers l))) e
sort_numbers-perm (Permᴰ.trans p q) = sort_numbers-perm p ∙ sort_numbers-perm q

insert_number-count : (n k : ℕ) → insert_number n (count_from (suc n) k) ≡ n ∷ count_from (suc n) k
unfolding insert_number
insert_number-count n zero = refl
insert_number-count n (suc k) = ground arith

sort_numbers-count : (n k : ℕ) → sort_numbers (count_from n k) ≡ count_from n k
unfolding sort_numbers
sort_numbers-count n zero = refl
sort_numbers-count n (suc k) =
    ap (insert_number n) (sort_numbers-count (suc n) k) ∙ insert_number-count n k

abbrev AreInts : List ℕ → Type 0
AreInts = All λ n. n < 2 ^ 63

AreInts-perm : {xs ys : List ℕ} → Permᴰ xs ys → AreInts ys → AreInts xs
AreInts-perm Permᴰ.nil h = tt
AreInts-perm (Permᴰ.cons e p) h = (subst (λ n. n < 2 ^ 63) (sym e) h.0, AreInts-perm p h.1)
AreInts-perm (Permᴰ.swap e f) h =
    (subst (λ n. n < 2 ^ 63) (sym e) h.1.0, (subst (λ n. n < 2 ^ 63) (sym f) h.0, h.1.1))
AreInts-perm (Permᴰ.trans p q) h = AreInts-perm p (AreInts-perm q h)

AreInts-count : (n k : ℕ) → n + k ≤ 2 ^ 63 → AreInts (count_from n k)
AreInts-count n zero h = tt
AreInts-count n (suc k) h = (omega (arith, h), AreInts-count (suc n) k (omega (arith, h)))

pub length-perm : {xs ys : List ℕ} → Permᴰ xs ys → length xs ≡ length ys
length-perm Permᴰ.nil = refl
length-perm (Permᴰ.cons e p) = ap suc (length-perm p)
length-perm (Permᴰ.swap e f) = refl
length-perm (Permᴰ.trans p q) = length-perm p ∙ length-perm q

pub length-count : (n k : ℕ) → length (count_from n k) ≡ k
length-count n zero = refl
length-count n (suc k) = ap suc (length-count (suc n) k)

pub length-map : (f : ℕ → Bytes) (ns : List ℕ) → length (map f ns) ≡ length ns
length-map f [] = refl
length-map f (n ∷ ns) = ap suc (length-map f ns)

module _ (path : Bytes) where
  insert_part-number :
      (n : ℕ) (ns : List ℕ)
      → n < 2 ^ 63
      → AreInts ns
      → insert_part (part_name path n) (map (part_name path) ns)
        ≡ map (part_name path) (insert_number n ns)
  unfolding insert_part insert_number
  insert_part-number n [] lt h = refl
  insert_part-number n (m ∷ ms) lt h = elim (Bool-cases (leb n m)) [
    | inl e ↦ rw (part_number-part_name path n lt, part_number-part_name path m h.0, e) refl
    | inr e ↦
        rw (part_number-part_name path n lt, part_number-part_name path m h.0, e)
          (ap (λ l. part_name path m ∷ l) (insert_part-number n ms lt h.1))
  ]

  AreInts-insert : (n : ℕ) (ns : List ℕ) → n < 2 ^ 63 → AreInts ns → AreInts (insert_number n ns)
  unfolding insert_number
  AreInts-insert n [] lt h = (lt, tt)
  AreInts-insert n (m ∷ ms) lt h = elim (Bool-cases (leb n m)) [
    | inl e ↦ rw e (lt, h)
    | inr e ↦ rw e (h.0, AreInts-insert n ms lt h.1)
  ]

  AreInts-sort : (ns : List ℕ) → AreInts ns → AreInts (sort_numbers ns)
  unfolding sort_numbers
  AreInts-sort [] h = tt
  AreInts-sort (n ∷ ns) h = AreInts-insert n (sort_numbers ns) h.0 (AreInts-sort ns h.1)

  sort_parts-numbers :
      (ns : List ℕ)
      → AreInts ns
      → sort_parts (map (part_name path) ns) ≡ map (part_name path) (sort_numbers ns)
  unfolding sort_parts sort_numbers
  sort_parts-numbers [] h = refl
  sort_parts-numbers (n ∷ ns) h =
      ap (insert_part (part_name path n)) (sort_parts-numbers ns h.1)
      ∙ insert_part-number n (sort_numbers ns) h.0 (AreInts-sort ns h.1)

  -- In whatever order a directory lists the parts, they are read by their numbers.
  pub sort_parts-names :
      (k : ℕ) (ns : List ℕ)
      → 1 + k ≤ 2 ^ 63
      → Permᴰ ns (count_from 1 k)
      → sort_parts (map (part_name path) ns) ≡ names path 1 k
  sort_parts-names k ns bound p =
      sort_parts-numbers ns (AreInts-perm p (AreInts-count 1 k bound))
      ∙ ap (map (part_name path)) (sort_numbers-perm p ∙ sort_numbers-count 1 k)
