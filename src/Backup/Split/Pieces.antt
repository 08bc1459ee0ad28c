-- ===== src/Backup/Split/Pieces.antt =====
-- The pieces that `SplitFile` cuts a content into, without the files.
use mathlib.Core.List.{append-nil}
use fcstask_backend.Backup.Bytes.{Bytes}
use fcstask_backend.Backup.Split.{drop_bytes, take_bytes}
use fcstask_backend.Prelude.{
  All, Bool-cases, List, [], ap, arith, false, if◌then◌else◌, inl, inr, is_empty, length, ltb,
  ltb→lt, refl, suc, sym, true, zero, ℕ, ◌++◌, ◌<◌, ◌∙◌, ◌∷◌, ◌≡◌, ◌≤◌,
}

unfoldable pub flat : List Bytes → Bytes
flat [] = []
flat (c ∷ cs) = c ++ flat cs

-- The pieces, without the files.
unfoldable pub chunks : (rounds max : ℕ) → Bytes → List Bytes
chunks zero max s = []
chunks (suc rounds) max s =
    let chunk = take_bytes max s in
    let more = chunk ∷ chunks rounds max (drop_bytes max s) in
    if is_empty chunk then [] else if ltb (length chunk) max then chunk ∷ [] else more

take-drop : (n : ℕ) (s : Bytes) → take_bytes n s ++ drop_bytes n s ≡ s
take-drop zero s = refl
take-drop (suc n) [] = refl
take-drop (suc n) (c ∷ s) = ap (λ l. c ∷ l) (take-drop n s)

short-take : (n : ℕ) (s : Bytes) → length (take_bytes n s) < n → take_bytes n s ≡ s
short-take zero s h = absurd (omega (arith, h))
short-take (suc n) [] h = refl
short-take (suc n) (c ∷ s) h = ap (λ l. c ∷ l) (short-take n s (omega (arith, h)))

empty-take : (n : ℕ) (s : Bytes) → 0 < n → is_empty (take_bytes n s) ≡ true → s ≡ []
empty-take zero s lt h = absurd (omega (arith, lt))
empty-take (suc n) [] lt h = refl
empty-take (suc n) (c ∷ s) lt h = cc

length-drop : (n : ℕ) (s : Bytes) → length (drop_bytes n s) ≤ length s
length-drop zero s = omega arith
length-drop (suc n) [] = omega arith
length-drop (suc n) (c ∷ s) = omega (arith, length-drop n s)

shorter-drop :
    (n : ℕ) (s : Bytes)
    → 0 < n
    → is_empty (take_bytes n s) ≡ false
    → length (drop_bytes n s) < length s
shorter-drop zero s lt h = absurd (omega (arith, lt))
shorter-drop (suc n) [] lt h = cc
shorter-drop (suc n) (c ∷ s) lt h = omega (arith, length-drop n s)

pub flat-chunks :
    (rounds max : ℕ) (s : Bytes) → 0 < max → length s < rounds → flat (chunks rounds max s) ≡ s
unfolding chunks flat
flat-chunks zero max s lt more = absurd (omega (arith, more))
flat-chunks (suc rounds) max s lt more = elim (Bool-cases (is_empty (take_bytes max s))) [
  | inl e ↦ rw e (sym (empty-take max s lt e))
  | inr e ↦ elim (Bool-cases (ltb (length (take_bytes max s)) max)) [
    | inl f ↦ rw (e, f) (append-nil (take_bytes max s) ∙ short-take max s (ltb→lt _ _ f))
    | inr f ↦
        rw (e, f)
          (ap (λ l. take_bytes max s ++ l)
              (flat-chunks rounds max (drop_bytes max s) lt
                (omega (arith, shorter-drop max s lt e, more)))
            ∙ take-drop max s)
  ]
]

length-take : (n : ℕ) (s : Bytes) → length (take_bytes n s) ≤ n
length-take zero s = omega arith
length-take (suc n) [] = omega arith
length-take (suc n) (c ∷ s) = omega (arith, length-take n s)

-- A piece is not empty, and has at most `max` bytes.
abbrev pub IsPiece : ℕ → Bytes → Type 0
IsPiece max c = (0 < length c) × (length c ≤ max)

take-IsPiece :
    (max : ℕ) (s : Bytes) → is_empty (take_bytes max s) ≡ false → IsPiece max (take_bytes max s)
take-IsPiece max s h = (positive (take_bytes max s) h, length-take max s)
  where
    positive : (c : Bytes) → is_empty c ≡ false → 0 < length c
    positive [] h = cc
    positive (x ∷ c) h = omega arith

pub chunks-IsPiece : (rounds max : ℕ) (s : Bytes) → All (IsPiece max) (chunks rounds max s)
unfolding chunks
chunks-IsPiece zero max s = tt
chunks-IsPiece (suc rounds) max s = elim (Bool-cases (is_empty (take_bytes max s))) [
  | inl e ↦ rw e tt
  | inr e ↦ elim (Bool-cases (ltb (length (take_bytes max s)) max)) [
    | inl f ↦ rw (e, f) (take-IsPiece max s e, tt)
    | inr f ↦ rw (e, f) (take-IsPiece max s e, chunks-IsPiece rounds max (drop_bytes max s))
  ]
]

pub length-chunks : (rounds max : ℕ) (s : Bytes) → length (chunks rounds max s) ≤ rounds
unfolding chunks
length-chunks zero max s = omega arith
length-chunks (suc rounds) max s = ground (arith, length-chunks rounds max (drop_bytes max s))
