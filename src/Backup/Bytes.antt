-- ===== src/Backup/Bytes.antt =====
-- Go's strings as the bytes that they are.
use Prim.Native.Char.{code}
use fcstask_backend.Prelude.{
  ==_iff, Bool, Bool-cases, List, Option, String, [], and_true, ap, arith, eq_self, false,
  if◌then◌else◌, inl, inr, none, refl, some, true, ℕ, ◌&&◌, ◌++◌, ◌==◌, ◌∙◌, ◌∷◌, ◌≡◌,
}

abbrev pub Bytes : Type 0
Bytes = List ℕ

-- The bytes of an ASCII text.
abbrev pub codes : String → Bytes
codes String.[] = []
codes (String.◌∷◌ c s) = code c ∷ codes s

abbrev pub eq_bytes : Bytes → Bytes → Bool
eq_bytes [] [] = true
eq_bytes [] (y ∷ ys) = false
eq_bytes (x ∷ xs) [] = false
eq_bytes (x ∷ xs) (y ∷ ys) = x == y && eq_bytes xs ys

abbrev pub all_bytes : (ℕ → Bool) → Bytes → Bool
all_bytes test [] = true
all_bytes test (c ∷ s) = test c && all_bytes test s

-- The rest of `s` behind the prefix `p`.
abbrev pub cut_prefix : (p s : Bytes) → Option Bytes
cut_prefix [] s = some s
cut_prefix (x ∷ p) [] = none
cut_prefix (x ∷ p) (c ∷ s) = if x == c then cut_prefix p s else none

pub cut_prefix-append : (p s : Bytes) → cut_prefix p (p ++ s) ≡ some s
cut_prefix-append [] s = refl
cut_prefix-append (x ∷ p) s = rw (eq_self x) (cut_prefix-append p s)

-- `strings.Join`
unfoldable pub join : Bytes → List Bytes → Bytes
join separator [] = []
join separator (x ∷ []) = x
join separator (x ∷ y ∷ ys) = x ++ (separator ++ join separator (y ∷ ys))

pub eq_bytes_self : (s : Bytes) → eq_bytes s s ≡ true
eq_bytes_self [] = refl
eq_bytes_self (c ∷ s) = rw (eq_self c) (eq_bytes_self s)

pub eq_bytes→eq : (s t : Bytes) → eq_bytes s t ≡ true → s ≡ t
eq_bytes→eq [] [] h = refl
eq_bytes→eq [] (y ∷ t) h = cc
eq_bytes→eq (x ∷ s) [] h = cc
eq_bytes→eq (x ∷ s) (y ∷ t) h =
    let (a, b) = and_true (x == y) (eq_bytes s t) h in
    ap (λ z. z ∷ s) ((==_iff x y).0 a) ∙ ap (λ l. y ∷ l) (eq_bytes→eq s t b)

pub eq_bytes-ne : (s t : Bytes) → (s ≡ t → ⊥) → eq_bytes s t ≡ false
eq_bytes-ne s t ne = elim (Bool-cases (eq_bytes s t)) [
  | inl e ↦ absurd (ne (eq_bytes→eq s t e))
  | inr e ↦ e
]

pub eq_bytes_comm : (s t : Bytes) → eq_bytes s t ≡ eq_bytes t s
eq_bytes_comm [] [] = refl
eq_bytes_comm [] (y ∷ t) = refl
eq_bytes_comm (x ∷ s) [] = refl
eq_bytes_comm (x ∷ s) (y ∷ t) = ground (arith, eq_bytes_comm s t)
