-- ===== src/Backup/Decimal.antt =====
-- `fmt.Sprintf("%03d", n)` and `strconv.Atoi` on digits.
use fcstask_backend.Backup.Bytes.{Bytes, all_bytes}
use fcstask_backend.Prelude.{
  ==_iff, Bool, Bool-cases, Option, [], ap, arith, if◌then◌else◌, inl, inr, leb, length, ltb, none,
  refl, some, suc, sym, true, zero, ℕ, ◌%◌, ◌&&◌, ◌*◌, ◌+◌, ◌-◌, ◌/◌, ◌<◌, ◌==◌, ◌^◌, ◌∙◌, ◌∷◌, ◌≡◌,
  ◌≤◌,
}

abbrev pub is_digit : ℕ → Bool
is_digit c = leb b'0' c && leb c b'9'

-- One digit a round, the last one first; `n + 1` rounds are enough.
unfoldable pub digits : (rounds : ℕ) → ℕ → Bytes → Bytes
digits zero n out = out
digits (suc rounds) n out =
    let rest = digits rounds (n / 10) ((b'0' + n % 10) ∷ out) in if n == 0 then out else rest

abbrev pub padded : Bytes → Bytes
padded [] = b'0' ∷ b'0' ∷ b'0' ∷ []
padded (a ∷ []) = b'0' ∷ b'0' ∷ a ∷ []
padded (a ∷ b ∷ []) = b'0' ∷ a ∷ b ∷ []
padded (a ∷ b ∷ c ∷ s) = a ∷ b ∷ c ∷ s

unfoldable pub format_padded : ℕ → Bytes
format_padded n = padded (digits (suc n) n [])

abbrev pub scan_digits : ℕ → Bytes → Option ℕ
scan_digits n [] = some n
scan_digits n (c ∷ s) = if is_digit c then scan_digits (n * 10 + (c - b'0')) s else none

abbrev pub fits_int : Option ℕ → Option ℕ
fits_int none = none
fits_int (some n) = if ltb n (2 ^ 63) then some n else none

-- On a text with no sign.
unfoldable pub atoi : Bytes → Option ℕ
atoi [] = none
atoi (c ∷ s) = fits_int (scan_digits 0 (c ∷ s))

scan-digits :
    (rounds n : ℕ) (out : Bytes)
    → n < rounds
    → scan_digits 0 (digits rounds n out) ≡ scan_digits n out
unfolding digits
scan-digits zero n out lt = absurd (omega (arith, lt))
scan-digits (suc rounds) n out lt = elim (Bool-cases (n == 0)) [
  | inl e ↦ rw e (ap (λ m. scan_digits m out) (sym ((==_iff n 0).0 e)))
  | inr e ↦
      rw e (scan-digits rounds (n / 10) ((b'0' + n % 10) ∷ out) (ground arith) ∙ last_digit n out)
]
  where
    last_digit :
        (n : ℕ) (out : Bytes) → scan_digits (n / 10) ((b'0' + n % 10) ∷ out) ≡ scan_digits n out
    last_digit n out = ground arith

scan-padded : (s : Bytes) → scan_digits 0 (padded s) ≡ scan_digits 0 s
scan-padded [] = refl
scan-padded (a ∷ []) = refl
scan-padded (a ∷ b ∷ []) = refl
scan-padded (a ∷ b ∷ c ∷ s) = refl

atoi-padded : (s : Bytes) → atoi (padded s) ≡ fits_int (scan_digits 0 (padded s))
unfolding atoi
atoi-padded [] = refl
atoi-padded (a ∷ []) = refl
atoi-padded (a ∷ b ∷ []) = refl
atoi-padded (a ∷ b ∷ c ∷ s) = refl

pub atoi-format_padded : (n : ℕ) → n < 2 ^ 63 → atoi (format_padded n) ≡ some n
unfolding format_padded
atoi-format_padded n lt =
    atoi-padded (digits (suc n) n [])
    ∙ ap fits_int (scan-padded (digits (suc n) n []) ∙ scan-digits (suc n) n [] (omega arith))
    ∙ ground (arith, lt)

all_digits :
    (rounds n : ℕ) (out : Bytes)
    → all_bytes is_digit out ≡ true
    → all_bytes is_digit (digits rounds n out) ≡ true
unfolding digits
all_digits zero n out h = h
all_digits (suc rounds) n out h = elim (Bool-cases (n == 0)) [
  | inl e ↦ rw e h
  | inr e ↦ rw e (all_digits rounds (n / 10) ((b'0' + n % 10) ∷ out) (rw (is_digit-mod n) h))
]
  where
    is_digit-mod : (n : ℕ) → is_digit (b'0' + n % 10) ≡ true
    is_digit-mod n = ground arith

all_padded : (s : Bytes) → all_bytes is_digit s ≡ true → all_bytes is_digit (padded s) ≡ true
all_padded [] h = refl
all_padded (a ∷ []) h = h
all_padded (a ∷ b ∷ []) h = h
all_padded (a ∷ b ∷ c ∷ s) h = h

le-length-padded : (s : Bytes) → 3 ≤ length (padded s)
le-length-padded [] = omega arith
le-length-padded (a ∷ []) = omega arith
le-length-padded (a ∷ b ∷ []) = omega arith
le-length-padded (a ∷ b ∷ c ∷ s) = omega arith

-- At least three digits.
pub format_padded_digits :
    (n : ℕ) → (all_bytes is_digit (format_padded n) ≡ true) × (3 ≤ length (format_padded n))
unfolding format_padded
format_padded_digits n = (
  all_padded (digits (suc n) n []) (all_digits (suc n) n [] refl),
  le-length-padded (digits (suc n) n []),
)
