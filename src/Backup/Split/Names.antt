-- ===== src/Backup/Split/Names.antt =====
-- The names of parts and their numbers.
use fcstask_backend.Backup.Bytes.{Bytes, all_bytes, cut_prefix, eq_bytes, eq_bytes-ne}
use fcstask_backend.Backup.Decimal.{
  atoi-format_padded, format_padded, format_padded_digits, is_digit,
}
use fcstask_backend.Backup.Split.{
  behind_byte, ends_as_part, is_part, last_part, number_behind, or_zero, part_name, part_number,
  part_suffix,
}
use fcstask_backend.Prelude.{
  Bool, [], and_true, ap, arith, false, leb, length, length-append, none, refl, some, sym, true, ℕ,
  ◌&&◌, ◌++◌, ◌<◌, ◌==◌, ◌^◌, ◌∙◌, ◌∷◌, ◌≡◌, ◌≤◌,
}

last_part-digits : (s : Bytes) → all_bytes is_digit s ≡ true → last_part s ≡ none
unfolding last_part
last_part-digits [] h = refl
last_part-digits (c ∷ s) h =
    let (a, b) = and_true (is_digit c) (all_bytes is_digit s) h in
    ap (behind_byte c (cut_prefix part_suffix (c ∷ s))) (last_part-digits s b) ∙ no_dot c s a
  where
    no_dot :
        (c : ℕ) (s : Bytes)
        → is_digit c ≡ true
        → behind_byte c (cut_prefix part_suffix (c ∷ s)) none ≡ none
    no_dot c s h = let ne : (b'.' == c) ≡ false = ground arith in rw ne refl

last_part-suffix :
    (s : Bytes) → all_bytes is_digit s ≡ true → last_part (part_suffix ++ s) ≡ some ([], s)
unfolding last_part
last_part-suffix s h = rw (last_part-digits s h) refl

last_part-append :
    (path s : Bytes)
    → all_bytes is_digit s ≡ true
    → last_part (path ++ (part_suffix ++ s)) ≡ some (path, s)
unfolding last_part
last_part-append [] s h = last_part-suffix s h
last_part-append (c ∷ path) s h =
    ap (behind_byte c (cut_prefix part_suffix (c ∷ (path ++ (part_suffix ++ s)))))
      (last_part-append path s h)

pub last_part-part_name :
    (path : Bytes) (n : ℕ) → last_part (part_name path n) ≡ some (path, format_padded n)
unfolding part_name
last_part-part_name path n = last_part-append path (format_padded n) (format_padded_digits n).0

-- The number of a part is read back from its name, and the name is one of a part.
pub part_number-part_name : (path : Bytes) (n : ℕ) → n < 2 ^ 63 → part_number (part_name path n) ≡ n
unfolding part_number
part_number-part_name path n lt =
    ap number_behind (last_part-part_name path n) ∙ ap or_zero (atoi-format_padded n lt)

pub is_part-part_name : (path : Bytes) (n : ℕ) → is_part (part_name path n) ≡ true
unfolding is_part
is_part-part_name path n =
    ap ends_as_part (last_part-part_name path n)
    ∙ let (all, long) = format_padded_digits n in joined _ _ long all
  where
    joined : (k : ℕ) (b : Bool) → 3 ≤ k → b ≡ true → (leb 3 k && b) ≡ true
    joined k b h e = ground arith

pub part_name-ne :
    (path : Bytes) (m n : ℕ)
    → m < 2 ^ 63
    → n < 2 ^ 63
    → (m ≡ n → ⊥)
    → eq_bytes (part_name path m) (part_name path n) ≡ false
part_name-ne path m n hm hn ne = eq_bytes-ne (part_name path m) (part_name path n) λ e.
    ne (sym (part_number-part_name path m hm) ∙ ap part_number e ∙ part_number-part_name path n hn)

longer : (path s : Bytes) (c : ℕ) → path ≡ path ++ (c ∷ s) → ⊥
longer path s c e = absurd (omega (arith, ap length e, length-append path (c ∷ s)))

pub path-ne-part_name : (path : Bytes) (n : ℕ) → eq_bytes path (part_name path n) ≡ false
unfolding part_name
path-ne-part_name path n =
    eq_bytes-ne path (path ++ (part_suffix ++ format_padded n)) (longer path _ b'.')
