-- ===== src/Backup/Sql/Quoting.antt =====
-- Quoted names and literals, and how PostgreSQL reads them.
use mathlib.Core.List.{append_assoc}
use fcstask_backend.Backup.Bytes.{Bytes, all_bytes}
use fcstask_backend.Backup.Sql.{
  continues_ident, double_quote, doubled, escape_literal, matches_ident, quote_ident, single_quote,
  validate_identifier,
}
use fcstask_backend.Errors.{other_error}
use fcstask_backend.Errors.Action.{Result, err, ok, refuse_if}
use fcstask_backend.Prelude.{
  ==_iff, Bool, Bool-cases, Option, [], and_true, ap, arith, eq_self, false, if◌then◌else◌, inl,
  inr, length, ltb, none, not, refl, some, sym, true, ℕ, ◌++◌, ◌==◌, ◌∙◌, ◌∷◌, ◌≡◌, ◌≤◌,
}

-- How a quoted token is read behind its first quote: up to a quote that no second one follows.
abbrev pub keep_byte : ℕ → Option (Bytes × Bytes) → Option (Bytes × Bytes)
keep_byte c none = none
keep_byte c (some (s, rest)) = some (c ∷ s, rest)

unfoldable pub read_quoted : (q : ℕ) → Bytes → Option (Bytes × Bytes)
read_quoted q [] = none
read_quoted q (c ∷ []) = if c == q then some ([], []) else none
read_quoted q (c ∷ d ∷ s) =
    let twice = keep_byte q (read_quoted q s) in
    let once = keep_byte c (read_quoted q (d ∷ s)) in
    if c == q then (if d == q then twice else some ([], d ∷ s)) else once

-- What may follow a quoted token.
abbrev pub NoQuote : ℕ → Bytes → Type 0
NoQuote q [] = Unit
NoQuote q (c ∷ s) = (c == q) ≡ false

read_quoted-end :
    (q : ℕ) (rest : Bytes) → NoQuote q rest → read_quoted q (q ∷ rest) ≡ some ([], rest)
unfolding read_quoted
read_quoted-end q [] h = rw (eq_self q) refl
read_quoted-end q (c ∷ s) h = rw (eq_self q, h) refl

read_quoted-other :
    (q c : ℕ) (s : Bytes)
    → (c == q) ≡ false
    → (t rest : Bytes) → read_quoted q s ≡ some (t, rest)
    → read_quoted q (c ∷ s) ≡ some (c ∷ t, rest)
unfolding read_quoted
read_quoted-other q c [] ne t rest h = cc
read_quoted-other q c (d ∷ s) ne t rest h = rw (ne, h) refl

pub read_quoted-doubled :
    (q : ℕ) (s rest : Bytes)
    → NoQuote q rest
    → read_quoted q (doubled q s ++ (q ∷ rest)) ≡ some (s, rest)
unfolding doubled read_quoted
read_quoted-doubled q [] rest h = read_quoted-end q rest h
read_quoted-doubled q (c ∷ s) rest h = elim (Bool-cases (c == q)) [
  | inl e ↦ rw e (
      rw (eq_self q, read_quoted-doubled q s rest h)
        (ap (λ x. some (x ∷ s, rest)) (sym ((==_iff c q).0 e))))
  | inr e ↦
      rw e (
        read_quoted-other q c (doubled q s ++ (q ∷ rest)) e s rest (read_quoted-doubled q s rest h))
]

unfoldable pub read_ident : Bytes → Option (Bytes × Bytes)
read_ident [] = none
read_ident (c ∷ s) = if c == double_quote then read_quoted double_quote s else none

pub read_ident-quote_ident :
    (s rest : Bytes)
    → NoQuote double_quote rest
    → read_ident (quote_ident s ++ rest) ≡ some (s, rest)
unfolding read_ident quote_ident
read_ident-quote_ident s rest h =
    ap (read_quoted double_quote) (append_assoc (doubled double_quote s) (double_quote ∷ []) rest)
    ∙ read_quoted-doubled double_quote s rest h

-- A literal, from its first quote on.
unfoldable pub read_literal : Bytes → Option (Bytes × Bytes)
read_literal [] = none
read_literal (c ∷ s) = if c == single_quote then read_quoted single_quote s else none

-- A path between single quotes, as `buildApplyScript` writes it, is read back as the path.
pub read_literal-escape_literal :
    (s rest : Bytes)
    → NoQuote single_quote rest
    → read_literal (single_quote ∷ (escape_literal s ++ (single_quote ∷ rest))) ≡ some (s, rest)
unfolding read_literal escape_literal
read_literal-escape_literal s rest h = read_quoted-doubled single_quote s rest h

plain-doubled : (s : Bytes) → all_bytes continues_ident s ≡ true → doubled double_quote s ≡ s
unfolding doubled
plain-doubled [] h = refl
plain-doubled (c ∷ s) h =
    let (a, b) = and_true (continues_ident c) (all_bytes continues_ident s) h in
    rw (not_quote c a) (ap (λ l. c ∷ l) (plain-doubled s b))
  where
    not_quote : (c : ℕ) → continues_ident c ≡ true → (c == double_quote) ≡ false
    not_quote c h = ground arith

accepted : (s : Bytes) → validate_identifier s ≡ ok tt → (matches_ident s ≡ true) × (length s ≤ 63)
unfolding validate_identifier
accepted [] h = cc
accepted (c ∷ s) h = elim (Bool-cases (ltb 63 (length (c ∷ s)))) [
  | inl e ↦ absurd (no_error (ltb 63 (length (c ∷ s))) e _ h)
  | inr e ↦ (matched (matches_ident (c ∷ s)) (rw e at h), ground arith)
]
  where
    no_error :
        (b : Bool)
        → b ≡ true
        → (r : Result (Unit {0}))
        → (if b then err (other_error "identifier exceeds 63 bytes") else r) ≡ ok tt
        → ⊥
    no_error true e r h = cc
    no_error false e r h = cc

    matched :
        (b : Bool)
        → refuse_if (not b) (other_error "identifier contains unsupported characters") ≡ ok tt
        → b ≡ true
    matched true h = refl
    matched false h = cc

-- An identifier that `ValidateIdentifier` accepts has at most 63 bytes, and quoting only puts it
-- between quotes.
pub validate_identifier-quote_ident :
    (s : Bytes)
    → validate_identifier s ≡ ok tt
    → (length s ≤ 63) × (quote_ident s ≡ double_quote ∷ (s ++ (double_quote ∷ [])))
unfolding quote_ident
validate_identifier-quote_ident s h =
    let (m, short) = accepted s h in
    (short, ap (λ l. double_quote ∷ (l ++ (double_quote ∷ []))) (plain-doubled s (continued s m)))
  where
    continued : (s : Bytes) → matches_ident s ≡ true → all_bytes continues_ident s ≡ true
    continued [] h = cc
    continued (c ∷ s) h = ground arith
