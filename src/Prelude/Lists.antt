-- ===== src/Prelude/Lists.antt =====
-- Lists over the native numbers: length, membership and predicates by recursion.
use Prim.Native.Nat.{ℕ, suc, ◌+◌}
use Prim.Native.String.{String}
use mathlib.Core.Path.{◌≡◌, refl}
use mathlib.Core.Bool.{Bool, true, false, ◌||◌, ◌&&◌}
use mathlib.Core.Option.{Option, none, some}
use mathlib.Core.List.{List, [], ◌∷◌, ◌++◌}
use native.Mathlib.Omega.{arith}
use fcstask_backend.Prelude.Tests.{str_eq, if◌then◌else◌}

module _ {ℓ} {A : Type ℓ} where
  abbrev pub length : List A → ℕ
  length [] = 0
  length (x ∷ xs) = suc (length xs)

  abbrev pub All {κ} : (A → Type κ) → List A → Type κ
  All P [] = Unit
  All P (x ∷ xs) = P x × All P xs

  pub length-append : (xs ys : List A) → length (xs ++ ys) ≡ length xs + length ys
  length-append [] ys = omega arith
  length-append (x ∷ xs) ys = omega (arith, length-append xs ys)

-- A text among the listed ones.
abbrev pub contains : List String → String → Bool
contains [] s = false
contains (x ∷ xs) s = str_eq x s || contains xs s

-- Searches by a Boolean test.
module _ {ℓ} {A : Type ℓ} where
  abbrev pub filter : (A → Bool) → List A → List A
  filter test [] = []
  filter test (x ∷ xs) = if test x then x ∷ filter test xs else filter test xs

  abbrev pub find? : (A → Bool) → List A → Option A
  find? test [] = none
  find? test (x ∷ xs) = if test x then some x else find? test xs

  abbrev pub any : (A → Bool) → List A → Bool
  any test [] = false
  any test (x ∷ xs) = test x || any test xs

  pub find?-filter :
      (test keep : A → Bool) (xs : List A)
      → ((x : A) → test x ≡ true → keep x ≡ true)
      → find? test (filter keep xs) ≡ find? test xs
  find?-filter test keep [] h = refl
  find?-filter test keep (x ∷ xs) h = ground (arith, find?-filter test keep xs h, h x)

  pub find?-filter-none :
      (test keep : A → Bool) (xs : List A)
      → ((x : A) → test x ≡ true → keep x ≡ false)
      → find? test (filter keep xs) ≡ none
  find?-filter-none test keep [] h = refl
  find?-filter-none test keep (x ∷ xs) h = ground (arith, find?-filter-none test keep xs h, h x)

  pub find?-filter_absent :
      (test keep : A → Bool) (xs : List A)
      → find? test xs ≡ none
      → find? test (filter keep xs) ≡ none
  find?-filter_absent test keep [] h = refl
  find?-filter_absent test keep (x ∷ xs) h = ground (arith, find?-filter_absent test keep xs)

  pub any-filter :
      (test keep : A → Bool) (b : Bool) (xs : List A)
      → ((x : A) → test x ≡ true → keep x ≡ b)
      → any test (filter keep xs) ≡ (any test xs && b)
  any-filter test keep b [] h = refl
  any-filter test keep b (x ∷ xs) h = ground (arith, any-filter test keep b xs h, h x)

  pub any-append :
      (test : A → Bool) (xs ys : List A) → any test (xs ++ ys) ≡ (any test xs || any test ys)
  any-append test [] ys = refl
  any-append test (x ∷ xs) ys = ground (arith, any-append test xs ys)

-- `len(xs) == 0`
abbrev pub is_empty {ℓ} : {A : Type ℓ} → List A → Bool
is_empty [] = true
is_empty (x ∷ xs) = false
