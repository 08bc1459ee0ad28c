-- ===== src/Errors/Action.antt =====
-- Calls that return a value or an error: `Result` for a read of the state, `Action` for a call that
-- may also write. What was written before an error stays written.
use fcstask_backend.Errors.{Error}
use fcstask_backend.Prelude.{Bool, false, true, ◌≡◌}

pub data Result {ℓ} (A : Type ℓ) : Type ℓ where
  ok : A → Result A
  err : Error → Result A

abbrev pub Action {ℓ} : Type ℓ → Type ℓ → Type ℓ
Action S A = S → Result A × S

-- `if err != nil { return ..., wrap(err) }`
abbrev pub or_else {ℓ} : {A : Type ℓ} → Result A → (Error → Error) → Result A
or_else (ok a) wrap = ok a
or_else (err e) wrap = err (wrap e)

-- `if test { return ..., err }`
abbrev pub refuse_if : Bool → Error → Result (Unit {0})
refuse_if true e = err e
refuse_if false e = ok tt

module _ {ℓ} {S A : Type ℓ} where
  unfoldable pub pure : A → Action S A
  pure a s = (ok a, s)

  unfoldable pub fail : Error → Action S A
  fail e s = (err e, s)

  -- a read that leaves the state as it was
  unfoldable pub query : (S → Result A) → Action S A
  query q s = (q s, s)

  unfoldable pub lift : Result A → Action S A
  lift r s = (r, s)

  unfoldable pub wrapping : Action S A → (Error → Error) → Action S A
  wrapping m wrap s = let (r, s') = m s in (or_else r wrap, s')

module _ {ℓ} {S A B : Type ℓ} where
  abbrev pub continue : Result A → (A → Action S B) → Action S B
  continue (ok a) f s = f a s
  continue (err e) f s = (err e, s)

  -- a read whose error the caller looks at
  unfoldable pub observe : (S → Result A) → (Result A → Action S B) → Action S B
  observe q f s = f (q s) s

  infixl 5 ◌>>=◌ ◌>>◌
  -- Opening this opens the actions above too.
  unfoldable pub ◌>>=◌ : Action S A → (A → Action S B) → Action S B
  unfolding pure fail query lift wrapping observe
  ◌>>=◌ m f s = let (r, s') = m s in continue r f s'

  abbrev pub ◌>>◌ : Action S A → Action S B → Action S B
  m >> k = m >>= λ _. k

-- Error handling on a read.
abbrev pub bind {ℓ κ} : {A : Type ℓ} {B : Type κ} → Result A → (A → Result B) → Result B
bind (ok a) f = f a
bind (err e) f = err e

abbrev pub succeeded {ℓ} : {A : Type ℓ} → Result A → Bool
succeeded (ok a) = true
succeeded (err e) = false

-- How a write may end: it fails and leaves the state as it was, or has its effect.
abbrev pub Written : {D : Type 0} → D → (D → Type 0) → Result (Unit {0}) × D → Type 0
Written d effect (ok u, d') = effect d'
Written d effect (err e, d') = d' ≡ d

pub record Writes {D : Type 0} (d : D) (effect : D → Type 0) (m : Action D (Unit {0}))
    : Type 0 where
  pub written : Written d effect (m d)
