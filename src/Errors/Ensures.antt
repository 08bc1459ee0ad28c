-- ===== src/Errors/Ensures.antt =====
-- Postconditions of calls that check first and write last.
use fcstask_backend.Errors.{Error}
use fcstask_backend.Errors.Action.{
  Action, Result, Writes, Written, bind, continue, err, fail, lift, observe, ok, or_else, pure,
  query, refuse_if, wrapping, ◌>>=◌,
}
use fcstask_backend.Prelude.{Bool, false, refl, subst, true, ◌≡◌}

abbrev pub Ended : {D A : Type 0} → D → (A → D → Type 0) → Result A × D → Type 0
Ended d P (ok a, d') = P a d'
Ended d P (err e, d') = d' ≡ d

-- Called at `d`, an error leaves the state as it was, and a value satisfies `P` with the new state.
pub record Ensures {D A : Type 0} (d : D) (P : A → D → Type 0) (m : Action D A) : Type 0 where
  pub ended : Ended d P (m d)

module _ {D A B : Type 0} {P : B → D → Type 0} {d : D} where
  continue_step :
      (r : Result A) (f : A → Action D B)
      → ((a : A) → r ≡ ok a → Ensures d P (f a))
      → Ended d P (continue r f d)
  continue_step (ok a) f h = (h a refl).ended
  continue_step (err e) f h = refl

  -- A read: what follows may use its answer.
  pub query_step :
      (q : D → Result A) (f : A → Action D B)
      → ((a : A) → q d ≡ ok a → Ensures d P (f a))
      → Ensures d P (query q >>= f)
  unfolding ◌>>=◌
  query_step q f h = record { ended = continue_step (q d) f h }

  pub lift_step :
      (r : Result A) (f : A → Action D B)
      → ((a : A) → r ≡ ok a → Ensures d P (f a))
      → Ensures d P (lift r >>= f)
  unfolding ◌>>=◌
  lift_step r f h = record { ended = continue_step r f h }

  pub observe_step :
      (q : D → Result A) (f : Result A → Action D B)
      → ((r : Result A) → q d ≡ r → Ensures d P (f r))
      → Ensures d P (observe q f)
  unfolding observe
  observe_step q f h = record { ended = (h (q d) refl).ended }

module _ {D B : Type 0} {P : B → D → Type 0} {d : D} where
  pub fail_step : (e : Error) → Ensures d P (fail e)
  unfolding fail
  fail_step e = record { ended = refl }

  pub pure_step : (b : B) → P b d → Ensures d P (pure b)
  unfolding pure
  pure_step b h = record { ended = h }

module _ {D B : Type 0} (d : D) (P : B → D → Type 0) (E : D → Type 0) where
  wrapped_write_step :
      (x : Result (Unit {0}) × D) (wrap : Error → Error) (b : B)
      → Written d E x
      → ((d' : D) → E d' → P b d')
      → Ended d P (continue (or_else x.0 wrap) (λ _. pure b) x.1)
  unfolding pure
  wrapped_write_step (ok u, d') wrap b w h = h d' w
  wrapped_write_step (err e, d') wrap b w h = w

  unwrapped_step :
      (x : Result (Unit {0}) × D) (b : B)
      → Written d E x
      → ((d' : D) → E d' → P b d')
      → Ended d P (continue x.0 (λ _. pure b) x.1)
  unfolding pure
  unwrapped_step (ok u, d') b w h = h d' w
  unwrapped_step (err e, d') b w h = w

-- The last write of a call, and the value that is returned after it.
module _ {D B : Type 0} {P : B → D → Type 0} {d : D} {E : D → Type 0} where
  pub write_step :
      (m : Action D (Unit {0})) (wrap : Error → Error) (b : B)
      → Writes d E m
      → ((d' : D) → E d' → P b d')
      → Ensures d P (wrapping m wrap >>= λ _. pure b)
  unfolding ◌>>=◌
  write_step m wrap b w h = record { ended = wrapped_write_step d P E (m d) wrap b w.written h }

  pub effect_step :
      (m : Action D (Unit {0})) (b : B)
      → Writes d E m
      → ((d' : D) → E d' → P b d')
      → Ensures d P (m >>= λ _. pure b)
  unfolding ◌>>=◌
  effect_step m b w h = record { ended = unwrapped_step d P E (m d) b w.written h }

module _ {D : Type 0} (d : D) (E : D → Type 0) where
  wrapped-Written :
      (x : Result (Unit {0}) × D) (wrap : Error → Error)
      → Written d E x
      → Written d E (or_else x.0 wrap, x.1)
  wrapped-Written (ok u, d') wrap w = w
  wrapped-Written (err e, d') wrap w = w

  guarded-Written :
      (r : Result (Unit {0})) (m : Action D (Unit {0}))
      → Writes d E m
      → Written d E (continue r (λ _. m) d)
  guarded-Written (ok u) m w = w.written
  guarded-Written (err e) m w = refl

  Written-Ended :
      (P : Unit {0} → D → Type 0) (x : Result (Unit {0}) × D)
      → Written d E x
      → ((d' : D) → E d' → P tt d')
      → Ended d P x
  Written-Ended P (ok u, d') w h = h d' w
  Written-Ended P (err e, d') w h = w

module _ {D : Type 0} {d : D} {E : D → Type 0} where
  pub wrapping-Writes :
      (m : Action D (Unit {0})) (wrap : Error → Error) → Writes d E m → Writes d E (wrapping m wrap)
  unfolding wrapping
  wrapping-Writes m wrap w = record { written = wrapped-Written d E (m d) wrap w.written }

  pub guarded-Writes :
      (r : Result (Unit {0})) (m : Action D (Unit {0}))
      → Writes d E m
      → Writes d E (lift r >>= λ _. m)
  unfolding ◌>>=◌
  guarded-Writes r m w = record { written = guarded-Written d E r m w }

  pub last_step :
      {P : Unit {0} → D → Type 0} (m : Action D (Unit {0}))
      → Writes d E m
      → ((d' : D) → E d' → P tt d')
      → Ensures d P m
  last_step {P} m w h = record { ended = Written-Ended d E P (m d) w.written h }

-- `or_else` changes no value.
pub or_else-eq-ok {ℓ} :
    {A : Type ℓ} (r : Result A) (wrap : Error → Error) {a : A} → or_else r wrap ≡ ok a → r ≡ ok a
or_else-eq-ok (ok a) wrap h = h
or_else-eq-ok (err e) wrap h = cc

pub refuse_if-eq-ok : (b : Bool) (e : Error) {u : Unit {0}} → refuse_if b e ≡ ok u → b ≡ false
refuse_if-eq-ok true e h = cc
refuse_if-eq-ok false e h = refl

pub bind-eq-ok {ℓ κ} :
    {A : Type ℓ} {B : Type κ} (r : Result A) (f : A → Result B) {b : B}
    → bind r f ≡ ok b
    → (a : A) × (r ≡ ok a) × (f a ≡ ok b)
bind-eq-ok (ok a) f h = (a, refl, h)
bind-eq-ok (err e) f h = cc

pub weaken :
    {D A : Type 0} {P Q : A → D → Type 0} {d : D} {m : Action D A}
    → Ensures d P m
    → ((a : A) (d' : D) → P a d' → Q a d')
    → Ensures d Q m
weaken {D} {A} {P} {Q} {d} {m} e h = record { ended = go (m d) e.ended }
  where
    go : (x : Result A × D) → Ended d P x → Ended d Q x
    go (ok a, d') p = h a d' p
    go (err x, d') p = p

pub checked-Writes :
    {D : Type 0} {E : D → Type 0} {d : D} (r : Result (Unit {0})) (m : Action D (Unit {0}))
    → ((u : Unit {0}) → r ≡ ok u → Writes d E m)
    → Writes d E (lift r >>= λ _. m)
unfolding ◌>>=◌
checked-Writes (ok u) m h = record { written = (h u refl).written }
checked-Writes (err e) m h = record { written = refl }

pub strengthen-Writes :
    {D : Type 0} {E F : D → Type 0} {d : D} {m : Action D (Unit {0})}
    → Writes d E m
    → ((d' : D) → E d' → F d')
    → Writes d F m
strengthen-Writes {D} {E} {F} {d} {m} w h = record { written = go (m d) w.written }
  where
    go : (x : Result (Unit {0}) × D) → Written d E x → Written d F x
    go (ok u, d') p = h d' p
    go (err e, d') p = p

pub same_ok {ℓ} : {A : Type ℓ} {a b : A} → ok a ≡ ok b → a ≡ b
same_ok e = cc

pub Ended-ok :
    {D A : Type 0} (d d' : D) (P : A → D → Type 0) (r : Result A) {a : A}
    → Ended d P (r, d')
    → r ≡ ok a
    → P a d'
Ended-ok d d' P (ok x) h e = subst (λ y. P y d') (same_ok e) h
Ended-ok d d' P (err x) h e = cc
