-- ===== src/Errors/Outcomes.antt =====
-- What holds after a call that may have failed: its error wrapped, its value replaced, or only the
-- state looked at.
use fcstask_backend.Errors.{Error}
use fcstask_backend.Errors.Action.{
  Action, Result, continue, err, lift, ok, or_else, pure, wrapping, ◌>>=◌,
}
use fcstask_backend.Errors.Ensures.{Ended, Ensures}
use fcstask_backend.Prelude.{Bool, ap, false, if◌then◌else◌, refl, subst, sym, true, ◌≡◌}

wrapped-Ended :
    {D A : Type 0} (d : D) (P : A → D → Type 0) (x : Result A × D) (wrap : Error → Error)
    → Ended d P x
    → Ended d P (or_else x.0 wrap, x.1)
wrapped-Ended d P (ok a, d') wrap h = h
wrapped-Ended d P (err e, d') wrap h = h

-- A last call whose error is wrapped.
pub wrapped_step :
    {D A : Type 0} {P : A → D → Type 0} {d : D} (m : Action D A) (wrap : Error → Error)
    → Ensures d P m
    → Ensures d P (wrapping m wrap)
unfolding wrapping
wrapped_step {D} {A} {P} {d} m wrap h = record { ended = wrapped-Ended d P (m d) wrap h.ended }

-- A Boolean test that ends a read: it passed.
pub if_ok {ℓ} :
    {A : Type ℓ} (b : Bool) (x : A) (e : Error) {a : A}
    → (if b then ok x else err e) ≡ ok a
    → (b ≡ true) × (x ≡ a)
if_ok true x e h = (refl, cc)
if_ok false x e h = cc

-- The state after a call that may have failed.
pub after :
    {D A : Type 0} (d : D) {P : A → D → Type 0} (Q : D → Type 0) (m : Action D A)
    → Ensures d P m
    → Q d
    → ((a : A) (d' : D) → P a d' → Q d')
    → Q (m d).1
after {D} {A} d {P} Q m e unchanged changed = go (m d) e.ended
  where
    go : (x : Result A × D) → Ended d P x → Q x.1
    go (ok a, d') p = changed a d' p
    go (err e, d') p = subst Q (sym p) unchanged

mapped-Ended :
    {D A B : Type 0} (d : D) (R : A → D → Type 0) (P : B → D → Type 0) (x : Result A × D)
    (wrap : Error → Error) (f : A → B)
    → Ended d R x
    → ((a : A) (d' : D) → R a d' → P (f a) d')
    → Ended d P (continue (or_else x.0 wrap) (λ a. pure (f a)) x.1)
unfolding pure
mapped-Ended d R P (ok a, d') wrap f h k = k a d' h
mapped-Ended d R P (err e, d') wrap f h k = h

-- A last call whose value is replaced.
pub value_step :
    {D A B : Type 0} {R : A → D → Type 0} {P : B → D → Type 0} {d : D} (m : Action D A)
    (wrap : Error → Error) (f : A → B)
    → Ensures d R m
    → ((a : A) (d' : D) → R a d' → P (f a) d')
    → Ensures d P (wrapping m wrap >>= λ a. pure (f a))
unfolding ◌>>=◌
value_step {D} {A} {B} {R} {P} {d} m wrap f h k = record {
  ended = mapped-Ended d R P (m d) wrap f h.ended k;
}

-- The state after two calls.
pub after_both :
    {D A B : Type 0} (d : D) (Q : D → Type 0) (m : Action D A) (f : A → Action D B)
    → Q (m d).1
    → ((a : A) (d' : D) → Q d' → Q (f a d').1)
    → Q ((m >>= f) d).1
unfolding ◌>>=◌
after_both {D} {A} d Q m f h k = go (m d) h
  where
    go : (x : Result A × D) → Q x.1 → Q (continue x.0 f x.1).1
    go (ok a, d') q = k a d' q
    go (err e, d') q = q

-- What holds of the state after the call, whatever the call returned, holds next to what it ensures.
pub with_state :
    {D A : Type 0} {d : D} {P : A → D → Type 0} {Q : D → Type 0} (m : Action D A)
    → Ensures d P m
    → Q (m d).1
    → Ensures d (λ a d'. P a d' × Q d') m
with_state {D} {A} {d} {P} {Q} m e q = record { ended = go (m d) e.ended q }
  where
    go : (x : Result A × D) → Ended d P x → Q x.1 → Ended d (λ a d'. P a d' × Q d') x
    go (ok a, d') p q = (p, q)
    go (err e, d') p q = p

-- The state after a step that leaves it alone, and may end the call.
module _ {D A B : Type 0} (d : D) (f : A → Action D B) where
  pub after_lift :
      (Q : D → Type 0) (r : Result A)
      → Q d
      → ((a : A) → r ≡ ok a → Q (f a d).1)
      → Q ((lift r >>= f) d).1
  unfolding ◌>>=◌
  after_lift Q (ok a) h k = k a refl
  after_lift Q (err e) h k = h

  -- A step that let the call succeed.
  pub lift-eq-ok :
      (r : Result A) {b : B}
      → ((lift r >>= f) d).0 ≡ ok b
      → (a : A) × (r ≡ ok a) × ((lift r >>= f) d ≡ f a d)
  unfolding ◌>>=◌
  lift-eq-ok (ok a) h = (a, refl, refl)
  lift-eq-ok (err e) h = cc

  pub lift-ok : (r : Result A) {a : A} → r ≡ ok a → (lift r >>= f) d ≡ f a d
  unfolding ◌>>=◌
  lift-ok r e = ap (λ x. continue x f d) e
