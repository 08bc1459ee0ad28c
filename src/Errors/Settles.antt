-- ===== src/Errors/Settles.antt =====
-- Calls that read again after their write, so that they may fail with the write done: the state is
-- then the one before, or `Q` holds of it.
use fcstask_backend.Errors.{Error}
use fcstask_backend.Errors.Action.{
  Action, Result, Writes, Written, continue, err, lift, ok, or_else, query, wrapping, ◌>>=◌,
}
use fcstask_backend.Errors.Ensures.{Ended, Ensures}
use fcstask_backend.Prelude.{inl, inr, refl, subst, sym, ◌≡◌, ◌⊎◌}

abbrev pub Settled : {D A : Type 0} → D → (A → D → Type 0) → (D → Type 0) → Result A × D → Type 0
Settled d P Q (ok a, d') = P a d'
Settled d P Q (err e, d') = (d' ≡ d) ⊎ Q d'

pub record Settles {D A : Type 0} (d : D) (P : A → D → Type 0) (Q : D → Type 0) (m : Action D A)
    : Type 0 where
  pub settled : Settled d P Q (m d)

module _ {D A B : Type 0} {P : B → D → Type 0} {Q : D → Type 0} {d : D} where
  continued :
      (r : Result A) (f : A → Action D B)
      → ((a : A) → r ≡ ok a → Settles d P Q (f a))
      → Settled d P Q (continue r f d)
  continued (ok a) f h = (h a refl).settled
  continued (err e) f h = inl refl

  pub query-Settles :
      (q : D → Result A) (f : A → Action D B)
      → ((a : A) → q d ≡ ok a → Settles d P Q (f a))
      → Settles d P Q (query q >>= f)
  unfolding ◌>>=◌
  query-Settles q f h = record { settled = continued (q d) f h }

  pub lift-Settles :
      (r : Result A) (f : A → Action D B)
      → ((a : A) → r ≡ ok a → Settles d P Q (f a))
      → Settles d P Q (lift r >>= f)
  unfolding ◌>>=◌
  lift-Settles r f h = record { settled = continued r f h }

module _ {D B : Type 0} (d : D) (P : B → D → Type 0) (Q : D → Type 0) where
  write_then_read :
      (x : Result (Unit {0}) × D) (wrap : Error → Error) (q : D → Result B)
      → Written d Q x
      → ((d' : D) (b : B) → Q d' → q d' ≡ ok b → P b d')
      → Settled d P Q (continue (or_else x.0 wrap) (λ _. query q) x.1)
  unfolding query
  write_then_read (err e, d') wrap q w h = inl w
  write_then_read (ok u, d') wrap q w h = go (q d') refl
    where
      go : (r : Result B) → q d' ≡ r → Settled d P Q (r, d')
      go (ok b) e = h d' b w e
      go (err x) e = inr w

-- The write, and the read after it.
pub write-Settles :
    {D B : Type 0} {P : B → D → Type 0} {Q : D → Type 0} {d : D} (m : Action D (Unit {0}))
    (wrap : Error → Error) (q : D → Result B)
    → Writes d Q m
    → ((d' : D) (b : B) → Q d' → q d' ≡ ok b → P b d')
    → Settles d P Q (wrapping m wrap >>= λ _. query q)
unfolding ◌>>=◌
write-Settles {D} {B} {P} {Q} {d} m wrap q w h = record {
  settled = write_then_read d P Q (m d) wrap q w.written h;
}

-- The state after such a call.
pub after_settled :
    {D A : Type 0} (d : D) {P : A → D → Type 0} {Q : D → Type 0} (R : D → Type 0) (m : Action D A)
    → Settles d P Q m
    → R d
    → ((a : A) (d' : D) → P a d' → Q d')
    → ((d' : D) → Q d' → R d')
    → R (m d).1
after_settled {D} {A} d {P} {Q} R m s unchanged forget changed = go (m d) s.settled
  where
    go : (x : Result A × D) → Settled d P Q x → R x.1
    go (ok a, d') h = changed d' (forget a d' h)
    go (err e, d') (inl h) = subst R (sym h) unchanged
    go (err e, d') (inr h) = changed d' h

first_then_last :
    {D A B : Type 0} (d : D) (R : A → D → Type 0) (P : B → D → Type 0) (Q : D → Type 0)
    (x : Result A × D) (wrap : Error → Error) (f : A → Action D B)
    → Ended d R x
    → ((a : A) (d' : D) → R a d' → Ensures d' P (f a))
    → ((a : A) (d' : D) → R a d' → Q d')
    → Settled d P Q (continue (or_else x.0 wrap) f x.1)
first_then_last d R P Q (err e, d') wrap f h k q = inl h
first_then_last {D} {A} {B} d R P Q (ok a, d') wrap f h k q = go (f a d') (k a d' h).ended
  where
    go : (y : Result B × D) → Ended d' P y → Settled d P Q y
    go (ok b, d'') p = p
    go (err e, d'') p = inr (subst Q (sym p) (q a d' h))

-- A first write, and a call after it that may fail.
pub two_writes-Settles :
    {D A B : Type 0} {R : A → D → Type 0} {P : B → D → Type 0} {Q : D → Type 0} {d : D}
    (m : Action D A) (wrap : Error → Error) (f : A → Action D B)
    → Ensures d R m
    → ((a : A) (d' : D) → R a d' → Ensures d' P (f a))
    → ((a : A) (d' : D) → R a d' → Q d')
    → Settles d P Q (wrapping m wrap >>= f)
unfolding ◌>>=◌
two_writes-Settles {D} {A} {B} {R} {P} {Q} {d} m wrap f h k q = record {
  settled = first_then_last d R P Q (m d) wrap f h.ended k q;
}
