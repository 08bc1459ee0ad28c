-- ===== src/Tests/Memory.antt =====
-- A table of rows as a map that never fails: an instance of `RowLaws`.
use fcstask_backend.Errors.Action.{Action, Result, ok}
use fcstask_backend.Model.{Uuid}
use fcstask_backend.Prelude.{
  ==_iff, Bool-cases, Option, ap, arith, if◌then◌else◌, inl, inr, leb, none, refl, some, sym, ◌+◌,
  ◌==◌, ◌∙◌, ◌≡◌, ◌≤◌,
}
use fcstask_backend.Repo.Role.Interface.{RoleView, found}
use fcstask_backend.Repo.Stored.{Replaced, RowLaws, SameRoles, Table}

pub record Memory {Row : Type 0} (id_of : Row → Uuid) : Type 0 where
  pub rows : Uuid → Option Row
  pub own : (id : Uuid) (row : Row) → rows id ≡ some row → id_of row ≡ id
  -- the ids from here on are free
  pub next : Uuid
  pub free : (id : Uuid) → next ≤ id → rows id ≡ none

pub none-own :
    {Row : Type 0} (id_of : Row → Uuid) (id : Uuid) (row : Row) → none ≡ some row → id_of row ≡ id
none-own id_of id row e = cc

abbrev pub no_rows : {Row : Type 0} {id_of : Row → Uuid} → Memory id_of
no_rows {Row} {id_of} = record {
  rows = λ _. none;
  own = none-own id_of;
  next = 1;
  free = λ id e. refl;
}

abbrev pub next_free : Uuid → Uuid → Uuid
next_free next id = if leb next id then id + 1 else next

abbrev pub put_rows : {Row : Type 0} → (Uuid → Option Row) → Uuid → Option Row → Uuid → Option Row
put_rows rows id row id' = if id' == id then row else rows id'

module _ {Row : Type 0} {id_of : Row → Uuid} where
  pub put-own :
      (m : Memory id_of) (id : Uuid) (row : Option Row)
      → ((x : Row) → row ≡ some x → id_of x ≡ id)
      → (id' : Uuid) (x : Row) → put_rows m.rows id row id' ≡ some x
      → id_of x ≡ id'
  put-own m id row named id' x h = elim (Bool-cases (id' == id)) [
    | inl e ↦ named x (sym (rw e refl) ∙ h) ∙ sym ((==_iff id' id).0 e)
    | inr e ↦ m.own id' x (sym (rw e refl) ∙ h)
  ]

  pub put-free :
      (m : Memory id_of) (id : Uuid) (row : Option Row) (id' : Uuid)
      → next_free m.next id ≤ id'
      → put_rows m.rows id row id' ≡ none
  put-free m id row id' h = elim (Bool-cases (id' == id)) [
    | inl e ↦ absurd (beyond m.next h ((==_iff id' id).0 e))
    | inr e ↦ rw e (m.free id' (later m.next h))
  ]
    where
      beyond : (n : Uuid) → next_free n id ≤ id' → id' ≡ id → ⊥
      beyond n h e = ground arith

      later : (n : Uuid) → next_free n id ≤ id' → n ≤ id'
      later n h = ground arith

  abbrev pub put :
      (id : Uuid) (row : Option Row)
      → ((x : Row) → row ≡ some x → id_of x ≡ id)
      → Memory id_of
      → Memory id_of
  put id row named m = record {
    rows = put_rows m.rows id row;
    own = put-own m id row named;
    next = next_free m.next id;
    free = put-free m id row;
  }

same_some : {Row : Type 0} {a b : Row} → some a ≡ some b → a ≡ b
same_some e = cc

pub named_some :
    {Row : Type 0} (id_of : Row → Uuid) (row x : Row) → some row ≡ some x → id_of x ≡ id_of row
named_some id_of row x e = ap id_of (sym (same_some e))

-- The statements over one field of a state. `with_id` gives a row its id before it is inserted.
module _ {D Row : Type 0} (id_of : Row → Uuid) (get : D → Memory id_of) (set : Memory id_of → D → D)
    (with_id : Uuid → Row → Row)
    (given : (id : Uuid) (row : Row) → id_of (with_id id row) ≡ id) where
  abbrev pub first_row : Uuid → D → Result Row
  first_row id d = found ((get d).rows id)

  abbrev pub save_row : Row → Action D (Unit {0})
  save_row row d = (ok tt, set (put (id_of row) (some row) (named_some id_of row) (get d)) d)

  abbrev pub insert_row : Row → Action D Row
  insert_row row d = let stored = with_id (get d).next row in (ok stored, (save_row stored d).1)

  abbrev pub delete_row : Uuid → Action D (Unit {0})
  delete_row id d = (ok tt, set (put id none (none-own id_of id) (get d)) d)

  module _ (view : RoleView D) (as_stored : Row → Row → Row)
      (kept : (m : Memory id_of) (d : D) → get (set m d) ≡ m)
      (apart : (m : Memory id_of) (d : D) → SameRoles view d (set m d))
      (stored_as : (id : Uuid) (row : Row) → with_id id row ≡ as_stored row (with_id id row)) where
    abbrev pub memory_table : Table D Row
    memory_table = record { row_of = λ d id. (get d).rows id; id_of = id_of; as_stored = as_stored }

    replaced :
        (id : Uuid) (row : Option Row) (named : (x : Row) → row ≡ some x → id_of x ≡ id) (d : D)
        → Replaced memory_table view d id row (set (put id row named (get d)) d)
    replaced id row named d = record {
      rows_after = λ id'. ap (λ m. m.rows id') (kept (put id row named (get d)) d);
      same_roles = apart (put id row named (get d)) d;
    }

    free_next : (m : Memory id_of) (id : Uuid) → id ≡ m.next → m.rows id ≡ none
    free_next m id e = m.free id (omega (arith, e))

    pub memory-RowLaws : RowLaws memory_table view insert_row first_row save_row delete_row
    memory-RowLaws = record {
      own_id = λ d id row e. (get d).own id row e;
      get = λ id d. inr refl;
      creates = λ row d. record {
        ended =
            let stored = with_id (get d).next row in
            let r = replaced (id_of stored) (some stored) (named_some id_of stored) d in
            record {
              filled = stored_as (get d).next row;
              fresh = free_next (get d) (id_of stored) (given (get d).next row);
              rows_after = r.rows_after;
              same_roles = r.same_roles;
            };
      };
      updates =
          λ row d. record { written = replaced (id_of row) (some row) (named_some id_of row) d };
      deletes = λ id d. record { written = replaced id none (none-own id_of id) d };
    }
