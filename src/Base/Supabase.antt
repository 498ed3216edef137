-- ===== src/Base/Supabase.antt =====
-- The Supabase client, which the repository does not implement: the statements on one table that
-- the code sends, and what their documentation promises of an answer without an error. A statement
-- may answer with an error whenever it likes, and then it has changed nothing.
use mathlib.Core.Path.{◌≡◌, refl}
use mathlib.Core.Bool.{Bool, not}
use mathlib.Core.Option.{Option, none, some}
use mathlib.Core.List.{List, [], ◌∷◌, ◌++◌}
use trust_up_api.Base.Tests.{if◌then◌else◌}
use trust_up_api.Base.Lists.{keep, any, change}
use trust_up_api.Base.Outcome.{Result, ok, err, Action}

-- The error of a statement; `unique_violation` is the PostgreSQL code 23505.
pub data DbError : Type 0 where
  unique_violation other_error : DbError

module _ {Row : Type 0} where
  -- What an answered statement says of the rows before it.
  abbrev pub Selected : (Row → Bool) → List Row → Result DbError (List Row) → Type 0
  Selected p rows (ok found) = found ≡ keep p rows
  Selected p rows (err e) = Unit

  abbrev pub AtMostOne : (Row → Bool) → List Row → Result DbError (Option Row) → Type 0
  AtMostOne p rows (ok none) = keep p rows ≡ []
  AtMostOne p rows (ok (some r)) = keep p rows ≡ r ∷ []
  AtMostOne p rows (err e) = Unit

  abbrev pub Leaves : List Row → Result DbError (List Row) → Type 0
  Leaves after (ok rows) = rows ≡ after
  Leaves after (err e) = Unit

  -- An upsert answers with the row that it wrote.
  abbrev pub Upserted :
      (Row → Bool) → Row → (Row → Row) → List Row → Result DbError (Row × List Row) → Type 0
  Upserted p new f rows (ok (r, after)) =
      (after ≡ (if any p rows then change p f rows else rows ++ new ∷ [])) × (keep p after ≡ r ∷ [])
  Upserted p new f rows (err e) = Unit

  -- An update whose rows are selected answers with the row that it wrote, if there is one.
  abbrev pub UpdatedOne :
      (Row → Bool) → (Row → Row) → List Row → Result DbError (Option Row × List Row) → Type 0
  UpdatedOne p f rows (ok (none, after)) = (keep p rows ≡ []) × (after ≡ rows)
  UpdatedOne p f rows (ok (some r, after)) =
      (old : Row) × (keep p rows ≡ old ∷ []) × (r ≡ f old) × (after ≡ change p f rows)
  UpdatedOne p f rows (err e) = Unit

pub record Table (Row : Type 0) : Type 0 where
  -- `.select().eq(…)`, `.maybeSingle()`; `.single()` is this one with an error for no row
  pub select : (Row → Bool) → List Row → Result DbError (List Row)
  pub maybe_single : (Row → Bool) → List Row → Result DbError (Option Row)
  pub insert : Row → List Row → Result DbError (List Row)
  pub update : (Row → Bool) → (Row → Row) → List Row → Result DbError (List Row)
  -- `.update(…).eq(…).select().maybeSingle()`
  pub update_one : (Row → Bool) → (Row → Row) → List Row → Result DbError (Option Row × List Row)
  pub delete : (Row → Bool) → List Row → Result DbError (List Row)
  pub upsert : (Row → Bool) → Row → (Row → Row) → List Row → Result DbError (Row × List Row)
  pub selects : (p : Row → Bool) (rows : List Row) → Selected p rows (select p rows)
  pub finds : (p : Row → Bool) (rows : List Row) → AtMostOne p rows (maybe_single p rows)
  pub inserts : (r : Row) (rows : List Row) → Leaves (rows ++ r ∷ []) (insert r rows)
  pub updates :
      (p : Row → Bool) (f : Row → Row) (rows : List Row)
      → Leaves (change p f rows) (update p f rows)
  pub updates_one :
      (p : Row → Bool) (f : Row → Row) (rows : List Row) → UpdatedOne p f rows (update_one p f rows)
  pub deletes :
      (p : Row → Bool) (rows : List Row) → Leaves (keep (λ r. not (p r)) rows) (delete p rows)
  pub upserts :
      (p : Row → Bool) (new : Row) (f : Row → Row) (rows : List Row)
      → Upserted p new f rows (upsert p new f rows)

-- A table that fails only where `maybe_single` finds several rows, to run the code on.
module _ {Row : Type 0} where
  abbrev pub one_row : List Row → Result DbError (Option Row)
  one_row [] = ok none
  one_row (r ∷ []) = ok (some r)
  one_row (r ∷ _ ∷ _) = err other_error

  pub one_row-AtMostOne :
      (p : Row → Bool) (rows found : List Row)
      → keep p rows ≡ found
      → AtMostOne p rows (one_row found)
  one_row-AtMostOne p rows [] e = e
  one_row-AtMostOne p rows (r ∷ []) e = e
  one_row-AtMostOne p rows (r ∷ s ∷ t) e = tt

  abbrev pub written_row : List Row → Result DbError (Option Row) → Result DbError (Row × List Row)
  written_row after (ok (some r)) = ok (r, after)
  written_row after _ = err other_error

  abbrev pub after_upsert : (Row → Bool) → Row → (Row → Row) → List Row → List Row
  after_upsert p new f rows = if any p rows then change p f rows else rows ++ new ∷ []

  pub written_row-Upserted :
      (p : Row → Bool) (new : Row) (f : Row → Row) (rows found : List Row)
      → keep p (after_upsert p new f rows) ≡ found
      → Upserted p new f rows (written_row (after_upsert p new f rows) (one_row found))
  written_row-Upserted p new f rows [] e = tt
  written_row-Upserted p new f rows (r ∷ []) e = (refl, e)
  written_row-Upserted p new f rows (r ∷ s ∷ t) e = tt

  abbrev pub updated_row :
      (Row → Bool) → (Row → Row) → List Row → List Row → Result DbError (Option Row × List Row)
  updated_row p f rows [] = ok (none, rows)
  updated_row p f rows (old ∷ []) = ok (some (f old), change p f rows)
  updated_row p f rows (old ∷ _ ∷ _) = err other_error

  pub updated_row-UpdatedOne :
      (p : Row → Bool) (f : Row → Row) (rows found : List Row)
      → keep p rows ≡ found
      → UpdatedOne p f rows (updated_row p f rows found)
  updated_row-UpdatedOne p f rows [] e = (e, refl)
  updated_row-UpdatedOne p f rows (old ∷ []) e = (old, e, refl, refl)
  updated_row-UpdatedOne p f rows (old ∷ s ∷ t) e = tt

  abbrev pub reliable : Table Row
  reliable = record {
    select = λ p rows. ok (keep p rows);
    maybe_single = λ p rows. one_row (keep p rows);
    insert = λ r rows. ok (rows ++ r ∷ []);
    update = λ p f rows. ok (change p f rows);
    update_one = λ p f rows. updated_row p f rows (keep p rows);
    delete = λ p rows. ok (keep (λ r. not (p r)) rows);
    upsert = λ p new f rows.
        let after = after_upsert p new f rows in written_row after (one_row (keep p after));
    selects = λ p rows. refl;
    finds = λ p rows. one_row-AtMostOne p rows (keep p rows) refl;
    inserts = λ r rows. refl;
    updates = λ p f rows. refl;
    updates_one = λ p f rows. updated_row-UpdatedOne p f rows _ refl;
    deletes = λ p rows. refl;
    upserts = λ p new f rows. written_row-Upserted p new f rows _ refl;
  }

-- A statement sent from an `async` method whose state `S` holds the table in a field: `get` reads
-- the field and `put` writes it. An error is thrown as `e`.
module _ {S E : Type 0} where
  abbrev pub reading : {A : Type 0} → (S → Result DbError A) → E → Action S E A
  reading q e s = (elim (q s) [ ok a ↦ ok a | err _ ↦ err e ], s)

  abbrev pub writing :
      {R : Type 0} → (S → R → S) → (S → Result DbError R) → E → Action S E (Unit {0})
  writing put q e s = elim (q s) [ ok rows ↦ (ok tt, put s rows) | err _ ↦ (err e, s) ]

  -- An update that must have met a row, and answers with it: `e` is thrown otherwise too.
  abbrev pub updating_one :
      {R : Type 0} → (S → List R → S) → (S → Result DbError (Option R × List R)) → E → Action S E R
  updating_one put q e s = elim (q s) [
    | ok (some r, rows) ↦ (ok r, put s rows)
    | ok (none, rows) ↦ (err e, put s rows)
    | err _ ↦ (err e, s)
  ]

  -- A statement whose error the code does not look at.
  abbrev pub unchecked : {R : Type 0} → (S → R → S) → (S → Result DbError R) → Action S E (Unit {0})
  unchecked put q s = (ok tt, elim (q s) [ ok rows ↦ put s rows | err _ ↦ s ])
