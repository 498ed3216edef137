-- ===== src/Base/SupabaseLaws.antt =====
-- What the answers of a table say, in the forms that proofs use.
use mathlib.Core.Path.{◌≡◌, refl}
use mathlib.Core.Logic.{◌≢◌, ◌⊎◌, inl, inr}
use mathlib.Core.Bool.{Bool, not}
use mathlib.Core.Option.{Option, none, some}
use mathlib.Core.List.{List, [], ◌∷◌, ◌++◌}
use trust_up_api.Base.Tests.{if◌then◌else◌}
use trust_up_api.Base.Lists.{keep, any, change}
use trust_up_api.Base.Outcome.{Result, ok, err, Action, ◌>>◌}
use trust_up_api.Base.Supabase.{Table, DbError, writing}

-- The answers that code tells apart: to an insert, and to `.maybeSingle()`.
pub insert-cases {ℓ} :
    {A : Type ℓ} (r : Result DbError A)
    → ((a : A) × (r ≡ ok a)) ⊎ ((r ≡ err DbError.unique_violation) ⊎ (r ≡ err DbError.other_error))
insert-cases (ok a) = inl (a, refl)
insert-cases (err DbError.unique_violation) = inr (inl refl)
insert-cases (err DbError.other_error) = inr (inr refl)

pub single-cases {ℓ} :
    {A : Type ℓ} (r : Result DbError (Option A))
    → ((a : A) × (r ≡ ok (some a))) ⊎ ((r ≡ ok none) ⊎ ((e : DbError) × (r ≡ err e)))
single-cases (ok (some a)) = inl (a, refl)
single-cases (ok none) = inr (inl refl)
single-cases (err e) = inr (inr (e, refl))

pub updated-cases {ℓ κ} :
    {A : Type ℓ} {B : Type κ} (r : Result DbError (Option A × B))
    → ((e : DbError) × (r ≡ err e))
      ⊎ (((b : B) × (r ≡ ok (none, b))) ⊎ ((a : A) × (b : B) × (r ≡ ok (some a, b))))
updated-cases (err e) = inl (e, refl)
updated-cases (ok (none, b)) = inr (inl (b, refl))
updated-cases (ok (some a, b)) = inr (inr (a, b, refl))

module _ {Row : Type 0} (t : Table Row) where
  pub select-ok :
      (p : Row → Bool) (rows found : List Row) → t.select p rows ≡ ok found → found ≡ keep p rows
  select-ok p rows found h = let law = t.selects p rows in rw h at law

  pub maybe_single-some :
      (p : Row → Bool) (rows : List Row) (r : Row)
      → t.maybe_single p rows ≡ ok (some r)
      → keep p rows ≡ r ∷ []
  maybe_single-some p rows r h = let law = t.finds p rows in rw h at law

  pub maybe_single-none :
      (p : Row → Bool) (rows : List Row) → t.maybe_single p rows ≡ ok none → keep p rows ≡ []
  maybe_single-none p rows h = let law = t.finds p rows in rw h at law

  pub maybe_single-nil :
      (p : Row → Bool) (rows : List Row) (r : Row)
      → keep p rows ≡ []
      → t.maybe_single p rows ≢ ok (some r)
  maybe_single-nil p rows r e h = cc (maybe_single-some p rows r h)

  pub insert-ok :
      (r : Row) (rows after : List Row) → t.insert r rows ≡ ok after → after ≡ rows ++ r ∷ []
  insert-ok r rows after h = let law = t.inserts r rows in rw h at law

  pub update-ok :
      (p : Row → Bool) (f : Row → Row) (rows after : List Row)
      → t.update p f rows ≡ ok after
      → after ≡ change p f rows
  update-ok p f rows after h = let law = t.updates p f rows in rw h at law

  pub delete-ok :
      (p : Row → Bool) (rows after : List Row)
      → t.delete p rows ≡ ok after
      → after ≡ keep (λ r. not (p r)) rows
  delete-ok p rows after h = let law = t.deletes p rows in rw h at law

  pub upsert-ok :
      (p : Row → Bool) (new : Row) (f : Row → Row) (rows after : List Row) (r : Row)
      → t.upsert p new f rows ≡ ok (r, after)
      → (after ≡ (if any p rows then change p f rows else rows ++ new ∷ []))
        × (keep p after ≡ r ∷ [])
  upsert-ok p new f rows after r h = let law = t.upserts p new f rows in rw h at law

  pub update_one-some :
      (p : Row → Bool) (f : Row → Row) (rows after : List Row) (r : Row)
      → t.update_one p f rows ≡ ok (some r, after)
      → (old : Row) × (keep p rows ≡ old ∷ []) × (r ≡ f old) × (after ≡ change p f rows)
  update_one-some p f rows after r h = let law = t.updates_one p f rows in rw h at law

  pub update_one-none :
      (p : Row → Bool) (f : Row → Row) (rows after : List Row)
      → t.update_one p f rows ≡ ok (none, after)
      → (keep p rows ≡ []) × (after ≡ rows)
  update_one-none p f rows after h = let law = t.updates_one p f rows in rw h at law

-- A property of the state after a write and what follows it.
module _ {S E R : Type 0} (Q : S → Type 0) where
  written :
      {B : Type 0} (f : Action S E B) (put : S → R → S) (e : E) (s : S) (r : Result DbError R)
      → ((rows : R) → r ≡ ok rows → Q (f (put s rows)).1)
      → Q s
      → Q
          (((λ _. elim r as (λ _. Result E (Unit {0}) × S) [
            | ok rows ↦ (ok tt, put s rows)
            | err _ ↦ (err e, s)
          ])
              >> f)
            s).1
  written f put e s (ok rows) next here = next rows refl
  written f put e s (err _) next here = here

  pub after_writing :
      {B : Type 0} (f : Action S E B) (put : S → R → S) (q : S → Result DbError R) (e : E) (s : S)
      → ((rows : R) → q s ≡ ok rows → Q (f (put s rows)).1)
      → Q s
      → Q ((writing put q e >> f) s).1
  after_writing f put q e s next here = written f put e s (q s) next here
