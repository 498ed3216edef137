-- ===== src/Base/Unique.antt =====
-- A table with a unique key, to run the code on: an insert of a known key is refused.
use mathlib.Core.Path.{refl}
use mathlib.Core.Bool.{Bool, true, false}
use mathlib.Core.List.{List, [], ◌∷◌, ◌++◌}
use trust_up_api.Base.Lists.{any}
use trust_up_api.Base.Outcome.{Result, ok, err}
use trust_up_api.Base.Supabase.{Table, DbError, Leaves, reliable}

module _ {Row : Type 0} (same : Row → Row → Bool) where
  abbrev pub insert_if_new : Bool → Row → List Row → Result DbError (List Row)
  insert_if_new true r rows = err DbError.unique_violation
  insert_if_new false r rows = ok (rows ++ r ∷ [])

  pub insert_if_new-Leaves :
      (known : Bool) (r : Row) (rows : List Row)
      → Leaves (rows ++ r ∷ []) (insert_if_new known r rows)
  insert_if_new-Leaves true r rows = tt
  insert_if_new-Leaves false r rows = refl

  abbrev pub with_unique_key : Table Row
  with_unique_key = record reliable {
    insert = λ r rows. insert_if_new (any (same r) rows) r rows;
    inserts = λ r rows. insert_if_new-Leaves (any (same r) rows) r rows;
  }
