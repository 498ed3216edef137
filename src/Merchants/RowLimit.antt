-- ===== src/Merchants/RowLimit.antt =====
-- `max_rows` of supabase/config.toml: how many rows a select without `.range(…)` or `.limit(…)`
-- answers with.
use trust_up_api.Base.{ℕ, zero, suc, ◌≤◌, ◌≡◌, refl, List, [], ◌∷◌, length, arith, ap}

abbrev pub max_rows : ℕ
max_rows = 1000

-- What is answered of the selected rows: all of them up to the limit, and above it some of them.
pub record RowLimit (Row : Type 0) : Type 0 where
  pub limited : List Row → List Row
  pub keeps : (rows : List Row) → length rows ≤ max_rows → limited rows ≡ rows

-- A limit that keeps the first rows, to run the code on.
module _ {Row : Type 0} where
  abbrev pub first : ℕ → List Row → List Row
  first n [] = []
  first zero (r ∷ rows) = []
  first (suc n) (r ∷ rows) = r ∷ first n rows

  pub first-keeps : (n : ℕ) (rows : List Row) → length rows ≤ n → first n rows ≡ rows
  first-keeps n [] h = refl
  first-keeps zero (r ∷ rows) h = absurd (omega arith)
  first-keeps (suc n) (r ∷ rows) h = ap (λ rest. r ∷ rest) (first-keeps n rows (omega arith))

  abbrev pub first_rows : RowLimit Row
  first_rows = record { limited = first max_rows; keeps = first-keeps max_rows }
