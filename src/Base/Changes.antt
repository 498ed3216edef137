-- ===== src/Base/Changes.antt =====
-- Writes to rows, and the selections that they leave.
use Prim.Native.Nat.{◌+◌}
use mathlib.Core.Path.{◌≡◌, refl}
use mathlib.Core.Bool.{Bool, true, false}
use mathlib.Core.List.{List, [], ◌∷◌}
use native.Mathlib.Omega.{arith}
use trust_up_api.Base.Lists.{keep, change, length}

-- Those to rows that it holds neither before nor after, and those
-- that take their rows out of it.
module _ {ℓ} {A : Type ℓ} (p q : A → Bool) (f : A → A) where
  pub change_nothing : (xs : List A) → keep p xs ≡ [] → change p f xs ≡ xs
  change_nothing [] e = refl
  change_nothing (x ∷ xs) e = ground (arith, change_nothing xs)

  pub keep-change_apart :
      ((x : A) → p x ≡ true → q x ≡ false)
      → ((x : A) → p x ≡ true → q (f x) ≡ false)
      → (xs : List A) → keep q (change p f xs) ≡ keep q xs
  keep-change_apart before after [] = refl
  keep-change_apart before after (x ∷ xs) =
      ground (arith, before x, after x, keep-change_apart before after xs)

  pub keep-change_apart_one :
      (xs : List A) {r : A}
      → keep p xs ≡ r ∷ []
      → q r ≡ false
      → q (f r) ≡ false
      → keep q (change p f xs) ≡ keep q xs
  keep-change_apart_one [] e h h' = refl
  keep-change_apart_one (x ∷ xs) {r} e h h' =
      ground (arith, change_nothing xs, keep-change_apart_one xs {r = r})

  -- A write to the only selected row, which leaves `q`
  pub length-keep-change_one :
      (xs : List A) {r : A}
      → keep p xs ≡ r ∷ []
      → q r ≡ true
      → q (f r) ≡ false
      → length (keep q xs) ≡ 1 + length (keep q (change p f xs))
  length-keep-change_one [] e h h' = cc
  length-keep-change_one (x ∷ xs) {r} e h h' =
      ground (arith, change_nothing xs, length-keep-change_one xs {r = r})

pub keep-change_leaving {ℓ} :
    {A : Type ℓ} (p : A → Bool) (f : A → A)
    → ((x : A) → p (f x) ≡ false)
    → (xs : List A) → keep p (change p f xs) ≡ []
keep-change_leaving p f leaves [] = refl
keep-change_leaving p f leaves (x ∷ xs) =
    ground (arith, leaves x, keep-change_leaving p f leaves xs)
