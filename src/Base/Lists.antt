-- ===== src/Base/Lists.antt =====
-- Lists measured by native numbers, with Boolean filters and predicates by recursion.
use Prim.Native.Nat.{ℕ, suc, ◌+◌}
use mathlib.Core.Path.{◌≡◌, refl, ap, ◌∙◌}
use mathlib.Core.Bool.{Bool, true, false, not, ◌||◌}
use mathlib.Core.Logic.{inl, inr}
use mathlib.Core.List.{List, [], ◌∷◌, ◌++◌, map}
use native.Mathlib.Omega.{arith}
use trust_up_api.Base.Tests.{if◌then◌else◌, Bool-cases}

-- A predicate of every element.
abbrev pub All {ℓ κ} : {A : Type ℓ} → (A → Type κ) → List A → Type κ
All P [] = Unit
All P (x ∷ xs) = P x × All P xs

module _ {ℓ} {A : Type ℓ} where
  abbrev pub length : List A → ℕ
  length [] = 0
  length (x ∷ xs) = suc (length xs)

  -- `Array.prototype.filter`, by a Boolean test
  abbrev pub keep : (A → Bool) → List A → List A
  keep p [] = []
  keep p (x ∷ xs) = let rest = keep p xs in if p x then x ∷ rest else rest

  -- `Array.prototype.some`
  abbrev pub any : (A → Bool) → List A → Bool
  any p [] = false
  any p (x ∷ xs) = p x || any p xs

  -- A write to the elements that pass the test.
  abbrev pub change : (A → Bool) → (A → A) → List A → List A
  change p f [] = []
  change p f (x ∷ xs) = (if p x then f x else x) ∷ change p f xs

  pub any-append_last :
      (p : A → Bool) (xs : List A) (x : A) → p x ≡ true → any p (xs ++ x ∷ []) ≡ true
  any-append_last p [] x h = ground arith
  any-append_last p (y ∷ ys) x h = ground (arith, any-append_last p ys x h)

  pub any-append_left : (p : A → Bool) (xs ys : List A) → any p xs ≡ true → any p (xs ++ ys) ≡ true
  any-append_left p [] ys h = cc
  any-append_left p (x ∷ xs) ys h = ground (arith, any-append_left p xs ys)

  pub any-keep : (p q : A → Bool) (xs : List A) → any p (keep q xs) ≡ true → any p xs ≡ true
  any-keep p q [] h = h
  any-keep p q (x ∷ xs) h = ground (arith, any-keep p q xs)

  pub any-of_keep :
      (p q : A → Bool) (xs : List A) {x : A} → keep p xs ≡ x ∷ [] → q x ≡ true → any q xs ≡ true
  any-of_keep p q [] e h = cc
  any-of_keep p q (y ∷ ys) {x} e h = ground (arith, any-of_keep p q ys {x = x})

  -- What the elements that a filter keeps satisfy.
  pub keep-All : (p : A → Bool) (xs : List A) → All (λ x. p x ≡ true) (keep p xs)
  keep-All p [] = tt
  keep-All p (x ∷ xs) = elim (Bool-cases (p x)) [
    | inl hit ↦ rw hit (hit, keep-All p xs)
    | inr miss ↦ rw miss (keep-All p xs)
  ]

  pub length-append : (xs ys : List A) → length (xs ++ ys) ≡ length xs + length ys
  length-append [] ys = omega arith
  length-append (x ∷ xs) ys = omega (arith, length-append xs ys)

  pub change_same :
      (p q : A → Bool) (f g : A → A)
      → ((x : A) → p x ≡ q x)
      → ((x : A) → f x ≡ g x)
      → (xs : List A) → change p f xs ≡ change q g xs
  change_same p q f g tests writes [] = refl
  change_same p q f g tests writes (x ∷ xs) =
      rw (tests x, writes x)
        (ap (λ rest. (if q x then g x else x) ∷ rest) (change_same p q f g tests writes xs))

  pub length-change : (p : A → Bool) (f : A → A) (xs : List A) → length (change p f xs) ≡ length xs
  length-change p f [] = refl
  length-change p f (x ∷ xs) = ap suc (length-change p f xs)

module _ {ℓ κ} {A : Type ℓ} (P : A → Type κ) where
  pub All-of_All : ((x : A) → P x) → (xs : List A) → All P xs
  All-of_All h [] = tt
  All-of_All h (x ∷ xs) = (h x, All-of_All h xs)

  pub All-append : (xs ys : List A) → All P xs → All P ys → All P (xs ++ ys)
  All-append [] ys h k = k
  All-append (x ∷ xs) ys h k = (h.0, All-append xs ys h.1 k)

  pub All-keep : (p : A → Bool) (xs : List A) → All P xs → All P (keep p xs)
  All-keep p [] h = h
  All-keep p (x ∷ xs) h = ground (arith, All-keep p xs h.1)

  pub All-change :
      (p : A → Bool) (f : A → A)
      → ((a : A) → P a → P (f a))
      → (xs : List A) → All P xs
      → All P (change p f xs)
  All-change p f step [] h = h
  All-change p f step (x ∷ xs) h = elim (Bool-cases (p x)) [
    | inl hit ↦ rw hit (step x h.0, All-change p f step xs h.1)
    | inr miss ↦ rw miss (h.0, All-change p f step xs h.1)
  ]

-- Rows that a write takes out of a selection, and rows that it leaves alone.
module _ {ℓ} {A : Type ℓ} (p : A → Bool) where
  pub keep-keep-not : (xs : List A) → keep p (keep (λ x. not (p x)) xs) ≡ []
  keep-keep-not [] = refl
  keep-keep-not (x ∷ xs) = elim (Bool-cases (p x)) [
    | inl hit ↦ rw hit (keep-keep-not xs)
    | inr miss ↦ rw miss (rw miss (keep-keep-not xs))
  ]

  -- A row that passes another test, and is all that this one selects, is what the other selects
  -- if that is one row.
  pub keep-agrees_nil :
      (q : A → Bool) (xs : List A) {r : A} → keep q xs ≡ [] → keep p xs ≡ r ∷ [] → q r ≡ false
  keep-agrees_nil q [] e f = cc
  keep-agrees_nil q (x ∷ xs) {r} e f = elim (Bool-cases (p x)) [
    | inl hit ↦ ground arith
    | inr miss ↦ ground (arith, keep-agrees_nil q xs {r = r})
  ]

  pub keep-agrees :
      (q : A → Bool) (xs : List A) {r old : A}
      → keep q xs ≡ old ∷ []
      → keep p xs ≡ r ∷ []
      → q r ≡ true
      → old ≡ r
  keep-agrees q [] e f h = cc
  keep-agrees q (x ∷ xs) {r} {old} e f h = elim (Bool-cases (q x)) [
    | inl hit ↦ elim (Bool-cases (p x)) [
      | inl here ↦ ground arith
      | inr there ↦ absurd (ground (arith, keep-agrees_nil q xs {r = r}))
    ]
    | inr miss ↦ ground (arith, keep-agrees q xs {r = r} {old = old})
  ]

  pub keep-one_passes : (xs : List A) {r : A} → keep p xs ≡ r ∷ [] → p r ≡ true
  keep-one_passes [] e = cc
  keep-one_passes (x ∷ xs) {r} e = elim (Bool-cases (p x)) [
    | inl hit ↦ ground arith
    | inr miss ↦ ground (arith, keep-one_passes xs {r = r})
  ]

  -- A write to the selected rows that keeps them selected writes to the selection.
  pub keep-change_map :
      (f : A → A)
      → ((x : A) → p (f x) ≡ p x)
      → (xs : List A) → keep p (change p f xs) ≡ map f (keep p xs)
  keep-change_map f same [] = refl
  keep-change_map f same (x ∷ xs) = elim (Bool-cases (p x)) [
    | inl hit ↦
        let kept : p (f x) ≡ true = same x ∙ hit in
        rw (hit, kept) (ap (λ rest. f x ∷ rest) (keep-change_map f same xs))
    | inr miss ↦ rw miss (rw miss (keep-change_map f same xs))
  ]

  module _ (q : A → Bool) (f : A → A) (drops : (x : A) → p (f x) ≡ false) where
    pub keep-change_nil : (xs : List A) → keep p xs ≡ [] → keep p (change q f xs) ≡ []
    keep-change_nil [] e = refl
    keep-change_nil (x ∷ xs) e = ground (arith, drops x, keep-change_nil xs)

    -- A write to the only selected row that makes it fail the test empties the selection.
    pub keep-change_one :
        (xs : List A) {r : A} → keep p xs ≡ r ∷ [] → q r ≡ true → keep p (change q f xs) ≡ []
    keep-change_one [] e h = cc
    keep-change_one (x ∷ xs) {r} e h =
        ground (arith, drops x, keep-change_one xs {r = r}, keep-change_nil xs)
