-- ===== src/Base/Pairwise.antt =====
-- Two lists of the same length whose elements are related one by one.
use mathlib.Core.Path.{◌≡◌, sym}
use mathlib.Core.Bool.{Bool, true}
use mathlib.Core.Logic.{inl, inr}
use mathlib.Core.List.{List, [], ◌∷◌}
use native.Mathlib.Omega.{arith}
use trust_up_api.Base.Tests.{Bool-cases}
use trust_up_api.Base.Lists.{keep, change, All}

abbrev pub Each {ℓ} : {A : Type ℓ} → (A → A → Type 0) → List A → List A → Type 0
Each R [] [] = Unit
Each R [] (y ∷ ys) = ⊥
Each R (x ∷ xs) [] = ⊥
Each R (x ∷ xs) (y ∷ ys) = R x y × Each R xs ys

module _ {ℓ} {A : Type ℓ} (R : A → A → Type 0) where
  pub Each-refl : ((x : A) → R x x) → (xs : List A) → Each R xs xs
  Each-refl same [] = tt
  Each-refl same (x ∷ xs) = (same x, Each-refl same xs)

  pub Each-trans :
      ((x y z : A) → R x y → R y z → R x z)
      → (xs ys zs : List A) → Each R xs ys
      → Each R ys zs
      → Each R xs zs
  Each-trans steps [] [] [] h k = tt
  Each-trans steps [] [] (z ∷ zs) h k = k
  Each-trans steps [] (y ∷ ys) zs h k = absurd h
  Each-trans steps (x ∷ xs) [] zs h k = absurd h
  Each-trans steps (x ∷ xs) (y ∷ ys) [] h k = absurd k
  Each-trans steps (x ∷ xs) (y ∷ ys) (z ∷ zs) h k =
      (steps x y z h.0 k.0, Each-trans steps xs ys zs h.1 k.1)

  pub Each-change :
      (p : A → Bool) (f : A → A)
      → ((x : A) → p x ≡ true → R x (f x))
      → ((x : A) → R x x)
      → (xs : List A) → Each R xs (change p f xs)
  Each-change p f hits same [] = tt
  Each-change p f hits same (x ∷ xs) =
      let rest = Each-change p f hits same xs in
      elim (Bool-cases (p x)) [
        | inl hit ↦ rw hit (hits x hit, rest)
        | inr miss ↦ rw miss (same x, rest)
      ]

pub Each-mono {ℓ} :
    {A : Type ℓ} {R S : A → A → Type 0}
    → ((x y : A) → R x y → S x y)
    → (xs ys : List A) → Each R xs ys
    → Each S xs ys
Each-mono step [] [] h = tt
Each-mono step [] (y ∷ ys) h = h
Each-mono step (x ∷ xs) [] h = h
Each-mono step (x ∷ xs) (y ∷ ys) h = (step x y h.0, Each-mono step xs ys h.1)

module _ {ℓ} {A : Type ℓ} (R : A → A → Type 0) (p : A → Bool) (f : A → A)
    (same : (x : A) → R x x) where
  change-Each_of_nil : (xs : List A) → keep p xs ≡ [] → Each R xs (change p f xs)
  change-Each_of_nil [] e = tt
  change-Each_of_nil (x ∷ xs) e = elim (Bool-cases (p x)) [
    | inl hit ↦ ground arith
    | inr miss ↦ rw miss (same x, change-Each_of_nil xs (ground arith))
  ]

  pub Each-change_one :
      (xs : List A) {r : A} → keep p xs ≡ r ∷ [] → R r (f r) → Each R xs (change p f xs)
  Each-change_one [] e h = tt
  Each-change_one (x ∷ xs) {r} e h = elim (Bool-cases (p x)) [
    | inl hit ↦
        let here : x ≡ r = ground arith in
        let rest : keep p xs ≡ [] = ground arith in rw hit (rw here h, change-Each_of_nil xs rest)
    | inr miss ↦ rw miss (same x, Each-change_one xs (ground arith) h)
  ]

module _ {ℓ κ} {A : Type ℓ} (P : A → Type κ) (p : A → Bool) (f : A → A) where
  change-All_of_nil : (xs : List A) → keep p xs ≡ [] → All P xs → All P (change p f xs)
  change-All_of_nil [] e h = h
  change-All_of_nil (x ∷ xs) e h = elim (Bool-cases (p x)) [
    | inl hit ↦ ground arith
    | inr miss ↦ rw miss (h.0, change-All_of_nil xs (ground arith) h.1)
  ]

  -- A write to the only selected row keeps a predicate that it keeps of that row.
  pub All-change_one :
      (xs : List A) {r : A}
      → keep p xs ≡ r ∷ []
      → (P r → P (f r))
      → All P xs
      → All P (change p f xs)
  All-change_one [] e step h = h
  All-change_one (x ∷ xs) {r} e step h = elim (Bool-cases (p x)) [
    | inl hit ↦
        let here : x ≡ r = ground arith in
        let rest : keep p xs ≡ [] = ground arith in
        rw hit (rw here (step (rw (sym here) h.0)), change-All_of_nil xs rest h.1)
    | inr miss ↦ rw miss (h.0, All-change_one xs (ground arith) step h.1)
  ]
