-- ===== src/Base/Outcome.antt =====
-- A JavaScript call that returns a value or throws, and the state that it works on. What was
-- written before a throw stays written.
use mathlib.Core.Path.{◌≡◌, refl, ap}
use mathlib.Core.Logic.{◌⊎◌, inl, inr}
use mathlib.Core.Bool.{Bool, true, false}

pub data Result {ℓ κ} (E : Type ℓ) (A : Type κ) : Type (ℓ ⊔ κ) where
  ok : A → Result E A
  err : E → Result E A

-- An `async` method over a state: the result, and the state that it leaves.
abbrev pub Action : Type 0 → Type 0 → Type 0 → Type 0
Action S E A = S → Result E A × S

module _ {S E A : Type 0} where
  abbrev pub pure : A → Action S E A
  pure a s = (ok a, s)

  abbrev pub throw : E → Action S E A
  throw e s = (err e, s)

  abbrev pub gets : (S → A) → Action S E A
  gets f s = (ok (f s), s)

infixl 5 ◌>>=◌ ◌>>◌
abbrev pub ◌>>=◌ : {S E A B : Type 0} → Action S E A → (A → Action S E B) → Action S E B
◌>>=◌ m f s = let (r, s') = m s in elim r [ ok a ↦ f a s' | err e ↦ (err e, s') ]

abbrev pub ◌>>◌ : {S E A B : Type 0} → Action S E A → Action S E B → Action S E B
m >> k = m >>= λ _. k

-- `if (c) throw …;`
abbrev pub throw_if : {S E : Type 0} → Bool → E → Action S E (Unit {0})
throw_if c e s = (elim c [ true ↦ err e | false ↦ ok tt ], s)

pub Result-cases {ℓ κ} :
    {E : Type ℓ} {A : Type κ} (r : Result E A) → ((e : E) × (r ≡ err e)) ⊎ ((a : A) × (r ≡ ok a))
Result-cases (ok a) = inr (a, refl)
Result-cases (err e) = inl (e, refl)

-- A method on a part of the state, called from one on the whole; its exceptions pass through `f`.
abbrev pub zoom :
    {S T E F A : Type 0} → (S → T) → (S → T → S) → (E → F) → Action T E A → Action S F A
zoom get put f m s = let (r, t) = m (get s) in (elim r [ ok a ↦ ok a | err e ↦ err (f e) ], put s t)

-- `try { … } catch { … }`: what was written before the exception stays written.
abbrev pub catch : {S E F A : Type 0} → Action S E A → (E → Action S F A) → Action S F A
catch m handler s = let (r, s') = m s in elim r [ ok a ↦ (ok a, s') | err e ↦ handler e s' ]

-- A property of the state that a method leaves: of a step after one that only reads, and of a
-- method between `try` and `catch`.
module _ {S E A : Type 0} (Q : S → Type 0) where
  resumed :
      {B : Type 0} (f : A → Action S E B) (r : Result E A) (s : S)
      → ((a : A) → r ≡ ok a → Q (f a s).1)
      → Q s
      → Q (elim r as (λ _. Result E B × S) [ ok a ↦ f a s | err e ↦ (err e, s) ]).1
  resumed f (ok a) s next here = next a refl
  resumed f (err e) s next here = here

  pub after_step :
      {B : Type 0} (m : Action S E A) (f : A → Action S E B) (s : S)
      → ((a : A) → (m s).0 ≡ ok a → Q (f a (m s).1).1)
      → Q (m s).1
      → Q ((m >>= f) s).1
  after_step m f s next left = resumed f (m s).0 (m s).1 next left

  pub after_reading :
      {B : Type 0} (m : Action S E A) (f : A → Action S E B) (s : S)
      → (m s).1 ≡ s
      → ((a : A) → (m s).0 ≡ ok a → Q (f a s).1)
      → Q s
      → Q ((m >>= f) s).1
  after_reading m f s reads next here =
      resumed f (m s).0 (m s).1 (λ a e. rw reads (next a e)) (rw reads here)

  handled :
      {F : Type 0} (handler : E → Action S F A) (r : Result E A) (s : S)
      → ((e : E) → Q (handler e s).1)
      → Q s
      → Q (elim r as (λ _. Result F A × S) [ ok a ↦ (ok a, s) | err e ↦ handler e s ]).1
  handled handler (ok a) s handles left = left
  handled handler (err e) s handles left = handles e

  pub after_catch :
      {F : Type 0} (m : Action S E A) (handler : E → Action S F A) (s : S)
      → ((e : E) (s' : S) → Q s' → Q (handler e s').1)
      → Q (m s).1
      → Q (catch m handler s).1
  after_catch m handler s handles left =
      handled handler (m s).0 (m s).1 (λ e. handles e (m s).1 left) left

-- A check that throws changes nothing, and what follows runs only where it passes.
module _ {S E B : Type 0} (Q : S → Type 0) (e : E) (f : Action S E B) (s : S) where
  pub after_throw_if : (c : Bool) → (c ≡ false → Q (f s).1) → Q s → Q ((throw_if c e >> f) s).1
  after_throw_if true next here = here
  after_throw_if false next here = next refl

-- A step whose outcome is known hands it on.
module _ {S E A B : Type 0} (m : Action S E A) (f : A → Action S E B) where
  resume : Result E A × S → Result E B × S
  resume r = elim r.0 [ ok a ↦ f a r.1 | err e ↦ (err e, r.1) ]

  pub bind-ok : (s t : S) (a : A) → m s ≡ (ok a, t) → (m >>= f) s ≡ f a t
  unfolding resume
  bind-ok s t a e = ap resume e
