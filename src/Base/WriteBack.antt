-- ===== src/Base/WriteBack.antt =====
-- A loop that writes back rows it has loaded, one at a time, by their identifiers; every write may
-- fail. Where identifiers are distinct, each row ends as it was, or as its own write makes it.
use Prim.Native.Nat.{ℕ}
use mathlib.Core.Path.{◌≡◌, refl, sym}
use mathlib.Core.Logic.{◌⊎◌, inl, inr}
use mathlib.Core.Bool.{Bool, true, false, ◌&&◌}
use mathlib.Core.List.{List, [], ◌∷◌}
use native.Mathlib.Omega.{arith}
use trust_up_api.Base.Tests.{◌==◌, ==_iff, Bool-cases, if◌then◌else◌}
use trust_up_api.Base.Lists.{keep, any, change, All, All-keep}
use trust_up_api.Base.Pairwise.{Each, Each-refl}

module _ {Row : Type 0} (id : Row → ℕ) where
  abbrev pub DistinctBy : List Row → Type 0
  DistinctBy [] = Unit
  DistinctBy (x ∷ xs) = (any (λ y. id y == id x) xs ≡ false) × DistinctBy xs

  any-keep-false : (p q : Row → Bool) (xs : List Row) → any q xs ≡ false → any q (keep p xs) ≡ false
  any-keep-false p q [] h = refl
  any-keep-false p q (x ∷ xs) h = ground (arith, any-keep-false p q xs)

  keep-DistinctBy : (p : Row → Bool) (xs : List Row) → DistinctBy xs → DistinctBy (keep p xs)
  keep-DistinctBy p [] h = tt
  keep-DistinctBy p (x ∷ xs) h = elim (Bool-cases (p x)) [
    | inl hit ↦ rw hit (any-keep-false p (λ y. id y == id x) xs h.0, keep-DistinctBy p xs h.1)
    | inr miss ↦ rw miss (keep-DistinctBy p xs h.1)
  ]

  -- A listed row with the identifier of this one is this one.
  abbrev Agrees : List Row → Row → Type 0
  Agrees todo x = All (λ m. (id x == id m) ≡ true → m ≡ x) todo

  fresh-Agrees : (x : Row) (xs : List Row) → any (λ y. id y == id x) xs ≡ false → Agrees xs x
  fresh-Agrees x [] h = tt
  fresh-Agrees x (y ∷ xs) h = (
    λ same. absurd (ground (arith, ==_iff (id x) (id y), ==_iff (id y) (id x))),
    fresh-Agrees x xs (ground arith),
  )

  All-Agrees_cons :
      (x : Row) (todo xs : List Row)
      → any (λ y. id y == id x) xs ≡ false
      → All (Agrees todo) xs
      → All (Agrees (x ∷ todo)) xs
  All-Agrees_cons x todo [] h k = tt
  All-Agrees_cons x todo (y ∷ xs) h k =
      ((λ same. absurd (ground arith), k.0), All-Agrees_cons x todo xs (ground arith) k.1)

  All-Agrees : (xs : List Row) → DistinctBy xs → All (Agrees xs) xs
  All-Agrees [] h = tt
  All-Agrees (x ∷ xs) h =
      ((λ same. refl, fresh-Agrees x xs h.0), All-Agrees_cons x xs xs h.0 (All-Agrees xs h.1))

  keep-All-Agrees :
      (p : Row → Bool) (todo xs : List Row) → All (Agrees todo) xs → All (Agrees (keep p todo)) xs
  keep-All-Agrees p todo [] h = tt
  keep-All-Agrees p todo (x ∷ xs) h =
      (All-keep (λ m. (id x == id m) ≡ true → m ≡ x) p todo h.0, keep-All-Agrees p todo xs h.1)

  module _ (q : Row → Bool) (write : Row → Row → Row)
      (keeps_id : (m x : Row) → id (write m x) ≡ id x) where
    -- `.eq('id', …)` and the rest of the filter
    abbrev pub is_hit : Row → Row → Bool
    is_hit m x = (id x == id m) && q x

    -- Each loaded row was passed over, or written back.
    abbrev pub Rounds : List Row → List Row → List Row → Type 0
    Rounds [] xs ys = ys ≡ xs
    Rounds (m ∷ todo) xs ys = Rounds todo xs ys ⊎ Rounds todo (change (is_hit m) (write m) xs) ys

    abbrev RowRounds : List Row → Row → Row → Type 0
    RowRounds [] x y = y ≡ x
    RowRounds (m ∷ todo) x y =
        RowRounds todo x y ⊎ RowRounds todo (if is_hit m x then write m x else x) y

    -- As it was, or its own write.
    abbrev pub Writes : Row → Row → Type 0
    Writes x y = (y ≡ x) ⊎ ((q x ≡ true) × (y ≡ write x x))

    skip_round :
        (m : Row) (todo xs ys : List Row)
        → Each (RowRounds todo) xs ys
        → Each (RowRounds (m ∷ todo)) xs ys
    skip_round m todo [] [] h = tt
    skip_round m todo [] (y ∷ ys) h = h
    skip_round m todo (x ∷ xs) [] h = h
    skip_round m todo (x ∷ xs) (y ∷ ys) h = (inl h.0, skip_round m todo xs ys h.1)

    write_round :
        (m : Row) (todo xs ys : List Row)
        → Each (RowRounds todo) (change (is_hit m) (write m) xs) ys
        → Each (RowRounds (m ∷ todo)) xs ys
    write_round m todo [] [] h = tt
    write_round m todo [] (y ∷ ys) h = h
    write_round m todo (x ∷ xs) [] h = h
    write_round m todo (x ∷ xs) (y ∷ ys) h = (inr h.0, write_round m todo xs ys h.1)

    by_row : (todo xs ys : List Row) → Rounds todo xs ys → Each (RowRounds todo) xs ys
    by_row [] xs ys e = rw e (Each-refl (λ x y. y ≡ x) (λ x. refl) xs)
    by_row (m ∷ todo) xs ys (inl h) = skip_round m todo xs ys (by_row todo xs ys h)
    by_row (m ∷ todo) xs ys (inr h) = write_round m todo xs ys (by_row todo _ ys h)

    -- A row whose identifier is not listed is not written.
    not_listed :
        (todo : List Row) (x y : Row)
        → any (λ m. id m == id x) todo ≡ false
        → RowRounds todo x y
        → y ≡ x
    not_listed [] x y h e = e
    not_listed (m ∷ todo) x y h (inl r) = not_listed todo x y (ground arith) r
    not_listed (m ∷ todo) x y h (inr r) =
        let miss : is_hit m x ≡ false =
          ground (arith, ==_iff (id x) (id m), ==_iff (id m) (id x)) in
        not_listed todo x y (ground arith) (rw miss at r)

    row_Writes :
        (todo : List Row) (x y : Row)
        → DistinctBy todo
        → Agrees todo x
        → RowRounds todo x y
        → Writes x y
    row_Writes [] x y d h e = inl e
    row_Writes (m ∷ todo) x y d h (inl r) = row_Writes todo x y d.1 h.1 r
    row_Writes (m ∷ todo) x y d h (inr r) = elim (Bool-cases (is_hit m x)) [
      | inr miss ↦ row_Writes todo x y d.1 h.1 (rw miss at r)
      | inl hit ↦
          let same : m ≡ x = h.0 (ground arith) in
          let rest = rw hit at r in
          let fresh : any (λ n. id n == id (write m x)) todo ≡ false =
            rw (keeps_id m x, sym same) d.0 in
          let settled : y ≡ write m x = not_listed todo (write m x) y fresh rest in
          inr (ground arith, rw same at settled)
    ]

    rows_Writes :
        (todo xs ys : List Row)
        → DistinctBy todo
        → All (Agrees todo) xs
        → Each (RowRounds todo) xs ys
        → Each Writes xs ys
    rows_Writes todo [] [] d h e = tt
    rows_Writes todo [] (y ∷ ys) d h e = e
    rows_Writes todo (x ∷ xs) [] d h e = e
    rows_Writes todo (x ∷ xs) (y ∷ ys) d h e =
        (row_Writes todo x y d h.0 e.0, rows_Writes todo xs ys d h.1 e.1)

    pub Rounds-Writes :
        (p : Row → Bool) (xs ys : List Row)
        → DistinctBy xs
        → Rounds (keep p xs) xs ys
        → Each Writes xs ys
    Rounds-Writes p xs ys d h =
        rows_Writes (keep p xs) xs ys (keep-DistinctBy p xs d)
          (keep-All-Agrees p xs xs (All-Agrees xs d)) (by_row (keep p xs) xs ys h)
