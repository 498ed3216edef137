-- ===== src/Merchants/Order.antt =====
-- The order of a leaderboard, and how many entries are better than one on a page.
use trust_up_api.Base.{
  ℕ, zero, suc, ◌+◌, ◌≤◌, ◌<◌, ◌≡◌, refl, inl, inr, leb, ltb, Bool, Bool-cases, List, [], ◌∷◌,
  length, keep, All, arith,
}
use trust_up_api.Merchants.Leaderboard.{
  LeaderboardEntry, RankedEntry, insert_ranked, sort_ranked, drop, take, number_from,
}

module _ (field : LeaderboardEntry → ℕ) where
  abbrev Descending : List LeaderboardEntry → Type 0
  Descending [] = Unit
  Descending (x ∷ xs) = All (λ y. field y ≤ field x) xs × Descending xs

  -- How many entries have more than this
  abbrev pub better : ℕ → List LeaderboardEntry → ℕ
  better v xs = length (keep (λ x. ltb v (field x)) xs)

  insert_ranked-All :
      (P : LeaderboardEntry → Type 0) (x : LeaderboardEntry) (ys : List LeaderboardEntry)
      → P x
      → All P ys
      → All P (insert_ranked field x ys)
  insert_ranked-All P x [] h hs = (h, tt)
  insert_ranked-All P x (y ∷ ys) h hs = elim (Bool-cases (leb (field y) (field x))) [
    | inl e ↦ rw e (h, hs)
    | inr e ↦ rw e (hs.0, insert_ranked-All P x ys h hs.1)
  ]

  All-below :
      (a b : ℕ) (xs : List LeaderboardEntry)
      → a ≤ b
      → All (λ y. field y ≤ a) xs
      → All (λ y. field y ≤ b) xs
  All-below a b [] h hs = tt
  All-below a b (x ∷ xs) h hs = (omega arith, All-below a b xs h hs.1)

  insert_ranked-Descending :
      (x : LeaderboardEntry) (ys : List LeaderboardEntry)
      → Descending ys
      → Descending (insert_ranked field x ys)
  insert_ranked-Descending x [] h = (tt, tt)
  insert_ranked-Descending x (y ∷ ys) h = elim (Bool-cases (leb (field y) (field x))) [
    | inl e ↦
        let le : field y ≤ field x = ground arith in
        rw e ((le, All-below (field y) (field x) ys le h.0), h)
    | inr e ↦ rw e (
      insert_ranked-All (λ z. field z ≤ field y) x ys (ground arith) h.0,
      insert_ranked-Descending x ys h.1,
    )
  ]

  pub sort_ranked-Descending : (xs : List LeaderboardEntry) → Descending (sort_ranked field xs)
  sort_ranked-Descending [] = tt
  sort_ranked-Descending (x ∷ xs) =
      insert_ranked-Descending x (sort_ranked field xs) (sort_ranked-Descending xs)

  insert_ranked-count :
      (p : LeaderboardEntry → Bool) (x : LeaderboardEntry) (ys : List LeaderboardEntry)
      → length (keep p (insert_ranked field x ys)) ≡ length (keep p (x ∷ ys))
  insert_ranked-count p x [] = refl
  insert_ranked-count p x (y ∷ ys) = ground (arith, insert_ranked-count p x ys)

  pub sort_ranked-count :
      (p : LeaderboardEntry → Bool) (xs : List LeaderboardEntry)
      → length (keep p (sort_ranked field xs)) ≡ length (keep p xs)
  sort_ranked-count p [] = refl
  sort_ranked-count p (x ∷ xs) =
      let rest = sort_ranked-count p xs in
      let one = insert_ranked-count p x (sort_ranked field xs) in ground (arith, rest, one)

  none_better : (v : ℕ) (xs : List LeaderboardEntry) → All (λ y. field y ≤ v) xs → better v xs ≡ 0
  none_better v [] h = refl
  none_better v (x ∷ xs) h = ground (arith, none_better v xs h.1)

  better_step :
      (v : ℕ) (x : LeaderboardEntry) (xs : List LeaderboardEntry)
      → better v (x ∷ xs) ≤ 1 + better v xs
  better_step v x xs = ground arith

  -- An entry with no more better ones than its rank allows, out of `count v` that are better than `v`
  abbrev pub IsBehind : (ℕ → ℕ) → RankedEntry → Type 0
  IsBehind count e = count (field e.entry) < e.rank

  module _ (count : ℕ → ℕ) where
    take-IsBehind :
        (k limit : ℕ) (xs : List LeaderboardEntry)
        → Descending xs
        → ((v : ℕ) → count v ≤ k + better v xs)
        → All (IsBehind count) (number_from k (take limit xs))
    take-IsBehind k limit [] h behind = tt
    take-IsBehind k zero (x ∷ xs) h behind = tt
    take-IsBehind k (suc n) (x ∷ xs) h behind =
        let at_top = none_better (field x) (x ∷ xs) (omega arith, h.0) in
        let bound = behind (field x) in
        (
          omega arith,
          take-IsBehind (k + 1) n xs h.1
              (λ v. let b = behind v in let step = better_step v x xs in omega (arith, b, step)),
        )

    pub drop-IsBehind :
        (k limit offset : ℕ) (xs : List LeaderboardEntry)
        → Descending xs
        → ((v : ℕ) → count v ≤ k + better v xs)
        → All (IsBehind count) (number_from (k + offset) (take limit (drop offset xs)))
    drop-IsBehind k limit offset [] h behind = tt
    drop-IsBehind k limit zero (x ∷ xs) h behind =
        let same : k + 0 ≡ k = omega arith in rw same (take-IsBehind k limit (x ∷ xs) h behind)
    drop-IsBehind k limit (suc n) (x ∷ xs) h behind =
        let same : k + suc n ≡ k + 1 + n = omega arith in
        rw same (
          drop-IsBehind (k + 1) limit n xs h.1
            (λ v. let b = behind v in let step = better_step v x xs in omega (arith, b, step)))
