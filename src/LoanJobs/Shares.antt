-- ===== src/LoanJobs/Shares.antt =====
-- The shares of a pool add up to the pool, but for rounding.
use native.Mathlib.Nat.{div-mul-le_self, add-mul, mul-suc, le_of_mul-le-mul_left}
use trust_up_api.Base.{
  ℕ, ◌+◌, ◌*◌, ◌≡◌, ◌<◌, ◌≤◌, ltb, Bool-cases, refl, inl, inr, List, [], ◌∷◌, keep, Each,
  DistinctBy, length, arith,
}
use trust_up_api.Loans.Money.{round_ratio}
use trust_up_api.LoanJobs.Defs.{LiquidityPosition, JobStore, JobSources, loan_key, position_key}
use trust_up_api.LoanJobs.Crediting.{Credits}
use trust_up_api.LoanJobs.Distribution.{distribute_run-Distributes}
use trust_up_api.LoanJobs.Yield.{
  share_of_pool, total_shares, bears_interest, distributable, distribute_run,
}

-- The sum of the shares of a pool.
total_credits : ℕ → ℕ → List LiquidityPosition → ℕ
total_credits total pool [] = 0
total_credits total pool (p ∷ positions) =
    share_of_pool p.shares total pool + total_credits total pool positions

round_ratio_le : (n d : ℕ) → round_ratio n d * (2 * d) ≤ 2 * n + d
round_ratio_le n d = div-mul-le_self (2 * n + d) (2 * d)

share_of_pool_le :
    (shares total pool : ℕ)
    → share_of_pool shares total pool * (2 * total) ≤ 2 * (shares * pool) + total
unfolding share_of_pool
share_of_pool_le shares total pool = ground (arith, round_ratio_le (shares * pool) total)

total_credits_le :
    (total pool : ℕ) (positions : List LiquidityPosition)
    → total_credits total pool positions * (2 * total)
      ≤ 2 * (total_shares positions * pool) + total * length positions
unfolding total_credits total_shares
total_credits_le total pool [] = omega arith
total_credits_le total pool (p ∷ positions) =
    let share = share_of_pool p.shares total pool in
    let rest = total_credits total pool positions in
    omega (
      arith,
      share_of_pool_le p.shares total pool,
      total_credits_le total pool positions,
      add-mul share rest (2 * total),
      add-mul p.shares (total_shares positions) pool,
      mul-suc total (length positions),
    )

-- At most half a unit per position is given out beyond the pool.
total_credits_bound :
    (pool : ℕ) (positions : List LiquidityPosition)
    → 0 < total_shares positions
    → 2 * total_credits (total_shares positions) pool positions ≤ 2 * pool + length positions
total_credits_bound pool positions h =
    let total = total_shares positions in
    let credits = total_credits total pool positions in
    let bound = total_credits_le total pool positions in
    let left : credits * (2 * total) ≡ total * (2 * credits) = grind arith in
    let right : 2 * (total * pool) + total * length positions
        ≡ total * (2 * pool + length positions) =
      grind arith in
    le_of_mul-le-mul_left {k = total} (omega arith) h

no_shares :
    (total pool : ℕ) (positions : List LiquidityPosition)
    → total ≡ 0
    → total_credits total pool positions ≡ 0
unfolding total_credits share_of_pool
no_shares total pool [] e = refl
no_shares total pool (p ∷ positions) e = ground (arith, no_shares total pool positions)

-- What the providers have been credited altogether.
pub total_yield : List LiquidityPosition → ℕ
total_yield [] = 0
total_yield (p ∷ positions) = p.lifetime_yield + total_yield positions

total_yield-Credits :
    (now total pool : ℕ) (ps qs : List LiquidityPosition)
    → Each (Credits now total pool) ps qs
    → (total_yield qs ≤ total_yield ps + total_credits total pool ps)
      × (total_yield ps ≤ total_yield qs)
unfolding total_yield total_credits
total_yield-Credits now total pool [] [] h = (omega arith, omega arith)
total_yield-Credits now total pool [] (q ∷ qs) h = absurd h
total_yield-Credits now total pool (p ∷ ps) [] h = absurd h
total_yield-Credits now total pool (p ∷ ps) (q ∷ qs) (inl e, h) =
    let rest = total_yield-Credits now total pool ps qs h in rw e (omega arith, omega arith)
total_yield-Credits now total pool (p ∷ ps) (q ∷ qs) (inr (share, e), h) =
    let rest = total_yield-Credits now total pool ps qs h in rw e (omega arith, omega arith)

credits_le :
    (pool : ℕ) (positions : List LiquidityPosition)
    → 2 * total_credits (total_shares positions) pool positions ≤ 2 * pool + length positions
credits_le pool positions = elim (Bool-cases (ltb 0 (total_shares positions))) [
  | inl some_shares ↦ total_credits_bound pool positions (ground arith)
  | inr none_left ↦
      let none_paid = no_shares (total_shares positions) pool positions (ground arith) in
      omega arith
]

-- Where the identifiers of positions and of loans are distinct, a run of the yield distribution,
-- whatever fails on the way, takes nothing back from the providers altogether, and credits them at
-- most the pool, with half a stroop of rounding for each position.
pub distribute_run-within_pool :
    (src : JobSources) (now period : ℕ) (s : JobStore)
    → DistinctBy position_key s.positions
    → DistinctBy loan_key s.loans
    → let t = (distribute_run src now period s).1 in
      (total_yield s.positions ≤ total_yield t.positions)
      × (2 * total_yield t.positions
          ≤ 2 * total_yield s.positions
            + 2 * distributable (keep bears_interest s.loans)
            + length s.positions)
distribute_run-within_pool src now period s apart distinct =
    let t = (distribute_run src now period s).1 in
    let pool = distributable (keep bears_interest s.loans) in
    let credited =
      total_yield-Credits now (total_shares s.positions) pool s.positions t.positions
        (distribute_run-Distributes src now period s apart distinct).0 in
    let bound = credits_le pool s.positions in (omega arith, omega arith)
