-- ===== src/Merchants/Bounds.antt =====
-- How the score of a merchant depends on its loans.
use native.Mathlib.Nat.{div-mul-le_self, le_of_mul-le-mul_right, add-mul}
use trust_up_api.Base.{
  ℕ, zero, suc, ◌+◌, ◌*◌, ◌≤◌, ◌≡◌, ◌==◌, refl, inl, inr, Bool-cases, List, [], ◌∷◌, length, arith,
}
use trust_up_api.Loans.Defs.{Loan}
use trust_up_api.Reputation.Terms.{map_to_reputation}
use trust_up_api.Merchants.Score.{
  LoanCounts, MerchantLoanAggregate, MerchantScoreResult, no_loans, count_loan, count_loans,
  rate_of, score_points, aggregate_loans, calculate_score,
}

abbrev counted : LoanCounts → ℕ
counted c = c.active + c.completed + c.defaulted

count_loans-counted :
    (loans : List Loan) (c : LoanCounts) → counted (count_loans loans c) ≤ counted c + length loans
unfolding count_loans
count_loans-counted [] c = omega arith
count_loans-counted (l ∷ loans) c =
    let rest = count_loans-counted loans (count_loan l c) in
    let one : counted (count_loan l c) ≤ counted c + 1 = ground arith in omega (arith, rest, one)

rate_of_bounds : (n total : ℕ) → rate_of n total * (2 * total) ≤ 20000 * n + total
rate_of_bounds n total = ground (arith, div-mul-le_self (2 * (n * 10000) + total) (2 * total))

rates_le : (c d total : ℕ) → c + d ≤ total → rate_of c total + rate_of d total ≤ 10001
rates_le c d zero h = omega arith
rates_le c d (suc n) h =
    let total = suc n in
    let x = rate_of c total in
    let y = rate_of d total in
    le_of_mul-le-mul_right {m = x + y} {n = 10001} {k = 2 * total}
      (omega (arith, rate_of_bounds c total, rate_of_bounds d total, add-mul x y (2 * total)))
      (omega arith)

-- The score of a merchant whose loans are these.
abbrev pub score_of : List Loan → MerchantScoreResult
score_of loans = calculate_score (aggregate_loans loans)

-- The score is near 0.9 of the repayment rate: at most 10 points above, and below by half of the
-- default rate at most, but for rounding. The tier is that of the reputation service.
abbrev pub IsScoreOf : MerchantLoanAggregate → MerchantScoreResult → Type 0
IsScoreOf a r =
    (a.active_loans + a.completed_loans + a.defaulted_loans ≤ a.total_loans)
    × (a.repayment_rate + a.default_rate ≤ 10001)
    × (r.score ≤ 100)
    × (1000 * r.score ≤ 9 * a.repayment_rate + 10500)
    × (9 * a.repayment_rate ≤ 1000 * r.score + 5 * a.default_rate + 500)
    × (r.tier ≡ (map_to_reputation 0 r.score 0).tier)

score_points_bounds :
    (a : MerchantLoanAggregate)
    → a.repayment_rate ≤ 10001
    → (score_points a ≤ 100)
      × (1000 * score_points a ≤ 9 * a.repayment_rate + 10500)
      × (9 * a.repayment_rate ≤ 1000 * score_points a + 5 * a.default_rate + 500)
score_points_bounds a h = (omega arith, omega arith, omega arith)

calculate_score_near :
    (a : MerchantLoanAggregate)
    → a.active_loans + a.completed_loans + a.defaulted_loans ≤ a.total_loans
    → a.repayment_rate + a.default_rate ≤ 10001
    → (a.total_loans ≡ 0 → a.repayment_rate ≡ 0)
    → IsScoreOf a (calculate_score a)
unfolding calculate_score map_to_reputation
calculate_score_near a counts rates empty = elim (Bool-cases (a.total_loans == 0)) [
  | inl e ↦ rw e (counts, rates, omega arith, omega arith, ground arith, refl)
  | inr e ↦
      let (le, above, below) = score_points_bounds a (omega arith) in
      rw e (counts, rates, le, above, below, ground arith)
]

-- Of the loans of a merchant, the active, completed and defaulted ones are at most all, and the
-- rates at most one whole, but for rounding. The score is at most 100, at most 10 points above 0.9
-- of the repayment rate, and below it by at most half of the default rate, but for rounding; its
-- tier is the one that the reputation service gives to this score.
pub calculate_score-IsScoreOf :
    (loans : List Loan) → IsScoreOf (aggregate_loans loans) (score_of loans)
unfolding aggregate_loans calculate_score map_to_reputation
calculate_score-IsScoreOf loans =
    let c = count_loans loans no_loans in
    let counts = count_loans-counted loans no_loans in
    let total = length loans in
    calculate_score_near (aggregate_loans loans) (omega (arith, counts))
      (rates_le c.completed c.defaulted total (omega (arith, counts))) (λ none. ground arith)
