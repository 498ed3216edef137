-- ===== src/LoanJobs/Elapsed.antt =====
-- Over any number of accruals no time is charged twice.
use trust_up_api.Base.{
  ℕ, suc, ◌+◌, ◌*◌, ◌≡◌, ◌<◌, ◌≤◌, refl, subst, ◌∙◌, inl, inr, List, [], ◌∷◌, length, arith,
}
use trust_up_api.Loans.Defs.{Loan}
use trust_up_api.Loans.Money.{round_ratio}
use trust_up_api.LoanJobs.Accrual.{
  day, days_between_utc, accrue_interest, accrual_of, accrual_start,
}
use trust_up_api.LoanJobs.Accruals.{Accrues}

-- Runs of the accrual at these times, in order, take one loan to the other.
abbrev pub AccrualRuns : List ℕ → Loan → Loan → Type 0
AccrualRuns [] l l' = l' ≡ l
AccrualRuns (now ∷ times) l l' = (m : Loan) × Accrues now l m × AccrualRuns times m l'

-- Within a number of runs, whole days that fit between the two starts were charged, each run with
-- half a stroop of rounding at most; 73000 is twice the number of days of a year in percent.
abbrev pub Charged : ℕ → Loan → Loan → Type 0
Charged runs l l' =
    (days : ℕ) × (accrual_start l + days * day ≤ accrual_start l')
    × (l'.accrued_interest * 73000
        ≤ l.accrued_interest * 73000
          + 2 * (l.remaining_balance * l.interest_rate * days)
          + 36500 * runs)
    × (l.accrued_interest ≤ l'.accrued_interest)
    × ((l'.remaining_balance ≡ l.remaining_balance) × (l'.interest_rate ≡ l.interest_rate))

round_ratio_bound : (x : ℕ) → round_ratio x 36500 * 73000 ≤ 2 * x + 36500
round_ratio_bound x = omega arith

accrue_interest_bound :
    (balance rate days : ℕ)
    → accrue_interest balance rate days * 73000 ≤ 2 * (balance * rate * days) + 36500
unfolding accrue_interest
accrue_interest_bound balance rate days = ground (arith, round_ratio_bound (balance * rate * days))

days_fit : (from to : ℕ) → 0 < days_between_utc from to → from + days_between_utc from to * day ≤ to
unfolding days_between_utc
days_fit from to h = omega arith

days_due : (balance rate days : ℕ) → 0 < accrue_interest balance rate days → 0 < days
unfolding accrue_interest
days_due balance rate days h = ground arith

Accrues-Charged : (now : ℕ) (l l' : Loan) → Accrues now l l' → Charged 1 l l'
unfolding accrual_of
Accrues-Charged now l l' (inl e) = rw e (0, omega arith, omega arith, omega arith, (refl, refl))
Accrues-Charged now l l' (inr (active, due, e)) =
    let days = days_between_utc (accrual_start l) now in
    let some_days = days_due l.remaining_balance l.interest_rate days due in
    let bound = accrue_interest_bound l.remaining_balance l.interest_rate days in
    rw e (days, days_fit (accrual_start l) now some_days, omega arith, omega arith, (refl, refl))

Charged-trans : (n k : ℕ) (l m l' : Loan) → Charged n l m → Charged k m l' → Charged (n + k) l l'
Charged-trans n k l m l' (d, fit, cost, grow, (b, r)) (d', fit', cost', grow', (b', r')) =
    let x = l.remaining_balance * l.interest_rate in
    let same : m.remaining_balance * m.interest_rate * d' ≡ x * d' = rw (b, r) refl in
    let spread : x * (d + d') ≡ x * d + x * d' = grind arith in
    (d + d', omega arith, omega arith, omega arith, (b' ∙ b, r' ∙ r))

add_one_run : (n : ℕ) → 1 + n ≡ suc n
add_one_run n = omega arith

-- After runs of the accrual at any times, on a loan whose balance and rate stay, the interest has
-- not gone down, and is at most that on a number of whole days that fit between the start of the
-- first and the time of the last accrual, with half a stroop per run.
pub AccrualRuns-Charged :
    (times : List ℕ) (l l' : Loan) → AccrualRuns times l l' → Charged (length times) l l'
AccrualRuns-Charged [] l l' e = rw e (0, omega arith, omega arith, omega arith, (refl, refl))
AccrualRuns-Charged (now ∷ times) l l' (m, step, rest) =
    subst (λ n. Charged n l l') (add_one_run (length times))
      (Charged-trans 1 (length times) l m l' (Accrues-Charged now l m step)
        (AccrualRuns-Charged times m l' rest))
