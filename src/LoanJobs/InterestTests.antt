-- ===== src/LoanJobs/InterestTests.antt =====
-- A loan over two days and a distribution to two providers, and the theorems at them.
use trust_up_api.Base.{
  ℕ, ◌+◌, ◌*◌, ◌≡◌, ◌≤◌, All, false, none, some, [], ◌∷◌, ok, refl, inl, inr, reliable,
  with_unique_key, Each, arith,
}
use trust_up_api.Loans.Defs.{Loan, LoanStatus}
use trust_up_api.LoanJobs.Defs.{
  JobName, same_run, LiquidityPosition, JobStore, JobSources, claim_job, count_processed, job_run,
}
use trust_up_api.LoanJobs.Accrual.{
  days_between_utc, accrue_interest, accrual_of, accrue_loan, accrue_all, accrue_found, accrue_run,
}
use trust_up_api.LoanJobs.Accruals.{Accrues, accrue_run-Accrues}
use trust_up_api.LoanJobs.Elapsed.{AccrualRuns, Charged, AccrualRuns-Charged}
use trust_up_api.LoanJobs.Yield.{
  distributable, credit_all, after_credits, distribute_to, distribute_found, distribute_run,
}
use trust_up_api.LoanJobs.Shares.{total_yield, distribute_run-within_pool}
use trust_up_api.LoanJobs.Interest.{IsBacked, jobs-AllBacked}

abbrev sources : JobSources
sources = record {
  runs_table = with_unique_key same_run;
  loans_table = reliable;
  positions_table = reliable;
  mark_default_fails = λ loan_id. false;
}

-- 100 dollars at 10 percent, since time 0
abbrev lent : Loan
lent = record {
  id = 1;
  loan_id = 42;
  user_wallet = 7;
  merchant_id = some 5;
  amount = 1250000000;
  loan_amount = 1000000000;
  guarantee = 250000000;
  interest_rate = 10;
  total_repayment = 1033300000;
  remaining_balance = 1000000000;
  term = 4;
  status = LoanStatus.active;
  next_payment_due = some 900000000;
  xdr_hash = none;
  created_at = 0;
  updated_at = 0;
  completed_at = none;
  defaulted_at = none;
  accrued_interest = 0;
  distributed_interest = 0;
  last_accrual_at = none;
}

abbrev provider : ℕ → ℕ → LiquidityPosition
provider id shares = record {
  id = id;
  provider_wallet = id;
  shares = shares;
  lifetime_yield = 0;
  last_yield_at = none;
  updated_at = 0;
}

abbrev before : JobStore
before = record {
  runs = [];
  loans = lent ∷ [];
  positions = provider 1 2 ∷ provider 2 1 ∷ [];
  marked = [];
}

-- Two days and an hour later
abbrev now : ℕ
now = 176400000

-- 547945 stroops are 5.48 cents.
abbrev accrued : Loan
accrued = record lent { accrued_interest = 547945; last_accrual_at = some now; updated_at = now }

abbrev after_accrual : JobStore
after_accrual = record before {
  runs = record (job_run JobName.interest_accrual 49) { processed = 1 } ∷ [];
  loans = accrued ∷ [];
}

accrues : accrue_run sources now 49 before ≡ (ok tt, after_accrual)
unfolding accrue_run claim_job accrue_found accrue_all accrue_loan accrual_of accrue_interest
    days_between_utc count_processed
accrues = refl

accrue_run-Accrues_example : Each (Accrues now) (lent ∷ []) (accrued ∷ [])
unfolding accrue_run claim_job accrue_found accrue_all accrue_loan accrual_of accrue_interest
    days_between_utc count_processed
accrue_run-Accrues_example = accrue_run-Accrues sources now 49 before (refl, tt)

-- A second run within the day adds nothing.
one_accrual : AccrualRuns (now ∷ (now + 3600000) ∷ []) lent accrued
unfolding accrual_of accrue_interest days_between_utc
one_accrual = (accrued, inr (refl, omega arith, refl), (accrued, inl refl, refl))

AccrualRuns-Charged_example : Charged 2 lent accrued
AccrualRuns-Charged_example =
    AccrualRuns-Charged (now ∷ (now + 3600000) ∷ []) lent accrued one_accrual

abbrev credited : ℕ → ℕ → ℕ → LiquidityPosition
credited id shares amount = record (provider id shares) {
  lifetime_yield = amount;
  last_yield_at = some now;
  updated_at = now;
}

abbrev after_yield : JobStore
after_yield = record after_accrual {
  runs =
      record (job_run JobName.interest_accrual 49) { processed = 1 }
      ∷ record (job_run JobName.yield_distribution 2) { processed = 2 }
      ∷ [];
  loans = record accrued { distributed_interest = 547945 } ∷ [];
  positions = credited 1 2 310502 ∷ credited 2 1 155251 ∷ [];
}

distributes : distribute_run sources now 2 after_accrual ≡ (ok tt, after_yield)
unfolding distribute_run claim_job distribute_found distribute_to credit_all after_credits
    count_processed
distributes = refl

distribute_run-within_pool_example :
    (total_yield after_accrual.positions ≤ total_yield after_yield.positions)
    × (2 * total_yield after_yield.positions
        ≤ 2 * total_yield after_accrual.positions + 2 * distributable (accrued ∷ []) + 2)
unfolding distribute_run claim_job distribute_found distribute_to credit_all after_credits
    count_processed
distribute_run-within_pool_example =
    distribute_run-within_pool sources now 2 after_accrual (refl, (refl, tt)) (refl, tt)

jobs-AllBacked_example :
    All IsBacked (accrue_run sources now 2 after_accrual).1.loans × All IsBacked after_yield.loans
unfolding distribute_run claim_job distribute_found distribute_to credit_all after_credits
    count_processed
jobs-AllBacked_example =
    jobs-AllBacked sources now 2 after_accrual (refl, (refl, tt)) (refl, tt) (omega arith, tt)
