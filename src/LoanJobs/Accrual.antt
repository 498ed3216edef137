-- ===== src/LoanJobs/Accrual.antt =====
-- InterestAccrualProcessor (jobs/interest-accrual/interest-accrual.processor.ts).
use trust_up_api.Base.{
  ℕ, ◌+◌, ◌-◌, ◌*◌, ◌/◌, ◌==◌, ◌||◌, ◌&&◌, leb, Bool, true, false, some, get_or, List, [], ◌∷◌,
  Result, ok, err, DbError, ◌>>=◌, if◌then◌else◌,
}
use trust_up_api.Loans.Defs.{Loan, LoanStatus, same_status}
use trust_up_api.Loans.Money.{round_ratio}
use trust_up_api.LoanJobs.Defs.{
  JobName, JobStore, JobError, Job, JobSources, put_loans, claim_job, count_processed,
}

abbrev pub day : ℕ
day = 86400000

-- `Math.max(0, Math.floor(ms / 86_400_000))`; subtraction stops at 0, as the maximum does.
unfoldable pub days_between_utc : ℕ → ℕ → ℕ
days_between_utc from to = (to - from) / day

-- In stroops: `balance * rate / 100 / 365 * days`, rounded to 7 decimals of a dollar.
unfoldable pub accrue_interest : ℕ → ℕ → ℕ → ℕ
accrue_interest balance rate days =
    if leb days 0 || (leb balance 0 || leb rate 0)
    then 0
    else round_ratio (balance * rate * days) 36500

-- `loan.last_accrual_at || loan.created_at`
abbrev pub accrual_start : Loan → ℕ
accrual_start l = get_or l.last_accrual_at l.created_at

unfoldable pub accrual_of : ℕ → Loan → ℕ
unfolding accrue_interest days_between_utc
accrual_of now l =
    accrue_interest l.remaining_balance l.interest_rate (days_between_utc (accrual_start l) now)

-- The columns that are written to a row for a loan that was loaded.
abbrev pub write_accrual : ℕ → Loan → Loan → Loan
write_accrual now loan l = record l {
  accrued_interest = loan.accrued_interest + accrual_of now loan;
  last_accrual_at = some now;
  updated_at = now;
}

abbrev pub is_active : Loan → Bool
is_active l = same_status l.status LoanStatus.active

module _ (src : JobSources) (now : ℕ) where
  abbrev pub accrual_written : JobStore → ℕ → Result DbError (List Loan) → ℕ × JobStore
  accrual_written s count (ok rows) = (count + 1, put_loans s rows)
  accrual_written s count (err _) = (count, s)

  -- One round: the number of loans updated so far, and the store.
  unfoldable pub accrue_loan : Loan → ℕ → JobStore → ℕ × JobStore
  unfolding accrual_of
  accrue_loan loan count s =
      if leb (accrual_of now loan) 0
      then (count, s)
      else accrual_written s count (
          src.loans_table.update (λ l. (l.id == loan.id) && is_active l) (write_accrual now loan)
            s.loans)

  unfoldable pub accrue_all : List Loan → ℕ → JobStore → ℕ × JobStore
  unfolding accrue_loan
  accrue_all [] count s = (count, s)
  accrue_all (loan ∷ loans) count s =
      let step = accrue_loan loan count s in accrue_all loans step.0 step.1

  unfoldable pub accrue_found :
      ℕ → JobStore → Result DbError (List Loan) → Result JobError (Unit {0}) × JobStore
  unfolding accrue_all count_processed
  accrue_found period s (ok loans) =
      let done = accrue_all loans 0 s in
      (ok tt, count_processed src JobName.interest_accrual period done.0 done.1)
  accrue_found period s (err _) = (err JobError.load_failed, s)

  abbrev pub accrue_claimed : ℕ → Bool → Job (Unit {0})
  accrue_claimed period false s = (ok tt, s)
  accrue_claimed period true s = accrue_found period s (src.loans_table.select is_active s.loans)

  -- `process`, in the hour that the period names
  unfoldable pub accrue_run : ℕ → Job (Unit {0})
  unfolding claim_job accrue_found
  accrue_run period = do
    is_mine ← claim_job src JobName.interest_accrual period
    accrue_claimed period is_mine
