-- ===== src/LoanJobs/Yield.antt =====
-- YieldDistributionProcessor (jobs/yield-distribution/yield-distribution.processor.ts).
use trust_up_api.Base.{
  ℕ, ◌+◌, ◌-◌, ◌*◌, ◌==◌, ◌||◌, ◌&&◌, ltb, leb, Bool, true, false, some, List, [], ◌∷◌, Result, ok,
  err, DbError, ◌>>=◌, if◌then◌else◌,
}
use trust_up_api.Loans.Defs.{Loan, LoanStatus}
use trust_up_api.Loans.Money.{round_ratio}
use trust_up_api.LoanJobs.Defs.{
  JobName, LiquidityPosition, JobStore, JobError, Job, JobSources, put_loans, put_positions,
  claim_job, count_processed,
}

-- `Math.round((shares / totalShares) * poolYield * 1e7) / 1e7`, in stroops
unfoldable pub share_of_pool : ℕ → ℕ → ℕ → ℕ
share_of_pool shares total_shares pool_yield =
    if leb shares 0 || (leb total_shares 0 || leb pool_yield 0)
    then 0
    else round_ratio (shares * pool_yield) total_shares

-- A negative difference counts as 0, where the subtraction stops.
unfoldable pub undistributed_interest : ℕ → ℕ → ℕ
undistributed_interest accrued distributed = accrued - distributed

-- `.in('status', ['active', 'completed', 'defaulted'])`
abbrev pub bears_interest : Loan → Bool
bears_interest l = elim l.status [
  | LoanStatus.active ↦ true
  | LoanStatus.completed ↦ true
  | LoanStatus.defaulted ↦ true
  | _ ↦ false
]

unfoldable pub pending_of : Loan → ℕ
unfolding undistributed_interest
pending_of l = undistributed_interest l.accrued_interest l.distributed_interest

unfoldable pub pool_interest : List Loan → ℕ
unfolding pending_of
pool_interest [] = 0
pool_interest (l ∷ loans) = pending_of l + pool_interest loans

-- `Math.round(poolInterest * LP_YIELD_RATIO * 1e7) / 1e7` with a ratio of 0.85
abbrev pub lp_yield : ℕ → ℕ
lp_yield pool = round_ratio (pool * 85) 100

unfoldable pub distributable : List Loan → ℕ
unfolding pool_interest
distributable loans = lp_yield (pool_interest loans)

unfoldable pub total_shares : List LiquidityPosition → ℕ
total_shares [] = 0
total_shares (p ∷ positions) = p.shares + total_shares positions

-- The columns that are written to a row for a position, or a loan, that was loaded.
abbrev pub write_credit : ℕ → ℕ → LiquidityPosition → LiquidityPosition → LiquidityPosition
write_credit now amount position p = record p {
  lifetime_yield = position.lifetime_yield + amount;
  last_yield_at = some now;
  updated_at = now;
}

abbrev pub write_checkpoint : ℕ → Loan → Loan → Loan
write_checkpoint now loan l = record l {
  distributed_interest = loan.distributed_interest + pending_of loan;
  updated_at = now;
}

module _ (src : JobSources) (now : ℕ) where
  module _ (total pool : ℕ) where
    abbrev pub credit_of : LiquidityPosition → ℕ
    credit_of p = share_of_pool p.shares total pool

    abbrev pub credit_written :
        JobStore → ℕ → Result DbError (List LiquidityPosition) → ℕ × JobStore
    credit_written s paid (ok rows) = (paid + 1, put_positions s rows)
    credit_written s paid (err _) = (paid, s)

    unfoldable pub credit_lp : LiquidityPosition → ℕ → JobStore → ℕ × JobStore
    unfolding share_of_pool
    credit_lp position paid s =
        if leb (credit_of position) 0
        then (paid, s)
        else credit_written s paid (
            src.positions_table.update (λ p. p.id == position.id)
              (write_credit now (credit_of position) position) s.positions)

    unfoldable pub credit_all : List LiquidityPosition → ℕ → JobStore → ℕ × JobStore
    unfolding credit_lp
    credit_all [] paid s = (paid, s)
    credit_all (position ∷ positions) paid s =
        let step = credit_lp position paid s in credit_all positions step.0 step.1

  abbrev pub checkpoint_written : JobStore → Result DbError (List Loan) → JobStore
  checkpoint_written s (ok rows) = put_loans s rows
  checkpoint_written s (err _) = s

  unfoldable pub checkpoint : Loan → JobStore → JobStore
  unfolding pending_of
  checkpoint loan s =
      if leb (pending_of loan) 0
      then s
      else checkpoint_written s
          (src.loans_table.update (λ l. l.id == loan.id) (write_checkpoint now loan) s.loans)

  unfoldable pub checkpoint_all : List Loan → JobStore → JobStore
  unfolding checkpoint
  checkpoint_all [] s = s
  checkpoint_all (loan ∷ loans) s = checkpoint_all loans (checkpoint loan s)

  -- What follows the credits: the number of paid positions, and the store.
  unfoldable pub after_credits : ℕ → List Loan → ℕ → ℕ → ℕ → JobStore → JobStore
  unfolding checkpoint_all count_processed
  after_credits period loans total pool paid s =
      count_processed src JobName.yield_distribution period paid
        (if ltb 0 paid && (ltb 0 total && ltb 0 pool) then checkpoint_all loans s else s)

  unfoldable pub distribute_to :
      ℕ
      → List Loan
      → JobStore
      → Result DbError (List LiquidityPosition)
      → Result JobError (Unit {0}) × JobStore
  unfolding credit_all after_credits distributable total_shares
  distribute_to period loans s (ok positions) =
      let total = total_shares positions in
      let pool = distributable loans in
      let done = credit_all total pool positions 0 s in
      (ok tt, after_credits period loans total pool done.0 done.1)
  distribute_to period loans s (err _) = (err JobError.load_failed, s)

  unfoldable pub distribute_found :
      ℕ → JobStore → Result DbError (List Loan) → Result JobError (Unit {0}) × JobStore
  unfolding distribute_to
  distribute_found period s (ok loans) =
      distribute_to period loans s (src.positions_table.select (λ p. true) s.positions)
  distribute_found period s (err _) = (err JobError.load_failed, s)

  abbrev pub distribute_claimed : ℕ → Bool → Job (Unit {0})
  distribute_claimed period false s = (ok tt, s)
  distribute_claimed period true s =
      distribute_found period s (src.loans_table.select bears_interest s.loans)

  -- `process`, on the day that the period names
  unfoldable pub distribute_run : ℕ → Job (Unit {0})
  unfolding claim_job distribute_found
  distribute_run period = do
    is_mine ← claim_job src JobName.yield_distribution period
    distribute_claimed period is_mine
