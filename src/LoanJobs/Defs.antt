-- ===== src/LoanJobs/Defs.antt =====
-- The tables of the periodic loan jobs. A run is claimed by a row of `loan_job_runs`, whose job and
-- period are a unique key.
use trust_up_api.Base.{
  ◌≡◌, arith, ℕ, ◌==◌, ◌&&◌, Bool, true, false, Option, List, Table, Action, Result, ok, err,
  DbError,
}
use trust_up_api.Loans.Defs.{Loan}

pub data JobName : Type 0 where
  loan_default_detector interest_accrual yield_distribution : JobName

abbrev pub same_job : JobName → JobName → Bool
same_job JobName.loan_default_detector JobName.loan_default_detector = true
same_job JobName.interest_accrual JobName.interest_accrual = true
same_job JobName.yield_distribution JobName.yield_distribution = true
same_job _ _ = false

-- A row of `loan_job_runs`
pub record JobRun : Type 0 where
  pub job_name : JobName
  pub period_key : ℕ
  pub processed : ℕ

abbrev pub same_run : JobRun → JobRun → Bool
same_run r t = same_job r.job_name t.job_name && (r.period_key == t.period_key)

-- A row of `liquidity_positions`; shares and yields are whole numbers of their smallest unit.
pub record LiquidityPosition : Type 0 where
  pub id : ℕ
  pub provider_wallet : ℕ
  pub shares : ℕ
  pub lifetime_yield : ℕ
  pub last_yield_at : Option ℕ
  pub updated_at : ℕ

pub record JobStore : Type 0 where
  pub runs : List JobRun
  pub loans : List Loan
  pub positions : List LiquidityPosition
  -- the loans that the contract was told of, in order
  pub marked : List ℕ

pub data JobError : Type 0 where
  claim_failed load_failed : JobError

abbrev pub Job : Type 0 → Type 0
Job A = Action JobStore JobError A

pub record JobSources : Type 0 where
  pub runs_table : Table JobRun
  pub loans_table : Table Loan
  pub positions_table : Table LiquidityPosition
  -- CreditLineContractClient.markDefault: whether it throws
  pub mark_default_fails : ℕ → Bool

-- The primary keys
abbrev pub loan_key : Loan → ℕ
loan_key l = l.id

abbrev pub position_key : LiquidityPosition → ℕ
position_key p = p.id

abbrev pub put_runs : JobStore → List JobRun → JobStore
put_runs s rows = record s { runs = rows }

abbrev pub put_loans : JobStore → List Loan → JobStore
put_loans s rows = record s { loans = rows }

abbrev pub put_positions : JobStore → List LiquidityPosition → JobStore
put_positions s rows = record s { positions = rows }

abbrev pub job_run : JobName → ℕ → JobRun
job_run job period = record { job_name = job; period_key = period; processed = 0 }

-- The insert that claims a run: `false` if the period was claimed before.
abbrev pub claimed : JobStore → Result DbError (List JobRun) → Result JobError Bool × JobStore
claimed s (ok rows) = (ok true, put_runs s rows)
claimed s (err DbError.unique_violation) = (ok false, s)
claimed s (err DbError.other_error) = (err JobError.claim_failed, s)

module _ (src : JobSources) where
  unfoldable pub claim_job : JobName → ℕ → Job Bool
  claim_job job period s = claimed s (src.runs_table.insert (job_run job period) s.runs)

  -- The count that ends a run; an error is not looked at.
  unfoldable pub count_processed : JobName → ℕ → ℕ → JobStore → JobStore
  count_processed job period count s =
      elim (src.runs_table.update (same_run (job_run job period))
        (λ r. record r { processed = count }) s.runs) [ ok rows ↦ put_runs s rows | err _ ↦ s ]

  pub claim_job-keeps_loans :
      (job : JobName) (period : ℕ) (s : JobStore) → (claim_job job period s).1.loans ≡ s.loans
  unfolding claim_job
  claim_job-keeps_loans job period s = ground arith

  pub claim_job-keeps_positions :
      (job : JobName) (period : ℕ) (s : JobStore)
      → (claim_job job period s).1.positions ≡ s.positions
  unfolding claim_job
  claim_job-keeps_positions job period s = ground arith

  pub count_processed-keeps_loans :
      (job : JobName) (period count : ℕ) (s : JobStore)
      → (count_processed job period count s).loans ≡ s.loans
  unfolding count_processed
  count_processed-keeps_loans job period count s = ground arith

  pub count_processed-keeps_positions :
      (job : JobName) (period count : ℕ) (s : JobStore)
      → (count_processed job period count s).positions ≡ s.positions
  unfolding count_processed
  count_processed-keeps_positions job period count s = ground arith
