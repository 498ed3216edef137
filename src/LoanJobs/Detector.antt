-- ===== src/LoanJobs/Detector.antt =====
-- LoanDefaultDetectorProcessor (jobs/loan-default-detector/loan-default-detector.processor.ts).
use trust_up_api.Base.{
  ℕ, ◌+◌, ◌-◌, ◌*◌, ◌==◌, ◌&&◌, ltb, Bool, true, false, Option, none, some, List, [], ◌∷◌, ◌++◌,
  Result, ok, err, DbError, ◌>>=◌, if◌then◌else◌,
}
use trust_up_api.Loans.Defs.{Loan, LoanStatus, same_status}
use trust_up_api.LoanJobs.Defs.{
  JobName, JobRun, same_run, JobStore, JobError, Job, JobSources, put_runs, put_loans, claimed,
}

-- DEFAULT_GRACE_PERIOD_DAYS, in milliseconds
abbrev pub grace_period : ℕ
grace_period = 3 * 24 * 60 * 60 * 1000

-- `.lt('next_payment_due', cutoff)`, which a null never passes
abbrev pub is_due_before : ℕ → Option ℕ → Bool
is_due_before cutoff none = false
is_due_before cutoff (some due) = ltb due cutoff

abbrev pub is_overdue : ℕ → Loan → Bool
is_overdue now l =
    same_status l.status LoanStatus.active && is_due_before (now - grace_period) l.next_payment_due

abbrev pub is_active_with_id : ℕ → Loan → Bool
is_active_with_id id l = (l.id == id) && same_status l.status LoanStatus.active

abbrev pub default_loan : ℕ → Loan → Loan
default_loan now l = record l {
  status = LoanStatus.defaulted;
  defaulted_at = some now;
  updated_at = now;
}

abbrev pub detector_run : ℕ → ℕ → JobRun
detector_run period processed = record {
  job_name = JobName.loan_default_detector;
  period_key = period;
  processed = processed;
}

module _ (src : JobSources) where
  -- `claimRun`
  unfoldable pub claim_run : ℕ → Job Bool
  claim_run period s = claimed s (src.runs_table.insert (detector_run period 0) s.runs)

  -- An exception of the contract client is only logged.
  abbrev pub mark_default : ℕ → JobStore → JobStore
  mark_default loan_id s =
      if src.mark_default_fails loan_id then s else record s { marked = s.marked ++ loan_id ∷ [] }

  -- One round of the loop: the number of marked loans, and the store.
  abbrev pub marked_one : Loan → ℕ → JobStore → Result DbError (List Loan) → ℕ × JobStore
  marked_one loan count s (ok rows) = (count + 1, mark_default loan.loan_id (put_loans s rows))
  marked_one loan count s (err _) = (count, s)

  abbrev pub mark_loan : ℕ → Loan → ℕ → JobStore → ℕ × JobStore
  mark_loan now loan count s =
      marked_one loan count s
        (src.loans_table.update (is_active_with_id loan.id) (default_loan now) s.loans)

  unfoldable pub mark_all : ℕ → List Loan → ℕ → JobStore → ℕ × JobStore
  mark_all now [] count s = (count, s)
  mark_all now (loan ∷ loans) count s =
      let step = mark_loan now loan count s in mark_all now loans step.0 step.1

  -- The number of marked loans is written to the row of the run; an error is not looked at.
  unfoldable pub write_processed : ℕ → ℕ → JobStore → JobStore
  write_processed period count s =
      elim (src.runs_table.update (same_run (detector_run period 0))
        (λ r. record r { processed = count }) s.runs) [ ok rows ↦ put_runs s rows | err _ ↦ s ]

  unfoldable pub mark_found :
      ℕ → ℕ → JobStore → Result DbError (List Loan) → Result JobError (Unit {0}) × JobStore
  mark_found now period s (ok loans) =
      let done = mark_all now loans 0 s in (ok tt, write_processed period done.0 done.1)
  mark_found now period s (err _) = (err JobError.load_failed, s)

  abbrev pub detect_claimed : ℕ → ℕ → Bool → Job (Unit {0})
  detect_claimed now period false s = (ok tt, s)
  detect_claimed now period true s =
      mark_found now period s (src.loans_table.select (is_overdue now) s.loans)

  -- `process`, at a time of the day that the key names
  unfoldable pub detect_defaults : ℕ → ℕ → Job (Unit {0})
  detect_defaults now period = do is_mine ← claim_run period; detect_claimed now period is_mine
