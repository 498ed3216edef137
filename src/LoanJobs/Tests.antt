-- ===== src/LoanJobs/Tests.antt =====
-- Two runs of the default detector on one overdue loan, and the theorems of the modules at them.
use trust_up_api.Base.{
  ℕ, ◌+◌, ◌≡◌, any, keep, true, false, none, some, List, [], ◌∷◌, ok, err, refl, DbError, reliable,
  with_unique_key, Each,
}
use trust_up_api.Loans.Defs.{Loan, LoanStatus}
use trust_up_api.LoanJobs.Defs.{JobRun, same_run, JobStore, JobSources}
use trust_up_api.LoanJobs.Detector.{
  is_overdue, detector_run, claim_run, mark_all, mark_found, write_processed, detect_defaults,
}
use trust_up_api.LoanJobs.Defaults.{Defaults, detect_defaults-Defaults}
use trust_up_api.LoanJobs.Period.{detect_defaults-once}

abbrev sources : JobSources
sources = record {
  runs_table = with_unique_key same_run;
  loans_table = reliable;
  positions_table = reliable;
  mark_default_fails = λ loan_id. false;
}

abbrev late_loan : Loan
late_loan = record {
  id = 1;
  loan_id = 42;
  user_wallet = 7;
  merchant_id = some 5;
  amount = 125;
  loan_amount = 100;
  guarantee = 25;
  interest_rate = 10;
  total_repayment = 103;
  remaining_balance = 103;
  term = 4;
  status = LoanStatus.active;
  next_payment_due = some 500;
  xdr_hash = none;
  created_at = 100;
  updated_at = 100;
  completed_at = none;
  defaulted_at = none;
  accrued_interest = 0;
  distributed_interest = 0;
  last_accrual_at = none;
}

abbrev now : ℕ
now = 259200501

abbrev before : JobStore
before = record { runs = []; loans = late_loan ∷ []; positions = []; marked = [] }

abbrev defaulted_loan : Loan
defaulted_loan = record late_loan {
  status = LoanStatus.defaulted;
  updated_at = now;
  defaulted_at = some now;
}

abbrev after : JobStore
after = record {
  runs = detector_run 3 1 ∷ [];
  loans = defaulted_loan ∷ [];
  positions = [];
  marked = 42 ∷ [];
}

detects : detect_defaults sources now 3 before ≡ (ok tt, after)
unfolding detect_defaults claim_run mark_found write_processed mark_all
detects = refl

in_time : (detect_defaults sources 259200500 3 before).1.loans ≡ late_loan ∷ []
unfolding detect_defaults claim_run mark_found write_processed mark_all
in_time = refl

detect_defaults-Defaults_example :
    Each (Defaults (keep (is_overdue now) before.loans)) (late_loan ∷ []) (defaulted_loan ∷ [])
unfolding detect_defaults claim_run mark_found write_processed mark_all
detect_defaults-Defaults_example = detect_defaults-Defaults sources now 3 before

refuses :
    (r : JobRun) (rows : List JobRun)
    → any (same_run r) rows ≡ true
    → sources.runs_table.insert r rows ≡ err DbError.unique_violation
refuses r rows known = rw known refl

detect_defaults-once_example : detect_defaults sources (now + 7) 3 after ≡ (ok tt, after)
unfolding detect_defaults claim_run mark_found write_processed mark_all
detect_defaults-once_example =
    detect_defaults-once sources refuses now (now + 7) 3 before (detector_run 3 0 ∷ []) refl
