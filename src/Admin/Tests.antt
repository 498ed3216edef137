-- ===== src/Admin/Tests.antt =====
-- An override of one loan, and the theorems of the modules at it.
use trust_up_api.Base.{◌≡◌, false, none, some, [], ◌∷◌, ok, err, refl, inr, reliable, Each}
use trust_up_api.Loans.Defs.{Loan, LoanStatus}
use trust_up_api.Loans.Paid.{AllPaidUp}
use trust_up_api.Admin.Defs.{LoanOverride, AdminStore, AdminTables, AdminError}
use trust_up_api.Admin.Service.{
  valid_loan_transitions, OverrideLoanRequest, find_detailed_by_id, apply_loan_override,
  record_override, override_found, override_allowed, override_loan,
}
use trust_up_api.Admin.Overrides.{Overrides, override_loan-Overrides, override_loan-AllPaidUp}

abbrev tables : AdminTables
tables = record {
  users_table = reliable;
  applications_table = reliable;
  merchants_table = reliable;
  loan_sources = record { loans_table = reliable; queue_refuses = λ event. false };
  overrides_table = reliable;
  is_wallet = λ id. false;
}

abbrev active_loan : Loan
active_loan = record {
  id = 1;
  loan_id = 42;
  user_wallet = 7;
  merchant_id = some 5;
  amount = 125;
  loan_amount = 100;
  guarantee = 25;
  interest_rate = 10;
  total_repayment = 103;
  remaining_balance = 103;
  term = 4;
  status = LoanStatus.active;
  next_payment_due = none;
  xdr_hash = none;
  created_at = 100;
  updated_at = 100;
  completed_at = none;
  defaulted_at = none;
  accrued_interest = 0;
  distributed_interest = 0;
  last_accrual_at = none;
}

abbrev before : AdminStore
before = record {
  users = [];
  applications = [];
  merchants = [];
  repo = record { loans = active_loan ∷ []; changes = [] };
  overrides = [];
}

abbrev completion : OverrideLoanRequest
completion = record { target_status = LoanStatus.completed; reason = 9 }

abbrev completed_loan : Loan
completed_loan = record active_loan {
  status = LoanStatus.completed;
  remaining_balance = 0;
  completed_at = some 300;
  updated_at = 300;
}

abbrev entry : LoanOverride
entry = record {
  loan_id = 1;
  admin_id = none;
  admin_wallet = 8;
  previous_status = LoanStatus.active;
  new_status = LoanStatus.completed;
  reason = 9;
}

abbrev after : AdminStore
after = record before {
  repo = record {
    loans = completed_loan ∷ [];
    changes =
        record {
          loan_id = 42;
          merchant_id = some 5;
          user_wallet = 7;
          previous_status = LoanStatus.active;
          status = LoanStatus.completed;
        }
        ∷ [];
  };
  overrides = entry ∷ [];
}

override_at_300 :
    override_loan tables 300 false 42 completion 8 before
    ≡ (ok (LoanStatus.active, LoanStatus.completed), after)
unfolding override_loan find_detailed_by_id override_found valid_loan_transitions override_allowed
    apply_loan_override record_override
override_at_300 = refl

override_again :
    override_loan tables 301 false 42
      (record completion { target_status = LoanStatus.active })
      8
      after
    ≡ (err AdminError.loan_override_terminal_state, after)
unfolding override_loan find_detailed_by_id override_found valid_loan_transitions
override_again = refl

override_loan-Overrides_example : Each Overrides (active_loan ∷ []) (completed_loan ∷ [])
unfolding override_loan find_detailed_by_id override_found valid_loan_transitions override_allowed
    apply_loan_override record_override
override_loan-Overrides_example = override_loan-Overrides tables 300 false 42 completion 8 before

override_loan-AllPaidUp_example : AllPaidUp after.repo
unfolding override_loan find_detailed_by_id override_found valid_loan_transitions override_allowed
    apply_loan_override record_override
override_loan-AllPaidUp_example =
    override_loan-AllPaidUp tables 300 false 42 completion 8 before (inr refl, tt)
