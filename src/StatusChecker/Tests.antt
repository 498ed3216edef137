-- ===== src/StatusChecker/Tests.antt =====
-- One run of the job on a small store, and the theorems of its modules at concrete inputs.
use trust_up_api.Base.{
  ℕ, Option, ◌*◌, ◌≡◌, ◌⊎◌, inr, refl, none, some, true, false, [], ◌∷◌, ok, reliable,
}
use trust_up_api.Loans.Money.{cent}
use trust_up_api.Loans.Defs.{Loan, LoanStatus}
use trust_up_api.Loans.Repository.{LoanSources, update_by_loan_id_and_wallet}
use trust_up_api.Loans.Paid.{AllPaidUp}
use trust_up_api.StatusChecker.Defs.{
  Transaction, TransactionType, TransactionStatus, CheckerStore, response, NotificationType,
  repayment_confirmed,
}
use trust_up_api.StatusChecker.Metadata.{
  FunctionName, invocation, text, bigint, pos, negsuc, parse_transaction_metadata,
}
use trust_up_api.StatusChecker.FollowUp.{
  with_balance, apply_loan_repayment, apply_follow_up_actions,
}
use trust_up_api.StatusChecker.Process.{
  CheckerSources, create_notification, finalize_transaction, process_transaction, process_all,
  process, cleanup_old_transactions,
}
use trust_up_api.StatusChecker.Once.{finalize_transaction-once}
use trust_up_api.StatusChecker.Evolution.{Evolves, process_all-Evolves}
use trust_up_api.StatusChecker.Repayment.{Outcome, apply_loan_repayment-Repays}
use trust_up_api.StatusChecker.Paid.{PaysNothingBack}
use trust_up_api.StatusChecker.Run.{process-AllPaidUp}

abbrev loan_row : Loan
loan_row = record {
  id = 1;
  loan_id = 42;
  user_wallet = 7;
  merchant_id = some 5;
  amount = cent * 12500;
  loan_amount = cent * 10000;
  guarantee = cent * 2500;
  interest_rate = 10;
  total_repayment = cent * 10333;
  remaining_balance = cent * 10333;
  term = 4;
  status = LoanStatus.active;
  next_payment_due = none;
  xdr_hash = none;
  created_at = 100;
  updated_at = 100;
  completed_at = none;
  defaulted_at = none;
  accrued_interest = 0;
  distributed_interest = 0;
  last_accrual_at = none;
}

abbrev loan_sources : LoanSources
loan_sources = record { loans_table = reliable; queue_refuses = λ event. false }

abbrev repayment : Transaction
repayment = record {
  id = 1;
  user_wallet = 7;
  transaction_hash = 99;
  type = TransactionType.loan_repay;
  status = TransactionStatus.pending;
  xdr = some 3;
  submitted_at = 200;
  updated_at = 200;
  completed_at = none;
  error = none;
}

-- Every transaction is confirmed, and repays the whole balance of loan 42.
abbrev sources : CheckerSources
sources = record {
  loan_sources = loan_sources;
  transactions_table = reliable;
  notifications_table = reliable;
  find_pending = λ rows. ok rows;
  get_transaction = λ hash. response (record { successful = some true; result_codes = none });
  from_xdr = λ xdr. invocation (record {
    function_name = FunctionName.repay_loan;
    args = text 7 ∷ text 42 ∷ bigint 9 (pos (cent * 10333)) ∷ [];
  });
}

abbrev before : CheckerStore
before = record {
  transactions = repayment ∷ [];
  repo = record { loans = loan_row ∷ []; changes = [] };
  notifications = [];
}

abbrev paid_loan : Loan
paid_loan = record loan_row {
  remaining_balance = 0;
  status = LoanStatus.completed;
  updated_at = 300;
  completed_at = some 300;
}

abbrev settled_repayment : Transaction
settled_repayment = record repayment {
  status = TransactionStatus.success;
  updated_at = 300;
  completed_at = some 300;
}

abbrev after : CheckerStore
after = record {
  transactions = settled_repayment ∷ [];
  repo = record {
    loans = paid_loan ∷ [];
    changes =
        record {
          loan_id = 42;
          merchant_id = some 5;
          user_wallet = 7;
          previous_status = LoanStatus.active;
          status = LoanStatus.completed;
        }
        ∷ [];
  };
  notifications =
      record {
        user_wallet = 7;
        type = NotificationType.loan_repay_success;
        message = repayment_confirmed (some 0);
        transaction_hash = 99;
        transaction_type = TransactionType.loan_repay;
        loan_id = some 42;
        is_read = false;
      }
      ∷ [];
}

run_once : process sources 300 before ≡ after
unfolding process cleanup_old_transactions process_all process_transaction finalize_transaction
    apply_follow_up_actions parse_transaction_metadata apply_loan_repayment
    update_by_loan_id_and_wallet create_notification
run_once = refl

finalize_transaction-once_example :
    (after ≡ before)
    ⊎ ((finalize_transaction sources 301 repayment TransactionStatus.failed none after).1 ≡ after)
unfolding finalize_transaction apply_follow_up_actions parse_transaction_metadata
    apply_loan_repayment update_by_loan_id_and_wallet create_notification
finalize_transaction-once_example =
    finalize_transaction-once sources 300 301 repayment repayment TransactionStatus.success
      TransactionStatus.failed none none before refl refl

process_all-Evolves_example : Evolves (repayment ∷ []) (settled_repayment ∷ [])
unfolding process_all process_transaction finalize_transaction apply_follow_up_actions
    parse_transaction_metadata apply_loan_repayment update_by_loan_id_and_wallet create_notification
process_all-Evolves_example = process_all-Evolves sources 300 (repayment ∷ []) before

sources-not_negative :
    (xdr : Option ℕ) → PaysNothingBack (parse_transaction_metadata sources.from_xdr xdr)
unfolding parse_transaction_metadata
sources-not_negative none = tt
sources-not_negative (some xdr) = refl

process-AllPaidUp_example : AllPaidUp after.repo
unfolding process cleanup_old_transactions process_all process_transaction finalize_transaction
    apply_follow_up_actions parse_transaction_metadata apply_loan_repayment
    update_by_loan_id_and_wallet create_notification
process-AllPaidUp_example = process-AllPaidUp sources sources-not_negative 300 before (inr refl, tt)

-- A call with -0.01 dollars makes a completed loan owe a cent, and leaves it completed.
raises_balance :
    (apply_loan_repayment loan_sources 301 42 7 (negsuc 99999) after.repo).1.loans
    ≡ record paid_loan { remaining_balance = cent; updated_at = 301 } ∷ []
unfolding apply_loan_repayment update_by_loan_id_and_wallet
raises_balance = refl

apply_loan_repayment-Repays_example :
    Outcome loan_sources 42 7
      (pos (cent * 10333))
      before.repo
      (ok (with_balance 42 0 LoanStatus.completed), after.repo)
unfolding apply_loan_repayment update_by_loan_id_and_wallet
apply_loan_repayment-Repays_example =
    apply_loan_repayment-Repays loan_sources 42 7 (pos (cent * 10333)) before.repo 300
