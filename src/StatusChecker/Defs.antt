-- ===== src/StatusChecker/Defs.antt =====
-- The data of TransactionStatusCheckerProcessor
-- (jobs/transaction-status-checker/transaction-status-checker.processor.ts) and of the repositories
-- of transactions and notifications.
use trust_up_api.Base.{ℕ, Option, Bool, true, false, List, Action}
use trust_up_api.Loans.Defs.{LoanStatus, LoansState}

-- modules/transactions/dto/submit-transaction-request.dto.ts
pub data TransactionType : Type 0 where
  loan_create loan_repay deposit withdraw : TransactionType

pub data TransactionStatus : Type 0 where
  pending success failed : TransactionStatus

abbrev pub is_pending : TransactionStatus → Bool
is_pending TransactionStatus.pending = true
is_pending _ = false

-- A row of `transactions`.
pub record Transaction : Type 0 where
  pub id : ℕ
  pub user_wallet : ℕ
  pub transaction_hash : ℕ
  pub type : TransactionType
  pub status : TransactionStatus
  pub xdr : Option ℕ
  pub submitted_at : ℕ
  pub updated_at : ℕ
  pub completed_at : Option ℕ
  pub error : Option ℕ

-- The fields of Horizon's answer that the job reads. `result_codes` is the text that
-- `extractHorizonError` makes of it: the code of the transaction, or all codes as JSON.
pub record HorizonTransactionResponse : Type 0 where
  pub successful : Option Bool
  pub result_codes : Option ℕ

-- What StellarService.getTransaction does.
pub data Lookup : Type 0 where
  response : HorizonTransactionResponse → Lookup
  transaction_not_found : Lookup
  lookup_failed : Lookup

pub data NotificationType : Type 0 where
  transaction_failed loan_create_success loan_repay_success transaction_success : NotificationType

-- The texts of `buildNotificationPayload`, by what they show.
pub data Message : Type 0 where
  failed_on_stellar : TransactionType → Option ℕ → Message
  loan_now_active : Option ℕ → Message
  repayment_confirmed : Option ℕ → Message
  confirmed : TransactionType → Message

-- A row of `notifications`, with the entries of its `data`.
pub record Notification : Type 0 where
  pub user_wallet : ℕ
  pub type : NotificationType
  pub message : Message
  pub transaction_hash : ℕ
  pub transaction_type : TransactionType
  pub loan_id : Option ℕ
  pub is_read : Bool

pub record FollowUpResult : Type 0 where
  pub loan_id : Option ℕ
  pub remaining_balance : Option ℕ
  pub loan_status : Option LoanStatus

pub record CheckerStore : Type 0 where
  pub transactions : List Transaction
  pub repo : LoansState
  pub notifications : List Notification

abbrev pub put_transactions : CheckerStore → List Transaction → CheckerStore
put_transactions s rows = record s { transactions = rows }

abbrev pub put_repo : CheckerStore → LoansState → CheckerStore
put_repo s r = record s { repo = r }

abbrev pub put_notifications : CheckerStore → List Notification → CheckerStore
put_notifications s rows = record s { notifications = rows }

-- An exception that reaches the `catch` of the loop.
pub data CheckerError : Type 0 where
  database_query_error horizon_error : CheckerError

abbrev pub Checker : Type 0 → Type 0
Checker A = Action CheckerStore CheckerError A
