-- ===== src/Transactions/Defs.antt =====
-- The data of TransactionsService: what Horizon answers, what the service answers, and its store,
-- which shares the table of transactions with the status checker.
use trust_up_api.Base.{ℕ, Bool, Option, List, Table, Cache, Result, Action}
use trust_up_api.StatusChecker.Defs.{TransactionType, TransactionStatus, Transaction, CheckerStore}

-- The codes of HORIZON_ERROR_MAP, and all others
pub data ResultCode : Type 0 where
  op_bad_auth op_no_source_account op_underfunded tx_bad_seq tx_insufficient_balance : ResultCode
  tx_bad_auth tx_failed tx_too_late tx_too_early tx_insufficient_fee tx_no_account : ResultCode
  other_code : ℕ → ResultCode

-- A rejected submission: the result codes of the transaction and its operations, if there are any,
-- and the message in lower case.
pub record SubmissionFault : Type 0 where
  pub result_codes : Option (Option ResultCode × List ResultCode)
  pub message : List ℕ

-- The fields of Horizon's answer that the service reads
pub record HorizonTransaction : Type 0 where
  pub hash : ℕ
  pub successful : Bool
  pub details : ℕ
  pub created_at : ℕ
  pub result_xdr : ℕ

-- StellarService.getTransaction
pub data HorizonLookup : Type 0 where
  found : HorizonTransaction → HorizonLookup
  not_found network_error other_error : HorizonLookup

-- The text of HORIZON_ERROR_MAP, or the code in words
pub data ErrorMessage : Type 0 where
  mapped : ResultCode → ErrorMessage
  humanized : ResultCode → ErrorMessage

pub record TransactionErrorDetails : Type 0 where
  pub code : ResultCode
  pub message : ErrorMessage
  pub operation_codes : List ResultCode

pub record TransactionStatusResponse : Type 0 where
  pub hash : ℕ
  pub status : TransactionStatus
  pub type : Option TransactionType
  -- the details of a successful transaction
  pub result : Option ℕ
  pub error : Option TransactionErrorDetails
  pub submitted_at : Option ℕ
  pub confirmed_at : Option ℕ
  pub last_checked_at : ℕ

pub data TransactionError : Type 0 where
  transaction_invalid_xdr transaction_lookup_db_failed : TransactionError
  stellar : ResultCode → TransactionError
  stellar_transaction_failed stellar_network_unavailable : TransactionError
  stellar_submission_failed transaction_not_found : TransactionError
  horizon_unavailable transaction_status_lookup_failed : TransactionError
  -- an exception of the cache, which passes through
  cache_error : TransactionError

pub record TransactionStore : Type 0 where
  pub checker : CheckerStore
  pub cache : List (ℕ × TransactionStatusResponse)

pub record TransactionSources : Type 0 where
  pub transactions_table : Table Transaction
  pub cache_manager : Cache TransactionStatusResponse
  -- TransactionBuilder.fromXDR, which throws for a malformed text
  pub from_xdr : ℕ → Option ℕ
  -- StellarService.submitTransaction: the hash, or an error
  pub submit : ℕ → Result SubmissionFault ℕ
  pub get_transaction : ℕ → HorizonLookup
  -- the codes in a result XDR, or an exception
  pub result_of_xdr : ℕ → Option (ResultCode × List ResultCode)
  -- the identifier of a new row, and the text that the message of an error is stored as
  pub new_id : TransactionStore → ℕ
  pub text_of : ErrorMessage → ℕ

abbrev pub Transactions : Type 0 → Type 0
Transactions A = Action TransactionStore TransactionError A

abbrev pub put_checker : TransactionStore → CheckerStore → TransactionStore
put_checker s c = record s { checker = c }

abbrev pub put_rows : TransactionStore → List Transaction → TransactionStore
put_rows s rows = record s { checker = record (s.checker) { transactions = rows } }

abbrev pub put_cache : TransactionStore → List (ℕ × TransactionStatusResponse) → TransactionStore
put_cache s entries = record s { cache = entries }
