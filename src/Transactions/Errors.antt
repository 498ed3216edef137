-- ===== src/Transactions/Errors.antt =====
-- How TransactionsService reads the errors of Horizon.
use trust_up_api.Base.{◌||◌, Bool, true, false, Option, none, some, List, [], ◌∷◌, ℕ, if◌then◌else◌}
use trust_up_api.Stellar.Retry.{includes}
use trust_up_api.Transactions.Defs.{
  ResultCode, SubmissionFault, ErrorMessage, TransactionErrorDetails, TransactionError,
}

-- Whether HORIZON_ERROR_MAP has the code
abbrev pub is_mapped : ResultCode → Bool
is_mapped (ResultCode.other_code n) = false
is_mapped _ = true

abbrev pub first_mapped : List ResultCode → Option ResultCode
first_mapped [] = none
first_mapped (code ∷ codes) =
    let rest = first_mapped codes in if is_mapped code then some code else rest

-- `[txCode, ...opCodes].filter(Boolean)`
abbrev pub all_codes : Option ResultCode × List ResultCode → List ResultCode
all_codes (none, op_codes) = op_codes
all_codes (some code, op_codes) = code ∷ op_codes

abbrev pub rejection : Option ResultCode → TransactionError
rejection (some code) = TransactionError.stellar code
rejection none = TransactionError.stellar_transaction_failed

abbrev pub timeout : List ℕ
timeout = b't' ∷ b'i' ∷ b'm' ∷ b'e' ∷ b'o' ∷ b'u' ∷ b't' ∷ []

abbrev pub network : List ℕ
network = b'n' ∷ b'e' ∷ b't' ∷ b'w' ∷ b'o' ∷ b'r' ∷ b'k' ∷ []

abbrev pub fault_without_codes : List ℕ → TransactionError
fault_without_codes message =
    if includes timeout message || includes network message
    then TransactionError.stellar_network_unavailable
    else TransactionError.stellar_submission_failed

-- The exception that `handleHorizonError` throws
unfoldable pub handle_horizon_error : SubmissionFault → TransactionError
handle_horizon_error e = elim e.result_codes [
  | some codes ↦ rejection (first_mapped (all_codes codes))
  | none ↦ fault_without_codes e.message
]

-- `operationCodes[0] ?? txCode`
abbrev pub primary_code : ResultCode → List ResultCode → ResultCode
primary_code tx_code [] = tx_code
primary_code tx_code (code ∷ codes) = code

abbrev pub message_of : ResultCode → ResultCode → ErrorMessage
message_of primary tx_code =
    if is_mapped primary
    then ErrorMessage.mapped primary
    else if is_mapped tx_code
    then ErrorMessage.mapped tx_code
    else ErrorMessage.humanized primary

unfoldable pub extract_failure_details :
    Option (ResultCode × List ResultCode) → TransactionErrorDetails
extract_failure_details (some (tx_code, operation_codes)) = record {
  code = tx_code;
  message = message_of (primary_code tx_code operation_codes) tx_code;
  operation_codes = operation_codes;
}
extract_failure_details none = record {
  code = ResultCode.tx_failed;
  message = ErrorMessage.mapped ResultCode.tx_failed;
  operation_codes = [];
}
