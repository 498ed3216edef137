-- ===== src/Transactions/Service.antt =====
-- TransactionsService (modules/transactions/transactions.service.ts), with the statements of
-- database/repositories/transactions.repository.ts that it sends. A hash stands for its lower case.
use trust_up_api.Base.{
  ℕ, ◌==◌, Bool, true, false, Option, none, some, Result, ok, err, CacheError, ◌>>=◌, ◌>>◌, pure,
  throw, reading, unchecked, if◌then◌else◌,
}
use trust_up_api.StatusChecker.Defs.{TransactionType, TransactionStatus, Transaction}
use trust_up_api.Transactions.Defs.{
  HorizonTransaction, HorizonLookup, ErrorMessage, TransactionErrorDetails,
  TransactionStatusResponse, TransactionError, TransactionSources, Transactions, put_rows,
  put_cache,
}
use trust_up_api.Transactions.Errors.{handle_horizon_error, extract_failure_details}

pub record SubmitTransactionRequest : Type 0 where
  pub xdr : ℕ
  pub type : TransactionType

-- `{ transactionHash, status: 'pending' }`
pub record SubmitTransactionResponse : Type 0 where
  pub transaction_hash : ℕ
  pub status : TransactionStatus

abbrev pub pending_row : ℕ → ℕ → ℕ → ℕ → SubmitTransactionRequest → Transaction
pending_row now id wallet hash dto = record {
  id = id;
  user_wallet = wallet;
  transaction_hash = hash;
  type = dto.type;
  status = TransactionStatus.pending;
  xdr = some dto.xdr;
  submitted_at = now;
  updated_at = now;
  completed_at = none;
  error = none;
}

abbrev pub has_hash : ℕ → Transaction → Bool
has_hash hash t = t.transaction_hash == hash

abbrev pub status_of : Bool → TransactionStatus
status_of true = TransactionStatus.success
status_of false = TransactionStatus.failed

abbrev pub type_of : Option Transaction → Option TransactionType
type_of none = none
type_of (some t) = some t.type

abbrev pub submitted_of : Option Transaction → Option ℕ
submitted_of none = none
submitted_of (some t) = some t.submitted_at

unfoldable pub build_pending_response : ℕ → ℕ → Transaction → TransactionStatusResponse
build_pending_response now hash t = record {
  hash = hash;
  status = TransactionStatus.pending;
  type = some t.type;
  result = none;
  error = none;
  submitted_at = some t.submitted_at;
  confirmed_at = none;
  last_checked_at = now;
}

-- `error?.message ?? null`, as the column holds it
abbrev pub stored_error : (ErrorMessage → ℕ) → Option TransactionErrorDetails → Option ℕ
stored_error text_of none = none
stored_error text_of (some e) = some (text_of e.message)

-- The payload of persistFinalizedTransaction, written to a row
abbrev pub write_final : (ErrorMessage → ℕ) → TransactionStatusResponse → Transaction → Transaction
write_final text_of r t = record t {
  status = r.status;
  error = stored_error text_of r.error;
  completed_at = r.confirmed_at;
}

module _ (src : TransactionSources) (now : ℕ) where
  abbrev pub parse_xdr : ℕ → Transactions ℕ
  parse_xdr xdr s = (
    elim (src.from_xdr xdr) [
      | some transaction ↦ ok transaction
      | none ↦ err TransactionError.transaction_invalid_xdr
    ],
    s,
  )

  abbrev pub submit_to_horizon : ℕ → Transactions ℕ
  submit_to_horizon transaction s = (
    elim (src.submit transaction) [ ok hash ↦ ok hash | err e ↦ err (handle_horizon_error e) ],
    s,
  )

  -- The insert is not awaited; its error is only logged.
  unfoldable pub persist_transaction_record :
      ℕ → ℕ → SubmitTransactionRequest → Transactions (Unit {0})
  persist_transaction_record wallet hash dto = unchecked put_rows (λ s.
      src.transactions_table.insert (pending_row now (src.new_id s) wallet hash dto)
        s.checker.transactions)

  unfoldable pub submit_transaction :
      ℕ → SubmitTransactionRequest → Transactions SubmitTransactionResponse
  unfolding persist_transaction_record
  submit_transaction wallet dto = do
    transaction ← parse_xdr dto.xdr
    hash ← submit_to_horizon transaction
    persist_transaction_record wallet hash dto
    pure (record { transaction_hash = hash; status = TransactionStatus.pending })

  unfoldable pub find_transaction_record : ℕ → Transactions (Option Transaction)
  find_transaction_record hash =
      reading (λ s. src.transactions_table.maybe_single (has_hash hash) s.checker.transactions)
        TransactionError.transaction_lookup_db_failed

  unfoldable pub build_finalized_response :
      HorizonTransaction → Option Transaction → TransactionStatusResponse
  unfolding extract_failure_details
  build_finalized_response t record_of = record {
    hash = t.hash;
    status = status_of t.successful;
    type = type_of record_of;
    result = if t.successful then some t.details else none;
    error =
        if t.successful
        then none
        else some (extract_failure_details (src.result_of_xdr t.result_xdr));
    submitted_at = submitted_of record_of;
    confirmed_at = some t.created_at;
    last_checked_at = now;
  }

  -- `updateStatus` without `onlyPending`; its exception is only logged.
  unfoldable pub persist_finalized :
      Option Transaction → TransactionStatusResponse → Transactions (Unit {0})
  persist_finalized none r = pure tt
  persist_finalized (some t) r = unchecked put_rows (λ s.
      src.transactions_table.update (has_hash t.transaction_hash) (write_final src.text_of r)
        s.checker.transactions)

  -- The cache is read before the `try`, and written inside it: an exception there ends in
  -- handleHorizonLookupError.
  abbrev pub cache_response : ℕ → TransactionStatusResponse → Transactions (Unit {0})
  cache_response hash r s = elim (src.cache_manager.set hash r s.cache) [
    | ok entries ↦ (ok tt, put_cache s entries)
    | err _ ↦ (err TransactionError.transaction_status_lookup_failed, s)
  ]

  unfoldable pub answer_lookup :
      ℕ → Option Transaction → HorizonLookup → Transactions TransactionStatusResponse
  unfolding build_finalized_response persist_finalized build_pending_response
  answer_lookup hash record_of (HorizonLookup.found t) =
      let r = build_finalized_response t record_of in
      do cache_response hash r; persist_finalized record_of r; pure r
  answer_lookup hash (some t) HorizonLookup.not_found = pure (build_pending_response now hash t)
  answer_lookup hash none HorizonLookup.not_found = throw TransactionError.transaction_not_found
  answer_lookup hash record_of HorizonLookup.network_error =
      throw TransactionError.horizon_unavailable
  answer_lookup hash record_of HorizonLookup.other_error =
      throw TransactionError.transaction_status_lookup_failed

  abbrev pub look_up : ℕ → Transactions TransactionStatusResponse
  look_up hash = do
    record_of ← find_transaction_record hash
    answer_lookup hash record_of (src.get_transaction hash)

  -- An exception of the cache passes through.
  abbrev pub cached_or_look_up :
      ℕ
      → Result CacheError (Option TransactionStatusResponse)
      → Transactions TransactionStatusResponse
  cached_or_look_up hash (ok (some r)) = pure r
  cached_or_look_up hash (ok none) = look_up hash
  cached_or_look_up hash (err e) = throw TransactionError.cache_error

  unfoldable pub get_transaction_status : ℕ → Transactions TransactionStatusResponse
  unfolding find_transaction_record answer_lookup
  get_transaction_status hash s = cached_or_look_up hash (src.cache_manager.get hash s.cache) s
