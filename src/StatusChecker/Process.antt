-- ===== src/StatusChecker/Process.antt =====
-- TransactionStatusCheckerProcessor
-- (jobs/transaction-status-checker/transaction-status-checker.processor.ts): the run of the job.
use trust_up_api.Base.{
  ℕ, ◌-◌, ◌*◌, ◌==◌, ◌&&◌, ltb, Option, none, some, Bool, true, false, not, List, [], ◌∷◌, Table,
  Result, ok, err, DbError, ◌>>=◌, pure, throw, zoom, unchecked,
}
use trust_up_api.Loans.Repository.{LoanSources}
use trust_up_api.StatusChecker.Defs.{
  TransactionType, TransactionStatus, is_pending, Transaction, Lookup, response,
  transaction_not_found, lookup_failed, NotificationType, Message, Notification, FollowUpResult,
  CheckerStore, put_transactions, put_repo, put_notifications, CheckerError, Checker,
  failed_on_stellar, loan_now_active, repayment_confirmed, confirmed,
}
use trust_up_api.StatusChecker.Metadata.{Decoded}
use trust_up_api.StatusChecker.FollowUp.{apply_follow_up_actions}

pub record CheckerSources : Type 0 where
  pub loan_sources : LoanSources
  pub transactions_table : Table Transaction
  pub notifications_table : Table Notification
  -- `findPending(100)`: a query with an order and a limit
  pub find_pending : List Transaction → Result DbError (List Transaction)
  -- StellarService.getTransaction, by hash
  pub get_transaction : ℕ → Lookup
  -- the XDR decoder of stellar-sdk
  pub from_xdr : ℕ → Decoded

pub record TransactionStatusResult : Type 0 where
  pub successful : Bool
  pub error_message : Option ℕ

-- `response.successful === true`
abbrev pub is_true : Option Bool → Bool
is_true (some true) = true
is_true _ = false

-- `checkTransactionStatus`: `none` is `{ found: false }`, and other exceptions pass through
abbrev pub status_of_lookup : Lookup → Checker (Option TransactionStatusResult)
status_of_lookup (response r) =
    pure (some (record { successful = is_true r.successful; error_message = r.result_codes }))
status_of_lookup transaction_not_found = pure none
status_of_lookup lookup_failed = throw CheckerError.horizon_error

abbrev pub settled : Bool → TransactionStatus
settled true = TransactionStatus.success
settled false = TransactionStatus.failed

-- The `type` of the notification, and its text.
unfoldable pub notification_type : TransactionStatus → TransactionType → NotificationType
notification_type TransactionStatus.failed t = NotificationType.transaction_failed
notification_type _ TransactionType.loan_create = NotificationType.loan_create_success
notification_type _ TransactionType.loan_repay = NotificationType.loan_repay_success
notification_type _ _ = NotificationType.transaction_success

unfoldable pub notification_message :
    TransactionStatus → TransactionType → Option ℕ → FollowUpResult → Message
notification_message TransactionStatus.failed t error followed = failed_on_stellar t error
notification_message _ TransactionType.loan_create error followed = loan_now_active followed.loan_id
notification_message _ TransactionType.loan_repay error followed =
    repayment_confirmed followed.remaining_balance
notification_message _ t error followed = confirmed t

-- `.eq('transaction_hash', hash).eq('status', 'pending')`
abbrev pub is_pending_hash : ℕ → Transaction → Bool
is_pending_hash hash t = (t.transaction_hash == hash) && is_pending t.status

-- `updatePayload` and the status, written to a row; no entry `error` without a message
abbrev pub write_settled : ℕ → TransactionStatus → Option ℕ → Transaction → Transaction
write_settled now status error t = record t {
  status = status;
  updated_at = now;
  completed_at = some now;
  error = elim error [ none ↦ t.error | some e ↦ some e ];
}

-- 7 days, in milliseconds
abbrev pub keep_for : ℕ
keep_for = 7 * 24 * 60 * 60 * 1000

module _ (src : CheckerSources) where
  -- `createNotification`, which catches the exception of the insert
  unfoldable pub create_notification :
      Transaction → TransactionStatus → Option ℕ → FollowUpResult → Checker (Unit {0})
  unfolding notification_type notification_message
  create_notification t status error followed = unchecked put_notifications (λ s.
      src.notifications_table.insert
        (record {
          user_wallet = t.user_wallet;
          type = notification_type status t.type;
          message = notification_message status t.type error followed;
          transaction_hash = t.transaction_hash;
          transaction_type = t.type;
          loan_id = followed.loan_id;
          is_read = false;
        })
        s.notifications)

  abbrev pub follow_up : ℕ → Transaction → TransactionStatus → Checker FollowUpResult
  follow_up now t status =
      zoom (λ s. s.repo) put_repo (λ _. CheckerError.database_query_error)
        (apply_follow_up_actions src.loan_sources src.from_xdr now t status)

  -- `updateStatus` with `onlyPending` and `returnRecord`
  unfoldable pub settle_pending :
      ℕ → ℕ → TransactionStatus → Option ℕ → Checker (Option Transaction)
  settle_pending now hash status error s =
      elim (src.transactions_table.update_one (is_pending_hash hash)
        (write_settled now status error) s.transactions) [
          | ok (r, rows) ↦ (ok r, put_transactions s rows)
          | err _ ↦ (err CheckerError.database_query_error, s)
        ]

  abbrev pub after_settling :
      ℕ → Transaction → TransactionStatus → Option ℕ → Option Transaction → Checker (Unit {0})
  after_settling now t status error none = pure tt
  after_settling now t status error (some _) = do
    followed ← follow_up now t status
    create_notification t status error followed

  unfoldable pub finalize_transaction :
      ℕ → Transaction → TransactionStatus → Option ℕ → Checker (Unit {0})
  unfolding settle_pending
  finalize_transaction now t status error = do
    written ← settle_pending now t.transaction_hash status error
    after_settling now t status error written

  abbrev pub act_on : ℕ → Transaction → Option TransactionStatusResult → Checker (Unit {0})
  act_on now t none = pure tt
  act_on now t (some r) = finalize_transaction now t (settled r.successful) r.error_message

  -- One round of the loop, whose `catch` logs and goes on.
  unfoldable pub process_transaction : ℕ → Transaction → CheckerStore → CheckerStore
  process_transaction now t s =
      ((do status ← status_of_lookup (src.get_transaction t.transaction_hash); act_on now t status)
        s).1

  unfoldable pub process_all : ℕ → List Transaction → CheckerStore → CheckerStore
  process_all now [] s = s
  process_all now (t ∷ ts) s = process_all now ts (process_transaction now t s)

  -- `deleteOlderThan`, whose exception is caught
  unfoldable pub cleanup_old_transactions : ℕ → CheckerStore → CheckerStore
  cleanup_old_transactions now s =
      elim (src.transactions_table.delete
        (λ t. ltb t.submitted_at (now - keep_for) && not (is_pending t.status)) s.transactions) [
          | ok rows ↦ put_transactions s rows
          | err _ ↦ s
        ]

  abbrev pub run_pending : ℕ → Result DbError (List Transaction) → CheckerStore → CheckerStore
  run_pending now (ok []) s = cleanup_old_transactions now s
  run_pending now (ok (t ∷ ts)) s = process_all now (t ∷ ts) s
  run_pending now (err _) s = s

  -- The `finally` cleans up once more, also after the early return.
  unfoldable pub process : ℕ → CheckerStore → CheckerStore
  process now s = cleanup_old_transactions now (run_pending now (src.find_pending s.transactions) s)
