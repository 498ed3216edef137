-- ===== src/Loans/Repository.antt =====
-- LoansRepository (database/repositories/loans.repository.ts): the statements on `loans` that the
-- services and jobs modelled here send, and the status changes that they hand to the webhooks.
use trust_up_api.Base.{
  ℕ, ◌==◌, ◌&&◌, Option, none, some, Bool, false, List, [], ◌∷◌, ◌++◌, Table, ok, err, DbError,
  Action, ◌>>=◌, ◌>>◌, pure, reading, writing, is_some, if◌then◌else◌,
}
use trust_up_api.Loans.Defs.{
  Loan, LoanStatus, same_status, LoansState, LoanStatusChangeEvent, put_loans,
}

pub data RepositoryError : Type 0 where
  -- the exception of `throwOnError`, the one of `createLoan`, and one of the job queue
  database_query_error unique_violation_error queue_error : RepositoryError

pub record LoanSources : Type 0 where
  pub loans_table : Table Loan
  -- whether the queue refuses the event, so that `enqueueLoanStatusChange` throws
  pub queue_refuses : LoanStatusChangeEvent → Bool

abbrev pub Repo : Type 0 → Type 0
Repo A = Action LoansState RepositoryError A

-- `.eq('loan_id', …).eq('user_wallet', …)`
abbrev pub is_loan_of : ℕ → ℕ → Loan → Bool
is_loan_of loan_id wallet l = (l.loan_id == loan_id) && (l.user_wallet == wallet)

abbrev pub is_active_of : ℕ → Loan → Bool
is_active_of wallet l = (l.user_wallet == wallet) && same_status l.status LoanStatus.active

abbrev pub is_pending_with_hash : ℕ → ℕ → Loan → Bool
is_pending_with_hash wallet hash l =
    (l.user_wallet == wallet)
    && elim l.xdr_hash [ none ↦ false | some h ↦ h == hash ]
    && same_status l.status LoanStatus.pending

abbrev pub set_status : ℕ → LoanStatus → Loan → Loan
set_status now status l = record l { status = status; updated_at = now }

abbrev pub is_loan_in : ℕ → ℕ → LoanStatus → Loan → Bool
is_loan_in loan_id wallet from l = is_loan_of loan_id wallet l && same_status l.status from

-- the filter of `updateStatus`, with its optional `onlyFromStatus`
abbrev pub is_loan_from : ℕ → ℕ → Option LoanStatus → Loan → Bool
is_loan_from loan_id wallet none = is_loan_of loan_id wallet
is_loan_from loan_id wallet (some from) = is_loan_in loan_id wallet from

module _ (src : LoanSources) where
  abbrev pub find_one : (Loan → Bool) → Repo (Option Loan)
  find_one p =
      reading (λ s. src.loans_table.maybe_single p s.loans) RepositoryError.database_query_error

  unfoldable pub find_by_id : ℕ → Repo (Option Loan)
  find_by_id id = find_one (λ l. l.id == id)

  -- findStatusByLoanIdAndWallet, findBalanceByLoanIdAndWallet and findWebhookContext, which select
  -- different columns of the same row
  unfoldable pub find_by_loan_id_and_wallet : ℕ → ℕ → Repo (Option Loan)
  find_by_loan_id_and_wallet loan_id wallet = find_one (is_loan_of loan_id wallet)

  unfoldable pub find_active_by_user : ℕ → Repo (List Loan)
  find_active_by_user wallet =
      reading (λ s. src.loans_table.select (is_active_of wallet) s.loans)
        RepositoryError.database_query_error

  unfoldable pub has_pending_with_xdr_hash : ℕ → ℕ → Repo Bool
  has_pending_with_xdr_hash wallet hash = do
    found ← find_one (is_pending_with_hash wallet hash)
    pure (is_some found)

  abbrev pub insert_error : DbError → RepositoryError
  insert_error DbError.unique_violation = RepositoryError.unique_violation_error
  insert_error DbError.other_error = RepositoryError.database_query_error

  unfoldable pub create_loan : Loan → Repo (Unit {0})
  create_loan l s = elim (src.loans_table.insert l s.loans) [
    | ok rows ↦ (ok tt, put_loans s rows)
    | err e ↦ (err (insert_error e), s)
  ]

  abbrev pub enqueue : LoanStatusChangeEvent → Repo (Unit {0})
  enqueue event s =
      if src.queue_refuses event
      then (err RepositoryError.queue_error, s)
      else (ok tt, record s { changes = s.changes ++ event ∷ [] })

  -- `dispatchStatusChange`: no event for an unknown loan or an unchanged status
  unfoldable pub dispatch_status_change : Option Loan → LoanStatus → ℕ → Repo (Unit {0})
  dispatch_status_change none next wallet = pure tt
  dispatch_status_change (some before) next wallet =
      if same_status before.status next
      then pure tt
      else enqueue (record {
        loan_id = before.loan_id;
        merchant_id = before.merchant_id;
        user_wallet = wallet;
        previous_status = before.status;
        status = next;
      })

  -- Both only for an entry `values.status`.
  abbrev pub find_if : Option LoanStatus → ℕ → ℕ → Repo (Option Loan)
  unfolding find_by_loan_id_and_wallet
  find_if none loan_id wallet = pure none
  find_if (some _) loan_id wallet = find_by_loan_id_and_wallet loan_id wallet

  abbrev pub dispatch_if : Option Loan → Option LoanStatus → ℕ → Repo (Unit {0})
  unfolding dispatch_status_change
  dispatch_if before none wallet = pure tt
  dispatch_if before (some next) wallet = dispatch_status_change before next wallet

  -- `updateStatus` with its optional `onlyFromStatus`
  unfoldable pub update_status : ℕ → ℕ → ℕ → LoanStatus → Option LoanStatus → Repo (Unit {0})
  unfolding find_by_loan_id_and_wallet dispatch_status_change
  update_status now loan_id wallet status only_from = do
    before ← find_by_loan_id_and_wallet loan_id wallet
    writing put_loans
        (λ s.
          src.loans_table.update (is_loan_from loan_id wallet only_from) (set_status now status)
            s.loans)
        RepositoryError.database_query_error
    dispatch_if before (some status) wallet

  -- `updateByLoanIdAndWallet`: `status` is the entry `values.status`, if there is one
  unfoldable pub update_by_loan_id_and_wallet :
      ℕ → ℕ → Option LoanStatus → (Loan → Loan) → Repo (Unit {0})
  unfolding find_by_loan_id_and_wallet dispatch_status_change
  update_by_loan_id_and_wallet loan_id wallet status values = do
    before ← find_if status loan_id wallet
    writing put_loans (λ s. src.loans_table.update (is_loan_of loan_id wallet) values s.loans)
        RepositoryError.database_query_error
    dispatch_if before status wallet
