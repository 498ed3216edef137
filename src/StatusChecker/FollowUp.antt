-- ===== src/StatusChecker/FollowUp.antt =====
-- What a settled transaction does to its loan: applyFollowUpActions, activatePendingLoan and
-- applyLoanRepayment of TransactionStatusCheckerProcessor.
use trust_up_api.Base.{
  ℕ, suc, ◌+◌, ◌-◌, ◌==◌, leb, Option, none, some, Action, ◌>>=◌, ◌>>◌, pure, catch, if◌then◌else◌,
}
use trust_up_api.Loans.Money.{round_cents}
use trust_up_api.Loans.Defs.{Loan, LoanStatus, same_status, LoansState}
use trust_up_api.Loans.Repository.{
  LoanSources, Repo, RepositoryError, find_by_loan_id_and_wallet, update_status,
  update_by_loan_id_and_wallet,
}
use trust_up_api.StatusChecker.Defs.{
  TransactionType, TransactionStatus, FollowUpResult, Transaction,
}
use trust_up_api.StatusChecker.Metadata.{
  ℤ, pos, negsuc, Decoded, Parsed, throws, no_metadata, metadata, parse_transaction_metadata,
}

-- `{}`, `{ loanId }`, `{ loanId, loanStatus }` and all three
abbrev pub nothing_done : FollowUpResult
nothing_done = record { loan_id = none; remaining_balance = none; loan_status = none }

abbrev pub for_loan : ℕ → FollowUpResult
for_loan id = record { loan_id = some id; remaining_balance = none; loan_status = none }

abbrev pub with_status : ℕ → LoanStatus → FollowUpResult
with_status id s = record { loan_id = some id; remaining_balance = none; loan_status = some s }

abbrev pub with_balance : ℕ → ℕ → LoanStatus → FollowUpResult
with_balance id b s = record { loan_id = some id; remaining_balance = some b; loan_status = some s }

-- `Math.max(0, Math.round((currentBalance - amount) * 100) / 100)`
abbrev pub updated_balance : ℕ → ℤ → ℕ
updated_balance current (pos amount) =
    if leb current amount then 0 else round_cents (current - amount)
updated_balance current (negsuc n) = round_cents (current + suc n)

abbrev pub updated_status : ℕ → LoanStatus → LoanStatus
updated_status balance status = if balance == 0 then LoanStatus.completed else status

-- The `status` entry of the update: only for a status that changes
abbrev pub status_entry : ℕ → LoanStatus → Option LoanStatus
status_entry balance status =
    if same_status (updated_status balance status) status
    then none
    else some (updated_status balance status)

-- The entries of `updatePayload` written to a row; the only new status is 'completed'.
abbrev pub write_repayment : ℕ → ℕ → Option LoanStatus → Loan → Loan
write_repayment now balance none l = record l { remaining_balance = balance; updated_at = now }
write_repayment now balance (some status) l = record l {
  remaining_balance = balance;
  updated_at = now;
  status = status;
  completed_at = some now;
}

-- The methods catch what the repository throws, so nothing reaches their caller.
module _ (src : LoanSources) where
  abbrev pub and_then :
      ℕ → Repo (Unit {0}) → FollowUpResult → Action LoansState RepositoryError FollowUpResult
  and_then loan_id m done = catch (m >> pure done) (λ _. pure (for_loan loan_id))

  abbrev pub activate_found : ℕ → ℕ → ℕ → Option Loan → Repo FollowUpResult
  activate_found now loan_id wallet none = pure (for_loan loan_id)
  activate_found now loan_id wallet (some loan) =
      if same_status loan.status LoanStatus.pending
      then and_then loan_id
          (update_status src now loan_id wallet LoanStatus.active (some LoanStatus.pending))
          (with_status loan_id LoanStatus.active)
      else pure (with_status loan_id loan.status)

  unfoldable pub activate_pending_loan : ℕ → ℕ → ℕ → Repo FollowUpResult
  unfolding find_by_loan_id_and_wallet
  activate_pending_loan now loan_id wallet =
      catch
        (do
          loan ← find_by_loan_id_and_wallet src loan_id wallet
          activate_found now loan_id wallet loan)
        (λ _. pure (for_loan loan_id))

  abbrev pub repay_found : ℕ → ℕ → ℕ → ℤ → Option Loan → Repo FollowUpResult
  repay_found now loan_id wallet amount none = pure (for_loan loan_id)
  repay_found now loan_id wallet amount (some loan) =
      let balance = updated_balance loan.remaining_balance amount in
      let entry = status_entry balance loan.status in
      and_then loan_id
        (update_by_loan_id_and_wallet src loan_id wallet entry (write_repayment now balance entry))
        (with_balance loan_id balance (updated_status balance loan.status))

  unfoldable pub apply_loan_repayment : ℕ → ℕ → ℕ → ℤ → Repo FollowUpResult
  unfolding find_by_loan_id_and_wallet
  apply_loan_repayment now loan_id wallet amount =
      catch
        (do
          loan ← find_by_loan_id_and_wallet src loan_id wallet
          repay_found now loan_id wallet amount loan)
        (λ _. pure (for_loan loan_id))

  abbrev pub follow_metadata : ℕ → TransactionType → ℕ → ℕ → Option ℤ → Repo FollowUpResult
  follow_metadata now TransactionType.loan_create loan_id wallet amount =
      activate_pending_loan now loan_id wallet
  follow_metadata now TransactionType.loan_repay loan_id wallet (some amount) =
      apply_loan_repayment now loan_id wallet amount
  follow_metadata now _ loan_id wallet amount = pure (for_loan loan_id)

  abbrev pub follow_parsed : ℕ → Transaction → Parsed → Repo FollowUpResult
  follow_parsed now t throws = pure nothing_done
  follow_parsed now t no_metadata = pure nothing_done
  follow_parsed now t (metadata m) = elim m.loan_id [
    | none ↦ pure nothing_done
    | some loan_id ↦ follow_metadata now t.type loan_id t.user_wallet m.amount
  ]

  -- `status !== 'success'` does nothing.
  unfoldable pub apply_follow_up_actions :
      (ℕ → Decoded) → ℕ → Transaction → TransactionStatus → Repo FollowUpResult
  apply_follow_up_actions from_xdr now t TransactionStatus.success =
      follow_parsed now t (parse_transaction_metadata from_xdr t.xdr)
  apply_follow_up_actions from_xdr now t _ = pure nothing_done
