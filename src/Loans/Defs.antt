-- ===== src/Loans/Defs.antt =====
-- The row of the `loans` table and the statuses of a loan (database/repositories/loans.repository.ts
-- and supabase/migrations). Identifiers are only compared, so they are numbers; amounts are in
-- stroops and times in milliseconds since the epoch.
use trust_up_api.Base.{ℕ, Option, Bool, true, false, List, ◌≡◌, ◌↔◌, arith}

pub data LoanStatus : Type 0 where
  pending active completed defaulted cancelled : LoanStatus

-- `===` on statuses
abbrev pub same_status : LoanStatus → LoanStatus → Bool
same_status LoanStatus.pending LoanStatus.pending = true
same_status LoanStatus.active LoanStatus.active = true
same_status LoanStatus.completed LoanStatus.completed = true
same_status LoanStatus.defaulted LoanStatus.defaulted = true
same_status LoanStatus.cancelled LoanStatus.cancelled = true
same_status _ _ = false

pub record Loan : Type 0 where
  pub id : ℕ
  pub loan_id : ℕ
  pub user_wallet : ℕ
  pub merchant_id : Option ℕ
  pub amount : ℕ
  pub loan_amount : ℕ
  pub guarantee : ℕ
  pub interest_rate : ℕ
  pub total_repayment : ℕ
  pub remaining_balance : ℕ
  pub term : ℕ
  pub status : LoanStatus
  pub next_payment_due : Option ℕ
  pub xdr_hash : Option ℕ
  pub created_at : ℕ
  pub updated_at : ℕ
  pub completed_at : Option ℕ
  pub defaulted_at : Option ℕ
  pub accrued_interest : ℕ
  pub distributed_interest : ℕ
  pub last_accrual_at : Option ℕ

-- The event that WebhookDispatchService.enqueueLoanStatusChange is called with.
pub record LoanStatusChangeEvent : Type 0 where
  pub loan_id : ℕ
  pub merchant_id : Option ℕ
  pub user_wallet : ℕ
  pub previous_status : LoanStatus
  pub status : LoanStatus

-- The `loans` table, and the calls of the dispatch service so far.
pub record LoansState : Type 0 where
  pub loans : List Loan
  pub changes : List LoanStatusChangeEvent

abbrev pub put_loans : LoansState → List Loan → LoansState
put_loans s rows = record s { loans = rows }

pub same_status_iff : (a b : LoanStatus) → (same_status a b ≡ true) ↔ (a ≡ b)
same_status_iff a b = ground arith
