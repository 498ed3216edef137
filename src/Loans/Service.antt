-- ===== src/Loans/Service.antt =====
-- LoansService.createLoan, repayLoan and getAvailableCredit (modules/loans/loans.service.ts), and
-- LoanPresenter.mapScoreToCreditTier (modules/loans/loan.presenter.ts).
use trust_up_api.Base.{
  ℕ, ◌+◌, ◌-◌, ◌*◌, ◌==◌, ltb, leb, not, Bool, true, Option, none, some, get_or, List, [], ◌∷◌,
  length, Result, ok, err, ◌>>=◌, ◌>>◌, pure, throw, throw_if, zoom, if◌then◌else◌,
}
use trust_up_api.Reputation.Terms.{Tier}
use trust_up_api.Loans.Money.{dollar, round_cents}
use trust_up_api.Loans.Schedule.{SchedulePayment}
use trust_up_api.Loans.Defs.{Loan, LoanStatus, same_status, LoansState}
use trust_up_api.Loans.Repository
use trust_up_api.Loans.Repository.{
  Repo, RepositoryError, find_by_id, find_active_by_user, has_pending_with_xdr_hash,
}
use trust_up_api.Loans.Quote.{
  Merchant, LoansStore, LoanError, LoanLibraries, LoanAction, LoanQuoteRequest, LoanQuoteResponse,
  prepare_loan_preview,
}

-- What a creation takes from the clock, the random numbers and the database.
pub record LoanFresh : Type 0 where
  pub loan_id : ℕ
  pub id : ℕ

pub record CreateLoanResponse : Type 0 where
  pub loan_id : ℕ
  pub xdr : ℕ
  pub terms : LoanQuoteResponse

pub record LoanPaymentResponse : Type 0 where
  pub unsigned_xdr : ℕ
  pub payment_amount : ℕ
  pub current_balance : ℕ
  pub new_balance : ℕ
  pub will_complete : Bool

pub record AvailableCredit : Type 0 where
  pub reputation_score : ℕ
  pub reputation_tier : Tier
  pub max_credit_limit : ℕ
  pub credit_used : ℕ
  pub available_credit : ℕ
  pub active_loans : ℕ

abbrev pub put_repo : LoansStore → LoansState → LoansStore
put_repo s r = record s { repo = r }

-- A call of the repository with what the service throws for its exceptions.
abbrev pub on_repo : {A : Type 0} → (RepositoryError → LoanError) → Repo A → LoanAction A
on_repo f m = zoom (λ s. s.repo) put_repo f m

abbrev pub from_client : Result (Unit {0}) ℕ → LoanError → LoanAction ℕ
from_client (ok xdr) e = pure xdr
from_client (err _) e = throw e

abbrev pub creation_error : RepositoryError → LoanError
creation_error RepositoryError.unique_violation_error = LoanError.loan_duplicate_pending
creation_error _ = LoanError.database_create_loan_failed

-- `terms.schedule[0]?.dueDate ?? null`
abbrev pub first_due : List SchedulePayment → Option ℕ
first_due [] = none
first_due (p ∷ ps) = some p.due_date

unfoldable pub map_score_to_credit_tier : ℕ → Tier × ℕ
map_score_to_credit_tier score =
    if leb 90 score
    then (Tier.gold, 5000)
    else if leb 75 score
    then (Tier.silver, 3000)
    else if leb 60 score
    then (Tier.bronze, 1500)
    else (Tier.poor, 500)

abbrev pub sum_of_balances : List Loan → ℕ
sum_of_balances [] = 0
sum_of_balances (l ∷ ls) = l.remaining_balance + sum_of_balances ls

unfoldable pub credit_of : ℕ → List Loan → AvailableCredit
unfolding map_score_to_credit_tier
credit_of score loans =
    let (tier, max_credit) = map_score_to_credit_tier score in
    let used : ℕ = round_cents (sum_of_balances loans) in
    record {
      reputation_score = score;
      reputation_tier = tier;
      max_credit_limit = max_credit;
      credit_used = used;
      available_credit =
          if leb (max_credit * dollar) used then 0 else round_cents (max_credit * dollar - used);
      active_loans = length loans;
    }

module _ (lib : LoanLibraries) where
  -- The record of `persistPendingLoan`, with the columns that the table fills in.
  abbrev pub pending_loan : ℕ → LoanFresh → ℕ → Merchant → LoanQuoteResponse → ℕ → Loan
  pending_loan now fresh wallet merchant terms xdr = record {
    id = fresh.id;
    loan_id = fresh.loan_id;
    user_wallet = wallet;
    merchant_id = some merchant.id;
    amount = terms.amount;
    loan_amount = terms.loan_amount;
    guarantee = terms.guarantee;
    interest_rate = terms.interest_rate;
    total_repayment = terms.total_repayment;
    remaining_balance = terms.total_repayment;
    term = terms.term;
    status = LoanStatus.pending;
    next_payment_due = first_due terms.schedule;
    xdr_hash = some (lib.sha256 xdr);
    created_at = now;
    updated_at = now;
    completed_at = none;
    defaulted_at = none;
    accrued_interest = 0;
    distributed_interest = 0;
    last_accrual_at = none;
  }

  unfoldable pub create_from :
      ℕ
      → LoanFresh
      → ℕ
      → LoanQuoteRequest
      → Merchant × LoanQuoteResponse
      → LoanAction CreateLoanResponse
  unfolding has_pending_with_xdr_hash Repository.create_loan
  create_from now fresh wallet dto (merchant, terms) = do
    xdr ←
        from_client (lib.build_create_loan_transaction wallet fresh.loan_id)
          LoanError.blockchain_create_loan_xdr_failed
    duplicate ←
        on_repo (λ _. LoanError.pending_loan_query_failed)
          (has_pending_with_xdr_hash lib.loan_sources wallet (lib.sha256 xdr))
    throw_if duplicate LoanError.loan_duplicate_pending
    on_repo creation_error
        (Repository.create_loan lib.loan_sources (pending_loan now fresh wallet merchant terms xdr))
    pure (record { loan_id = fresh.loan_id; xdr = xdr; terms = terms })

  unfoldable pub create_loan : ℕ → LoanFresh → ℕ → LoanQuoteRequest → LoanAction CreateLoanResponse
  unfolding prepare_loan_preview create_from
  create_loan now fresh wallet dto = do
    preview ← prepare_loan_preview lib now wallet dto true
    create_from now fresh wallet dto preview

  -- The balances differ by whole stroops, so `newBalance` rounds nothing.
  abbrev pub repay_found : ℕ → ℕ → Option Loan → LoanAction LoanPaymentResponse
  repay_found wallet amount none = throw LoanError.loan_not_found
  repay_found wallet amount (some loan) = do
    throw_if (not (loan.user_wallet == wallet)) LoanError.loan_not_found
    throw_if (not (same_status loan.status LoanStatus.active)) LoanError.loan_not_active
    throw_if (ltb loan.remaining_balance amount) LoanError.loan_payment_exceeds_balance
    xdr ← from_client (lib.build_repay_loan_tx wallet loan.loan_id amount) LoanError.contract_error
    pure (record {
      unsigned_xdr = xdr;
      payment_amount = amount;
      current_balance = loan.remaining_balance;
      new_balance = loan.remaining_balance - amount;
      will_complete = (loan.remaining_balance - amount) == 0;
    })

  unfoldable pub repay_loan : ℕ → ℕ → ℕ → LoanAction LoanPaymentResponse
  unfolding find_by_id
  repay_loan wallet id amount = do
    loan ← on_repo (λ _. LoanError.database_query_error) (find_by_id lib.loan_sources id)
    repay_found wallet amount loan

  abbrev pub score_of : Result (Unit {0}) (Option ℕ) → LoanAction ℕ
  score_of (ok score) = pure (get_or score 0)
  score_of (err _) = throw LoanError.reputation_contract_unavailable

  unfoldable pub get_available_credit : ℕ → LoanAction AvailableCredit
  unfolding find_active_by_user
  get_available_credit wallet = do
    score ← score_of (lib.get_score wallet)
    loans ←
        on_repo (λ _. LoanError.active_loans_query_failed)
          (find_active_by_user lib.loan_sources wallet)
    pure (credit_of score loans)
