-- ===== src/Loans/Quote.antt =====
-- LoansService.calculateLoanQuote with prepareLoanPreview and validateMerchant
-- (modules/loans/loans.service.ts), and MerchantsRepository.findById.
use trust_up_api.Base.{
  ℕ, ◌+◌, ◌*◌, ◌==◌, ltb, ◌&&◌, not, Bool, false, Option, none, some, List, Table, Result, ok,
  Action, ◌>>=◌, ◌>>◌, pure, throw, throw_if, reading,
}
use trust_up_api.Reputation.Terms.{Reputation}
use trust_up_api.Reputation.Service.{Sources, Caches, get_reputation_score}
use trust_up_api.Loans.Money.{cent, dollar, round_ratio}
use trust_up_api.Loans.Defs.{LoansState}
use trust_up_api.Loans.Repository.{LoanSources}
use trust_up_api.Loans.Schedule.{SchedulePayment, monthly_payment, generate_schedule_from_date}

-- The columns of `merchants` that are read here.
pub record Merchant : Type 0 where
  pub id : ℕ
  pub is_active : Bool

pub record LoansStore : Type 0 where
  pub caches : Caches
  pub merchants : List Merchant
  pub repo : LoansState

pub data LoanError : Type 0 where
  merchant_not_found merchant_inactive loan_reputation_too_low : LoanError
  loan_amount_exceeds_credit blockchain_create_loan_xdr_failed : LoanError
  loan_duplicate_pending pending_loan_query_failed database_create_loan_failed : LoanError
  loan_not_found loan_not_active loan_payment_exceeds_balance : LoanError
  reputation_contract_unavailable active_loans_query_failed : LoanError
  -- an exception of a repository or a contract client that is not caught
  database_query_error contract_error : LoanError

-- What the service asks of the parts around it.
pub record LoanLibraries : Type 0 where
  pub reputation_sources : Sources
  pub merchants_table : Table Merchant
  pub loan_sources : LoanSources
  -- midnight of the day `i` months after the start
  pub due_date : ℕ → ℕ → ℕ
  pub sha256 : ℕ → ℕ
  -- CreditLineContractClient: the unsigned XDR of a call, or an exception
  pub build_create_loan_transaction : ℕ → ℕ → Result (Unit {0}) ℕ
  pub build_repay_loan_tx : ℕ → ℕ → ℕ → Result (Unit {0}) ℕ
  -- ReputationContractClient.getScore
  pub get_score : ℕ → Result (Unit {0}) (Option ℕ)

abbrev pub LoanAction : Type 0 → Type 0
LoanAction A = Action LoansStore LoanError A

-- The fields of LoanQuoteRequestDto.
pub record LoanQuoteRequest : Type 0 where
  pub amount : ℕ
  pub merchant : ℕ
  pub term : ℕ

pub record LoanQuoteResponse : Type 0 where
  pub amount : ℕ
  pub guarantee : ℕ
  pub loan_amount : ℕ
  pub interest_rate : ℕ
  pub total_repayment : ℕ
  pub term : ℕ
  pub monthly_payment : ℕ
  pub schedule : List SchedulePayment

-- `Math.round(amount * 0.2 * 100) / 100` and `Math.round(amount * 0.8 * 100) / 100`
abbrev pub guarantee_of : ℕ → ℕ
guarantee_of amount = cent * round_ratio (2 * amount) (10 * cent)

abbrev pub loan_amount_of : ℕ → ℕ
loan_amount_of amount = cent * round_ratio (8 * amount) (10 * cent)

-- `Math.round((loanAmount + loanAmount * (rate / 100) * (term / 12)) * 100) / 100`
abbrev pub total_repayment_of : ℕ → ℕ → ℕ → ℕ
total_repayment_of loan_amount rate term =
    cent * round_ratio (loan_amount * (1200 + rate * term)) (1200 * cent)

abbrev pub min_loan_reputation_score : ℕ
min_loan_reputation_score = 60

module _ (lib : LoanLibraries) where
  -- The terms that the arithmetic gives for a rate.
  unfoldable pub terms_of : ℕ → LoanQuoteRequest → ℕ → LoanQuoteResponse
  terms_of now dto rate =
      let loan_amount = loan_amount_of dto.amount in
      let total = total_repayment_of loan_amount rate dto.term in
      record {
        amount = dto.amount;
        guarantee = guarantee_of dto.amount;
        loan_amount = loan_amount;
        interest_rate = rate;
        total_repayment = total;
        term = dto.term;
        monthly_payment = monthly_payment total dto.term;
        schedule = generate_schedule_from_date (lib.due_date now) total dto.term;
      }

  abbrev pub find_merchant : ℕ → LoanAction (Option Merchant)
  find_merchant id =
      reading (λ s. lib.merchants_table.maybe_single (λ m. m.id == id) s.merchants)
        LoanError.database_query_error

  abbrev pub check_merchant : Option Merchant → LoanAction Merchant
  check_merchant none = throw LoanError.merchant_not_found
  check_merchant (some m) = do throw_if (not m.is_active) LoanError.merchant_inactive; pure m

  unfoldable pub validate_merchant : ℕ → LoanAction Merchant
  validate_merchant id = do found ← find_merchant id; check_merchant found

  abbrev pub reputation_of : ℕ → ℕ → LoanAction Reputation
  reputation_of now wallet s =
      let (r, caches) = get_reputation_score lib.reputation_sources now wallet s.caches in
      (ok r, record s { caches = caches })

  unfoldable pub prepare_loan_preview :
      ℕ → ℕ → LoanQuoteRequest → Bool → LoanAction (Merchant × LoanQuoteResponse)
  unfolding validate_merchant terms_of
  prepare_loan_preview now wallet dto enforce_minimum_reputation = do
    reputation ← reputation_of now wallet
    merchant ← validate_merchant dto.merchant
    throw_if (enforce_minimum_reputation && ltb reputation.score min_loan_reputation_score)
        LoanError.loan_reputation_too_low
    throw_if (ltb (reputation.max_credit * dollar) dto.amount) LoanError.loan_amount_exceeds_credit
    pure (merchant, terms_of now dto reputation.interest_rate)

  unfoldable pub calculate_loan_quote : ℕ → ℕ → LoanQuoteRequest → LoanAction LoanQuoteResponse
  unfolding prepare_loan_preview
  calculate_loan_quote now wallet dto = do
    preview ← prepare_loan_preview now wallet dto false
    pure preview.1
