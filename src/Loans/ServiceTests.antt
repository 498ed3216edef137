-- ===== src/Loans/ServiceTests.antt =====
-- The service on a small store, and the theorems of Terms and Creation at it.
use trust_up_api.Base.{◌+◌, ◌*◌, ◌≤◌, ◌≡◌, ◌⊎◌, refl, some, true, false, [], ◌∷◌, ok, err, reliable}
use trust_up_api.Reputation.Terms.{Tier, map_to_reputation}
use trust_up_api.Reputation.Service.{get_reputation_score}
use trust_up_api.Base.{steady}
use trust_up_api.Loans.Money.{cent, dollar}
use trust_up_api.Loans.Defs.{Loan, LoanStatus}
use trust_up_api.Loans.Quote.{
  Merchant, LoansStore, LoanLibraries, LoanQuoteRequest, LoanQuoteResponse, LoanError, terms_of,
  prepare_loan_preview,
}
use trust_up_api.Loans.Service.{
  LoanFresh, CreateLoanResponse, LoanPaymentResponse, AvailableCredit, pending_loan, create_loan,
  repay_loan, get_available_credit, credit_of,
}
use trust_up_api.Loans.Terms.{IsApproved, prepare_loan_preview-IsApproved}
use trust_up_api.Loans.Creation.{IsCreated, create_loan-IsCreated}

abbrev libraries : LoanLibraries
libraries = record {
  reputation_sources = record {
    redis = steady;
    reputation_cache = reliable;
    users_table = reliable;
    char_codes = λ wallet. [];
  };
  merchants_table = reliable;
  loan_sources = record { loans_table = reliable; queue_refuses = λ event. false };
  due_date = λ now i. now + i;
  sha256 = λ t. t + 1;
  build_create_loan_transaction = λ wallet id. ok 70;
  build_repay_loan_tx = λ wallet id amount. ok 71;
  get_score = λ wallet. ok (some 80);
}

abbrev shop : Merchant
shop = record { id = 5; is_active = true }

-- Wallet 7 has a score of 80 in the warm cache.
abbrev store : LoansStore
store = record {
  caches = record {
    hot = [];
    warm =
        record {
          user_id = 1;
          wallet_address = 7;
          score = 80;
          tier = Tier.silver;
          last_synced_at = 50;
        }
        ∷ [];
    users = [];
  };
  merchants = shop ∷ [];
  repo = record { loans = []; changes = [] };
}

-- $125 over 4 months
abbrev request : LoanQuoteRequest
request = record { amount = cent * 12500; merchant = 5; term = 4 }

abbrev silver_terms : LoanQuoteResponse
silver_terms = terms_of libraries 100 request 8

abbrev quoted : LoansStore
quoted = record store { caches = record store.caches { hot = (7, map_to_reputation 7 80 50) ∷ [] } }

preview_at_100 :
    prepare_loan_preview libraries 100 7 request true store ≡ (ok (shop, silver_terms), quoted)
unfolding prepare_loan_preview get_reputation_score map_to_reputation
preview_at_100 = refl

prepare_loan_preview-IsApproved_example :
    IsApproved libraries 100 7 request store shop silver_terms × ((true ≡ false) ⊎ (60 ≤ 80))
unfolding get_reputation_score map_to_reputation
prepare_loan_preview-IsApproved_example =
    prepare_loan_preview-IsApproved libraries 100 7 request true store quoted shop silver_terms
      preview_at_100

abbrev fresh : LoanFresh
fresh = record { loan_id = 42; id = 1 }

abbrev answer : CreateLoanResponse
answer = record { loan_id = 42; xdr = 70; terms = silver_terms }

abbrev new_loan : Loan
new_loan = pending_loan libraries 100 fresh 7 shop silver_terms 70

abbrev with_loan : LoansStore
with_loan = record quoted { repo = record { loans = new_loan ∷ []; changes = [] } }

create_at_100 : create_loan libraries 100 fresh 7 request store ≡ (ok answer, with_loan)
unfolding create_loan get_reputation_score map_to_reputation
create_at_100 = refl

create_again :
    create_loan libraries 101 fresh 7 request with_loan
    ≡ (err LoanError.loan_duplicate_pending, with_loan)
unfolding create_loan get_reputation_score map_to_reputation
create_again = refl

create_loan-IsCreated_example :
    (m : Merchant) × IsApproved libraries 100 7 request store m silver_terms
    × (60 ≤ 80)
    × IsCreated libraries 100 fresh 7 m store.repo with_loan.repo answer
unfolding get_reputation_score map_to_reputation
create_loan-IsCreated_example =
    create_loan-IsCreated libraries 100 fresh 7 request store with_loan answer create_at_100

abbrev with_active : LoansStore
with_active = record store {
  repo = record { loans = record new_loan { status = LoanStatus.active } ∷ []; changes = [] };
}

abbrev ten_dollars : LoanPaymentResponse
ten_dollars = record {
  unsigned_xdr = 71;
  payment_amount = 10 * dollar;
  current_balance = cent * 10267;
  new_balance = cent * 9267;
  will_complete = false;
}

repay_ten : repay_loan libraries 7 1 (10 * dollar) with_active ≡ (ok ten_dollars, with_active)
unfolding repay_loan terms_of
repay_ten = refl

abbrev credit : AvailableCredit
credit = record {
  reputation_score = 80;
  reputation_tier = Tier.silver;
  max_credit_limit = 3000;
  credit_used = cent * 10267;
  available_credit = cent * 289733;
  active_loans = 1;
}

credit_of_seven : get_available_credit libraries 7 with_active ≡ (ok credit, with_active)
unfolding get_available_credit credit_of terms_of
credit_of_seven = refl
