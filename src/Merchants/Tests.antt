-- ===== src/Merchants/Tests.antt =====
-- Three merchants, one of which is not active, and the loans of two of them.
use trust_up_api.Base.{ℕ, ◌≡◌, refl, true, false, none, some, Bool, [], ◌∷◌, ok, reliable, arith}
use trust_up_api.Loans.Defs.{Loan, LoanStatus}
use trust_up_api.Reputation.Terms.{Tier}
use trust_up_api.Admin.Defs.{MerchantRow}
use trust_up_api.Merchants.RowLimit.{first_rows}
use trust_up_api.Merchants.Score.{count_loans, aggregate_loans, calculate_score}
use trust_up_api.Merchants.Bounds.{score_of, IsScoreOf, calculate_score-IsScoreOf}
use trust_up_api.Merchants.Leaderboard.{
  MerchantLeaderboardMetric, LeaderboardEntry, MerchantLeaderboard, MerchantStore, MerchantSources,
  board_of, find_all_active, find_stats_for_all_merchants, get_leaderboard,
}
use trust_up_api.Merchants.Ranking.{IsPage, active_entries, get_leaderboard-IsPage}

abbrev lent : ℕ → ℕ → LoanStatus → Loan
lent id merchant_id status = record {
  id = id;
  loan_id = id;
  user_wallet = 7;
  merchant_id = some merchant_id;
  amount = 1250000000;
  loan_amount = 1000000000;
  guarantee = 250000000;
  interest_rate = 8;
  total_repayment = 1026700000;
  remaining_balance = 500000000;
  term = 4;
  status = status;
  next_payment_due = none;
  xdr_hash = none;
  created_at = 0;
  updated_at = 0;
  completed_at = none;
  defaulted_at = none;
  accrued_interest = 0;
  distributed_interest = 0;
  last_accrual_at = none;
}

abbrev merchant : ℕ → Bool → MerchantRow
merchant id is_active = record { id = id; wallet = id; details = id; is_active = is_active }

abbrev store : MerchantStore
store = record {
  merchants = merchant 1 true ∷ merchant 2 false ∷ merchant 3 true ∷ [];
  loans =
      lent 1 1 LoanStatus.completed
      ∷ lent 2 3 LoanStatus.completed
      ∷ lent 3 1 LoanStatus.defaulted
      ∷ [];
}

abbrev sources : MerchantSources
sources = record {
  merchants_table = reliable;
  loans_table = reliable;
  merchants_limit = first_rows;
  loans_limit = first_rows;
}

-- One of two loans is repaid and one is not: 45 - 25 + 0.02 points.
half_repaid :
    score_of (lent 1 1 LoanStatus.completed ∷ lent 3 1 LoanStatus.defaulted ∷ [])
    ≡ record { score = 20; tier = Tier.poor }
unfolding calculate_score aggregate_loans count_loans
half_repaid = refl

calculate_score-IsScoreOf_example :
    IsScoreOf
      (aggregate_loans (lent 1 1 LoanStatus.completed ∷ lent 3 1 LoanStatus.defaulted ∷ []))
      (record { score = 20; tier = Tier.poor })
unfolding calculate_score aggregate_loans count_loans
calculate_score-IsScoreOf_example =
    calculate_score-IsScoreOf (lent 1 1 LoanStatus.completed ∷ lent 3 1 LoanStatus.defaulted ∷ [])

abbrev best : LeaderboardEntry
best = record {
  merchant_id = 3;
  details = 3;
  score = 90;
  tier = Tier.gold;
  total_volume = 1000000000;
  repayment_rate = 10000;
  total_loans = 1;
}

abbrev first_page : MerchantLeaderboard
first_page = record { entries = record { rank = 1; entry = best } ∷ []; total = 2 }

ranks_by_score :
    get_leaderboard sources MerchantLeaderboardMetric.score 1 0 store ≡ (ok first_page, store)
unfolding get_leaderboard find_all_active find_stats_for_all_merchants board_of calculate_score
    aggregate_loans count_loans
ranks_by_score = refl

get_leaderboard-IsPage_example :
    IsPage MerchantLeaderboardMetric.score 1 0 (active_entries store) first_page
unfolding get_leaderboard find_all_active find_stats_for_all_merchants board_of calculate_score
    aggregate_loans count_loans
get_leaderboard-IsPage_example =
    get_leaderboard-IsPage sources MerchantLeaderboardMetric.score 1 0 store first_page
      (omega arith) (omega arith) refl
