-- ===== src/Merchants/Leaderboard.antt =====
-- MerchantsService.getLeaderboard (modules/merchants/merchants.service.ts).
use trust_up_api.Base.{
  ℕ, zero, suc, ◌+◌, ◌==◌, leb, Bool, false, Option, none, some, is_some, List, [], ◌∷◌, map,
  length, keep, Table, Action, reading, pure, ◌>>=◌, if◌then◌else◌,
}
use trust_up_api.Loans.Defs.{Loan}
use trust_up_api.Reputation.Terms.{Tier}
use trust_up_api.Admin.Defs.{MerchantRow}
use trust_up_api.Merchants.RowLimit.{RowLimit}
use trust_up_api.Merchants.Score.{
  MerchantLoanAggregate, MerchantScoreResult, aggregate_loans, calculate_score,
}

pub data MerchantLeaderboardMetric : Type 0 where
  volume score repayment_rate total_loans : MerchantLeaderboardMetric

pub record LeaderboardEntry : Type 0 where
  pub merchant_id : ℕ
  -- name, logo and category
  pub details : ℕ
  pub score : ℕ
  pub tier : Tier
  pub total_volume : ℕ
  pub repayment_rate : ℕ
  pub total_loans : ℕ

pub record RankedEntry : Type 0 where
  pub rank : ℕ
  pub entry : LeaderboardEntry

pub record MerchantLeaderboard : Type 0 where
  pub entries : List RankedEntry
  pub total : ℕ

-- `b[LEADERBOARD_METRIC_FIELD[metric]]`
abbrev pub metric_of : MerchantLeaderboardMetric → LeaderboardEntry → ℕ
metric_of MerchantLeaderboardMetric.volume e = e.total_volume
metric_of MerchantLeaderboardMetric.score e = e.score
metric_of MerchantLeaderboardMetric.repayment_rate e = e.repayment_rate
metric_of MerchantLeaderboardMetric.total_loans e = e.total_loans

abbrev pub entry_from : MerchantRow → MerchantLoanAggregate → MerchantScoreResult → LeaderboardEntry
entry_from m a r = record {
  merchant_id = m.id;
  details = m.details;
  score = r.score;
  tier = r.tier;
  total_volume = a.total_volume;
  repayment_rate = a.repayment_rate;
  total_loans = a.total_loans;
}

abbrev pub is_loan_of_merchant : ℕ → Option ℕ → Bool
is_loan_of_merchant id none = false
is_loan_of_merchant id (some merchant_id) = merchant_id == id

-- `loansByMerchant.get(merchant.id) ?? []`
abbrev pub loans_of : List Loan → ℕ → List Loan
loans_of loans id = keep (λ l. is_loan_of_merchant id l.merchant_id) loans

abbrev pub entry_of : List Loan → MerchantRow → LeaderboardEntry
entry_of loans m =
    let a = aggregate_loans (loans_of loans m.id) in entry_from m a (calculate_score a)

-- `.sort((a, b) => b[field] - a[field])`, which keeps the order of equal ones
abbrev pub insert_ranked :
    (LeaderboardEntry → ℕ) → LeaderboardEntry → List LeaderboardEntry → List LeaderboardEntry
insert_ranked field x [] = x ∷ []
insert_ranked field x (y ∷ ys) =
    let rest = insert_ranked field x ys in if leb (field y) (field x) then x ∷ y ∷ ys else y ∷ rest

abbrev pub sort_ranked : (LeaderboardEntry → ℕ) → List LeaderboardEntry → List LeaderboardEntry
sort_ranked field [] = []
sort_ranked field (x ∷ xs) = insert_ranked field x (sort_ranked field xs)

abbrev pub drop : ℕ → List LeaderboardEntry → List LeaderboardEntry
drop n [] = []
drop zero (x ∷ xs) = x ∷ xs
drop (suc n) (x ∷ xs) = drop n xs

abbrev pub take : ℕ → List LeaderboardEntry → List LeaderboardEntry
take n [] = []
take zero (x ∷ xs) = []
take (suc n) (x ∷ xs) = x ∷ take n xs

-- `rank: offset + index + 1`
abbrev pub number_from : ℕ → List LeaderboardEntry → List RankedEntry
number_from n [] = []
number_from n (x ∷ xs) = record { rank = n + 1; entry = x } ∷ number_from (n + 1) xs

unfoldable pub board_of :
    MerchantLeaderboardMetric → ℕ → ℕ → List LeaderboardEntry → MerchantLeaderboard
board_of metric limit offset entries = record {
  entries = number_from offset (take limit (drop offset (sort_ranked (metric_of metric) entries)));
  total = length entries;
}

pub record MerchantStore : Type 0 where
  pub merchants : List MerchantRow
  pub loans : List Loan

pub data MerchantError : Type 0 where
  database_error : MerchantError

pub record MerchantSources : Type 0 where
  pub merchants_table : Table MerchantRow
  pub loans_table : Table Loan
  -- the two selects have no range, so their answers are limited
  pub merchants_limit : RowLimit MerchantRow
  pub loans_limit : RowLimit Loan

abbrev pub Merchants : Type 0 → Type 0
Merchants A = Action MerchantStore MerchantError A

module _ (src : MerchantSources) where
  unfoldable pub find_all_active : Merchants (List MerchantRow)
  find_all_active = do
    rows ←
        reading (λ s. src.merchants_table.select (λ m. m.is_active) s.merchants)
          MerchantError.database_error
    pure (src.merchants_limit.limited rows)

  unfoldable pub find_stats_for_all_merchants : Merchants (List Loan)
  find_stats_for_all_merchants = do
    rows ←
        reading (λ s. src.loans_table.select (λ l. is_some l.merchant_id) s.loans)
          MerchantError.database_error
    pure (src.loans_limit.limited rows)

  unfoldable pub get_leaderboard : MerchantLeaderboardMetric → ℕ → ℕ → Merchants MerchantLeaderboard
  unfolding find_all_active find_stats_for_all_merchants board_of
  get_leaderboard metric limit offset = do
    merchants ← find_all_active
    loans ← find_stats_for_all_merchants
    pure (board_of metric limit offset (map (entry_of loans) merchants))
