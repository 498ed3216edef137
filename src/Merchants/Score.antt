-- ===== src/Merchants/Score.antt =====
-- MerchantScoreService (modules/merchants/merchant-score.service.ts). Rates are in hundredths of a
-- percent and amounts in stroops.
use trust_up_api.Base.{ℕ, ◌+◌, ◌-◌, ◌*◌, min, ◌==◌, leb, List, [], ◌∷◌, length, if◌then◌else◌}
use trust_up_api.Loans.Defs.{Loan, LoanStatus}
use trust_up_api.Loans.Money.{round_cents, round_ratio}
use trust_up_api.Reputation.Terms.{Tier}

-- The counters of the loop in `aggregateLoans`
pub record LoanCounts : Type 0 where
  pub active : ℕ
  pub completed : ℕ
  pub defaulted : ℕ
  pub volume : ℕ
  pub outstanding : ℕ

pub record MerchantLoanAggregate : Type 0 where
  pub total_loans : ℕ
  pub active_loans : ℕ
  pub completed_loans : ℕ
  pub defaulted_loans : ℕ
  pub total_volume : ℕ
  pub outstanding_balance : ℕ
  pub repayment_rate : ℕ
  pub default_rate : ℕ

pub record MerchantScoreResult : Type 0 where
  pub score : ℕ
  pub tier : Tier

abbrev pub no_loans : LoanCounts
no_loans = record { active = 0; completed = 0; defaulted = 0; volume = 0; outstanding = 0 }

abbrev pub count_status : LoanStatus → ℕ → LoanCounts → LoanCounts
count_status LoanStatus.active balance c = record c {
  active = c.active + 1;
  outstanding = c.outstanding + balance;
}
count_status LoanStatus.completed balance c = record c { completed = c.completed + 1 }
count_status LoanStatus.defaulted balance c = record c { defaulted = c.defaulted + 1 }
count_status _ balance c = c

abbrev pub count_loan : Loan → LoanCounts → LoanCounts
count_loan l c =
    count_status l.status l.remaining_balance (record c { volume = c.volume + l.loan_amount })

unfoldable pub count_loans : List Loan → LoanCounts → LoanCounts
count_loans [] c = c
count_loans (l ∷ loans) c = count_loans loans (count_loan l c)

-- `totalLoans > 0 ? round((n / totalLoans) * 100) : 0`
abbrev pub rate_of : ℕ → ℕ → ℕ
rate_of n total = if leb total 0 then 0 else round_ratio (n * 10000) total

abbrev pub aggregate_of : ℕ → LoanCounts → MerchantLoanAggregate
aggregate_of total c = record {
  total_loans = total;
  active_loans = c.active;
  completed_loans = c.completed;
  defaulted_loans = c.defaulted;
  total_volume = round_cents c.volume;
  outstanding_balance = round_cents c.outstanding;
  repayment_rate = rate_of c.completed total;
  default_rate = rate_of c.defaulted total;
}

unfoldable pub aggregate_loans : List Loan → MerchantLoanAggregate
unfolding count_loans
aggregate_loans loans = aggregate_of (length loans) (count_loans loans no_loans)

abbrev pub map_score_to_tier : ℕ → Tier
map_score_to_tier score =
    if leb 90 score
    then Tier.gold
    else if leb 75 score
    then Tier.silver
    else if leb 60 score
    then Tier.bronze
    else Tier.poor

-- A point of the score, in units of which the terms below are whole: 10000 dollars of volume.
abbrev pub point : ℕ
point = 100000000000

-- `Math.min(MAX_VOLUME_BONUS, totalVolume / VOLUME_BONUS_DIVISOR)`
abbrev pub volume_bonus : MerchantLoanAggregate → ℕ
volume_bonus a = min (10 * point) a.total_volume

-- `Math.max(0, Math.min(100, Math.round(rawScore)))`: where the penalty is larger, the difference
-- stops at 0, to which the code raises it.
abbrev pub score_points : MerchantLoanAggregate → ℕ
score_points a =
    min 100 (
      round_ratio (a.repayment_rate * 900000000 + volume_bonus a - a.default_rate * 500000000)
        point)

unfoldable pub calculate_score : MerchantLoanAggregate → MerchantScoreResult
calculate_score a =
    if a.total_loans == 0
    then record { score = 0; tier = Tier.poor }
    else record { score = score_points a; tier = map_score_to_tier (score_points a) }
