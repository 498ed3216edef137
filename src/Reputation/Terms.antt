-- ===== src/Reputation/Terms.antt =====
-- Scores, tiers and credit terms: ReputationService.mapToReputation and fetchScoreFromBlockchain
-- (modules/reputation/reputation.service.ts).
use Prim.Native.Nat.{◌^◌}
use trust_up_api.Base.{ℕ, ◌+◌, ◌-◌, ◌*◌, ◌%◌, ◌≤◌, List, [], ◌∷◌, arith, leb, ltb, if◌then◌else◌}

pub data Tier : Type 0 where
  gold silver bronze poor : Tier

-- Rates are whole percents per year, credit limits whole dollars, times milliseconds.
pub record Reputation : Type 0 where
  pub wallet : ℕ
  pub score : ℕ
  pub tier : Tier
  pub interest_rate : ℕ
  pub max_credit : ℕ
  pub last_updated : ℕ

unfoldable pub map_to_reputation : ℕ → ℕ → ℕ → Reputation
map_to_reputation wallet score last_updated =
    let terms : Tier → ℕ → ℕ → Reputation = λ t rate credit. record {
      wallet = wallet;
      score = score;
      tier = t;
      interest_rate = rate;
      max_credit = credit;
      last_updated = last_updated;
    } in
    if leb 90 score
    then terms Tier.gold 5 5000
    else if leb 75 score
    then terms Tier.silver 8 3000
    else if leb 60 score
    then terms Tier.bronze 9 1500
    else terms Tier.poor 12 500

-- One round of the hash: `hash = (hash << 5) - hash + c; hash |= 0`, on 32-bit words.
hash_step : ℕ → ℕ → ℕ
hash_step hash c = (hash * 31 + c) % 2 ^ 32

hash_from : ℕ → List ℕ → ℕ
hash_from hash [] = hash
hash_from hash (c ∷ cs) = hash_from (hash_step hash c) cs

-- `Math.abs(hash % 101)`, where the word `hash` stands for a negative number from 2 ^ 31 on
score_of_word : ℕ → ℕ
score_of_word hash = if ltb hash (2 ^ 31) then hash % 101 else (2 ^ 32 - hash) % 101

-- `fetchScoreFromBlockchain`, on the UTF-16 codes of the wallet's text
unfoldable pub fetch_score_from_blockchain : List ℕ → ℕ
unfolding hash_from hash_step score_of_word
fetch_score_from_blockchain codes = score_of_word (hash_from 0 codes)

-- Every wallet has a score of at most 100.
pub fetch_score_le : (codes : List ℕ) → fetch_score_from_blockchain codes ≤ 100
unfolding fetch_score_from_blockchain
fetch_score_le codes = ground arith

-- A better score never costs: the credit limit does not fall and the rate does not rise.
pub map_to_reputation_mono :
    (w v a b t u : ℕ)
    → a ≤ b
    → let r = map_to_reputation w a t in
      let s = map_to_reputation v b u in
      (r.max_credit ≤ s.max_credit) × (s.interest_rate ≤ r.interest_rate)
unfolding map_to_reputation
map_to_reputation_mono w v a b t u h = ground arith
