-- ===== src/Reputation/Tests.antt =====
-- Scores and cache states that the theorems are applied at.
use trust_up_api.Base.{◌≤◌, ◌≡◌, refl, [], ◌∷◌, All, reliable, steady}
use trust_up_api.Reputation.Terms.{
  Tier, map_to_reputation, fetch_score_from_blockchain, fetch_score_le,
}
use trust_up_api.Reputation.Service.{
  Caches, Sources, WarmRow, get_reputation_score, invalidate_reputation,
}
use trust_up_api.Reputation.Sources.{IsConsistent, get_reputation_score-IsConsistent}

-- The text "G", and one whose hash is negative.
score_of_g : fetch_score_from_blockchain (71 ∷ []) ≡ 71
unfolding fetch_score_from_blockchain
score_of_g = refl

score_of_negative : fetch_score_from_blockchain (71 ∷ 66 ∷ 65 ∷ 90 ∷ 71 ∷ 66 ∷ 90 ∷ []) ≤ 100
score_of_negative = fetch_score_le (71 ∷ 66 ∷ 65 ∷ 90 ∷ 71 ∷ 66 ∷ 90 ∷ [])

abbrev sources : Sources
sources = record {
  redis = steady;
  reputation_cache = reliable;
  users_table = reliable;
  char_codes = λ wallet. wallet ∷ [];
}

abbrev bronze_row : WarmRow
bronze_row = record {
  user_id = 1;
  wallet_address = 7;
  score = 61;
  tier = Tier.bronze;
  last_synced_at = 1000;
}

abbrev warm_only : Caches
warm_only = record {
  hot = [];
  warm = bronze_row ∷ [];
  users = record { id = 1; wallet_address = 7 } ∷ [];
}

warm_hit : (get_reputation_score sources 2000 7 warm_only).0 ≡ map_to_reputation 7 61 1000
unfolding get_reputation_score map_to_reputation
warm_hit = refl

stale_row : (get_reputation_score sources 3601000 7 warm_only).0 ≡ map_to_reputation 7 7 3601000
unfolding get_reputation_score map_to_reputation fetch_score_from_blockchain
stale_row = refl

invalidated : (invalidate_reputation sources 7 warm_only).warm ≡ []
unfolding invalidate_reputation
invalidated = refl

get_reputation_score-IsConsistent_example :
    let out = get_reputation_score sources 2000 7 warm_only in
    IsConsistent (7, out.0) × All IsConsistent out.1.hot
get_reputation_score-IsConsistent_example =
    get_reputation_score-IsConsistent sources 2000 7 warm_only tt
