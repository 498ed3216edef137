-- ===== src/Liquidity/Tests.antt =====
-- A pool of 1200 stroops and 1000 shares, 400 of which belong to one wallet; the contract computes no
-- previews.
use trust_up_api.Base.{
  ℕ, ◌+◌, ◌*◌, ◌≤◌, ◌<◌, ◌≡◌, refl, true, false, none, some, List, [], ◌∷◌, Bool, Result, ok, err,
  arith,
}
use trust_up_api.Loans.Money.{dollar}
use trust_up_api.Liquidity.Defs.{Method, LiquidityError, PoolStats, RawPoolStats, LiquiditySources}
use trust_up_api.Liquidity.Contract.{
  read_big_int, fee_from, get_withdrawal_fee_bps, get_lp_shares, get_pool_stats, stats_of_raw,
  calculate_deposit, calculate_withdrawal,
}
use trust_up_api.Liquidity.Service.{
  LiquidityWithdrawResponse, withdraw_preview, withdraw_liquidity, deposit_liquidity,
}
use trust_up_api.Liquidity.Previews.{IsBorne, withdraw_liquidity-IsBorne}
use trust_up_api.Liquidity.RoundTrip.{is_preview, calculate_deposit-back}

abbrev simulate : Method → List ℕ → Result Bool ℕ
simulate Method.provider_shares args = ok 400
simulate Method.withdrawal_fee_bps args = ok 50
simulate Method.get_lp_shares args = err false
simulate Method.get_provider_shares args = err false
simulate Method.get_withdrawal_fee_bps args = err false
simulate _ args = err true

abbrev raw : RawPoolStats
raw = record {
  total_liquidity = 1200;
  available_liquidity = 900;
  total_shares = 1000;
  locked_liquidity = none;
  share_price = none;
}

abbrev sources : LiquiditySources
sources = record {
  is_configured = true;
  simulate = simulate;
  pool_stats = some raw;
  build_deposit_tx = λ wallet amount. some (wallet + amount);
  build_withdraw_tx = λ wallet shares. some (wallet + shares);
}

abbrev stats : PoolStats
stats = stats_of_raw 50 raw

stats_read : get_pool_stats sources ≡ ok stats
unfolding get_pool_stats get_withdrawal_fee_bps fee_from read_big_int
stats_read = refl

abbrev offer : LiquidityWithdrawResponse
offer = record { unsigned_xdr = 307; preview = withdraw_preview 300 400 360 stats }

offers : withdraw_liquidity sources 7 300 ≡ ok offer
unfolding withdraw_liquidity get_lp_shares get_pool_stats get_withdrawal_fee_bps fee_from
    read_big_int calculate_withdrawal
offers = refl

lacks_shares : withdraw_liquidity sources 7 401 ≡ err LiquidityError.liquidity_insufficient_shares
unfolding withdraw_liquidity get_lp_shares get_pool_stats get_withdrawal_fee_bps fee_from
    read_big_int calculate_withdrawal
lacks_shares = refl

too_small : deposit_liquidity sources 7 (9 * dollar) ≡ err LiquidityError.validation_minimum_deposit
unfolding deposit_liquidity
too_small = refl

withdraw_liquidity-IsBorne_example :
    IsBorne sources 7 300 stats (withdraw_preview 300 400 360 stats)
withdraw_liquidity-IsBorne_example =
    withdraw_liquidity-IsBorne sources 7 300 stats offer stats_read offers

sources-lacks : (m : Method) (n : ℕ) → is_preview m ≡ true → simulate m (n ∷ []) ≡ err true
sources-lacks m n h = ground arith

-- A deposit of 101 gets 84 shares, which are worth 100.
calculate_deposit-back_example :
    (shares back : ℕ) × (calculate_deposit sources 101 ≡ ok shares)
    × (calculate_withdrawal sources shares ≡ ok back)
    × (back ≤ 101)
    × (101 * 1000 < back * 1000 + 1000 + 1200)
calculate_deposit-back_example =
    calculate_deposit-back sources stats sources-lacks stats_read 101 (omega arith) (omega arith)
