-- ===== src/Liquidity/Service.antt =====
-- LiquidityService (modules/liquidity/liquidity.service.ts), deposits and withdrawals. The amounts of
-- a request are whole numbers of stroops, so `toStroops` and `fromStroops` round nothing.
use trust_up_api.Base.{
  ℕ, ◌+◌, ◌-◌, ◌*◌, ◌/◌, ◌||◌, leb, ltb, Option, none, some, ok, err, if◌then◌else◌,
}
use trust_up_api.Loans.Money.{dollar}
use trust_up_api.Liquidity.Defs.{
  LiquidityError, Call, ◌>>=◌, ◌>>◌, throw_if, Difference, difference, PoolStats, LiquiditySources,
}
use trust_up_api.Liquidity.Contract.{
  share_price_bps, get_lp_shares, get_pool_stats, calculate_deposit, calculate_withdrawal,
}

abbrev pub min_deposit_amount : ℕ
min_deposit_amount = 10 * dollar

pub record LiquidityDepositPreview : Type 0 where
  pub deposit_amount : ℕ
  pub shares_received : ℕ
  -- in units of 10 ^ -7 dollars
  pub current_share_price : ℕ
  pub new_total_value : ℕ
  pub current_total_liquidity : ℕ

pub record LiquidityDepositResponse : Type 0 where
  pub unsigned_xdr : ℕ
  pub preview : LiquidityDepositPreview

pub record LiquidityWithdrawPreview : Type 0 where
  pub shares : ℕ
  pub owned_shares : ℕ
  pub remaining_shares : ℕ
  pub current_share_price : ℕ
  pub expected_amount : ℕ
  pub fee_bps : ℕ
  pub fee : ℕ
  pub net_amount : Difference
  pub available_liquidity : ℕ

pub record LiquidityWithdrawResponse : Type 0 where
  pub unsigned_xdr : ℕ
  pub preview : LiquidityWithdrawPreview

-- `roundTo7(sharePrice / SHARE_PRICE_BPS)`
abbrev pub price_in_stroops : ℕ → ℕ
price_in_stroops share_price = share_price * 1000

abbrev pub current_price : PoolStats → ℕ
current_price stats =
    if leb stats.total_shares 0 then dollar else price_in_stroops stats.share_price

abbrev pub built : Option ℕ → Call ℕ
built none = err LiquidityError.transaction_not_built
built (some xdr) = ok xdr

abbrev pub deposit_preview : ℕ → ℕ → PoolStats → LiquidityDepositPreview
deposit_preview amount shares stats = record {
  deposit_amount = amount;
  shares_received = shares;
  current_share_price = current_price stats;
  new_total_value = stats.total_liquidity + amount;
  current_total_liquidity = stats.total_liquidity;
}

-- `(expectedAmount * withdrawalFeeBps) / SHARE_PRICE_BPS`
abbrev pub fee_of : ℕ → PoolStats → ℕ
fee_of expected stats = expected * stats.withdrawal_fee_bps / share_price_bps

-- `remainingShares` is a difference whose guard has passed.
abbrev pub withdraw_preview : ℕ → ℕ → ℕ → PoolStats → LiquidityWithdrawPreview
withdraw_preview shares owned expected stats = record {
  shares = shares;
  owned_shares = owned;
  remaining_shares = owned - shares;
  current_share_price = price_in_stroops stats.share_price;
  expected_amount = expected;
  fee_bps = stats.withdrawal_fee_bps;
  fee = fee_of expected stats;
  net_amount = difference expected (fee_of expected stats);
  available_liquidity = stats.available_liquidity;
}

module _ (src : LiquiditySources) where
  unfoldable pub deposit_liquidity : ℕ → ℕ → Call LiquidityDepositResponse
  deposit_liquidity wallet amount = do
    throw_if (ltb amount min_deposit_amount) LiquidityError.validation_minimum_deposit
    stats ← get_pool_stats src
    shares ← calculate_deposit src amount
    xdr ← built (src.build_deposit_tx wallet amount)
    ok (record { unsigned_xdr = xdr; preview = deposit_preview amount shares stats })

  abbrev pub withdraw_owned : ℕ → ℕ → ℕ → PoolStats → Call LiquidityWithdrawResponse
  withdraw_owned wallet shares owned stats = do
    throw_if (leb owned 0 || ltb owned shares) LiquidityError.liquidity_insufficient_shares
    expected ← calculate_withdrawal src shares
    throw_if (ltb stats.available_liquidity expected)
        LiquidityError.liquidity_insufficient_available_liquidity
    xdr ← built (src.build_withdraw_tx wallet shares)
    ok (record { unsigned_xdr = xdr; preview = withdraw_preview shares owned expected stats })

  unfoldable pub withdraw_liquidity : ℕ → ℕ → Call LiquidityWithdrawResponse
  withdraw_liquidity wallet shares = do
    throw_if (leb shares 0) LiquidityError.validation_invalid_shares
    owned ← get_lp_shares src wallet
    stats ← get_pool_stats src
    withdraw_owned wallet shares owned stats
