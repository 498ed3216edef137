-- ===== src/Liquidity/Contract.antt =====
-- LiquidityContractClient (blockchain/contracts/liquidity-contract.client.ts), its reads.
use trust_up_api.Base.{
  ℕ, ◌*◌, ◌/◌, ◌-◌, ◌&&◌, ◌||◌, leb, not, Bool, true, false, Option, none, some, List, [], ◌∷◌, ok,
  err, if◌then◌else◌,
}
use trust_up_api.Liquidity.Defs.{
  Method, LiquidityError, Call, ◌>>=◌, ◌>>◌, throw_if, Difference, difference, RawPoolStats,
  PoolStats, LiquiditySources,
}

abbrev pub share_price_bps : ℕ
share_price_bps = 10000

-- `totalShares > 0n ? (totalLiquidity * SHARE_PRICE_BPS) / totalShares : 0n`
abbrev pub price_of : ℕ → ℕ → ℕ
price_of liquidity shares = if leb shares 0 then 0 else liquidity * share_price_bps / shares

abbrev pub locked_or : Option ℕ → Difference → Difference
locked_or none d = d
locked_or (some n) d = Difference.plus n

abbrev pub price_or : Option ℕ → ℕ → ℕ
price_or none n = n
price_or (some price) n = price

abbrev pub stats_of_raw : ℕ → RawPoolStats → PoolStats
stats_of_raw fee_bps raw = record {
  total_liquidity = raw.total_liquidity;
  locked_liquidity =
      locked_or raw.locked_liquidity (difference raw.total_liquidity raw.available_liquidity);
  available_liquidity = raw.available_liquidity;
  total_shares = raw.total_shares;
  share_price = price_or raw.share_price (price_of raw.total_liquidity raw.total_shares);
  withdrawal_fee_bps = fee_bps;
}

-- Here a negative difference counts as 0, where the subtraction stops.
abbrev pub granular_stats : ℕ → ℕ → ℕ → ℕ → PoolStats
granular_stats liquidity available shares fee_bps = record {
  total_liquidity = liquidity;
  locked_liquidity = Difference.plus (liquidity - available);
  available_liquidity = available;
  total_shares = shares;
  share_price = price_of liquidity shares;
  withdrawal_fee_bps = fee_bps;
}

abbrev pub fee_methods : List Method
fee_methods =
    Method.get_withdrawal_fee_bps ∷ Method.withdrawal_fee_bps ∷ Method.get_withdraw_fee_bps ∷ []

abbrev pub amount_of_shares : ℕ → PoolStats → ℕ
amount_of_shares shares stats =
    if leb stats.total_shares 0 then 0 else shares * stats.total_liquidity / stats.total_shares

-- The first deposit has one share per unit.
abbrev pub shares_of_amount : ℕ → PoolStats → ℕ
shares_of_amount amount stats =
    if leb stats.total_shares 0 || leb stats.total_liquidity 0
    then amount
    else amount * stats.total_shares / stats.total_liquidity

module _ (src : LiquiditySources) where
  abbrev pub ensure_configured : Call (Unit {0})
  ensure_configured = throw_if (not src.is_configured) LiquidityError.contract_not_configured

  -- The methods are tried in order; where `allow` is set, an error of the contract ends it.
  unfoldable pub read_big_int : List Method → List ℕ → Bool → Call ℕ
  read_big_int [] args allow = err LiquidityError.contract_read_failed
  read_big_int (method ∷ methods) args allow = elim (src.simulate method args) [
    | ok n ↦ ok n
    | err is_missing_provider ↦ elim (allow && is_missing_provider) [
      | true ↦ err LiquidityError.contract_error
      | false ↦ read_big_int methods args allow
    ]
  ]

  unfoldable pub fee_from : List Method → ℕ
  unfolding read_big_int
  fee_from [] = 0
  fee_from (method ∷ methods) = elim (read_big_int (method ∷ []) [] true) [
    | ok n ↦ n
    | err _ ↦ fee_from methods
  ]

  unfoldable pub get_withdrawal_fee_bps : ℕ
  unfolding fee_from
  get_withdrawal_fee_bps = fee_from fee_methods

  abbrev pub shares_or_none : Call ℕ → Call ℕ
  shares_or_none (err LiquidityError.contract_error) = ok 0
  shares_or_none r = r

  unfoldable pub get_lp_shares : ℕ → Call ℕ
  unfolding read_big_int
  get_lp_shares wallet = do
    ensure_configured
    shares_or_none (
        read_big_int
          (Method.get_lp_shares ∷ Method.get_provider_shares ∷ Method.provider_shares
            ∷ Method.get_shares ∷ Method.shares_of ∷ [])
          (wallet ∷ []) true)

  unfoldable pub read_granular : Call PoolStats
  unfolding read_big_int get_withdrawal_fee_bps
  read_granular = do
    liquidity ← read_big_int (Method.get_total_liquidity ∷ Method.total_liquidity ∷ []) [] false
    available ←
        read_big_int
          (Method.get_available_liquidity ∷ Method.available_liquidity ∷ Method.liquid_assets ∷ [])
          [] false
    shares ← read_big_int (Method.get_total_shares ∷ Method.total_shares ∷ []) [] false
    ok (granular_stats liquidity available shares get_withdrawal_fee_bps)

  abbrev pub raw_or_granular : Option RawPoolStats → Call PoolStats
  raw_or_granular (some raw) = ok (stats_of_raw get_withdrawal_fee_bps raw)
  raw_or_granular none = read_granular

  unfoldable pub get_pool_stats : Call PoolStats
  unfolding read_granular
  get_pool_stats = do ensure_configured; raw_or_granular src.pool_stats

  abbrev pub or_from_stats : (PoolStats → ℕ) → Call ℕ → Call ℕ
  or_from_stats from_stats (ok n) = ok n
  or_from_stats from_stats (err _) = get_pool_stats >>= λ stats. ok (from_stats stats)

  unfoldable pub calculate_withdrawal : ℕ → Call ℕ
  unfolding read_big_int get_pool_stats
  calculate_withdrawal shares = do
    ensure_configured
    or_from_stats (amount_of_shares shares)
        (read_big_int (Method.calculate_withdrawal ∷ []) (shares ∷ []) false)

  unfoldable pub calculate_deposit : ℕ → Call ℕ
  unfolding read_big_int get_pool_stats
  calculate_deposit amount = do
    ensure_configured
    or_from_stats (shares_of_amount amount) (
        read_big_int
          (Method.calculate_deposit ∷ Method.calculate_deposit_shares ∷ Method.preview_deposit ∷ [])
          (amount ∷ []) false)
