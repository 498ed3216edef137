-- ===== src/Liquidity/Defs.antt =====
-- The data of the liquidity pool, and calls that return a value or throw. Shares and amounts are
-- whole numbers of stroops, and the numbers that the contract answers with are not negative.
use trust_up_api.Base.{ℕ, ◌-◌, leb, Bool, true, false, Option, List, Result, ok, err, if◌then◌else◌}

-- The methods of the contract that are tried
pub data Method : Type 0 where
  get_lp_shares get_provider_shares provider_shares get_shares shares_of : Method
  get_total_liquidity total_liquidity : Method
  get_available_liquidity available_liquidity liquid_assets : Method
  get_total_shares total_shares : Method
  get_withdrawal_fee_bps withdrawal_fee_bps get_withdraw_fee_bps : Method
  calculate_withdrawal : Method
  calculate_deposit calculate_deposit_shares preview_deposit : Method

pub data LiquidityError : Type 0 where
  -- BLOCKCHAIN_CONTRACT_NOT_CONFIGURED, BLOCKCHAIN_CONTRACT_READ_FAILED
  contract_not_configured contract_read_failed : LiquidityError
  -- an error of the contract itself, which passes through
  contract_error : LiquidityError
  -- an exception while a transaction is built
  transaction_not_built : LiquidityError
  validation_minimum_deposit validation_invalid_shares : LiquidityError
  liquidity_insufficient_shares liquidity_insufficient_available_liquidity : LiquidityError

abbrev pub Call : Type 0 → Type 0
Call A = Result LiquidityError A

infixl 5 ◌>>=◌ ◌>>◌
abbrev pub ◌>>=◌ : {A B : Type 0} → Call A → (A → Call B) → Call B
ok a >>= f = f a
err e >>= f = err e

abbrev pub ◌>>◌ : {A B : Type 0} → Call A → Call B → Call B
m >> k = m >>= λ _. k

-- `if (c) throw …;`
abbrev pub throw_if : Bool → LiquidityError → Call (Unit {0})
throw_if true e = err e
throw_if false e = ok tt

-- A difference of two numbers that are not negative
pub data Difference : Type 0 where
  plus minus : ℕ → Difference

abbrev pub difference : ℕ → ℕ → Difference
difference a b = if leb b a then plus (a - b) else minus (b - a)

-- What `get_pool_stats` of the contract answers; two fields may be missing.
pub record RawPoolStats : Type 0 where
  pub total_liquidity : ℕ
  pub available_liquidity : ℕ
  pub total_shares : ℕ
  pub locked_liquidity : Option ℕ
  pub share_price : Option ℕ

pub record PoolStats : Type 0 where
  pub total_liquidity : ℕ
  pub locked_liquidity : Difference
  pub available_liquidity : ℕ
  pub total_shares : ℕ
  pub share_price : ℕ
  pub withdrawal_fee_bps : ℕ

pub record LiquiditySources : Type 0 where
  -- whether the identifier of the contract is set
  pub is_configured : Bool
  -- SorobanService.simulateContractCall with a wallet or an amount as its argument: a number, or an
  -- exception, and whether it is an error of the contract
  pub simulate : Method → List ℕ → Result Bool ℕ
  pub pool_stats : Option RawPoolStats
  -- buildDepositTx and buildWithdrawTx: the XDR, or an exception
  pub build_deposit_tx : ℕ → ℕ → Option ℕ
  pub build_withdraw_tx : ℕ → ℕ → Option ℕ
