-- ===== src/Liquidity/Previews.antt =====
-- What the previews of a withdrawal and a deposit promise.
use native.Mathlib.Nat.{mul-le-mul_left}
use trust_up_api.Base.{
  ℕ, ◌+◌, ◌-◌, ◌*◌, ◌⊎◌, ◌≤◌, ◌<◌, ◌≡◌, ◌||◌, refl, subst, inl, inr, leb, ltb, Bool-cases, false,
  ok, Result-cases, Option-cases, arith,
}
use trust_up_api.Liquidity.Defs.{Difference, PoolStats, LiquiditySources}
use trust_up_api.Liquidity.Contract.{
  share_price_bps, get_lp_shares, get_pool_stats, calculate_withdrawal,
}
use trust_up_api.Liquidity.Service.{
  LiquidityWithdrawPreview, LiquidityWithdrawResponse, fee_of, withdraw_preview, withdraw_liquidity,
}

pub fee_of_le :
    (expected : ℕ) (stats : PoolStats)
    → stats.withdrawal_fee_bps ≤ share_price_bps
    → fee_of expected stats ≤ expected
fee_of_le expected stats h = let le = mul-le-mul_left expected h in omega (arith, le)

-- The fee is its share of the value, in basis points, rounded down to a stroop.
abbrev pub IsRounded : PoolStats → LiquidityWithdrawPreview → Type 0
IsRounded stats p =
    (p.fee * 10000 ≤ p.expected_amount * stats.withdrawal_fee_bps)
    × (p.expected_amount * stats.withdrawal_fee_bps < p.fee * 10000 + 10000)

-- Fee and net amount make the value; a fee of more than 10000 basis points may be above the value,
-- and then the net amount is negative by as much.
abbrev pub IsNet : PoolStats → LiquidityWithdrawPreview → Type 0
IsNet stats p =
    ((net : ℕ) × (p.net_amount ≡ Difference.plus net) × (p.fee + net ≡ p.expected_amount))
    ⊎ ((10000 < stats.withdrawal_fee_bps)
        × ((over : ℕ) × (p.net_amount ≡ Difference.minus over)
            × (p.fee ≡ p.expected_amount + over)))

withdraw_preview-IsRounded :
    (shares owned expected : ℕ) (stats : PoolStats)
    → IsRounded stats (withdraw_preview shares owned expected stats)
withdraw_preview-IsRounded shares owned expected stats = (omega arith, omega arith)

withdraw_preview-IsNet :
    (shares owned expected : ℕ) (stats : PoolStats)
    → IsNet stats (withdraw_preview shares owned expected stats)
withdraw_preview-IsNet shares owned expected stats =
    elim (Bool-cases (leb (fee_of expected stats) expected)) [
      | inl covered ↦ inl (expected - fee_of expected stats, ground arith, ground arith)
      | inr above ↦ elim (Bool-cases (leb stats.withdrawal_fee_bps share_price_bps)) [
        | inl small ↦
            absurd (let le = fee_of_le expected stats (ground arith) in ground (arith, le))
        | inr large ↦
            inr (ground arith, (fee_of expected stats - expected, ground arith, ground arith))
      ]
    ]

module _ (src : LiquiditySources) where
  -- A preview of a withdrawal that the wallet and the pool can bear
  abbrev pub IsBorne : ℕ → ℕ → PoolStats → LiquidityWithdrawPreview → Type 0
  IsBorne wallet shares stats p =
      (0 < shares)
      × (p.shares ≡ shares)
      × (get_lp_shares src wallet ≡ ok p.owned_shares)
      × (shares + p.remaining_shares ≡ p.owned_shares)
      × (calculate_withdrawal src shares ≡ ok p.expected_amount)
      × (p.expected_amount ≤ stats.available_liquidity)
      × IsRounded stats p
      × IsNet stats p

  withdraw_preview-IsBorne :
      (wallet shares owned expected : ℕ) (stats : PoolStats)
      → leb shares 0 ≡ false
      → (leb owned 0 || ltb owned shares) ≡ false
      → ltb stats.available_liquidity expected ≡ false
      → get_lp_shares src wallet ≡ ok owned
      → calculate_withdrawal src shares ≡ ok expected
      → IsBorne wallet shares stats (withdraw_preview shares owned expected stats)
  withdraw_preview-IsBorne wallet shares owned expected stats asked owns bears f g = (
    ground arith,
    refl,
    f,
    ground arith,
    g,
    ground arith,
    withdraw_preview-IsRounded shares owned expected stats,
    withdraw_preview-IsNet shares owned expected stats,
  )

  -- A withdrawal is offered only for shares above 0 that the wallet owns, whose value, by the
  -- contract, the pool has available; the shares that remain and those withdrawn make the owned
  -- ones. The fee is its basis points of the value, rounded down, and fee and net amount make the
  -- value, except that for more than 10000 basis points the net amount may be below 0.
  pub withdraw_liquidity-IsBorne :
      (wallet shares : ℕ) (stats : PoolStats) (r : LiquidityWithdrawResponse)
      → get_pool_stats src ≡ ok stats
      → withdraw_liquidity src wallet shares ≡ ok r
      → IsBorne wallet shares stats r.preview
  unfolding withdraw_liquidity
  withdraw_liquidity-IsBorne wallet shares stats r read returned =
      elim (Bool-cases (leb shares 0)) [
        | inl none_asked ↦ absurd (ground arith)
        | inr some_asked ↦ elim (Result-cases (get_lp_shares src wallet)) [
          | inl (e, f) ↦ absurd (ground arith)
          | inr (owned, f) ↦ elim (Bool-cases (leb owned 0 || ltb owned shares)) [
            | inl lacks ↦ absurd (ground arith)
            | inr owns ↦ elim (Result-cases (calculate_withdrawal src shares)) [
              | inl (e, g) ↦ absurd (ground arith)
              | inr (expected, g) ↦ elim (Bool-cases (ltb stats.available_liquidity expected)) [
                | inl short ↦ absurd (ground arith)
                | inr bears ↦ elim (Option-cases (src.build_withdraw_tx wallet shares)) [
                  | inl failed ↦ absurd (ground arith)
                  | inr (xdr, b) ↦
                      let same : withdraw_preview shares owned expected stats ≡ r.preview =
                        ground arith in
                      subst (IsBorne wallet shares stats) same (
                        withdraw_preview-IsBorne wallet shares owned expected stats some_asked owns
                          bears f g)
                ]
              ]
            ]
          ]
        ]
      ]
