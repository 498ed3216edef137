-- ===== src/Liquidity/RoundTrip.antt =====
-- A deposit that is withdrawn again, where the contract computes neither preview and the client does.
use native.Mathlib.Nat.{div-mul-le_self, lt-div-mul-add, le_of_mul-le-mul_right}
use trust_up_api.Base.{
  ℕ, ◌+◌, ◌*◌, ◌/◌, ◌≤◌, ◌<◌, ◌≡◌, refl, ap, ◌∙◌, inl, inr, Bool-cases, Bool, true, false, [], ◌∷◌,
  ok, err, arith,
}
use trust_up_api.Liquidity.Defs.{Method, PoolStats, LiquiditySources}
use trust_up_api.Liquidity.Contract.{
  read_big_int, get_pool_stats, shares_of_amount, amount_of_shares, calculate_deposit,
  calculate_withdrawal,
}

-- The methods of the contract that compute a preview
abbrev pub is_preview : Method → Bool
is_preview Method.calculate_withdrawal = true
is_preview Method.calculate_deposit = true
is_preview Method.calculate_deposit_shares = true
is_preview Method.preview_deposit = true
is_preview _ = false

-- Both divisions round down.
back_le : (amount total pool : ℕ) → 0 < total → amount * total / pool * pool / total ≤ amount
back_le amount total pool h =
    let shares = amount * total / pool in
    le_of_mul-le-mul_right {m = shares * pool / total} {n = amount} {k = total}
      (omega (arith, div-mul-le_self (amount * total) pool, div-mul-le_self (shares * pool) total))
      h

back_near :
    (amount total pool : ℕ)
    → 0 < total
    → 0 < pool
    → amount * total < amount * total / pool * pool / total * total + total + pool
back_near amount total pool h k =
    let shares = amount * total / pool in
    omega (
      arith,
      lt-div-mul-add {a = amount * total} {b = pool} k,
      lt-div-mul-add {a = shares * pool} {b = total} h,
    )

module _ (src : LiquiditySources) (stats : PoolStats)
    (lacks : (m : Method) (n : ℕ) → is_preview m ≡ true → src.simulate m (n ∷ []) ≡ err true)
    (read : get_pool_stats src ≡ ok stats) where
  reads_configured : src.is_configured ≡ true
  unfolding get_pool_stats
  reads_configured = elim (Bool-cases src.is_configured) [
    | inl is_set ↦ is_set
    | inr unset ↦ absurd (ground arith)
  ]

  calculate_deposit-stats :
      (amount : ℕ) → calculate_deposit src amount ≡ ok (shares_of_amount amount stats)
  unfolding calculate_deposit read_big_int
  calculate_deposit-stats amount = ground (
    arith,
    reads_configured,
    lacks Method.calculate_deposit amount refl,
    lacks Method.calculate_deposit_shares amount refl,
    lacks Method.preview_deposit amount refl,
    read,
  )

  calculate_withdrawal-stats :
      (shares : ℕ) → calculate_withdrawal src shares ≡ ok (amount_of_shares shares stats)
  unfolding calculate_withdrawal read_big_int
  calculate_withdrawal-stats shares =
      ground (arith, reads_configured, lacks Method.calculate_withdrawal shares refl, read)

  -- Where the contract computes no previews and the statistics of the pool are read, with shares and
  -- liquidity above 0: the shares that are previewed for a deposit are worth no more than the
  -- deposit, by the preview of their withdrawal, and less only by the value of one share and one
  -- unit.
  pub calculate_deposit-back :
      (amount : ℕ)
      → 0 < stats.total_shares
      → 0 < stats.total_liquidity
      → (shares back : ℕ) × (calculate_deposit src amount ≡ ok shares)
        × (calculate_withdrawal src shares ≡ ok back)
        × (back ≤ amount)
        × (amount * stats.total_shares
            < back * stats.total_shares + stats.total_shares + stats.total_liquidity)
  calculate_deposit-back amount h k =
      let total = stats.total_shares in
      let pool = stats.total_liquidity in
      let shares = amount * total / pool in
      let gives : shares_of_amount amount stats ≡ shares = ground arith in
      let pays : amount_of_shares shares stats ≡ shares * pool / total = ground arith in
      (
        shares,
        shares * pool / total,
        calculate_deposit-stats amount ∙ ap ok gives,
        calculate_withdrawal-stats shares ∙ ap ok pays,
        back_le amount total pool h,
        back_near amount total pool h k,
      )
