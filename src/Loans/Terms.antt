-- ===== src/Loans/Terms.antt =====
-- The amounts of a quote, and when the service gives one.
use trust_up_api.Base.{
  ℕ, ◌+◌, ◌*◌, ◌≤◌, ◌≡◌, ◌==◌, Bool, true, false, none, some, [], ◌∷◌, ok, arith, keep,
  Result-cases, maybe_single-some, inl, inr, ◌⊎◌,
}
use trust_up_api.Reputation.Service.{get_reputation_score}
use trust_up_api.Loans.Money.{cent, dollar, round_ratio}
use trust_up_api.Loans.Schedule.{total_of, total_of-schedule}
use trust_up_api.Loans.Quote.{
  Merchant, LoansStore, LoanLibraries, LoanQuoteRequest, LoanQuoteResponse, guarantee_of,
  loan_amount_of, total_repayment_of, terms_of, validate_merchant, prepare_loan_preview,
}

guarantee-add_loan_amount : (a : ℕ) → guarantee_of (cent * a) + loan_amount_of (cent * a) ≡ cent * a
guarantee-add_loan_amount a = omega arith

loan_amount-le_total :
    (l rate term : ℕ)
    → let total = total_repayment_of (cent * l) rate term in
      let exact = cent * l * (1200 + rate * term) in
      (cent * l ≤ total) × (1200 * total ≤ exact + 600 * cent) × (exact ≤ 1200 * total + 600 * cent)
loan_amount-le_total l rate term = (grind arith, omega arith, omega arith)

module _ (lib : LoanLibraries) where
  -- For a price of a whole number of cents, over at least one month: guarantee and loan add up to
  -- the price, the total is the loan with its interest to half a cent and no less than the loan,
  -- and the payments of the schedule add up to the total.
  pub terms_of-add_up :
      (now a term merchant rate : ℕ)
      → 1 ≤ term
      → let terms =
          terms_of lib now (record { amount = cent * a; merchant = merchant; term = term }) rate in
        let exact = terms.loan_amount * (1200 + rate * term) in
        (terms.guarantee + terms.loan_amount ≡ cent * a)
        × (terms.loan_amount ≤ terms.total_repayment)
        × (1200 * terms.total_repayment ≤ exact + 600 * cent)
        × (exact ≤ 1200 * terms.total_repayment + 600 * cent)
        × (total_of terms.schedule ≡ terms.total_repayment)
  unfolding terms_of
  terms_of-add_up now a term merchant rate h =
      let l : ℕ = round_ratio (8 * (cent * a)) (10 * cent) in
      let bounds = loan_amount-le_total l rate term in
      (
        guarantee-add_loan_amount a,
        bounds.0,
        bounds.1,
        bounds.2,
        total_of-schedule (lib.due_date now)
            (round_ratio (cent * l * (1200 + rate * term)) (1200 * cent)) term h,
      )

  -- What a preview says of the wallet and the merchant.
  abbrev pub IsApproved :
      ℕ → ℕ → LoanQuoteRequest → LoansStore → Merchant → LoanQuoteResponse → Type 0
  IsApproved now wallet dto s m terms =
      let reputation = (get_reputation_score lib.reputation_sources now wallet s.caches).0 in
      (keep (λ m. m.id == dto.merchant) s.merchants ≡ m ∷ [])
      × (m.is_active ≡ true)
      × (dto.amount ≤ reputation.max_credit * dollar)
      × (terms ≡ terms_of lib now dto reputation.interest_rate)

  -- A preview is given only for the one active merchant of the identifier, for a price within the
  -- credit limit of the wallet's reputation, with the terms of its rate, and, where the minimum is
  -- enforced, for a score of at least 60.
  pub prepare_loan_preview-IsApproved :
      (now wallet : ℕ) (dto : LoanQuoteRequest) (enforce : Bool) (s s' : LoansStore) (m : Merchant)
      (terms : LoanQuoteResponse)
      → prepare_loan_preview lib now wallet dto enforce s ≡ (ok (m, terms), s')
      → IsApproved now wallet dto s m terms
        × ((enforce ≡ false)
            ⊎ (60 ≤ (get_reputation_score lib.reputation_sources now wallet s.caches).0.score))
  unfolding prepare_loan_preview validate_merchant
  prepare_loan_preview-IsApproved now wallet dto enforce s s' m terms e =
      elim (Result-cases
        (lib.merchants_table.maybe_single (λ m. m.id == dto.merchant) s.merchants)) [
          | inl (x, q) ↦ ground arith
          | inr (none, q) ↦ ground arith
          | inr (some found, q) ↦
              let only =
                maybe_single-some lib.merchants_table (λ m. m.id == dto.merchant) s.merchants found
                  q in
              ((ground (arith, only), ground arith, ground arith, ground arith), ground arith)
        ]

  pub prepare_loan_preview-keeps_repo :
      (now wallet : ℕ) (dto : LoanQuoteRequest) (enforce : Bool) (s : LoansStore)
      → (prepare_loan_preview lib now wallet dto enforce s).1.repo ≡ s.repo
  unfolding prepare_loan_preview validate_merchant
  prepare_loan_preview-keeps_repo now wallet dto enforce s = ground arith
