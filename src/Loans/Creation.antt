-- ===== src/Loans/Creation.antt =====
-- What a loan that the service creates, a repayment that it previews and the credit it reports say.
use trust_up_api.Base.{
  ℕ, ◌+◌, ◌*◌, ◌≤◌, ◌≡◌, ◌↔◌, ◌==◌, true, none, some, List, [], ◌∷◌, ◌++◌, ok, arith, keep, ap,
  subst, sym, get_or, ◌⊎◌, inl, inr, Result-cases, maybe_single-some, maybe_single-none, select-ok,
  insert-ok, length,
}
use trust_up_api.Reputation.Terms.{map_to_reputation}
use trust_up_api.Reputation.Service.{get_reputation_score}
use trust_up_api.Loans.Money.{cent, dollar}
use trust_up_api.Loans.Defs.{Loan, LoanStatus, LoansState, same_status_iff}
use trust_up_api.Loans.Repository
use trust_up_api.Loans.Repository.{
  is_pending_with_hash, is_active_of, find_by_id, find_active_by_user, has_pending_with_xdr_hash,
}
use trust_up_api.Loans.Quote.{
  Merchant, LoansStore, LoanLibraries, LoanQuoteRequest, LoanQuoteResponse, prepare_loan_preview,
}
use trust_up_api.Loans.Terms.{
  IsApproved, prepare_loan_preview-IsApproved, prepare_loan_preview-keeps_repo,
}
use trust_up_api.Loans.Service.{
  LoanFresh, CreateLoanResponse, LoanPaymentResponse, AvailableCredit, pending_loan, create_from,
  create_loan, repay_loan, credit_of, get_available_credit, sum_of_balances,
  map_score_to_credit_tier,
}

-- The tier and the limit of a credit report are those of a quote for the same score.
pub map_score_to_credit_tier-agrees :
    (wallet score now : ℕ)
    → let r = map_to_reputation wallet score now in
      map_score_to_credit_tier score ≡ (r.tier, r.max_credit)
unfolding map_score_to_credit_tier map_to_reputation
map_score_to_credit_tier-agrees wallet score now = ground arith

module _ (lib : LoanLibraries) where
  -- The row that a creation adds, and that there was no pending loan like it.
  abbrev pub IsCreated :
      ℕ → LoanFresh → ℕ → Merchant → LoansState → LoansState → CreateLoanResponse → Type 0
  IsCreated now fresh wallet m s s' answer =
      (keep (is_pending_with_hash wallet (lib.sha256 answer.xdr)) s.loans ≡ [])
      × (s'.loans ≡ s.loans ++ pending_loan lib now fresh wallet m answer.terms answer.xdr ∷ [])
      × (lib.build_create_loan_transaction wallet fresh.loan_id ≡ ok answer.xdr)
      × (answer.loan_id ≡ fresh.loan_id)

  create_from-IsCreated :
      (now : ℕ) (fresh : LoanFresh) (wallet : ℕ) (dto : LoanQuoteRequest) (m : Merchant)
      (terms : LoanQuoteResponse) (s s' : LoansStore) (answer : CreateLoanResponse)
      → create_from lib now fresh wallet dto (m, terms) s ≡ (ok answer, s')
      → IsCreated now fresh wallet m s.repo s'.repo answer × (answer.terms ≡ terms)
  unfolding create_from has_pending_with_xdr_hash Repository.create_loan
  create_from-IsCreated now fresh wallet dto m terms s s' answer e =
      elim (Result-cases (lib.build_create_loan_transaction wallet fresh.loan_id)) [
        | inl (x, b) ↦ ground arith
        | inr (xdr, b) ↦
            elim (Result-cases (
              lib.loan_sources.loans_table.maybe_single
                (is_pending_with_hash wallet (lib.sha256 xdr)) s.repo.loans)) [
                  | inl (x, q) ↦ ground arith
                  | inr (some l, q) ↦ ground arith
                  | inr (none, q) ↦
                      let rows = s.repo.loans in
                      let row = pending_loan lib now fresh wallet m terms xdr in
                      elim (Result-cases (lib.loan_sources.loans_table.insert row rows)) [
                        | inl (x, i) ↦ ground arith
                        | inr (after, i) ↦
                            let nothing =
                              maybe_single-none lib.loan_sources.loans_table
                                (is_pending_with_hash wallet (lib.sha256 xdr)) rows q in
                            let added = insert-ok lib.loan_sources.loans_table row rows after i in
                            (
                              (
                                ground (arith, nothing),
                                ground (arith, added),
                                ground arith,
                                ground arith,
                              ),
                              ground arith,
                            )
                      ]
                ]
      ]

  -- A creation that returns was approved with the minimum score enforced, and adds the pending loan
  -- with the terms of the preview, where there was no pending loan of the wallet with its XDR.
  pub create_loan-IsCreated :
      (now : ℕ) (fresh : LoanFresh) (wallet : ℕ) (dto : LoanQuoteRequest) (s s' : LoansStore)
      (answer : CreateLoanResponse)
      → create_loan lib now fresh wallet dto s ≡ (ok answer, s')
      → (m : Merchant) × IsApproved lib now wallet dto s m answer.terms
        × (60 ≤ (get_reputation_score lib.reputation_sources now wallet s.caches).0.score)
        × IsCreated now fresh wallet m s.repo s'.repo answer
  unfolding create_loan
  create_loan-IsCreated now fresh wallet dto s s' answer e =
      elim (Result-cases (prepare_loan_preview lib now wallet dto true s).0) [
        | inl (x, p) ↦ ground arith
        | inr ((m, terms), p) ↦
            let t = (prepare_loan_preview lib now wallet dto true s).1 in
            let approved =
              prepare_loan_preview-IsApproved lib now wallet dto true s t m terms
                (ap (λ r. (r, t)) p) in
            let kept : t.repo ≡ s.repo =
              prepare_loan_preview-keeps_repo lib now wallet dto true s in
            let created =
              create_from-IsCreated now fresh wallet dto m terms t s' answer
                (rw (p, create_loan) at e) in
            (
              m,
              subst (λ terms. IsApproved lib now wallet dto s m terms) (sym created.1) approved.0,
              ground (arith, approved.1),
              subst (λ r. IsCreated now fresh wallet m r s'.repo answer) kept created.0,
            )
      ]

  -- A repayment is previewed only for an active loan of the wallet and an amount up to its balance;
  -- the new balance and the amount make the balance, and it completes exactly at the full amount.
  pub repay_loan-previews :
      (wallet id amount : ℕ) (s s' : LoansStore) (answer : LoanPaymentResponse)
      → repay_loan lib wallet id amount s ≡ (ok answer, s')
      → (loan : Loan) × (keep (λ l. l.id == id) s.repo.loans ≡ loan ∷ [])
        × (loan.user_wallet ≡ wallet)
        × (loan.status ≡ LoanStatus.active)
        × (answer.new_balance + amount ≡ loan.remaining_balance)
        × ((answer.will_complete ≡ true) ↔ (amount ≡ loan.remaining_balance))
        × (s' ≡ s)
  unfolding repay_loan find_by_id
  repay_loan-previews wallet id amount s s' answer e =
      elim (Result-cases
        (lib.loan_sources.loans_table.maybe_single (λ l. l.id == id) s.repo.loans)) [
          | inl (x, q) ↦ ground arith
          | inr (none, q) ↦ ground arith
          | inr (some loan, q) ↦
              let only =
                maybe_single-some lib.loan_sources.loans_table (λ l. l.id == id) s.repo.loans loan
                  q in
              elim (Result-cases (lib.build_repay_loan_tx wallet loan.loan_id amount)) [
                | inl (x, b) ↦ ground arith
                | inr (xdr, b) ↦ (
                  loan,
                  only,
                  ground arith,
                  ground (arith, same_status_iff loan.status LoanStatus.active),
                  ground arith,
                  (λ h. ground arith, λ h. ground arith),
                  ground arith,
                )
              ]
        ]

  credit_of-adds_up :
      (score : ℕ) (loans : List Loan) (k : ℕ)
      → sum_of_balances loans ≡ cent * k
      → let answer = credit_of score loans in
        (answer.credit_used ≡ cent * k)
        × ((answer.credit_used + answer.available_credit ≡ answer.max_credit_limit * dollar)
            ⊎ ((answer.available_credit ≡ 0)
                × (answer.max_credit_limit * dollar ≤ answer.credit_used)))
  unfolding credit_of map_score_to_credit_tier
  credit_of-adds_up score loans k whole = (omega (arith, whole), ground (arith, whole))

  -- For active loans with balances in whole cents: what is used and what is available make the
  -- limit, or nothing is available and the limit is used up.
  pub get_available_credit-adds_up :
      (wallet k : ℕ) (s s' : LoansStore) (answer : AvailableCredit)
      → get_available_credit lib wallet s ≡ (ok answer, s')
      → sum_of_balances (keep (is_active_of wallet) s.repo.loans) ≡ cent * k
      → (answer.credit_used ≡ cent * k)
        × (answer.active_loans ≡ length (keep (is_active_of wallet) s.repo.loans))
        × ((answer.credit_used + answer.available_credit ≡ answer.max_credit_limit * dollar)
            ⊎ ((answer.available_credit ≡ 0)
                × (answer.max_credit_limit * dollar ≤ answer.credit_used)))
        × (s' ≡ s)
  unfolding credit_of get_available_credit find_active_by_user
  get_available_credit-adds_up wallet k s s' answer e whole =
      elim (Result-cases (lib.get_score wallet)) [
        | inl (x, g) ↦ ground arith
        | inr (score, g) ↦
            elim (Result-cases
              (lib.loan_sources.loans_table.select (is_active_of wallet) s.repo.loans)) [
                | inl (x, q) ↦ ground arith
                | inr (found, q) ↦
                    let law =
                      select-ok lib.loan_sources.loans_table (is_active_of wallet) s.repo.loans
                        found q in
                    let e' = rw (g, get_available_credit) at e in
                    let it : answer ≡ credit_of (get_or score 0) found = ground arith in
                    let sums = credit_of-adds_up (get_or score 0) found k (ground (arith, law)) in
                    (
                      ground (arith, it, sums),
                      ground (arith, it, law),
                      ground (arith, it, sums),
                      ground (arith, e'),
                    )
              ]
      ]
