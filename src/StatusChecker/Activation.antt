-- ===== src/StatusChecker/Activation.antt =====
-- What a confirmed loan does to the loans: activation, and no other change.
use trust_up_api.Base.{ℕ, ◌≡◌, refl, ◌⊎◌, inl, inr, some, true, arith, Each, Each-refl, Each-change}
use trust_up_api.Loans.Defs.{Loan, LoanStatus, same_status_iff, LoansState}
use trust_up_api.Loans.Repository.{LoanSources, is_loan_of, is_loan_from, set_status}
use trust_up_api.Loans.Updates.{update_status-Writes}
use trust_up_api.StatusChecker.Steps.{activate_pending_loan_lem}
use trust_up_api.StatusChecker.FollowUp.{activate_pending_loan}

-- As it was, or the pending loan of the two keys, made active with its balance.
abbrev pub Activates : ℕ → ℕ → Loan → Loan → Type 0
Activates loan_id wallet l l' =
    (l' ≡ l)
    ⊎ ((is_loan_of loan_id wallet l ≡ true)
        × (l.status ≡ LoanStatus.pending)
        × (l'.status ≡ LoanStatus.active)
        × (l'.remaining_balance ≡ l.remaining_balance))

module _ (src : LoanSources) where
  -- Activating takes the pending loan of the identifier and wallet to active, balance unchanged,
  -- and leaves every other loan, and a loan in any other status, as it is.
  pub activate_pending_loan-Activates :
      (now loan_id wallet : ℕ) (s : LoansState)
      → Each
          (Activates loan_id wallet)
          s.loans
          (activate_pending_loan src now loan_id wallet s).1.loans
  activate_pending_loan-Activates now loan_id wallet s =
      let R = Activates loan_id wallet in
      let from = some LoanStatus.pending in
      let same = Each-refl R (λ l. inl refl) s.loans in
      activate_pending_loan_lem src (λ s'. Each R s.loans s'.loans) loan_id now wallet s same
        (elim (update_status-Writes src now loan_id wallet LoanStatus.active from s) [
          | inl kept ↦ rw kept same
          | inr wrote ↦ rw wrote (
              Each-change R (is_loan_from loan_id wallet from) (set_status now LoanStatus.active)
                (λ l hit. inr (
                  ground arith,
                  ground (arith, same_status_iff l.status LoanStatus.pending),
                  refl,
                  refl,
                ))
                (λ l. inl refl) s.loans)
        ])
