-- ===== src/Loans/Updates.antt =====
-- What a statement of LoansRepository may do to the table: nothing, or the one write it sends.
use trust_up_api.Base.{
  ℕ, ◌≡◌, refl, ◌⊎◌, inl, inr, Option, none, some, Bool, [], ◌∷◌, keep, arith, change, Result-cases,
  update-ok, maybe_single-some, ok, writing, ◌>>◌, after_reading, after_writing,
}
use trust_up_api.Loans.Defs.{Loan, LoanStatus, LoansState, put_loans}
use trust_up_api.Loans.Repository.{
  LoanSources, is_loan_of, is_loan_from, set_status, find_if, dispatch_if, RepositoryError,
  update_status, update_by_loan_id_and_wallet, find_by_loan_id_and_wallet, dispatch_status_change,
}

abbrev Writes : (Loan → Bool) → (Loan → Loan) → LoansState → LoansState → Type 0
Writes p f s s' = (s'.loans ≡ s.loans) ⊎ (s'.loans ≡ change p f s.loans)

module _ (src : LoanSources) where
  find_if-keeps :
      (status : Option LoanStatus) (loan_id wallet : ℕ) (s : LoansState)
      → (find_if src status loan_id wallet s).1 ≡ s
  unfolding find_by_loan_id_and_wallet
  find_if-keeps none loan_id wallet s = refl
  find_if-keeps (some _) loan_id wallet s = refl

  dispatch_keeps_loans :
      (before : Option Loan) (next : Option LoanStatus) (wallet : ℕ) (s : LoansState)
      → (dispatch_if src before next wallet s).1.loans ≡ s.loans
  unfolding dispatch_status_change
  dispatch_keeps_loans none none wallet s = refl
  dispatch_keeps_loans none (some next) wallet s = refl
  dispatch_keeps_loans (some before) none wallet s = refl
  dispatch_keeps_loans (some before) (some next) wallet s = ground arith

  module _ (p : Loan → Bool) (s : LoansState) where
    write_and_dispatch-Writes :
        (f : Loan → Loan) (before : Option Loan) (next : Option LoanStatus) (wallet : ℕ)
        → Writes p f s (
            ((writing put_loans
                  (λ s. src.loans_table.update p f s.loans)
                  RepositoryError.database_query_error
                >> dispatch_if src before next wallet)
              s).1)
    write_and_dispatch-Writes f before next wallet =
        after_writing (Writes p f s) (dispatch_if src before next wallet) put_loans
          (λ s. src.loans_table.update p f s.loans) RepositoryError.database_query_error s
          (λ rows done.
            rw (dispatch_keeps_loans before next wallet (put_loans s rows))
              (inr (update-ok src.loans_table p f s.loans rows done)))
          (inl refl)

  pub update_status-Writes :
      (now loan_id wallet : ℕ) (status : LoanStatus) (from : Option LoanStatus) (s : LoansState)
      → Writes
          (is_loan_from loan_id wallet from)
          (set_status now status)
          s
          (update_status src now loan_id wallet status from s).1
  unfolding update_status find_by_loan_id_and_wallet
  update_status-Writes now loan_id wallet status from s =
      after_reading (Writes (is_loan_from loan_id wallet from) (set_status now status) s)
        (find_by_loan_id_and_wallet src loan_id wallet)
        (λ before.
          writing put_loans
            (λ s.
              src.loans_table.update (is_loan_from loan_id wallet from) (set_status now status)
                s.loans)
            RepositoryError.database_query_error
          >> dispatch_if src before (some status) wallet)
        s refl
        (λ before _.
          write_and_dispatch-Writes (is_loan_from loan_id wallet from) s (set_status now status)
            before (some status) wallet)
        (inl refl)

  pub update_by-Writes :
      (loan_id wallet : ℕ) (status : Option LoanStatus) (f : Loan → Loan) (s : LoansState)
      → Writes
          (is_loan_of loan_id wallet)
          f
          s
          (update_by_loan_id_and_wallet src loan_id wallet status f s).1
  unfolding update_by_loan_id_and_wallet
  update_by-Writes loan_id wallet status f s =
      after_reading (Writes (is_loan_of loan_id wallet) f s) (find_if src status loan_id wallet)
        (λ before.
          writing put_loans (λ s. src.loans_table.update (is_loan_of loan_id wallet) f s.loans)
            RepositoryError.database_query_error
          >> dispatch_if src before status wallet)
        s (find_if-keeps status loan_id wallet s)
        (λ before _. write_and_dispatch-Writes (is_loan_of loan_id wallet) s f before status wallet)
        (inl refl)

  -- What a search by identifier and wallet finds is the only row of it.
  pub find_by-only :
      (loan_id wallet : ℕ) (s : LoansState) (loan : Loan)
      → (find_by_loan_id_and_wallet src loan_id wallet s).0 ≡ ok (some loan)
      → keep (is_loan_of loan_id wallet) s.loans ≡ loan ∷ []
  unfolding find_by_loan_id_and_wallet
  find_by-only loan_id wallet s loan e =
      elim (Result-cases (src.loans_table.maybe_single (is_loan_of loan_id wallet) s.loans)) [
        | inl (x, failed) ↦ ground arith
        | inr (none, found) ↦ ground arith
        | inr (some l, found) ↦
            let law =
              maybe_single-some src.loans_table (is_loan_of loan_id wallet) s.loans l found in
            ground (arith, law)
      ]

  pub find_by-keeps :
      (loan_id wallet : ℕ) (s : LoansState)
      → (find_by_loan_id_and_wallet src loan_id wallet s).1 ≡ s
  unfolding find_by_loan_id_and_wallet
  find_by-keeps loan_id wallet s = refl
