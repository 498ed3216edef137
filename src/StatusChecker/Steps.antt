-- ===== src/StatusChecker/Steps.antt =====
-- What a follow-up leaves: the loans as they were, or as its one statement writes them.
use trust_up_api.Base.{
  ℕ, ◌≡◌, inl, inr, Option, none, some, [], ◌∷◌, ok, keep, Bool-cases, ◌>>=◌, ◌>>◌, pure, catch,
  after_reading, after_step, after_catch,
}
use trust_up_api.Loans.Defs.{Loan, LoanStatus, same_status, LoansState}
use trust_up_api.Loans.Repository.{
  LoanSources, RepositoryError, Repo, is_loan_of, update_status, update_by_loan_id_and_wallet,
  find_by_loan_id_and_wallet,
}
use trust_up_api.Loans.Updates.{find_by-only, find_by-keeps}
use trust_up_api.StatusChecker.Defs.{FollowUpResult}
use trust_up_api.StatusChecker.Metadata.{ℤ}
use trust_up_api.StatusChecker.FollowUp.{
  updated_balance, updated_status, status_entry, write_repayment, activate_found,
  activate_pending_loan, repay_found, apply_loan_repayment, and_then, for_loan, with_balance,
  with_status,
}

module _ (src : LoanSources) (Q : LoansState → Type 0) (loan_id : ℕ) where
  and_then_lem :
      (m : Repo (Unit {0})) (done : FollowUpResult) (s : LoansState)
      → Q (m s).1
      → Q (and_then src loan_id m done s).1
  and_then_lem m done s h =
      after_catch Q (m >> pure done) (λ _. pure {E = RepositoryError} (for_loan loan_id)) s
        (λ e s' left. left) (after_step Q m (λ _. pure done) s (λ a e. h) h)

  after_finding :
      (wallet : ℕ) (next : Option Loan → Repo FollowUpResult) (s : LoansState)
      → ((found : Option Loan)
          → (find_by_loan_id_and_wallet src loan_id wallet s).0 ≡ ok found
          → Q (next found s).1)
      → Q s
      → Q
          (catch
            (find_by_loan_id_and_wallet src loan_id wallet >>= next)
            (λ _. pure {E = RepositoryError} (for_loan loan_id))
            s).1
  after_finding wallet next s step h =
      after_catch Q (find_by_loan_id_and_wallet src loan_id wallet >>= next)
        (λ _. pure {E = RepositoryError} (for_loan loan_id)) s (λ e s' left. left)
        (after_reading Q (find_by_loan_id_and_wallet src loan_id wallet) next s
          (find_by-keeps src loan_id wallet s) step h)

  module _ (now wallet : ℕ) (s : LoansState) (here : Q s) where
    module _
        (activated : Q
          (update_status src now loan_id wallet LoanStatus.active
            (some LoanStatus.pending)
            s).1) where
      activate_found_lem :
          (found : Option Loan) → Q (activate_found src now loan_id wallet found s).1
      activate_found_lem none = here
      activate_found_lem (some loan) =
          let written =
            and_then_lem
              (update_status src now loan_id wallet LoanStatus.active (some LoanStatus.pending))
              (with_status loan_id LoanStatus.active) s activated in
          elim (Bool-cases (same_status loan.status LoanStatus.pending)) [
            | inl hit ↦ rw hit written
            | inr miss ↦ rw miss here
          ]

      pub activate_pending_loan_lem : Q (activate_pending_loan src now loan_id wallet s).1
      unfolding activate_pending_loan
      activate_pending_loan_lem =
          after_finding wallet (activate_found src now loan_id wallet) s
            (λ found e. activate_found_lem found) here

    module _ (amount : ℤ)
        (repaid : (loan : Loan)
          → keep (is_loan_of loan_id wallet) s.loans ≡ loan ∷ []
          → let balance = updated_balance loan.remaining_balance amount in
            let entry = status_entry balance loan.status in
            Q
              (update_by_loan_id_and_wallet src loan_id wallet entry
                (write_repayment now balance entry)
                s).1) where
      repay_found_lem :
          (found : Option Loan)
          → (find_by_loan_id_and_wallet src loan_id wallet s).0 ≡ ok found
          → Q (repay_found src now loan_id wallet amount found s).1
      repay_found_lem none e = here
      repay_found_lem (some loan) e =
          let balance = updated_balance loan.remaining_balance amount in
          let entry = status_entry balance loan.status in
          and_then_lem
            (update_by_loan_id_and_wallet src loan_id wallet entry
              (write_repayment now balance entry))
            (with_balance loan_id balance (updated_status balance loan.status)) s
            (repaid loan (find_by-only src loan_id wallet s loan e))

      pub apply_loan_repayment_lem : Q (apply_loan_repayment src now loan_id wallet amount s).1
      unfolding apply_loan_repayment
      apply_loan_repayment_lem =
          after_finding wallet (repay_found src now loan_id wallet amount) s repay_found_lem here
