-- ===== src/StatusChecker/Paid.antt =====
-- The loans that the job completes are paid: what the follow-up does to completed loans and their
-- balances.
use trust_up_api.Base.{
  ℕ, ◌≡◌, refl, inl, inr, Option, none, some, arith, All-change, All-change_one,
}
use trust_up_api.Loans.Defs.{Loan, LoanStatus, LoansState}
use trust_up_api.Loans.Paid.{IsPaidUp, AllPaidUp}
use trust_up_api.Loans.Repository.{LoanSources, is_loan_of, is_loan_from, set_status}
use trust_up_api.Loans.Updates.{update_status-Writes, update_by-Writes}
use trust_up_api.StatusChecker.Steps.{activate_pending_loan_lem, apply_loan_repayment_lem}
use trust_up_api.StatusChecker.Defs.{Transaction, TransactionType, TransactionStatus}
use trust_up_api.StatusChecker.Metadata.{
  ℤ, pos, negsuc, neg_part, Decoded, TransactionMetadata, Parsed, throws, no_metadata, metadata,
  parse_transaction_metadata,
}
use trust_up_api.StatusChecker.FollowUp.{
  updated_balance, status_entry, write_repayment, activate_pending_loan, apply_loan_repayment,
  follow_metadata, follow_parsed, apply_follow_up_actions,
}

-- An amount, if there is one, is not negative.
abbrev pub NotNegative : Option ℤ → Type 0
NotNegative none = Unit
NotNegative (some amount) = neg_part amount ≡ 0

abbrev pub PaysNothingBack : Parsed → Type 0
PaysNothingBack (metadata m) = NotNegative m.amount
PaysNothingBack throws = Unit
PaysNothingBack no_metadata = Unit

write_repayment-IsPaidUp :
    (now amount : ℕ) (l : Loan)
    → IsPaidUp l
    → let balance = updated_balance l.remaining_balance (pos amount) in
      IsPaidUp (write_repayment now balance (status_entry balance l.status) l)
write_repayment-IsPaidUp now amount l h = ground arith

module _ (src : LoanSources) where
  apply_loan_repayment-AllPaidUp :
      (now loan_id wallet amount : ℕ) (s : LoansState)
      → AllPaidUp s
      → AllPaidUp (apply_loan_repayment src now loan_id wallet (pos amount) s).1
  apply_loan_repayment-AllPaidUp now loan_id wallet amount s h =
      apply_loan_repayment_lem src AllPaidUp loan_id now wallet s h (pos amount) (λ loan only.
        let balance = updated_balance loan.remaining_balance (pos amount) in
        let entry = status_entry balance loan.status in
        let f = write_repayment now balance entry in
        elim (update_by-Writes src loan_id wallet entry f s) [
          | inl same ↦ rw same h
          | inr wrote ↦ rw wrote (
              All-change_one IsPaidUp (is_loan_of loan_id wallet) f s.loans only
                (write_repayment-IsPaidUp now amount loan) h)
        ])

  repaid-AllPaidUp :
      (now loan_id wallet : ℕ) (amount : ℤ) (s : LoansState)
      → neg_part amount ≡ 0
      → AllPaidUp s
      → AllPaidUp (apply_loan_repayment src now loan_id wallet amount s).1
  repaid-AllPaidUp now loan_id wallet (pos amount) s n h =
      apply_loan_repayment-AllPaidUp now loan_id wallet amount s h
  repaid-AllPaidUp now loan_id wallet (negsuc amount) s n h = absurd (omega arith)

  activate_pending_loan-AllPaidUp :
      (now loan_id wallet : ℕ) (s : LoansState)
      → AllPaidUp s
      → AllPaidUp (activate_pending_loan src now loan_id wallet s).1
  activate_pending_loan-AllPaidUp now loan_id wallet s h =
      let active = LoanStatus.active in
      let from = some LoanStatus.pending in
      activate_pending_loan_lem src AllPaidUp loan_id now wallet s h
        (elim (update_status-Writes src now loan_id wallet active from s) [
          | inl same ↦ rw same h
          | inr wrote ↦ rw wrote (
              All-change IsPaidUp (is_loan_from loan_id wallet from) (set_status now active)
                (λ l paid. inr refl) s.loans h)
        ])

  follow_metadata-AllPaidUp :
      (now : ℕ) (type : TransactionType) (loan_id wallet : ℕ) (amount : Option ℤ) (s : LoansState)
      → NotNegative amount
      → AllPaidUp s
      → AllPaidUp (follow_metadata src now type loan_id wallet amount s).1
  follow_metadata-AllPaidUp now TransactionType.loan_create loan_id wallet amount s n h =
      activate_pending_loan-AllPaidUp now loan_id wallet s h
  follow_metadata-AllPaidUp now TransactionType.loan_repay loan_id wallet none s n h = h
  follow_metadata-AllPaidUp now TransactionType.loan_repay loan_id wallet (some amount) s n h =
      repaid-AllPaidUp now loan_id wallet amount s n h
  follow_metadata-AllPaidUp now TransactionType.deposit loan_id wallet amount s n h = h
  follow_metadata-AllPaidUp now TransactionType.withdraw loan_id wallet amount s n h = h

  with_metadata-AllPaidUp :
      (now : ℕ) (t : Transaction) (m : TransactionMetadata) (loan_id : Option ℕ)
      → m.loan_id ≡ loan_id
      → (s : LoansState) → NotNegative m.amount
      → AllPaidUp s
      → AllPaidUp (follow_parsed src now t (metadata m) s).1
  with_metadata-AllPaidUp now t m none e s n h = rw e h
  with_metadata-AllPaidUp now t m (some loan_id) e s n h =
      rw e (follow_metadata-AllPaidUp now t.type loan_id t.user_wallet m.amount s n h)

  follow_parsed-AllPaidUp :
      (now : ℕ) (t : Transaction) (parsed : Parsed) (s : LoansState)
      → PaysNothingBack parsed
      → AllPaidUp s
      → AllPaidUp (follow_parsed src now t parsed s).1
  follow_parsed-AllPaidUp now t throws s n h = h
  follow_parsed-AllPaidUp now t no_metadata s n h = h
  follow_parsed-AllPaidUp now t (metadata m) s n h =
      with_metadata-AllPaidUp now t m m.loan_id refl s n h

  pub apply_follow_up_actions-AllPaidUp :
      (from_xdr : ℕ → Decoded) (now : ℕ) (t : Transaction) (status : TransactionStatus)
      (s : LoansState)
      → ((xdr : Option ℕ) → PaysNothingBack (parse_transaction_metadata from_xdr xdr))
      → AllPaidUp s
      → AllPaidUp (apply_follow_up_actions src from_xdr now t status s).1
  unfolding apply_follow_up_actions
  apply_follow_up_actions-AllPaidUp from_xdr now t TransactionStatus.success s n h =
      follow_parsed-AllPaidUp now t (parse_transaction_metadata from_xdr t.xdr) s (n t.xdr) h
  apply_follow_up_actions-AllPaidUp from_xdr now t TransactionStatus.pending s n h = h
  apply_follow_up_actions-AllPaidUp from_xdr now t TransactionStatus.failed s n h = h
