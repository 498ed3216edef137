-- ===== src/StatusChecker/Repayment.antt =====
-- What a confirmed repayment does to the loans, and what it answers.
use trust_up_api.Base.{
  sym, subst, ◌∙◌, keep, Result, ok, err, DbError, Result-cases, update-ok, maybe_single-some,
  maybe_single-none, change, Bool, [], ◌∷◌, Option, none, ℕ, ◌≡◌, refl, ◌⊎◌, inl, inr, some, arith,
}
use trust_up_api.Loans.Defs.{Loan, LoanStatus, LoansState}
use trust_up_api.Loans.Repository.{
  LoanSources, is_loan_of, Repo, RepositoryError, find_by_loan_id_and_wallet,
  update_by_loan_id_and_wallet,
}
use trust_up_api.StatusChecker.Defs.{FollowUpResult}
use trust_up_api.StatusChecker.Metadata.{ℤ}
use trust_up_api.StatusChecker.FollowUp.{
  updated_status, with_balance, for_loan, and_then, repay_found, updated_balance, status_entry,
  write_repayment, apply_loan_repayment,
}
use trust_up_api.StatusChecker.Left.{Repays, write_repayment-Repays, written-status, written}
use trust_up_api.StatusChecker.Answers.{
  IsRefused, and_then-returns, and_then-throws, update-throws, update-Dispatches,
}

module _ (src : LoanSources) (loan_id wallet : ℕ) (amount : ℤ) (s : LoansState) where
  abbrev p : Loan → Bool
  p = is_loan_of loan_id wallet

  -- The loan is the one of the two keys, and its row is rewritten to the repaid one.
  abbrev pub IsWritten : Loan → (Loan → Loan) → LoansState → Type 0
  IsWritten l f t =
      (keep (is_loan_of loan_id wallet) s.loans ≡ l ∷ [])
      × Repays amount l (f l)
      × (t.loans ≡ change (is_loan_of loan_id wallet) f s.loans)

  -- There is no such loan, the search for it fails, or the statement that repays it does.
  abbrev pub IsPrevented : Type 0
  IsPrevented =
      (keep (is_loan_of loan_id wallet) s.loans ≡ [])
      ⊎ (((e : DbError) × (src.loans_table.maybe_single (is_loan_of loan_id wallet) s.loans
              ≡ err e))
          ⊎ ((l : Loan) × (f : Loan → Loan) × (e : DbError) × (keep (is_loan_of loan_id wallet)
                  s.loans
                ≡ l ∷ [])
              × Repays amount l (f l)
              × (src.loans_table.update (is_loan_of loan_id wallet) f s.loans ≡ err e)))

  abbrev pub Outcome : Result RepositoryError FollowUpResult × LoansState → Type 0
  Outcome (answer, t) =
      ((l : Loan) × (f : Loan → Loan) × IsWritten l f t
        × ((answer ≡ ok (with_balance loan_id (f l).remaining_balance (f l).status))
            ⊎ ((answer ≡ ok (for_loan loan_id)) × IsRefused src l)))
      ⊎ ((answer ≡ ok (for_loan loan_id)) × (t.loans ≡ s.loans) × IsPrevented)

  written-Outcome :
      (m : Repo (Unit {0})) (f : Loan → Loan) (l : Loan) (b : ℕ) (st : LoanStatus)
      (r : Result RepositoryError (Unit {0})) (t : LoansState)
      → m s ≡ (r, t)
      → ((f l).remaining_balance ≡ b)
      → ((f l).status ≡ st)
      → IsWritten l f t
      → (r ≡ ok tt) ⊎ ((r ≡ err RepositoryError.queue_error) × IsRefused src l)
      → Outcome (and_then src loan_id m (with_balance loan_id b st) s)
  written-Outcome m f l b st r t ran left status w (inl done) =
      let after =
        and_then-returns src loan_id wallet s m (with_balance loan_id b st) t (ground arith) in
      subst Outcome (sym after) (inl (l, f, w, inl (rw (left, status) refl)))
  written-Outcome m f l b st r t ran left status w (inr (threw, refused)) =
      let after =
        and_then-throws src loan_id wallet s m (with_balance loan_id b st)
          RepositoryError.queue_error t (ground arith) in
      subst Outcome (sym after) (inl (l, f, w, inr (refl, refused)))

  updated-Outcome :
      (entry : Option LoanStatus) (f : Loan → Loan) (l : Loan) (b : ℕ) (st : LoanStatus)
      → src.loans_table.maybe_single p s.loans ≡ ok (some l)
      → Repays amount l (f l)
      → (f l).remaining_balance ≡ b
      → (f l).status ≡ st
      → Outcome (
          and_then src loan_id
            (update_by_loan_id_and_wallet src loan_id wallet entry f)
            (with_balance loan_id b st)
            s)
  updated-Outcome entry f l b st found repaid left status =
      let m = update_by_loan_id_and_wallet src loan_id wallet entry f in
      let only = maybe_single-some src.loans_table p s.loans l found in
      elim (Result-cases (src.loans_table.update p f s.loans)) [
        | inl (e, failed) ↦
            let after =
              and_then-throws src loan_id wallet s m (with_balance loan_id b st)
                RepositoryError.database_query_error s
                (update-throws src loan_id wallet s entry f l e found failed) in
            subst Outcome (sym after) (inr (refl, refl, inr (inr (l, f, e, only, repaid, failed))))
        | inr (rows, done) ↦
            let sent = update-Dispatches src loan_id wallet s entry f l rows found done in
            let wrote = sent.0 ∙ update-ok src.loans_table p f s.loans rows done in
            written-Outcome m f l b st (m s).0 (m s).1 refl left status (only, repaid, wrote) sent.1
      ]

  repay_found-Outcome :
      (now : ℕ) (found : Option Loan)
      → src.loans_table.maybe_single p s.loans ≡ ok found
      → Outcome (repay_found src now loan_id wallet amount found s)
  repay_found-Outcome now none found =
      inr (refl, refl, inl (maybe_single-none src.loans_table p s.loans found))
  repay_found-Outcome now (some l) found =
      let balance = updated_balance l.remaining_balance amount in
      let entry = status_entry balance l.status in
      updated-Outcome entry (write_repayment now balance entry) l balance
        (updated_status balance l.status) found (write_repayment-Repays now amount l)
        (written now balance l).0 (written-status now balance l)

  caught :
      (now : ℕ) (e : DbError)
      → src.loans_table.maybe_single p s.loans ≡ err e
      → apply_loan_repayment src now loan_id wallet amount s ≡ (ok (for_loan loan_id), s)
  unfolding apply_loan_repayment find_by_loan_id_and_wallet
  caught now e failed = ground arith

  Outcome-returns :
      (o : Result RepositoryError FollowUpResult × LoansState)
      → Outcome o
      → (d : FollowUpResult) × (o.0 ≡ ok d)
  Outcome-returns o (inl (l, f, w, inl answer)) = (_, answer)
  Outcome-returns o (inl (l, f, w, inr (answer, refused))) = (_, answer)
  Outcome-returns o (inr (answer, kept, why)) = (_, answer)

  continued :
      (now : ℕ) (found : Option Loan)
      → src.loans_table.maybe_single p s.loans ≡ ok found
      → apply_loan_repayment src now loan_id wallet amount s
        ≡ repay_found src now loan_id wallet amount found s
  unfolding apply_loan_repayment find_by_loan_id_and_wallet
  continued now found answered =
      let d =
        Outcome-returns (repay_found src now loan_id wallet amount found s)
          (repay_found-Outcome now found answered) in
      ground (arith, d.1)

  -- A repayment answers with the balance and the status that it wrote to the one loan of the
  -- identifier and wallet, and this row is the loan with the amount taken off, in whole cents,
  -- completed exactly where nothing is left or it was complete; no other row changes. It answers
  -- with the identifier alone if the queue refuses the change of status, the row being written,
  -- or if the loan is not found or a statement fails, and then no loan changes.
  pub apply_loan_repayment-Repays :
      (now : ℕ) → Outcome (apply_loan_repayment src now loan_id wallet amount s)
  apply_loan_repayment-Repays now = elim (Result-cases (src.loans_table.maybe_single p s.loans)) [
    | inl (e, failed) ↦
        subst Outcome (sym (caught now e failed)) (inr (refl, refl, inr (inl (e, failed))))
    | inr (found, answered) ↦
        subst Outcome (sym (continued now found answered)) (repay_found-Outcome now found answered)
  ]
