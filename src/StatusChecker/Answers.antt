-- ===== src/StatusChecker/Answers.antt =====
-- What the update of a loan answers, and what the follow-up makes of it.
use trust_up_api.Base.{
  sym, subst, Result, ok, err, DbError, Bool, List, Option, none, ℕ, Bool-cases, ◌≡◌, refl, ◌⊎◌,
  inl, inr, some, true, arith,
}
use trust_up_api.Loans.Defs.{
  Loan, LoanStatus, same_status, LoansState, LoanStatusChangeEvent, put_loans,
}
use trust_up_api.Loans.Repository.{
  LoanSources, is_loan_of, Repo, RepositoryError, enqueue, find_by_loan_id_and_wallet,
  update_by_loan_id_and_wallet, dispatch_status_change,
}
use trust_up_api.StatusChecker.Defs.{FollowUpResult}
use trust_up_api.StatusChecker.FollowUp.{for_loan, and_then}

module _ (src : LoanSources) where
  -- The queue does not take the change of the loan's status.
  abbrev pub IsRefused : Loan → Type 0
  IsRefused l =
      (event : LoanStatusChangeEvent) × (event.loan_id ≡ l.loan_id)
      × (event.previous_status ≡ l.status)
      × (src.queue_refuses event ≡ true)

  module _ (loan_id wallet : ℕ) (s : LoansState) where
    abbrev p : Loan → Bool
    p = is_loan_of loan_id wallet

    pub and_then-returns :
        (m : Repo (Unit {0})) (done : FollowUpResult) (t : LoansState)
        → m s ≡ (ok tt, t)
        → and_then src loan_id m done s ≡ (ok done, t)
    and_then-returns m done t h = ground arith

    pub and_then-throws :
        (m : Repo (Unit {0})) (done : FollowUpResult) (e : RepositoryError) (t : LoansState)
        → m s ≡ (err e, t)
        → and_then src loan_id m done s ≡ (ok (for_loan loan_id), t)
    and_then-throws m done e t h = ground arith

    pub update-throws :
        (entry : Option LoanStatus) (f : Loan → Loan) (l : Loan) (e : DbError)
        → src.loans_table.maybe_single p s.loans ≡ ok (some l)
        → src.loans_table.update p f s.loans ≡ err e
        → update_by_loan_id_and_wallet src loan_id wallet entry f s
          ≡ (err RepositoryError.database_query_error, s)
    unfolding update_by_loan_id_and_wallet find_by_loan_id_and_wallet
    update-throws none f l e found failed = ground arith
    update-throws (some next) f l e found failed = ground arith

    update-returns :
        (f : Loan → Loan) (rows : List Loan)
        → src.loans_table.update p f s.loans ≡ ok rows
        → update_by_loan_id_and_wallet src loan_id wallet none f s ≡ (ok tt, put_loans s rows)
    unfolding update_by_loan_id_and_wallet
    update-returns f rows done = ground arith

    update-dispatches :
        (next : LoanStatus) (f : Loan → Loan) (l : Loan) (rows : List Loan)
        → src.loans_table.maybe_single p s.loans ≡ ok (some l)
        → src.loans_table.update p f s.loans ≡ ok rows
        → update_by_loan_id_and_wallet src loan_id wallet (some next) f s
          ≡ dispatch_status_change src (some l) next wallet (put_loans s rows)
    unfolding update_by_loan_id_and_wallet find_by_loan_id_and_wallet
    update-dispatches next f l rows found done = ground arith

    -- What a dispatch leaves of the loans, and its result.
    abbrev pub Dispatches :
        Loan → List Loan → Result RepositoryError (Unit {0}) × LoansState → Type 0
    Dispatches l rows (r, t) =
        (t.loans ≡ rows) × ((r ≡ ok tt) ⊎ ((r ≡ err RepositoryError.queue_error) × IsRefused l))

    enqueue-Dispatches :
        (l : Loan) (event : LoanStatusChangeEvent) (t : LoansState)
        → event.loan_id ≡ l.loan_id
        → event.previous_status ≡ l.status
        → Dispatches l t.loans (enqueue src event t)
    enqueue-Dispatches l event t same was = elim (Bool-cases (src.queue_refuses event)) [
      | inl refuses ↦ rw refuses (refl, inr (refl, (event, same, was, refuses)))
      | inr takes ↦ rw takes (refl, inl refl)
    ]

    dispatch-Dispatches :
        (l : Loan) (next : LoanStatus) (t : LoansState)
        → Dispatches l t.loans (dispatch_status_change src (some l) next wallet t)
    unfolding dispatch_status_change
    dispatch-Dispatches l next t = elim (Bool-cases (same_status l.status next)) [
      | inl same ↦ rw same (refl, inl refl)
      | inr other ↦ rw other (enqueue-Dispatches l _ t refl refl)
    ]

    pub update-Dispatches :
        (entry : Option LoanStatus) (f : Loan → Loan) (l : Loan) (rows : List Loan)
        → src.loans_table.maybe_single p s.loans ≡ ok (some l)
        → src.loans_table.update p f s.loans ≡ ok rows
        → Dispatches l rows (update_by_loan_id_and_wallet src loan_id wallet entry f s)
    update-Dispatches none f l rows found done = rw (update-returns f rows done) (refl, inl refl)
    update-Dispatches (some next) f l rows found done =
        subst (Dispatches l rows) (sym (update-dispatches next f l rows found done))
          (dispatch-Dispatches l next (put_loans s rows))
