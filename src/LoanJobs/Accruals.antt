-- ===== src/LoanJobs/Accruals.antt =====
-- What a run of the interest accrual does to the loans.
use trust_up_api.Base.{
  ℕ, ◌==◌, ◌&&◌, leb, ◌≡◌, ◌<◌, refl, subst, inl, inr, ◌⊎◌, Bool-cases, Bool, true, false,
  if◌then◌else◌, List, [], ◌∷◌, keep, change, Result, ok, err, DbError, Result-cases, select-ok,
  update-ok, after_step, Each, Each-refl, DistinctBy, is_hit, Rounds, Writes, Rounds-Writes, arith,
}
use trust_up_api.Loans.Defs.{Loan, LoanStatus, same_status_iff}
use trust_up_api.LoanJobs.Defs.{
  JobName, JobStore, JobSources, loan_key, claim_job, claim_job-keeps_loans,
  count_processed-keeps_loans,
}
use trust_up_api.LoanJobs.Accrual.{
  accrual_of, write_accrual, is_active, accrue_loan, accrue_all, accrue_found, accrue_claimed,
  accrue_run,
}

-- As it was, or an active loan with its interest up to now added.
abbrev pub Accrues : ℕ → Loan → Loan → Type 0
Accrues now l l' =
    (l' ≡ l)
    ⊎ ((l.status ≡ LoanStatus.active) × (0 < accrual_of now l) × (l' ≡ write_accrual now l l))

-- What a round does to a row that it meets.
abbrev accrued_row : ℕ → Loan → Loan → Loan
accrued_row now loan l = if leb (accrual_of now loan) 0 then l else write_accrual now loan l

accrued_row-id : (now : ℕ) (loan l : Loan) → (accrued_row now loan l).id ≡ l.id
accrued_row-id now loan l = ground arith

accrued_row-Accrues :
    (now : ℕ) (l l' : Loan)
    → l.status ≡ LoanStatus.active
    → l' ≡ accrued_row now l l
    → Accrues now l l'
accrued_row-Accrues now l l' active e = elim (Bool-cases (leb (accrual_of now l) 0)) [
  | inl none_due ↦ inl (rw none_due at e)
  | inr due ↦ inr (active, ground arith, rw due at e)
]

module _ (src : JobSources) (now : ℕ) where
  abbrev Worked : List Loan → List Loan → List Loan → Type 0
  Worked = Rounds loan_key is_active (accrued_row now) (accrued_row-id now)

  round_cases :
      (loan : Loan) (count : ℕ) (s : JobStore)
      → ((accrue_loan src now loan count s).1.loans ≡ s.loans)
        ⊎ ((accrue_loan src now loan count s).1.loans
            ≡ change
                (is_hit loan_key is_active (accrued_row now) (accrued_row-id now) loan)
                (accrued_row now loan)
                s.loans)
  unfolding accrue_loan
  round_cases loan count s =
      let p : Loan → Bool = λ l. (l.id == loan.id) && is_active l in
      elim (Bool-cases (leb (accrual_of now loan) 0)) [
        | inl zero_interest ↦ inl (ground arith)
        | inr some_interest ↦
            elim (Result-cases (src.loans_table.update p (write_accrual now loan) s.loans)) [
              | inl (x, failed) ↦ inl (ground arith)
              | inr (rows, done) ↦
                  let wrote =
                    update-ok src.loans_table p (write_accrual now loan) s.loans rows done in
                  inr (rw some_interest (ground arith))
            ]
      ]

  accrue_all-Worked :
      (loans : List Loan) (count : ℕ) (s : JobStore)
      → Worked loans s.loans (accrue_all src now loans count s).1.loans
  unfolding accrue_all
  accrue_all-Worked [] count s = refl
  accrue_all-Worked (loan ∷ loans) count s =
      let step = accrue_loan src now loan count s in
      let after = (accrue_all src now loans step.0 step.1).1.loans in
      let rest = accrue_all-Worked loans step.0 step.1 in
      elim (round_cases loan count s) [
        | inl same ↦ inl (subst (λ xs. Worked loans xs after) same rest)
        | inr wrote ↦ inr (subst (λ xs. Worked loans xs after) wrote rest)
      ]

  untouched : (s : JobStore) → Each (Accrues now) s.loans s.loans
  untouched s = Each-refl (Accrues now) (λ l. inl refl) s.loans

  Writes-Accrues :
      (xs ys : List Loan)
      → Each (Writes loan_key is_active (accrued_row now) (accrued_row-id now)) xs ys
      → Each (Accrues now) xs ys
  Writes-Accrues [] [] h = tt
  Writes-Accrues [] (y ∷ ys) h = h
  Writes-Accrues (x ∷ xs) [] h = h
  Writes-Accrues (x ∷ xs) (y ∷ ys) (inl e, rest) = (inl e, Writes-Accrues xs ys rest)
  Writes-Accrues (x ∷ xs) (y ∷ ys) (inr (active, e), rest) = (
    accrued_row-Accrues now x y ((same_status_iff x.status LoanStatus.active).0 active) e,
    Writes-Accrues xs ys rest,
  )

  accrue_found-Accrues :
      (period : ℕ) (s : JobStore) (found : Result DbError (List Loan))
      → src.loans_table.select is_active s.loans ≡ found
      → DistinctBy loan_key s.loans
      → Each (Accrues now) s.loans (accrue_found src now period s found).1.loans
  unfolding accrue_found
  accrue_found-Accrues period s (err x) e distinct = untouched s
  accrue_found-Accrues period s (ok loans) e distinct =
      let law = select-ok src.loans_table is_active s.loans loans e in
      let done = accrue_all src now loans 0 s in
      rw (count_processed-keeps_loans src JobName.interest_accrual period done.0 done.1) (
        rw law (
          Writes-Accrues s.loans _ (
            Rounds-Writes loan_key is_active (accrued_row now) (accrued_row-id now) is_active
              s.loans _ distinct (accrue_all-Worked (keep is_active s.loans) 0 s))))

  accrue_claimed-Accrues :
      (period : ℕ) (mine : Bool) (s : JobStore)
      → DistinctBy loan_key s.loans
      → Each (Accrues now) s.loans (accrue_claimed src now period mine s).1.loans
  accrue_claimed-Accrues period false s distinct = untouched s
  accrue_claimed-Accrues period true s distinct =
      accrue_found-Accrues period s (src.loans_table.select is_active s.loans) refl distinct

  -- Where the identifiers of the loans are distinct, a run of the interest accrual, whatever fails
  -- on the way, leaves every loan as it was, or adds to an active one its interest on its own
  -- balance and rate for the whole days since its last accrual, or since its creation, and notes
  -- the time, only where this interest is above 0; nothing else of it changes.
  pub accrue_run-Accrues :
      (period : ℕ) (s : JobStore)
      → DistinctBy loan_key s.loans
      → Each (Accrues now) s.loans (accrue_run src now period s).1.loans
  unfolding accrue_run
  accrue_run-Accrues period s distinct =
      let claim = claim_job src JobName.interest_accrual period in
      let t = (claim s).1 in
      let kept : t.loans ≡ s.loans = claim_job-keeps_loans src JobName.interest_accrual period s in
      after_step (λ s'. Each (Accrues now) s.loans s'.loans) claim (accrue_claimed src now period) s
        (λ mine e.
          subst (λ xs. Each (Accrues now) xs (accrue_claimed src now period mine t).1.loans) kept
            (accrue_claimed-Accrues period mine t (rw kept distinct)))
        (rw kept (untouched s))
