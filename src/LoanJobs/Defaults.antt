-- ===== src/LoanJobs/Defaults.antt =====
-- What the default detector does to the loans.
use trust_up_api.Base.{
  ℕ, subst, after_step, sym, All, ==_refl, ◌≡◌, ◌==◌, ==_iff, any, Bool, true, false, List, [], ◌∷◌,
  Result, ok, err, refl, ◌⊎◌, inl, inr, arith, keep, DbError, Each, Each-refl, Each-trans,
  Each-change, Result-cases, update-ok, select-ok,
}
use trust_up_api.Loans.Defs.{Loan, LoanStatus, same_status_iff}
use trust_up_api.LoanJobs.Defs.{JobStore, JobSources}
use trust_up_api.LoanJobs.Detector.{
  is_overdue, is_active_with_id, default_loan, claim_run, mark_loan, mark_all, write_processed,
  mark_found, detect_claimed, detect_defaults,
}

-- As it was, or an active loan of one of the identifiers, defaulted with its balance.
abbrev pub Defaults : List Loan → Loan → Loan → Type 0
Defaults found l l' =
    (l' ≡ l)
    ⊎ ((any (λ m. m.id == l.id) found ≡ true)
        × (l.status ≡ LoanStatus.active)
        × (l'.status ≡ LoanStatus.defaulted)
        × (l'.id ≡ l.id)
        × (l'.remaining_balance ≡ l.remaining_balance))

Defaults-trans :
    (found : List Loan) (a b c : Loan)
    → Defaults found a b
    → Defaults found b c
    → Defaults found a c
Defaults-trans found a b c (inl e) (inl f) = inl (ground arith)
Defaults-trans found a b c (inl e) (inr f) = inr (rw (sym e) f)
Defaults-trans found a b c (inr e) (inl f) =
    inr (e.0, e.1, ground arith, ground arith, ground arith)
Defaults-trans found a b c (inr e) (inr f) = absurd (ground arith)

hit_id : (loan l : Loan) → is_active_with_id loan.id l ≡ true → l.id ≡ loan.id
hit_id loan l hit = ground (arith, ==_iff l.id loan.id)

-- Every element of a list is listed by its identifier.
abbrev IsListed : List Loan → Loan → Type 0
IsListed found l = any (λ m. m.id == l.id) found ≡ true

weaken-IsListed :
    (m : Loan) (found ls : List Loan) → All (IsListed found) ls → All (IsListed (m ∷ found)) ls
weaken-IsListed m found [] h = tt
weaken-IsListed m found (l ∷ ls) h = (ground (arith, h.0), weaken-IsListed m found ls h.1)

All-IsListed : (found : List Loan) → All (IsListed found) found
All-IsListed [] = tt
All-IsListed (l ∷ ls) = (ground (arith, ==_refl l.id), weaken-IsListed l ls ls (All-IsListed ls))

module _ (src : JobSources) where
  mark_loan-Defaults :
      (now : ℕ) (found : List Loan) (loan : Loan) (count : ℕ) (s : JobStore)
      → any (λ m. m.id == loan.id) found ≡ true
      → Each (Defaults found) s.loans (mark_loan src now loan count s).1.loans
  mark_loan-Defaults now found loan count s listed =
      let p = is_active_with_id loan.id in
      elim (Result-cases (src.loans_table.update p (default_loan now) s.loans)) [
        | inl (x, failed) ↦ rw failed (Each-refl (Defaults found) (λ l. inl refl) s.loans)
        | inr (rows, done) ↦
            let wrote = update-ok src.loans_table p (default_loan now) s.loans rows done in
            let kept : (mark_loan src now loan count s).1.loans ≡ rows = ground arith in
            rw (kept, wrote)
              (Each-change (Defaults found) p (default_loan now)
                (λ l hit. inr (
                  rw (hit_id loan l hit) listed,
                  ground (arith, same_status_iff l.status LoanStatus.active),
                  refl,
                  refl,
                  refl,
                ))
                (λ l. inl refl) s.loans)
      ]

  mark_all-Defaults :
      (now : ℕ) (found loans : List Loan) (count : ℕ) (s : JobStore)
      → All (IsListed found) loans
      → Each (Defaults found) s.loans (mark_all src now loans count s).1.loans
  unfolding mark_all
  mark_all-Defaults now found [] count s h = Each-refl (Defaults found) (λ l. inl refl) s.loans
  mark_all-Defaults now found (loan ∷ loans) count s h =
      let step = mark_loan src now loan count s in
      Each-trans (Defaults found) (Defaults-trans found) s.loans step.1.loans _
        (mark_loan-Defaults now found loan count s h.0)
        (mark_all-Defaults now found loans step.0 step.1 h.1)

  claim_run-keeps_loans : (period : ℕ) (s : JobStore) → (claim_run src period s).1.loans ≡ s.loans
  unfolding claim_run
  claim_run-keeps_loans period s = ground arith

  write_processed-keeps_loans :
      (period count : ℕ) (s : JobStore) → (write_processed src period count s).loans ≡ s.loans
  unfolding write_processed
  write_processed-keeps_loans period count s = ground arith

  mark_found-Defaults :
      (now period : ℕ) (s : JobStore) (found : Result DbError (List Loan))
      → src.loans_table.select (is_overdue now) s.loans ≡ found
      → Each
          (Defaults (keep (is_overdue now) s.loans))
          s.loans
          (mark_found src now period s found).1.loans
  unfolding mark_found
  mark_found-Defaults now period s (err x) e =
      Each-refl (Defaults (keep (is_overdue now) s.loans)) (λ l. inl refl) s.loans
  mark_found-Defaults now period s (ok loans) e =
      let law = select-ok src.loans_table (is_overdue now) s.loans loans e in
      let done = mark_all src now loans 0 s in
      rw (write_processed-keeps_loans period done.0 done.1) (
        rw law (
          mark_all-Defaults now (keep (is_overdue now) s.loans) (keep (is_overdue now) s.loans) 0 s
            (All-IsListed (keep (is_overdue now) s.loans))))

  detect_claimed-Defaults :
      (now period : ℕ) (mine : Bool) (s : JobStore)
      → Each
          (Defaults (keep (is_overdue now) s.loans))
          s.loans
          (detect_claimed src now period mine s).1.loans
  detect_claimed-Defaults now period false s =
      Each-refl (Defaults (keep (is_overdue now) s.loans)) (λ l. inl refl) s.loans
  detect_claimed-Defaults now period true s =
      mark_found-Defaults now period s (src.loans_table.select (is_overdue now) s.loans) refl

  -- A run of the default detector, whatever fails on the way, leaves every loan as it was, or takes
  -- an active one to defaulted, with its balance: one with the identifier of an active loan whose
  -- next payment was due more than three days ago.
  pub detect_defaults-Defaults :
      (now period : ℕ) (s : JobStore)
      → Each
          (Defaults (keep (is_overdue now) s.loans))
          s.loans
          (detect_defaults src now period s).1.loans
  unfolding detect_defaults
  detect_defaults-Defaults now period s =
      let R : List Loan → List Loan → Type 0 =
        λ xs ys. Each (Defaults (keep (is_overdue now) xs)) xs ys in
      let t = (claim_run src period s).1 in
      let kept : t.loans ≡ s.loans = claim_run-keeps_loans period s in
      after_step (λ s'. R s.loans s'.loans) (claim_run src period) (detect_claimed src now period) s
        (λ mine e.
          subst (λ xs. R xs (detect_claimed src now period mine t).1.loans) kept
            (detect_claimed-Defaults now period mine t))
        (rw kept (Each-refl (Defaults (keep (is_overdue now) s.loans)) (λ l. inl refl) s.loans))
