-- ===== src/LoanJobs/Distribution.antt =====
-- What a run of the yield distribution does to positions and loans.
use trust_up_api.Base.{
  ℕ, ◌&&◌, ltb, ◌≡◌, refl, subst, ◌∙◌, inl, inr, Bool-cases, Bool, true, false, List, keep, Result,
  ok, err, DbError, select-ok, after_step, Each, Each-refl, DistinctBy,
}
use trust_up_api.Loans.Defs.{Loan}
use trust_up_api.LoanJobs.Defs.{
  JobName, LiquidityPosition, JobStore, JobSources, loan_key, position_key, claim_job,
  claim_job-keeps_loans, claim_job-keeps_positions, count_processed-keeps_loans,
  count_processed-keeps_positions,
}
use trust_up_api.LoanJobs.Crediting.{
  Credits, always, credit_all-Credits, credit_all-keeps_loans, keep-always,
}
use trust_up_api.LoanJobs.Yield.{
  bears_interest, distributable, total_shares, credit_all, after_credits, distribute_to,
  distribute_found, distribute_claimed, distribute_run,
}
use trust_up_api.LoanJobs.Noting.{
  Checkpoints, unnoted, checkpoint_all-keeps_positions, checkpoint_all-Checkpoints,
}

module _ (src : JobSources) (now : ℕ) where
  -- The pool that a run over these loans shares out, and the shares that it is divided by.
  abbrev pub pool_of : JobStore → ℕ
  pool_of s = distributable (keep bears_interest s.loans)

  abbrev pub shares_of : JobStore → ℕ
  shares_of s = total_shares s.positions

  abbrev pub Distributes : JobStore → JobStore → Type 0
  Distributes s t =
      Each (Credits now (shares_of s) (pool_of s)) s.positions t.positions
      × Each (Checkpoints now) s.loans t.loans

  undistributed : (s : JobStore) → Distributes s s
  undistributed s = (
    Each-refl (Credits now (shares_of s) (pool_of s)) (λ p. inl refl) s.positions,
    unnoted src now s,
  )

  -- Only the two tables of the first store count.
  abbrev FromRows : List LiquidityPosition → List Loan → JobStore → Type 0
  FromRows positions loans t =
      Each (Credits now (total_shares positions) (distributable (keep bears_interest loans)))
        positions t.positions
      × Each (Checkpoints now) loans t.loans

  from_same :
      (s t u : JobStore)
      → t.loans ≡ s.loans
      → t.positions ≡ s.positions
      → Distributes t u
      → Distributes s u
  from_same s t u loans positions h =
      subst (λ ls. FromRows s.positions ls u) loans
        (subst (λ ps. FromRows ps t.loans u) positions h)

  after_credits-loans :
      (period total pool paid : ℕ) (s : JobStore)
      → DistinctBy loan_key s.loans
      → Each
          (Checkpoints now)
          s.loans
          (after_credits src now period (keep bears_interest s.loans) total pool paid s).loans
  unfolding after_credits
  after_credits-loans period total pool paid s distinct =
      let due = ltb 0 paid && (ltb 0 total && ltb 0 pool) in
      rw (count_processed-keeps_loans src JobName.yield_distribution period paid)
        (elim (Bool-cases due) [
          | inl noted ↦ rw noted (checkpoint_all-Checkpoints src now s distinct)
          | inr skipped ↦ rw skipped (unnoted src now s)
        ])

  after_credits-positions :
      (period total pool paid : ℕ) (loans : List Loan) (s : JobStore)
      → (after_credits src now period loans total pool paid s).positions ≡ s.positions
  unfolding after_credits
  after_credits-positions period total pool paid loans s =
      let due = ltb 0 paid && (ltb 0 total && ltb 0 pool) in
      rw (count_processed-keeps_positions src JobName.yield_distribution period paid)
        (elim (Bool-cases due) [
          | inl noted ↦ rw noted (checkpoint_all-keeps_positions src now loans s)
          | inr skipped ↦ rw skipped refl
        ])

  distribute_to-Distributes :
      (period : ℕ) (s : JobStore) (found : Result DbError (List LiquidityPosition))
      → src.positions_table.select always s.positions ≡ found
      → DistinctBy position_key s.positions
      → DistinctBy loan_key s.loans
      → Distributes s (distribute_to src now period (keep bears_interest s.loans) s found).1
  unfolding distribute_to
  distribute_to-Distributes period s (err x) e apart distinct = undistributed s
  distribute_to-Distributes period s (ok positions) e apart distinct =
      let law =
        select-ok src.positions_table always s.positions positions e ∙ keep-always s.positions in
      let done = credit_all src now (shares_of s) (pool_of s) s.positions 0 s in
      let same = credit_all-keeps_loans src now (shares_of s) (pool_of s) s.positions 0 s in
      rw law (
        rw
            (after_credits-positions period (shares_of s) (pool_of s) done.0
              (keep bears_interest s.loans) done.1)
            (credit_all-Credits src now (shares_of s) (pool_of s) 0 s apart),
        subst
            (λ xs.
              Each (Checkpoints now) xs
                (after_credits src now period (keep bears_interest xs) (shares_of s) (pool_of s)
                  done.0 done.1).loans)
            same
            (after_credits-loans period (shares_of s) (pool_of s) done.0 done.1 (rw same distinct)),
      )

  distribute_found-Distributes :
      (period : ℕ) (s : JobStore) (found : Result DbError (List Loan))
      → src.loans_table.select bears_interest s.loans ≡ found
      → DistinctBy position_key s.positions
      → DistinctBy loan_key s.loans
      → Distributes s (distribute_found src now period s found).1
  unfolding distribute_found
  distribute_found-Distributes period s (err x) e apart distinct = undistributed s
  distribute_found-Distributes period s (ok loans) e apart distinct =
      rw (select-ok src.loans_table bears_interest s.loans loans e) (
        distribute_to-Distributes period s (src.positions_table.select always s.positions) refl
          apart distinct)

  distribute_claimed-Distributes :
      (period : ℕ) (mine : Bool) (s : JobStore)
      → DistinctBy position_key s.positions
      → DistinctBy loan_key s.loans
      → Distributes s (distribute_claimed src now period mine s).1
  distribute_claimed-Distributes period false s apart distinct = undistributed s
  distribute_claimed-Distributes period true s apart distinct =
      distribute_found-Distributes period s (src.loans_table.select bears_interest s.loans) refl
        apart distinct

  -- Where the identifiers of positions and of loans are distinct, a run of the yield distribution,
  -- whatever fails on the way, leaves every position as it was or adds its share of the pool to its
  -- yield, and leaves every loan as it was or notes its pending interest as distributed. The pool is
  -- 85 percent of the interest of all active, completed and defaulted loans that was not distributed.
  pub distribute_run-Distributes :
      (period : ℕ) (s : JobStore)
      → DistinctBy position_key s.positions
      → DistinctBy loan_key s.loans
      → Distributes s (distribute_run src now period s).1
  unfolding distribute_run
  distribute_run-Distributes period s apart distinct =
      let job = JobName.yield_distribution in
      let claim = claim_job src job period in
      let t = (claim s).1 in
      let loans_kept : t.loans ≡ s.loans = claim_job-keeps_loans src job period s in
      let positions_kept : t.positions ≡ s.positions = claim_job-keeps_positions src job period s in
      after_step (Distributes s) claim (distribute_claimed src now period) s
        (λ mine e.
          from_same s t (distribute_claimed src now period mine t).1 loans_kept positions_kept (
            distribute_claimed-Distributes period mine t (rw positions_kept apart)
              (rw loans_kept distinct)))
        (from_same s t t loans_kept positions_kept (undistributed t))
