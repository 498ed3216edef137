-- ===== src/LoanJobs/Period.antt =====
-- A period of the default detector is worked on once, even if the run that claimed it fails.
use trust_up_api.Base.{
  ℕ, any-append_last, bind-ok, ◌≡◌, ==_refl, any, change, true, List, [], ◌∷◌, Result, ok, err,
  refl, inl, inr, arith, DbError, Result-cases, insert-ok, update-ok,
}
use trust_up_api.Loans.Defs.{Loan}
use trust_up_api.LoanJobs.Defs.{JobRun, same_run, JobStore, JobSources, put_runs}
use trust_up_api.LoanJobs.Detector.{
  detector_run, is_overdue, claim_run, mark_loan, mark_all, write_processed, mark_found,
  detect_claimed, detect_defaults,
}

-- A write of the count leaves the key of a run.
any-counted :
    (period count : ℕ) (runs : List JobRun)
    → any
        (same_run (detector_run period 0))
        (change (same_run (detector_run period 0)) (λ r. record r { processed = count }) runs)
      ≡ any (same_run (detector_run period 0)) runs
any-counted period count [] = refl
any-counted period count (r ∷ runs) = ground (arith, any-counted period count runs)

module _ (src : JobSources) where
  abbrev IsClaimed : ℕ → JobStore → Type 0
  IsClaimed period s = any (same_run (detector_run period 0)) s.runs ≡ true

  mark_all-keeps_runs :
      (now : ℕ) (loans : List Loan) (count : ℕ) (s : JobStore)
      → (mark_all src now loans count s).1.runs ≡ s.runs
  unfolding mark_all
  mark_all-keeps_runs now [] count s = refl
  mark_all-keeps_runs now (loan ∷ loans) count s =
      let step = mark_loan src now loan count s in
      let here : step.1.runs ≡ s.runs = ground arith in
      ground (arith, here, mark_all-keeps_runs now loans step.0 step.1)

  write_processed-IsClaimed :
      (period count : ℕ) (s : JobStore)
      → IsClaimed period s
      → IsClaimed period (write_processed src period count s)
  unfolding write_processed
  write_processed-IsClaimed period count s h =
      let p = same_run (detector_run period 0) in
      let f : JobRun → JobRun = λ r. record r { processed = count } in
      elim (Result-cases (src.runs_table.update p f s.runs)) [
        | inl (x, failed) ↦
            let same : (write_processed src period count s).runs ≡ s.runs = ground arith in
            rw same h
        | inr (rows, done) ↦
            let after : (write_processed src period count s).runs ≡ rows = ground arith in
            rw (after, update-ok src.runs_table p f s.runs rows done)
              (rw (any-counted period count s.runs) h)
      ]

  mark_found-IsClaimed :
      (now period : ℕ) (s : JobStore) (found : Result DbError (List Loan))
      → IsClaimed period s
      → IsClaimed period (mark_found src now period s found).1
  unfolding mark_found
  mark_found-IsClaimed now period s (err x) h = h
  mark_found-IsClaimed now period s (ok loans) h =
      let done = mark_all src now loans 0 s in
      write_processed-IsClaimed period done.0 done.1 (rw (mark_all-keeps_runs now loans 0 s) h)

  detect_claimed-again :
      (later period : ℕ) (t : JobStore)
      → src.runs_table.insert (detector_run period 0) t.runs ≡ err DbError.unique_violation
      → detect_defaults src later period t ≡ (ok tt, t)
  unfolding detect_defaults claim_run
  detect_claimed-again later period t refused = ground (arith, refused)

  claim_run-ok :
      (period : ℕ) (s : JobStore) (rows : List JobRun)
      → src.runs_table.insert (detector_run period 0) s.runs ≡ ok rows
      → claim_run src period s ≡ (ok true, put_runs s rows)
  unfolding claim_run
  claim_run-ok period s rows claim = ground (arith, claim)

  detect_defaults-IsClaimed :
      (now period : ℕ) (s : JobStore) (rows : List JobRun)
      → src.runs_table.insert (detector_run period 0) s.runs ≡ ok rows
      → IsClaimed period (detect_defaults src now period s).1
  unfolding detect_defaults
  detect_defaults-IsClaimed now period s rows claim =
      let run = detector_run period 0 in
      let added = insert-ok src.runs_table run s.runs rows claim in
      let known : IsClaimed period (put_runs s rows) =
        rw added (any-append_last (same_run run) s.runs run (ground (arith, ==_refl period))) in
      let worked =
        mark_found-IsClaimed now period (put_runs s rows)
          (src.loans_table.select (is_overdue now) s.loans) known in
      rw
        (bind-ok (claim_run src period) (detect_claimed src now period) s (put_runs s rows) true
          (claim_run-ok period s rows claim))
        worked

  -- With job and period as a unique key: after a run that claimed its period, however it ended, a
  -- further run in that period, at any time, changes nothing and reports success. So a run that
  -- fails after its claim is not made up for.
  pub detect_defaults-once :
      (unique : (r : JobRun) (rows : List JobRun)
        → any (same_run r) rows ≡ true
        → src.runs_table.insert r rows ≡ err DbError.unique_violation)
      (now later period : ℕ) (s : JobStore) (rows : List JobRun)
      → src.runs_table.insert (detector_run period 0) s.runs ≡ ok rows
      → let s' = (detect_defaults src now period s).1 in
        detect_defaults src later period s' ≡ (ok tt, s')
  detect_defaults-once unique now later period s rows claim =
      let s' = (detect_defaults src now period s).1 in
      detect_claimed-again later period s'
        (unique (detector_run period 0) s'.runs (detect_defaults-IsClaimed now period s rows claim))
