-- ===== src/StatusChecker/Run.antt =====
-- A run of the job from its first statement to its last: process.
use trust_up_api.Base.{
  ℕ, ◌≡◌, Option, none, some, List, [], ◌∷◌, Result, ok, err, arith, DbError, after_step, ◌>>=◌,
}
use trust_up_api.Loans.Paid.{AllPaidUp}
use trust_up_api.StatusChecker.Defs.{
  Transaction, TransactionStatus, CheckerStore, Lookup, response, transaction_not_found,
  lookup_failed, FollowUpResult,
}
use trust_up_api.StatusChecker.Process.{
  CheckerSources, settle_pending, after_settling, create_notification, finalize_transaction,
  process_transaction, process_all, process, run_pending, cleanup_old_transactions, settled,
  is_true, status_of_lookup, act_on, follow_up,
}
use trust_up_api.StatusChecker.Metadata.{parse_transaction_metadata}
use trust_up_api.StatusChecker.Paid.{PaysNothingBack, apply_follow_up_actions-AllPaidUp}

abbrev pub Sound : CheckerStore → Type 0
Sound s = AllPaidUp s.repo

module _ (src : CheckerSources) where
  create_notification-keeps_repo :
      (t : Transaction) (status : TransactionStatus) (error : Option ℕ) (followed : FollowUpResult)
      (s : CheckerStore)
      → (create_notification src t status error followed s).1.repo ≡ s.repo
  unfolding create_notification
  create_notification-keeps_repo t status error followed s = ground arith

  settle_pending-keeps_repo :
      (now hash : ℕ) (status : TransactionStatus) (error : Option ℕ) (s : CheckerStore)
      → (settle_pending src now hash status error s).1.repo ≡ s.repo
  unfolding settle_pending
  settle_pending-keeps_repo now hash status error s = ground arith

  cleanup-keeps_repo :
      (now : ℕ) (s : CheckerStore) → (cleanup_old_transactions src now s).repo ≡ s.repo
  unfolding cleanup_old_transactions
  cleanup-keeps_repo now s = ground arith

module _ (src : CheckerSources)
    (not_negative : (xdr : Option ℕ)
      → PaysNothingBack (parse_transaction_metadata src.from_xdr xdr)) where
  after_settling-Sound :
      (now : ℕ) (t : Transaction) (status : TransactionStatus) (error : Option ℕ)
      (written : Option Transaction) (s : CheckerStore)
      → Sound s
      → Sound (after_settling src now t status error written s).1
  after_settling-Sound now t status error none s h = h
  after_settling-Sound now t status error (some r) s h =
      let kept : Sound (follow_up src now t status s).1 =
        apply_follow_up_actions-AllPaidUp src.loan_sources src.from_xdr now t status s.repo
          not_negative h in
      after_step Sound (follow_up src now t status) (create_notification src t status error) s
        (λ followed e.
          rw
            (create_notification-keeps_repo src t status error followed
              (follow_up src now t status s).1)
            kept)
        kept

  finalize_transaction-Sound :
      (now : ℕ) (t : Transaction) (status : TransactionStatus) (error : Option ℕ) (s : CheckerStore)
      → Sound s
      → Sound (finalize_transaction src now t status error s).1
  unfolding finalize_transaction
  finalize_transaction-Sound now t status error s h =
      let hash = t.transaction_hash in
      let kept : Sound (settle_pending src now hash status error s).1 =
        rw (settle_pending-keeps_repo src now hash status error s) h in
      after_step Sound (settle_pending src now hash status error)
        (after_settling src now t status error) s
        (λ written e.
          after_settling-Sound now t status error written
            (settle_pending src now hash status error s).1 kept)
        kept

  act_on_lookup-Sound :
      (now : ℕ) (t : Transaction) (looked : Lookup) (s : CheckerStore)
      → Sound s
      → Sound ((status_of_lookup looked >>= act_on src now t) s).1
  act_on_lookup-Sound now t (response r) s h =
      finalize_transaction-Sound now t (settled (is_true r.successful)) r.result_codes s h
  act_on_lookup-Sound now t transaction_not_found s h = h
  act_on_lookup-Sound now t lookup_failed s h = h

  process_all-Sound :
      (now : ℕ) (ts : List Transaction) (s : CheckerStore)
      → Sound s
      → Sound (process_all src now ts s)
  unfolding process_all process_transaction
  process_all-Sound now [] s h = h
  process_all-Sound now (t ∷ ts) s h =
      process_all-Sound now ts (process_transaction src now t s)
        (act_on_lookup-Sound now t (src.get_transaction t.transaction_hash) s h)

  cleanup-Sound :
      (now : ℕ) (s : CheckerStore) → Sound s → Sound (cleanup_old_transactions src now s)
  cleanup-Sound now s h = rw (cleanup-keeps_repo src now s) h

  run_pending-Sound :
      (now : ℕ) (found : Result DbError (List Transaction)) (s : CheckerStore)
      → Sound s
      → Sound (run_pending src now found s)
  run_pending-Sound now (ok []) s h = cleanup-Sound now s h
  run_pending-Sound now (ok (t ∷ ts)) s h = process_all-Sound now (t ∷ ts) s h
  run_pending-Sound now (err e) s h = h

  -- If every completed loan is paid, meaning that its balance is 0, it still is after a run of the
  -- job, whatever the database and Horizon answer, if no contract call that the XDR decoder makes
  -- out has a negative amount.
  pub process-AllPaidUp :
      (now : ℕ) (s : CheckerStore) → AllPaidUp s.repo → AllPaidUp (process src now s).repo
  unfolding process
  process-AllPaidUp now s h =
      let found = src.find_pending s.transactions in
      cleanup-Sound now (run_pending src now found s) (run_pending-Sound now found s h)
