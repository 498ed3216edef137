-- ===== src/StatusChecker/Once.antt =====
-- A transaction is settled once: its effects on loans and notifications are not repeated, and a
-- settled transaction is left as it is.
use trust_up_api.Base.{
  ℕ, ◌≡◌, ◌⊎◌, inl, inr, Option, none, some, false, List, [], ◌∷◌, Result, arith, keep, change,
  keep-change_one, keep-one_passes, update_one-some, update_one-none, Result-cases, DbError,
}
use trust_up_api.StatusChecker.Defs.{
  Transaction, TransactionStatus, is_pending, CheckerStore, put_transactions,
}
use trust_up_api.StatusChecker.Process.{
  CheckerSources, is_pending_hash, write_settled, after_settling, create_notification,
  finalize_transaction,
}

module _ (src : CheckerSources) where
  after_settling-transactions :
      (now : ℕ) (t : Transaction) (status : TransactionStatus) (error : Option ℕ)
      (r : Option Transaction) (s : CheckerStore)
      → (after_settling src now t status error r s).1.transactions ≡ s.transactions
  unfolding create_notification
  after_settling-transactions now t status error r s = ground arith

  abbrev settling :
      ℕ
      → ℕ
      → TransactionStatus
      → Option ℕ
      → CheckerStore
      → Result DbError (Option Transaction × List Transaction)
  settling now hash status error s =
      src.transactions_table.update_one (is_pending_hash hash) (write_settled now status error)
        s.transactions

  -- Settling changes nothing at all, or exactly the one pending row of the hash.
  pub finalize_transaction-writes :
      (now : ℕ) (t : Transaction) (status : TransactionStatus) (error : Option ℕ) (s : CheckerStore)
      → let s' = (finalize_transaction src now t status error s).1 in
        (s' ≡ s)
        ⊎ ((row : Transaction) × (keep (is_pending_hash t.transaction_hash) s.transactions
              ≡ row ∷ [])
            × (s'.transactions
                ≡ change
                    (is_pending_hash t.transaction_hash)
                    (write_settled now status error)
                    s.transactions))
  unfolding finalize_transaction
  finalize_transaction-writes now t status error s =
      elim (Result-cases (settling now t.transaction_hash status error s)) [
        | inl (x, e) ↦ inl (ground arith)
        | inr ((none, rows), e) ↦
            inl (ground (arith, update_one-none src.transactions_table _ _ s.transactions rows e))
        | inr ((some r, rows), e) ↦
            let law = update_one-some src.transactions_table _ _ s.transactions rows r e in
            inr (
              law.0,
              law.1,
              let same =
                    after_settling-transactions now t status error (some r)
                      (put_transactions s rows) in
                  ground (arith, same, law),
            )
      ]

  pub finalize_transaction_of_nil :
      (now : ℕ) (t : Transaction) (status : TransactionStatus) (error : Option ℕ) (s : CheckerStore)
      → keep (is_pending_hash t.transaction_hash) s.transactions ≡ []
      → (finalize_transaction src now t status error s).1 ≡ s
  finalize_transaction_of_nil now t status error s gone =
      elim (finalize_transaction-writes now t status error s) [
        | inl same ↦ same
        | inr (row, only, written) ↦ cc
      ]

  -- However often a pending transaction is settled, and with whatever outcome, the first settling
  -- that changes anything is the last: every later one leaves the whole store as it is.
  pub finalize_transaction-once :
      (now later : ℕ) (t u : Transaction) (status status' : TransactionStatus)
      (error error' : Option ℕ) (s : CheckerStore)
      → u.transaction_hash ≡ t.transaction_hash
      → is_pending status ≡ false
      → let s' = (finalize_transaction src now t status error s).1 in
        (s' ≡ s) ⊎ ((finalize_transaction src later u status' error' s').1 ≡ s')
  finalize_transaction-once now later t u status status' error error' s same final =
      elim (finalize_transaction-writes now t status error s) [
        | inl unchanged ↦ inl unchanged
        | inr (row, only, written) ↦ inr (
            finalize_transaction_of_nil later u status' error' _ (
              rw (same, written)
                (keep-change_one (is_pending_hash t.transaction_hash) _
                  (write_settled now status error) (λ x. ground arith) s.transactions only
                  (keep-one_passes (is_pending_hash t.transaction_hash) s.transactions only))))
      ]
