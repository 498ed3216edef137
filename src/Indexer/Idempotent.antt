-- ===== src/Indexer/Idempotent.antt =====
-- Events that are indexed again, as after a failed read of the cursor, are not recorded again.
use trust_up_api.Base.{
  ℕ, any-append_last, ◌≡◌, ◌==◌, ==_refl, any, ◌&&◌, Bool, true, List, [], ◌∷◌, ◌++◌, ok, err, inl,
  inr, arith, DbError, Result-cases, insert-ok,
}
use trust_up_api.Indexer.Defs.{
  LoanRepaidPayload, ScoreChangedPayload, ParsedContractEvent, PaymentRow, HistoryRow, IndexStore,
  IndexSources,
}
use trust_up_api.Indexer.Persist.{persist_loan_repaid, persist_score_changed, history_row}

abbrev pub same_payment : PaymentRow → PaymentRow → Bool
same_payment p q = (p.tx_hash == q.tx_hash) && (p.loan_id == q.loan_id)

abbrev pub same_event : HistoryRow → HistoryRow → Bool
same_event p q = p.event_id == q.event_id

module _ (src : IndexSources) where
  -- With a unique event identifier, a score change that was persisted and comes again, at whatever
  -- time, is accepted and leaves the store as it is.
  pub persist_score_changed-once :
      (unique : (r : HistoryRow) (rows : List HistoryRow)
        → any (same_event r) rows ≡ true
        → src.history_table.insert r rows ≡ err DbError.unique_violation)
      (now later : ℕ) (e : ParsedContractEvent) (p : ScoreChangedPayload) (s s' : IndexStore)
      → persist_score_changed src now e p s ≡ (ok tt, s')
      → persist_score_changed src later e p s' ≡ (ok tt, s')
  unfolding persist_score_changed
  persist_score_changed-once unique now later e p s s' first =
      let row = history_row src e p in
      elim (Result-cases (src.history_table.insert row s.history)) [
        | inl (DbError.unique_violation, i) ↦ ground arith
        | inl (DbError.other_error, i) ↦ ground arith
        | inr (rows, i) ↦
            let added = insert-ok src.history_table row s.history rows i in
            let h : s'.history ≡ s.history ++ row ∷ [] = ground (arith, added) in
            let known = any-append_last (same_event row) s.history row (==_refl row.event_id) in
            let refused = unique row s'.history (rw h known) in ground (arith, refused)
      ]

  -- With the transaction and the loan as a unique key, a repayment that was persisted and comes
  -- again, at whatever time, is accepted and leaves the store as it is: it is not counted twice.
  pub persist_loan_repaid-once :
      (unique : (r : PaymentRow) (rows : List PaymentRow)
        → any (same_payment r) rows ≡ true
        → src.payment_table.insert r rows ≡ err DbError.unique_violation)
      (now later : ℕ) (p : LoanRepaidPayload) (s s' : IndexStore)
      → persist_loan_repaid src now p s ≡ (ok tt, s')
      → persist_loan_repaid src later p s' ≡ (ok tt, s')
  unfolding persist_loan_repaid
  persist_loan_repaid-once unique now later p s s' first =
      let row : PaymentRow = record {
        loan_id = p.loan_id;
        tx_hash = p.tx_hash;
        amount = p.amount;
        paid_at = p.paid_at;
      } in
      elim (Result-cases (src.payment_table.insert row s.payment_index)) [
        | inl (DbError.unique_violation, i) ↦ ground arith
        | inl (DbError.other_error, i) ↦ ground arith
        | inr (rows, i) ↦
            let added = insert-ok src.payment_table row s.payment_index rows i in
            let h : s'.payment_index ≡ s.payment_index ++ row ∷ [] = ground (arith, added) in
            let known =
              any-append_last (same_payment row) s.payment_index row
                (ground (arith, ==_refl row.tx_hash, ==_refl row.loan_id)) in
            let refused = unique row s'.payment_index (rw h known) in ground (arith, refused)
      ]
