-- ===== src/Indexer/Persist.antt =====
-- persistEvent and its five cases
-- (jobs/blockchain-indexer/blockchain-indexer.processor.ts).
use trust_up_api.Base.{
  ℕ, ◌+◌, ◌==◌, leb, Option, none, some, Bool, List, [], ◌∷◌, Result, ok, err, DbError, pure,
  writing, unchecked, if◌then◌else◌,
}
use trust_up_api.Auth.Defs.{User, UserRole}
use trust_up_api.Indexer.Defs.{
  LoanCreatedPayload, LoanRepaidPayload, ScoreChangedPayload, Payload, ParsedContractEvent,
  IndexStatus, LoanIndexRow, PaymentRow, HistoryRow, IndexStore, IndexError, Indexing, IndexSources,
  put_loan_index, put_payments, put_history, put_scores, put_users,
}

abbrev pub sum_of : List PaymentRow → ℕ
sum_of [] = 0
sum_of (p ∷ ps) = p.amount + sum_of ps

abbrev pub is_borrower : UserRole → Bool
is_borrower UserRole.borrower = Bool.true
is_borrower _ = Bool.false

abbrev pub settled_status : ℕ → LoanIndexRow → IndexStatus
settled_status paid loan =
    if leb (loan.principal_amount + loan.interest_amount) paid
    then IndexStatus.paid
    else IndexStatus.active

-- How an insert whose unique key may exist already ends: recorded, skipped or thrown.
abbrev pub recorded :
    {R : Type 0}
    → (IndexStore → List R → IndexStore)
    → IndexStore
    → Result DbError (List R)
    → Indexing (Unit {0})
    → Result IndexError (Unit {0}) × IndexStore
recorded put s (ok rows) next = next (put s rows)
recorded put s (err DbError.unique_violation) next = (ok tt, s)
recorded put s (err DbError.other_error) next = (err IndexError.persist_failed, s)

module _ (src : IndexSources) where
  -- An upsert that leaves the row of a known event as it is.
  unfoldable pub persist_loan_created : ℕ → ℕ → LoanCreatedPayload → Indexing (Unit {0})
  persist_loan_created now event_id p s =
      recorded put_loan_index s
        (elim (src.loan_index_table.upsert (λ r. r.event_id == event_id)
          (record {
            loan_id = p.loan_id;
            user_wallet = p.user_wallet;
            status = IndexStatus.active;
            principal_amount = p.principal_amount;
            interest_amount = p.interest_amount;
            due_date = p.due_date;
            event_id = event_id;
            last_synced_at = now;
          })
          (λ r. r) s.loan_index) [ ok (r, rows) ↦ ok rows | err e ↦ err e ])
        (pure tt)

  -- The error of this update is not looked at.
  abbrev pub update_status_from :
      ℕ → ℕ → ℕ → Result DbError (Option LoanIndexRow) → Indexing (Unit {0})
  update_status_from now loan_id paid (ok (some loan)) = unchecked put_loan_index (λ s.
      src.loan_index_table.update (λ r. r.loan_id == loan_id)
        (λ r. record r { status = settled_status paid loan; last_synced_at = now }) s.loan_index)
  update_status_from now loan_id paid _ = pure tt

  abbrev pub recalculate : ℕ → ℕ → Result DbError (List PaymentRow) → Indexing (Unit {0})
  recalculate now loan_id (err _) s = (ok tt, s)
  recalculate now loan_id (ok payments) s =
      update_status_from now loan_id (sum_of payments)
        (src.loan_index_table.maybe_single (λ r. r.loan_id == loan_id) s.loan_index) s

  unfoldable pub persist_loan_repaid : ℕ → LoanRepaidPayload → Indexing (Unit {0})
  persist_loan_repaid now p s =
      recorded put_payments s
        (src.payment_table.insert
          (record {
            loan_id = p.loan_id;
            tx_hash = p.tx_hash;
            amount = p.amount;
            paid_at = p.paid_at;
          })
          s.payment_index)
        (λ s.
          recalculate now p.loan_id
            (src.payment_table.select (λ r. r.loan_id == p.loan_id) s.payment_index) s)

  unfoldable pub persist_loan_defaulted : ℕ → ℕ → Indexing (Unit {0})
  persist_loan_defaulted now loan_id =
      writing put_loan_index
        (λ s.
          src.loan_index_table.update (λ r. r.loan_id == loan_id)
            (λ r. record r { status = IndexStatus.defaulted; last_synced_at = now }) s.loan_index)
        IndexError.persist_failed

  abbrev pub history_row : ParsedContractEvent → ScoreChangedPayload → HistoryRow
  history_row e p = record {
    event_id = e.event_id;
    user_wallet = p.wallet;
    old_score = p.old_score;
    new_score = p.new_score;
    reason = p.reason;
    transaction_hash = e.tx_hash;
    ledger_sequence = e.ledger_sequence;
  }

  -- An error of the cache's update is only logged.
  unfoldable pub persist_score_changed :
      ℕ → ParsedContractEvent → ScoreChangedPayload → Indexing (Unit {0})
  persist_score_changed now e p s =
      recorded put_history s (src.history_table.insert (history_row e p) s.history) (
        unchecked put_scores (λ s.
          src.scores_table.update (λ r. r.wallet_address == p.wallet)
            (λ r. record r { score = p.new_score; last_synced_at = now }) s.scores))

  abbrev pub upgrade : Result DbError (Option User) → Indexing (Unit {0})
  upgrade (ok (some user)) s =
      if is_borrower user.role
      then unchecked put_users
          (λ s.
            src.users_table.update (λ u. u.id == user.id)
              (λ u. record u { role = UserRole.lp_provider }) s.users)
          s
      else (ok tt, s)
  upgrade _ s = (ok tt, s)

  unfoldable pub persist_liquidity_deposited : Option ℕ → Indexing (Unit {0})
  persist_liquidity_deposited none s = (ok tt, s)
  persist_liquidity_deposited (some wallet) s =
      upgrade (src.users_table.maybe_single (λ u. u.wallet_address == wallet) s.users) s

  -- The `switch`; other types of events do nothing.
  abbrev pub persist_payload : ℕ → ParsedContractEvent → Payload → Indexing (Unit {0})
  persist_payload now e (Payload.loan_created p) = persist_loan_created now e.event_id p
  persist_payload now e (Payload.loan_repaid p) = persist_loan_repaid now p
  persist_payload now e (Payload.loan_defaulted loan_id) = persist_loan_defaulted now loan_id
  persist_payload now e (Payload.score_changed p) = persist_score_changed now e p
  persist_payload now e (Payload.liquidity_deposited wallet) = persist_liquidity_deposited wallet
  persist_payload now e Payload.liquidity_withdrawn = pure tt

  unfoldable pub persist_event : ℕ → ParsedContractEvent → Indexing (Unit {0})
  persist_event now e = persist_payload now e e.payload
