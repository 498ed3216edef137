-- ===== src/Indexer/Tests.antt =====
-- One page of events, indexed on a small store, and the theorems of the modules at it.
use trust_up_api.Base.{
  ℕ, ◌<◌, ◌≡◌, any, true, none, some, List, [], ◌∷◌, ok, err, refl, ◌⊎◌, DbError, reliable,
  with_unique_key,
}
use trust_up_api.Indexer.Defs.{
  LoanRepaidPayload, ScoreChangedPayload, Payload, ParsedContractEvent, parsed, LoanIndexRow,
  IndexStatus, PaymentRow, HistoryRow, IndexStore, IndexSources,
}
use trust_up_api.Indexer.Persist.{
  persist_event, persist_loan_repaid, persist_score_changed, history_row,
}
use trust_up_api.Indexer.Process.{get_cursor, update_cursor, index_events, index_contract, process}
use trust_up_api.Indexer.Cursor.{is_at_ledger}
use trust_up_api.Indexer.Advance.{MovesTo, index_contract-MovesTo}
use trust_up_api.Indexer.Idempotent.{same_payment, same_event, persist_loan_repaid-once}

abbrev repayment : LoanRepaidPayload
repayment = record { loan_id = 42; tx_hash = 9; amount = 100; paid_at = 50 }

abbrev repaid_event : ParsedContractEvent
repaid_event = record {
  event_id = 1;
  tx_hash = 9;
  ledger_sequence = 10;
  payload = Payload.loan_repaid repayment;
}

-- Every page has one event, of the repayment.
abbrev sources : IndexSources
sources = record {
  loan_index_table = reliable;
  payment_table = with_unique_key same_payment;
  history_table = with_unique_key same_event;
  scores_table = reliable;
  users_table = reliable;
  cursors_table = reliable;
  get_events = λ contract ledger. ok (1 ∷ []);
  parse_event = λ raw. parsed repaid_event;
}

abbrev indexed_loan : LoanIndexRow
indexed_loan = record {
  loan_id = 42;
  user_wallet = 7;
  status = IndexStatus.active;
  principal_amount = 90;
  interest_amount = 10;
  due_date = none;
  event_id = 0;
  last_synced_at = 5;
}

abbrev before : IndexStore
before = record {
  loan_index = indexed_loan ∷ [];
  payment_index = [];
  history = [];
  scores = record { wallet_address = 7; score = 60; last_synced_at = 5 } ∷ [];
  users = [];
  cursors = record { contract_id = 3; last_ledger = 8; updated_at = 5 } ∷ [];
}

abbrev repaid : IndexStore
repaid = record before {
  loan_index = record indexed_loan { status = IndexStatus.paid; last_synced_at = 60 } ∷ [];
  payment_index = record { loan_id = 42; tx_hash = 9; amount = 100; paid_at = 50 } ∷ [];
}

abbrev moved : IndexStore
moved = record repaid {
  cursors = record { contract_id = 3; last_ledger = 10; updated_at = 60 } ∷ [];
}

run_once : process sources 60 (some 3) none none before ≡ moved
unfolding process index_contract get_cursor index_events persist_event persist_loan_repaid
    update_cursor
run_once = refl

index_contract-MovesTo_example :
    (moved.cursors ≡ before.cursors)
    ⊎ ((ledger : ℕ) × (raws : List ℕ) × (8 < ledger)
        × (sources.get_events 3 9 ≡ ok raws)
        × (any (λ raw. is_at_ledger ledger (sources.parse_event raw)) raws ≡ true)
        × MovesTo 3 ledger before.cursors moved.cursors)
unfolding index_contract get_cursor index_events persist_event persist_loan_repaid update_cursor
index_contract-MovesTo_example = index_contract-MovesTo sources 60 3 before

refuses_payment :
    (r : PaymentRow) (rows : List PaymentRow)
    → any (same_payment r) rows ≡ true
    → sources.payment_table.insert r rows ≡ err DbError.unique_violation
refuses_payment r rows known = rw known refl

refuses_event :
    (r : HistoryRow) (rows : List HistoryRow)
    → any (same_event r) rows ≡ true
    → sources.history_table.insert r rows ≡ err DbError.unique_violation
refuses_event r rows known = rw known refl

repaid_at_60 : persist_loan_repaid sources 60 repayment before ≡ (ok tt, repaid)
unfolding persist_loan_repaid
repaid_at_60 = refl

persist_loan_repaid-once_example : persist_loan_repaid sources 61 repayment repaid ≡ (ok tt, repaid)
persist_loan_repaid-once_example =
    persist_loan_repaid-once sources refuses_payment 60 61 repayment before repaid repaid_at_60

abbrev raise : ScoreChangedPayload
raise = record { wallet = 7; old_score = 60; new_score = 75; reason = 2 }

abbrev score_event : ParsedContractEvent
score_event = record {
  event_id = 2;
  tx_hash = 11;
  ledger_sequence = 12;
  payload = Payload.score_changed raise;
}

abbrev raised : IndexStore
raised = record before {
  history = history_row sources score_event raise ∷ [];
  scores = record { wallet_address = 7; score = 75; last_synced_at = 60 } ∷ [];
}

raised_at_60 : persist_score_changed sources 60 score_event raise before ≡ (ok tt, raised)
unfolding persist_score_changed
raised_at_60 = refl
