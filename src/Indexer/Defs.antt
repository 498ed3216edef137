-- ===== src/Indexer/Defs.antt =====
-- The events and the tables of BlockchainIndexerProcessor
-- (jobs/blockchain-indexer/blockchain-indexer.processor.ts, interfaces/indexer.interfaces.ts).
use trust_up_api.Base.{ℕ, Option, List, Table, Result, Action}
use trust_up_api.Auth.Defs.{User}

pub record LoanCreatedPayload : Type 0 where
  pub loan_id : ℕ
  pub user_wallet : ℕ
  pub principal_amount : ℕ
  pub interest_amount : ℕ
  pub due_date : Option ℕ

pub record LoanRepaidPayload : Type 0 where
  pub loan_id : ℕ
  pub tx_hash : ℕ
  pub amount : ℕ
  pub paid_at : ℕ

pub record ScoreChangedPayload : Type 0 where
  pub wallet : ℕ
  pub old_score : ℕ
  pub new_score : ℕ
  pub reason : ℕ

-- The `type` with its payload; SCORE_UPDATED is handled as SCORE_CHANGED. An empty text is `none`.
pub data Payload : Type 0 where
  loan_created : LoanCreatedPayload → Payload
  loan_repaid : LoanRepaidPayload → Payload
  loan_defaulted : ℕ → Payload
  score_changed : ScoreChangedPayload → Payload
  liquidity_deposited : Option ℕ → Payload
  liquidity_withdrawn : Payload

pub record ParsedContractEvent : Type 0 where
  pub event_id : ℕ
  pub tx_hash : ℕ
  pub ledger_sequence : ℕ
  pub payload : Payload

-- What EventParserService.parseEvent does with a raw event.
pub data Parsing : Type 0 where
  parse_error : Parsing
  unrecognised : Parsing
  parsed : ParsedContractEvent → Parsing

pub data IndexStatus : Type 0 where
  active paid defaulted : IndexStatus

-- A row of `loan_index`
pub record LoanIndexRow : Type 0 where
  pub loan_id : ℕ
  pub user_wallet : ℕ
  pub status : IndexStatus
  pub principal_amount : ℕ
  pub interest_amount : ℕ
  pub due_date : Option ℕ
  pub event_id : ℕ
  pub last_synced_at : ℕ

-- A row of `payment_index`
pub record PaymentRow : Type 0 where
  pub loan_id : ℕ
  pub tx_hash : ℕ
  pub amount : ℕ
  pub paid_at : ℕ

-- A row of `reputation_history`; `change_amount` is the difference of the scores.
pub record HistoryRow : Type 0 where
  pub event_id : ℕ
  pub user_wallet : ℕ
  pub old_score : ℕ
  pub new_score : ℕ
  pub reason : ℕ
  pub transaction_hash : ℕ
  pub ledger_sequence : ℕ

-- The columns of `reputation_cache` that are written here
pub record ScoreRow : Type 0 where
  pub wallet_address : ℕ
  pub score : ℕ
  pub last_synced_at : ℕ

-- A row of `indexer_cursor`
pub record IndexerCursor : Type 0 where
  pub contract_id : ℕ
  pub last_ledger : ℕ
  pub updated_at : ℕ

pub record IndexStore : Type 0 where
  pub loan_index : List LoanIndexRow
  pub payment_index : List PaymentRow
  pub history : List HistoryRow
  pub scores : List ScoreRow
  pub users : List User
  pub cursors : List IndexerCursor

pub data IndexError : Type 0 where
  -- the `Error` of a write that failed, and one of the RPC server
  persist_failed rpc_failed : IndexError

abbrev pub Indexing : Type 0 → Type 0
Indexing A = Action IndexStore IndexError A

pub record IndexSources : Type 0 where
  pub loan_index_table : Table LoanIndexRow
  pub payment_table : Table PaymentRow
  pub history_table : Table HistoryRow
  pub scores_table : Table ScoreRow
  pub users_table : Table User
  pub cursors_table : Table IndexerCursor
  -- `fetchEvents`: at most 100 raw events of a contract, from a ledger on
  pub get_events : ℕ → ℕ → Result (Unit {0}) (List ℕ)
  -- EventParserService.parseEvent
  pub parse_event : ℕ → Parsing

abbrev pub put_loan_index : IndexStore → List LoanIndexRow → IndexStore
put_loan_index s rows = record s { loan_index = rows }

abbrev pub put_payments : IndexStore → List PaymentRow → IndexStore
put_payments s rows = record s { payment_index = rows }

abbrev pub put_history : IndexStore → List HistoryRow → IndexStore
put_history s rows = record s { history = rows }

abbrev pub put_scores : IndexStore → List ScoreRow → IndexStore
put_scores s rows = record s { scores = rows }

abbrev pub put_users : IndexStore → List User → IndexStore
put_users s rows = record s { users = rows }

abbrev pub put_cursors : IndexStore → List IndexerCursor → IndexStore
put_cursors s rows = record s { cursors = rows }
