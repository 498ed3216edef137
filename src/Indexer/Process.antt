-- ===== src/Indexer/Process.antt =====
-- process, indexContract and the cursor
-- (jobs/blockchain-indexer/blockchain-indexer.processor.ts).
use trust_up_api.Base.{
  ℕ, ◌+◌, ◌==◌, ltb, Option, none, some, List, [], ◌∷◌, Result, ok, err, DbError, if◌then◌else◌,
}
use trust_up_api.Indexer.Defs.{
  Parsing, parsed, IndexerCursor, IndexStore, IndexError, Indexing, IndexSources, put_cursors,
}
use trust_up_api.Indexer.Persist.{persist_event}

abbrev pub later : ℕ → ℕ → ℕ
later ledger max_ledger = if ltb max_ledger ledger then ledger else max_ledger

-- `max_ledger` moves only where the event is persisted.
abbrev pub counted : ℕ → ℕ → Result IndexError (Unit {0}) → IndexStore → ℕ × IndexStore
counted ledger max_ledger (ok _) s = (later ledger max_ledger, s)
counted ledger max_ledger (err _) s = (max_ledger, s)

module _ (src : IndexSources) where
  -- An error counts as no cursor, so the first ledger is next.
  abbrev pub ledger_of : Result DbError (Option IndexerCursor) → ℕ
  ledger_of (ok (some c)) = c.last_ledger
  ledger_of _ = 0

  unfoldable pub get_cursor : ℕ → IndexStore → ℕ
  get_cursor contract s =
      ledger_of (src.cursors_table.maybe_single (λ c. c.contract_id == contract) s.cursors)

  -- Its error is only logged.
  unfoldable pub update_cursor : ℕ → ℕ → ℕ → Indexing (Unit {0})
  update_cursor now contract ledger s = (
    ok tt,
    elim (src.cursors_table.upsert (λ c. c.contract_id == contract)
        (record { contract_id = contract; last_ledger = ledger; updated_at = now })
        (λ c. record c { last_ledger = ledger; updated_at = now }) s.cursors) [
          | ok (c, rows) ↦ put_cursors s rows
          | err _ ↦ s
        ],
  )

  -- The `try` of one round.
  abbrev pub index_parsed : ℕ → Parsing → ℕ → IndexStore → ℕ × IndexStore
  index_parsed now (parsed e) max_ledger s =
      let done = persist_event src now e s in counted e.ledger_sequence max_ledger done.0 done.1
  index_parsed now _ max_ledger s = (max_ledger, s)

  unfoldable pub index_events : ℕ → List ℕ → ℕ → IndexStore → ℕ × IndexStore
  index_events now [] max_ledger s = (max_ledger, s)
  index_events now (raw ∷ rest) max_ledger s =
      let step = index_parsed now (src.parse_event raw) max_ledger s in
      index_events now rest step.0 step.1

  abbrev pub advance : ℕ → ℕ → ℕ → ℕ × IndexStore → Result IndexError (Unit {0}) × IndexStore
  advance now contract cursor (max_ledger, s) =
      if ltb cursor max_ledger then update_cursor now contract max_ledger s else (ok tt, s)

  abbrev pub index_page :
      ℕ
      → ℕ
      → ℕ
      → Result (Unit {0}) (List ℕ)
      → IndexStore
      → Result IndexError (Unit {0}) × IndexStore
  index_page now contract cursor (err _) s = (err IndexError.rpc_failed, s)
  index_page now contract cursor (ok raw_events) s =
      advance now contract cursor (index_events now raw_events cursor s)

  -- `indexContract`; `none` is a contract that is not configured.
  unfoldable pub index_contract : ℕ → Option ℕ → Indexing (Unit {0})
  index_contract now none s = (ok tt, s)
  index_contract now (some contract) s =
      let cursor : ℕ = get_cursor contract s in
      index_page now contract cursor (src.get_events contract (cursor + 1)) s

  -- `process`: the exceptions of a contract are logged.
  unfoldable pub process : ℕ → Option ℕ → Option ℕ → Option ℕ → IndexStore → IndexStore
  process now loan reputation liquidity s =
      let s1 = (index_contract now loan s).1 in
      let s2 = (index_contract now reputation s1).1 in (index_contract now liquidity s2).1
