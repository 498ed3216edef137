-- ===== src/Indexer/Cursor.antt =====
-- The cursor of a contract moves forward only, to the ledger of an event of the page.
use trust_up_api.Base.{
  ℕ, ◌≤◌, ◌≡◌, ◌==◌, ==_refl, ltb, any, none, some, Bool, true, false, List, [], ◌∷◌, Result, ok,
  err, refl, ◌⊎◌, inl, inr, arith, change, All, Bool-cases,
}
use trust_up_api.Indexer.Defs.{
  ParsedContractEvent, Payload, Parsing, parse_error, unrecognised, parsed, IndexerCursor,
  IndexStore, IndexSources, IndexError,
}
use trust_up_api.Indexer.Persist.{
  persist_event, persist_payload, persist_loan_created, persist_loan_repaid, persist_loan_defaulted,
  persist_score_changed, persist_liquidity_deposited,
}
use trust_up_api.Indexer.Process.{later, counted, index_parsed, index_events}

abbrev pub is_of : ℕ → IndexerCursor → Bool
is_of contract c = c.contract_id == contract

abbrev pub IsAt : ℕ → ℕ → IndexerCursor → Type 0
IsAt contract ledger c = (is_of contract c ≡ false) ⊎ (c.last_ledger ≡ ledger)

abbrev pub is_at_ledger : ℕ → Parsing → Bool
is_at_ledger ledger (parsed e) = e.ledger_sequence == ledger
is_at_ledger ledger _ = false

pub moved-IsAt :
    (now contract ledger : ℕ) (rows : List IndexerCursor)
    → All
        (IsAt contract ledger)
        (change (is_of contract) (λ c. record c { last_ledger = ledger; updated_at = now }) rows)
moved-IsAt now contract ledger [] = tt
moved-IsAt now contract ledger (c ∷ rows) = elim (Bool-cases (is_of contract c)) [
  | inl hit ↦ rw hit (inr refl, moved-IsAt now contract ledger rows)
  | inr miss ↦ rw miss (inl miss, moved-IsAt now contract ledger rows)
]

pub absent-IsAt :
    (contract ledger : ℕ) (rows : List IndexerCursor)
    → any (is_of contract) rows ≡ false
    → All (IsAt contract ledger) rows
absent-IsAt contract ledger [] e = tt
absent-IsAt contract ledger (c ∷ rows) e =
    (inl (ground arith), absent-IsAt contract ledger rows (ground arith))

later-ledger :
    (ledger max_ledger : ℕ)
    → let next = later ledger max_ledger in
      (max_ledger ≤ next) × ((next ≡ max_ledger) ⊎ ((ledger == next) ≡ true))
later-ledger ledger max_ledger = (
  ground arith,
  elim (Bool-cases (ltb max_ledger ledger)) [
    | inl higher ↦ inr (rw higher (==_refl ledger))
    | inr lower ↦ inl (ground arith)
  ],
)

counted-ledger :
    (ledger max_ledger : ℕ) (r : Result IndexError (Unit {0})) (s : IndexStore)
    → let next = (counted ledger max_ledger r s).0 in
      (max_ledger ≤ next) × ((next ≡ max_ledger) ⊎ ((ledger == next) ≡ true))
counted-ledger ledger max_ledger (ok _) s = later-ledger ledger max_ledger
counted-ledger ledger max_ledger (err _) s = (omega arith, inl refl)

module _ (src : IndexSources) where
  persist_payload-keeps_cursors :
      (now : ℕ) (e : ParsedContractEvent) (p : Payload) (s : IndexStore)
      → (persist_payload src now e p s).1.cursors ≡ s.cursors
  unfolding persist_loan_created persist_loan_repaid persist_loan_defaulted persist_score_changed
      persist_liquidity_deposited
  persist_payload-keeps_cursors now e (Payload.loan_created p) s = ground arith
  persist_payload-keeps_cursors now e (Payload.loan_repaid p) s = ground arith
  persist_payload-keeps_cursors now e (Payload.loan_defaulted loan_id) s = ground arith
  persist_payload-keeps_cursors now e (Payload.score_changed p) s = ground arith
  persist_payload-keeps_cursors now e (Payload.liquidity_deposited none) s = refl
  persist_payload-keeps_cursors now e (Payload.liquidity_deposited (some w)) s = ground arith
  persist_payload-keeps_cursors now e Payload.liquidity_withdrawn s = refl

  index_parsed-keeps_cursors :
      (now : ℕ) (p : Parsing) (max_ledger : ℕ) (s : IndexStore)
      → (index_parsed src now p max_ledger s).1.cursors ≡ s.cursors
  unfolding persist_event
  index_parsed-keeps_cursors now parse_error max_ledger s = refl
  index_parsed-keeps_cursors now unrecognised max_ledger s = refl
  index_parsed-keeps_cursors now (parsed e) max_ledger s =
      ground (arith, persist_payload-keeps_cursors now e e.payload s)

  -- The highest ledger is the one before the page, or that of an event of the page.
  index_parsed-ledger :
      (now : ℕ) (p : Parsing) (max_ledger : ℕ) (s : IndexStore)
      → let ledger = (index_parsed src now p max_ledger s).0 in
        (max_ledger ≤ ledger) × ((ledger ≡ max_ledger) ⊎ (is_at_ledger ledger p ≡ true))
  index_parsed-ledger now parse_error max_ledger s = (omega arith, inl refl)
  index_parsed-ledger now unrecognised max_ledger s = (omega arith, inl refl)
  index_parsed-ledger now (parsed e) max_ledger s =
      let done = persist_event src now e s in
      counted-ledger e.ledger_sequence max_ledger done.0 done.1

  pub index_events-ledger :
      (now : ℕ) (raws : List ℕ) (max_ledger : ℕ) (s : IndexStore)
      → let after = index_events src now raws max_ledger s in
        (max_ledger ≤ after.0)
        × ((after.0 ≡ max_ledger)
            ⊎ (any (λ raw. is_at_ledger after.0 (src.parse_event raw)) raws ≡ true))
        × (after.1.cursors ≡ s.cursors)
  unfolding index_events
  index_events-ledger now [] max_ledger s = (omega arith, inl refl, refl)
  index_events-ledger now (raw ∷ rest) max_ledger s =
      let p = src.parse_event raw in
      let step = index_parsed src now p max_ledger s in
      let ih = index_events-ledger now rest step.0 step.1 in
      let here = index_parsed-ledger now p max_ledger s in
      let kept = index_parsed-keeps_cursors now p max_ledger s in
      (
        ground (arith, ih, here),
        elim ih.1 [
          | inl same ↦ elim here.1 [
            | inl still ↦ inl (ground (arith, same, still))
            | inr at ↦ inr (rw same (rw at refl))
          ]
          | inr found ↦ inr (ground (arith, found))
        ],
        ground (arith, ih, kept),
      )
