-- ===== src/Indexer/Advance.antt =====
-- The cursor of a contract, before and after a run on it.
use trust_up_api.Base.{
  ℕ, ap, ◌∙◌, ◌+◌, ◌<◌, ◌≡◌, ltb, not, any, some, true, List, [], ◌∷◌, ◌++◌, ok, refl, ◌⊎◌, inl,
  inr, arith, keep, change, All, All-append, Result-cases, Bool-cases, upsert-ok, ==_refl,
}
use trust_up_api.Indexer.Defs.{IndexerCursor, IndexStore, IndexSources}
use trust_up_api.Indexer.Process.{get_cursor, update_cursor, index_events, index_contract}
use trust_up_api.Indexer.Cursor.{
  is_of, IsAt, is_at_ledger, moved-IsAt, absent-IsAt, index_events-ledger,
}

abbrev pub others : ℕ → List IndexerCursor → List IndexerCursor
others contract rows = keep (λ c. not (is_of contract c)) rows

moved-others :
    (now contract ledger : ℕ) (rows : List IndexerCursor)
    → others contract
        (change (is_of contract) (λ c. record c { last_ledger = ledger; updated_at = now }) rows)
      ≡ others contract rows
moved-others now contract ledger [] = refl
moved-others now contract ledger (c ∷ rows) = ground (arith, moved-others now contract ledger rows)

added-others :
    (now contract ledger : ℕ) (rows : List IndexerCursor)
    → others contract
        (rows ++ record { contract_id = contract; last_ledger = ledger; updated_at = now } ∷ [])
      ≡ others contract rows
added-others now contract ledger [] = ground (arith, ==_refl contract)
added-others now contract ledger (c ∷ rows) = ground (arith, added-others now contract ledger rows)

-- The contract's cursor is at a ledger, and the other cursors are as before.
abbrev pub MovesTo : ℕ → ℕ → List IndexerCursor → List IndexerCursor → Type 0
MovesTo contract ledger before after =
    All (IsAt contract ledger) after × (others contract after ≡ others contract before)

module _ (src : IndexSources) where
  update_cursor-MovesTo :
      (now contract ledger : ℕ) (s : IndexStore)
      → let s' = (update_cursor src now contract ledger s).1 in
        (s'.cursors ≡ s.cursors) ⊎ MovesTo contract ledger s.cursors s'.cursors
  unfolding update_cursor
  update_cursor-MovesTo now contract ledger s =
      let p = is_of contract in
      let new : IndexerCursor = record {
        contract_id = contract;
        last_ledger = ledger;
        updated_at = now;
      } in
      let f : IndexerCursor → IndexerCursor =
        λ c. record c { last_ledger = ledger; updated_at = now } in
      elim (Result-cases (src.cursors_table.upsert p new f s.cursors)) [
        | inl (x, failed) ↦ inl (rw failed refl)
        | inr ((c, rows), done) ↦
            let law = upsert-ok src.cursors_table p new f s.cursors rows c done in
            elim (Bool-cases (any p s.cursors)) [
              | inl known ↦
                  let after : rows ≡ change p f s.cursors = ground (arith, law, known) in
                  inr (
                    rw (done, after)
                      (
                        moved-IsAt now contract ledger s.cursors,
                        moved-others now contract ledger s.cursors,
                      ))
              | inr fresh ↦
                  let after : rows ≡ s.cursors ++ new ∷ [] = ground (arith, law, fresh) in
                  inr (
                    rw (done, after)
                      (
                        All-append (IsAt contract ledger) s.cursors (new ∷ [])
                            (absent-IsAt contract ledger s.cursors fresh) (inr refl, tt),
                        added-others now contract ledger s.cursors,
                      ))
            ]
      ]

  -- A run on a contract leaves its cursor, or moves it forward from where it was read to the ledger
  -- of an event of the page; the cursors of other contracts stay.
  pub index_contract-MovesTo :
      (now contract : ℕ) (s : IndexStore)
      → let s' = (index_contract src now (some contract) s).1 in
        let cursor = get_cursor src contract s in
        (s'.cursors ≡ s.cursors)
        ⊎ ((ledger : ℕ) × (raws : List ℕ) × (cursor < ledger)
            × (src.get_events contract (cursor + 1) ≡ ok raws)
            × (any (λ raw. is_at_ledger ledger (src.parse_event raw)) raws ≡ true)
            × MovesTo contract ledger s.cursors s'.cursors)
  unfolding index_contract
  index_contract-MovesTo now contract s =
      let cursor : ℕ = get_cursor src contract s in
      elim (Result-cases (src.get_events contract (cursor + 1))) [
        | inl (x, failed) ↦ inl (rw failed refl)
        | inr (raws, page) ↦
            let done = index_events src now raws cursor s in
            let seen = index_events-ledger src now raws cursor s in
            elim (Bool-cases (ltb cursor done.0)) [
              | inl higher ↦
                  rw (page, higher)
                    (elim (update_cursor-MovesTo now contract done.0 done.1) [
                      | inl kept ↦ inl (ground (arith, kept, seen))
                      | inr moved ↦ inr (
                        done.0,
                        raws,
                        ground arith,
                        refl,
                        elim seen.1 [ inl still ↦ absurd (ground arith) | inr at ↦ at ],
                        (moved.0, moved.1 ∙ ap (others contract) seen.2),
                      )
                    ])
              | inr same ↦ inl (rw page (rw same seen.2))
            ]
      ]
