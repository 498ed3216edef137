-- ===== src/StatusChecker/Evolution.antt =====
-- What a run of the checker may do to the transactions: it settles pending ones, and nothing else.
use trust_up_api.Base.{
  ℕ, ◌≡◌, refl, ◌⊎◌, inl, inr, Option, Bool, true, false, List, [], ◌∷◌, arith, ◌>>=◌, Each,
  Each-refl, Each-trans, Each-change,
}
use trust_up_api.StatusChecker.Defs.{
  Transaction, TransactionStatus, is_pending, CheckerStore, Lookup, response, transaction_not_found,
  lookup_failed,
}
use trust_up_api.StatusChecker.Process.{
  CheckerSources, is_pending_hash, write_settled, finalize_transaction, process_transaction,
  process_all, settled, is_true, status_of_lookup, act_on,
}
use trust_up_api.StatusChecker.Once.{finalize_transaction-writes}

-- The transaction as it was, or a write to one that was pending.
abbrev pub Settles : Transaction → Transaction → Type 0
Settles t u =
    (u ≡ t)
    ⊎ ((is_pending t.status ≡ true)
        × (is_pending u.status ≡ false)
        × (u.transaction_hash ≡ t.transaction_hash)
        × (u.user_wallet ≡ t.user_wallet))

Settles-trans : (t u v : Transaction) → Settles t u → Settles u v → Settles t v
Settles-trans t u v (inl e) (inl f) = inl (ground arith)
Settles-trans t u v (inl e) (inr f) = inr (ground arith, ground arith, ground arith, ground arith)
Settles-trans t u v (inr e) (inl f) = inr (ground arith, ground arith, ground arith, ground arith)
Settles-trans t u v (inr e) (inr f) = inr (ground arith, ground arith, ground arith, ground arith)

abbrev pub Evolves : List Transaction → List Transaction → Type 0
Evolves ts us = Each Settles ts us

Evolves-refl : (ts : List Transaction) → Evolves ts ts
Evolves-refl ts = Each-refl Settles (λ t. inl refl) ts

settled_final : (b : Bool) → is_pending (settled b) ≡ false
settled_final true = refl
settled_final false = refl

module _ (src : CheckerSources) where
  finalize_transaction-Evolves :
      (now : ℕ) (t : Transaction) (status : TransactionStatus) (error : Option ℕ) (s : CheckerStore)
      → is_pending status ≡ false
      → Evolves s.transactions (finalize_transaction src now t status error s).1.transactions
  finalize_transaction-Evolves now t status error s final =
      elim (finalize_transaction-writes src now t status error s) [
        | inl same ↦ rw same (Evolves-refl s.transactions)
        | inr (row, only, written) ↦ rw written (
            Each-change Settles (is_pending_hash t.transaction_hash)
              (write_settled now status error) (λ x hit. inr (ground arith, final, refl, refl))
              (λ x. inl refl) s.transactions)
      ]

  act_on_lookup-Evolves :
      (now : ℕ) (t : Transaction) (looked : Lookup) (s : CheckerStore)
      → Evolves s.transactions ((status_of_lookup looked >>= act_on src now t) s).1.transactions
  act_on_lookup-Evolves now t (response r) s =
      finalize_transaction-Evolves now t (settled (is_true r.successful)) r.result_codes s
        (settled_final (is_true r.successful))
  act_on_lookup-Evolves now t transaction_not_found s = Evolves-refl s.transactions
  act_on_lookup-Evolves now t lookup_failed s = Evolves-refl s.transactions

  -- However the lookups and the database answer, a round over any list of transactions leaves every
  -- stored transaction as it was or takes a pending one to a final status; none is added or lost.
  pub process_all-Evolves :
      (now : ℕ) (ts : List Transaction) (s : CheckerStore)
      → Evolves s.transactions (process_all src now ts s).transactions
  unfolding process_all process_transaction
  process_all-Evolves now [] s = Evolves-refl s.transactions
  process_all-Evolves now (t ∷ ts) s =
      Each-trans Settles Settles-trans s.transactions (process_transaction src now t s).transactions
        _ (act_on_lookup-Evolves now t (src.get_transaction t.transaction_hash) s)
        (process_all-Evolves now ts (process_transaction src now t s))
