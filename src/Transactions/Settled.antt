-- ===== src/Transactions/Settled.antt =====
-- What a query of the status leaves for the status checker.
use trust_up_api.Base.{
  ℕ, ◌≡◌, refl, sym, ap, subst, bind-ok, after_step, pure, ◌>>◌, ◌∙◌, inl, inr, ==_iff,
  Result-cases, Bool, true, false, Option, none, some, List, [], ◌∷◌, keep, keep-one_passes, change,
  Result, ok, DbError, maybe_single-some, maybe_single-none, arith,
}
use trust_up_api.StatusChecker.Defs.{TransactionStatus, Transaction, is_pending}
use trust_up_api.StatusChecker.Process.{CheckerSources, is_pending_hash, finalize_transaction}
use trust_up_api.StatusChecker.Once.{finalize_transaction_of_nil}
use trust_up_api.Transactions.Defs.{
  HorizonTransaction, HorizonLookup, TransactionStatusResponse, TransactionStore,
  TransactionSources, Transactions, put_cache,
}
use trust_up_api.Transactions.Service.{
  has_hash, status_of, find_transaction_record, build_finalized_response, persist_finalized,
  answer_lookup, get_transaction_status, cache_response, look_up,
}

not_pending : (b : Bool) → is_pending (status_of b) ≡ false
not_pending true = refl
not_pending false = refl

none_pending :
    (hash : ℕ) (f : Transaction → Transaction) (rows : List Transaction)
    → ((t : Transaction) → is_pending (f t).status ≡ false)
    → keep (is_pending_hash hash) (change (has_hash hash) f rows) ≡ []
none_pending hash f [] h = refl
none_pending hash f (t ∷ rows) h = ground (arith, h t, none_pending hash f rows)

none_of_hash :
    (hash : ℕ) (rows : List Transaction)
    → keep (has_hash hash) rows ≡ []
    → keep (is_pending_hash hash) rows ≡ []
none_of_hash hash [] h = refl
none_of_hash hash (t ∷ rows) h = ground (arith, none_of_hash hash rows)

module _ (src : TransactionSources)
    (answers : (p : Transaction → Bool) (f : Transaction → Transaction) (rows : List Transaction)
      → src.transactions_table.update p f rows ≡ ok (change p f rows))
    (now hash : ℕ) where
  -- No row of the hash waits for the status checker, and the loans are as they were.
  abbrev pub IsOver : TransactionStore → TransactionStore → Type 0
  IsOver s t =
      (keep (is_pending_hash hash) t.checker.transactions ≡ [])
      × (t.checker.repo ≡ s.checker.repo)
      × (t.checker.notifications ≡ s.checker.notifications)

  persist_finalized-IsOver :
      (t : HorizonTransaction) (found : Result DbError (Option Transaction)) (s : TransactionStore)
      (record_of : Option Transaction)
      → src.transactions_table.maybe_single (has_hash hash) s.checker.transactions ≡ found
      → found ≡ ok record_of
      → IsOver s
          (persist_finalized src now record_of (build_finalized_response src now t record_of) s).1
  unfolding persist_finalized build_finalized_response
  persist_finalized-IsOver t found s none e f = (
    none_of_hash hash s.checker.transactions
        (maybe_single-none src.transactions_table (has_hash hash) s.checker.transactions (e ∙ f)),
    refl,
    refl,
  )
  persist_finalized-IsOver t found s (some row) e f =
      let rows = s.checker.transactions in
      let only = maybe_single-some src.transactions_table (has_hash hash) rows row (e ∙ f) in
      let named : row.transaction_hash ≡ hash =
        (==_iff row.transaction_hash hash).0 (keep-one_passes (has_hash hash) rows only) in
      rw (answers (has_hash row.transaction_hash) _ rows, named)
        (none_pending hash _ rows (λ x. not_pending t.successful), refl, refl)

  answer_lookup-IsOver :
      (t : HorizonTransaction) (s : TransactionStore) (record_of : Option Transaction)
      (r : TransactionStatusResponse)
      → src.transactions_table.maybe_single (has_hash hash) s.checker.transactions ≡ ok record_of
      → (answer_lookup src now hash record_of (HorizonLookup.found t) s).0 ≡ ok r
      → IsOver s (answer_lookup src now hash record_of (HorizonLookup.found t) s).1
  unfolding answer_lookup
  answer_lookup-IsOver t s record_of r e h =
      let answer = build_finalized_response src now t record_of in
      elim (Result-cases (src.cache_manager.set hash answer s.cache)) [
        | inl (x, f) ↦ absurd (ground arith)
        | inr (entries, f) ↦
            let cached = put_cache s entries in
            let persist = persist_finalized src now record_of answer in
            let rest : Transactions TransactionStatusResponse = persist >> pure answer in
            let over : IsOver s (persist cached).1 =
              persist_finalized-IsOver t _ cached record_of e refl in
            let stored : cache_response src now hash answer s ≡ (ok tt, cached) =
              rw (f, cache_response) refl in
            subst (λ r. IsOver s r.1)
              (sym (bind-ok (cache_response src now hash answer) (λ _. rest) s cached tt stored))
              (after_step (IsOver s) persist (λ _. pure answer) cached (λ _ _. over) over)
      ]

  look_up-IsOver :
      (t : HorizonTransaction) (s : TransactionStore) (r : TransactionStatusResponse)
      → src.get_transaction hash ≡ HorizonLookup.found t
      → (look_up src now hash s).0 ≡ ok r
      → IsOver s (look_up src now hash s).1
  unfolding find_transaction_record
  look_up-IsOver t s r e h =
      elim (Result-cases
        (src.transactions_table.maybe_single (has_hash hash) s.checker.transactions)) [
          | inl (x, f) ↦ absurd (ground arith)
          | inr (record_of, f) ↦
              let found : find_transaction_record src now hash s ≡ (ok record_of, s) = rw f refl in
              let next = λ (o : Option Transaction).
                answer_lookup src now hash o (src.get_transaction hash) in
              let same = bind-ok (find_transaction_record src now hash) next s s record_of found in
              let same_result = ap (λ q. q.0) (sym same) ∙ h in
              subst (λ q. IsOver s q.1) (sym same)
                (rw e (answer_lookup-IsOver t s record_of r f (rw e at same_result)))
        ]

-- Where updates of transactions are answered: after a query of the status that was not answered from
-- the cache, returned, and found the transaction in Horizon, no settling of this hash by the status
-- checker, at any time and with any outcome, changes anything; and the query itself left loans and
-- notifications as they were. So the loan is not activated or repaid and nobody is notified.
pub get_transaction_status-settles :
    (src : TransactionSources) (checker : CheckerSources)
    (answers : (p : Transaction → Bool) (f : Transaction → Transaction) (rows : List Transaction)
      → src.transactions_table.update p f rows ≡ ok (change p f rows))
    (now later hash : ℕ) (t : HorizonTransaction) (u : Transaction) (status : TransactionStatus)
    (error : Option ℕ) (s : TransactionStore) (r : TransactionStatusResponse)
    → src.cache_manager.get hash s.cache ≡ ok none
    → src.get_transaction hash ≡ HorizonLookup.found t
    → (get_transaction_status src now hash s).0 ≡ ok r
    → u.transaction_hash ≡ hash
    → let s' = (get_transaction_status src now hash s).1.checker in
      ((finalize_transaction checker later u status error s').1 ≡ s')
      × (s'.repo ≡ s.checker.repo)
      × (s'.notifications ≡ s.checker.notifications)
unfolding get_transaction_status
get_transaction_status-settles src checker answers now later hash t u status error s r miss found h
      same =
    let over = look_up-IsOver src answers now hash t s r found (rw miss at h) in
    rw miss
      (finalize_transaction_of_nil checker later u status error _ (rw same over.0), over.1, over.2)
