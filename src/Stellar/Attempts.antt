-- ===== src/Stellar/Attempts.antt =====
-- Which requests are retried, how often, and what comes of them.
use trust_up_api.Base.{
  ℕ, zero, suc, ◌+◌, ◌≡◌, ◌≤◌, ◌<◌, leb, ltb, ◌==◌, ◌&&◌, refl, inl, inr, ◌⊎◌, Bool-cases,
  Result-cases, Bool, true, false, Result, ok, err, arith,
}
use trust_up_api.Stellar.Retry.{
  HorizonFault, StellarError, max_retry_attempts, is_not_found_error, is_transient_error,
  with_retry, get_transaction,
}

module _ {A : Type 0} (call : ℕ → Result HorizonFault A) where
  -- A call that is followed by another one.
  abbrev pub IsRetried : ℕ → Type 0
  IsRetried i =
      (e : HorizonFault) × (call i ≡ err e)
      × (is_not_found_error e ≡ false)
      × (is_transient_error e ≡ true)

  -- The result of the call that is the last one.
  abbrev pub Answers : Result HorizonFault A → Bool → Result StellarError A → Type 0
  Answers (ok a) exhausted r = r ≡ ok a
  Answers (err e) exhausted r =
      ((is_not_found_error e ≡ true) × (r ≡ err StellarError.transaction_not_found))
      ⊎ ((is_not_found_error e ≡ false)
          × ((is_transient_error e ≡ false) ⊎ (exhausted ≡ true))
          × (r ≡ err StellarError.stellar_network_error))

  abbrev pub Retries : ℕ → ℕ → Result StellarError A × ℕ → Type 0
  Retries bound attempt (r, calls) =
      (last : ℕ) × (calls ≡ last + 1)
      × (attempt ≤ last)
      × (last < bound)
      × ((i : ℕ) → attempt ≤ i → i < last → IsRetried i)
      × Answers (call last) (leb bound (last + 1)) r

  earlier :
      (attempt last : ℕ)
      → IsRetried attempt
      → ((i : ℕ) → attempt + 1 ≤ i → i < last → IsRetried i)
      → (i : ℕ) → attempt ≤ i
      → i < last
      → IsRetried i
  earlier attempt last here later i h k = elim (Bool-cases (i == attempt)) [
    | inl same ↦ let e : i ≡ attempt = ground arith in rw e here
    | inr other ↦ later i (ground arith) k
  ]

  retry_once :
      (bound attempt : ℕ) (r : Result StellarError A × ℕ)
      → IsRetried attempt
      → Retries bound (attempt + 1) r
      → Retries bound attempt r
  retry_once bound attempt (r, calls) here (last, count, from, below, all, answer) =
      (last, count, omega arith, below, earlier attempt last here all, answer)

  no_more :
      (fault : HorizonFault) (attempt : ℕ)
      → is_transient_error fault && ltb (attempt + 1) max_retry_attempts ≡ false
      → (is_transient_error fault ≡ false) ⊎ (leb max_retry_attempts (attempt + 1) ≡ true)
  no_more fault attempt last = elim (Bool-cases (is_transient_error fault)) [
    | inr lasting ↦ inl lasting
    | inl transient ↦ inr (ground arith)
  ]

  with_retry-Retries :
      (left attempt : ℕ)
      → left + attempt ≡ max_retry_attempts
      → 0 < left
      → Retries max_retry_attempts attempt (with_retry call left attempt)
  unfolding with_retry
  with_retry-Retries zero attempt e h = absurd (omega arith)
  with_retry-Retries (suc left) attempt e h = elim (Result-cases (call attempt)) [
    | inr (a, done) ↦
        rw (done, with_retry)
          (attempt, refl, omega arith, omega arith, λ i k l. absurd (omega arith), rw done refl)
    | inl (fault, failed) ↦
        rw (failed, with_retry)
          (elim (Bool-cases (is_not_found_error fault)) [
            | inl missing ↦ rw missing (
              attempt,
              refl,
              omega arith,
              omega arith,
              λ i k l. absurd (omega arith),
              rw failed (inl (missing, refl)),
            )
            | inr other ↦
                rw other
                  (elim (Bool-cases
                    (is_transient_error fault && ltb (attempt + 1) max_retry_attempts)) [
                      | inl again ↦ rw again (
                          retry_once max_retry_attempts attempt (with_retry call left (attempt + 1))
                            (fault, failed, other, ground arith)
                            (with_retry-Retries left (attempt + 1) (omega arith) (ground arith)))
                      | inr last ↦ rw last (
                        attempt,
                        refl,
                        omega arith,
                        omega arith,
                        λ i k l. absurd (omega arith),
                        rw failed (inr (other, no_more fault attempt last, refl)),
                      )
                    ])
          ])
  ]

  -- A lookup of a transaction makes between one and three calls. Each call before the last failed
  -- with a transient error other than a missing transaction; the answer is that of the last call, a
  -- missing transaction is one, and another error is a network error, only if it is not transient or
  -- the third.
  pub get_transaction-Retries : Retries max_retry_attempts 0 (get_transaction call)
  unfolding get_transaction
  get_transaction-Retries = with_retry-Retries max_retry_attempts 0 (omega arith) (omega arith)
