-- ===== src/Stellar/Retry.antt =====
-- StellarService.getTransaction and its retries (blockchain/stellar/stellar.service.ts). The request
-- is a parameter: what it does at each call. Delays between calls only take time.
use trust_up_api.Base.{
  ℕ, zero, suc, ◌+◌, leb, ltb, ◌==◌, ◌&&◌, ◌||◌, Bool, true, false, Option, none, some, List, [],
  ◌∷◌, Result, ok, err,
}

-- What the code reads of an error: whether it is a NotFoundError or a NetworkError of stellar-sdk,
-- the HTTP status, and the code points of its message in lower case.
pub record HorizonFault : Type 0 where
  pub is_not_found_class : Bool
  pub is_network_class : Bool
  pub status : Option ℕ
  pub message : List ℕ

pub data StellarError : Type 0 where
  transaction_not_found stellar_network_error : StellarError

abbrev pub max_retry_attempts : ℕ
max_retry_attempts = 3

-- `String.prototype.includes`
abbrev pub starts_with : List ℕ → List ℕ → Bool
starts_with [] text = true
starts_with (c ∷ word) [] = false
starts_with (c ∷ word) (d ∷ text) = (c == d) && starts_with word text

abbrev pub includes : List ℕ → List ℕ → Bool
includes word [] = starts_with word []
includes word (d ∷ text) = starts_with word (d ∷ text) || includes word text

abbrev pub has_status : (ℕ → Bool) → HorizonFault → Bool
has_status p e = elim e.status [ none ↦ false | some code ↦ p code ]

unfoldable pub is_not_found_error : HorizonFault → Bool
is_not_found_error e = e.is_not_found_class || has_status (λ code. code == 404) e

-- timeout, rate limit, throttl, temporar, network, econnreset, socket
abbrev pub transient_words : List (List ℕ)
transient_words =
    (b't' ∷ b'i' ∷ b'm' ∷ b'e' ∷ b'o' ∷ b'u' ∷ b't' ∷ [])
    ∷ (b'r' ∷ b'a' ∷ b't' ∷ b'e' ∷ b' ' ∷ b'l' ∷ b'i' ∷ b'm' ∷ b'i' ∷ b't' ∷ [])
    ∷ (b't' ∷ b'h' ∷ b'r' ∷ b'o' ∷ b't' ∷ b't' ∷ b'l' ∷ [])
    ∷ (b't' ∷ b'e' ∷ b'm' ∷ b'p' ∷ b'o' ∷ b'r' ∷ b'a' ∷ b'r' ∷ [])
    ∷ (b'n' ∷ b'e' ∷ b't' ∷ b'w' ∷ b'o' ∷ b'r' ∷ b'k' ∷ [])
    ∷ (b'e' ∷ b'c' ∷ b'o' ∷ b'n' ∷ b'n' ∷ b'r' ∷ b'e' ∷ b's' ∷ b'e' ∷ b't' ∷ [])
    ∷ (b's' ∷ b'o' ∷ b'c' ∷ b'k' ∷ b'e' ∷ b't' ∷ [])
    ∷ []

abbrev pub includes_any : List (List ℕ) → List ℕ → Bool
includes_any [] text = false
includes_any (word ∷ words) text = includes word text || includes_any words text

unfoldable pub is_transient_error : HorizonFault → Bool
is_transient_error e =
    e.is_network_class
    || (has_status (λ code. (code == 429) || leb 500 code) e
        || includes_any transient_words e.message)

module _ {A : Type 0} (call : ℕ → Result HorizonFault A) where
  -- The `while` loop, with fuel for its rounds: the result, and the number of calls made. The first
  -- clause is also the throw after the loop.
  unfoldable pub with_retry : ℕ → ℕ → Result StellarError A × ℕ
  with_retry zero attempt = (err StellarError.stellar_network_error, attempt)
  with_retry (suc left) attempt = elim (call attempt) [
    | ok a ↦ (ok a, attempt + 1)
    | err e ↦ elim (is_not_found_error e) [
      | true ↦ (err StellarError.transaction_not_found, attempt + 1)
      | false ↦ elim (is_transient_error e && ltb (attempt + 1) max_retry_attempts) [
        | true ↦ with_retry left (attempt + 1)
        | false ↦ (err StellarError.stellar_network_error, attempt + 1)
      ]
    ]
  ]

  unfoldable pub get_transaction : Result StellarError A × ℕ
  unfolding with_retry
  get_transaction = with_retry max_retry_attempts 0
