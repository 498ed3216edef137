-- ===== src/Stellar/Tests.antt =====
-- A lookup that succeeds at its third call.
use trust_up_api.Base.{ℕ, ◌+◌, ◌≡◌, refl, false, some, [], Result, ok, err, ltb, if◌then◌else◌}
use trust_up_api.Stellar.Retry.{
  HorizonFault, max_retry_attempts, is_not_found_error, is_transient_error, with_retry,
  get_transaction,
}
use trust_up_api.Stellar.Attempts.{Retries, get_transaction-Retries}

abbrev overloaded : HorizonFault
overloaded = record {
  is_not_found_class = false;
  is_network_class = false;
  status = some 503;
  message = [];
}

abbrev third_time : ℕ → Result HorizonFault ℕ
third_time i = if ltb i 2 then err overloaded else ok (i + 5)

succeeds : get_transaction third_time ≡ (ok 7, 3)
unfolding get_transaction with_retry is_not_found_error is_transient_error
succeeds = refl

get_transaction-Retries_example : Retries third_time max_retry_attempts 0 (ok 7, 3)
unfolding get_transaction with_retry is_not_found_error is_transient_error
get_transaction-Retries_example = get_transaction-Retries third_time
