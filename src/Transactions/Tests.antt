-- ===== src/Transactions/Tests.antt =====
-- A submission and a query of its status, and the theorem of Settled at them.
use trust_up_api.Base.{
  ◌+◌, ◌==◌, ◌≡◌, refl, none, some, true, false, [], ◌∷◌, ok, err, reliable, steady, if◌then◌else◌,
}
use trust_up_api.StatusChecker.Defs.{Transaction, TransactionType, TransactionStatus, response}
use trust_up_api.StatusChecker.Metadata.{Decoded}
use trust_up_api.StatusChecker.Process.{CheckerSources, finalize_transaction}
use trust_up_api.Transactions.Defs.{
  ResultCode, HorizonTransaction, HorizonLookup, TransactionStatusResponse, TransactionStore,
  TransactionSources, TransactionError,
}
use trust_up_api.Transactions.Errors.{handle_horizon_error}
use trust_up_api.Transactions.Service.{
  SubmitTransactionRequest, pending_row, submit_transaction, persist_transaction_record,
  find_transaction_record, build_finalized_response, persist_finalized, answer_lookup,
  get_transaction_status,
}
use trust_up_api.Transactions.Settled.{get_transaction_status-settles}

abbrev confirmed : HorizonTransaction
confirmed = record { hash = 99; successful = true; details = 5; created_at = 300; result_xdr = 0 }

abbrev sources : TransactionSources
sources = record {
  transactions_table = reliable;
  cache_manager = steady;
  from_xdr = λ xdr. if xdr == 0 then none else some (xdr + 1);
  submit = λ t.
      if t == 4
      then ok 99
      else err (record {
        result_codes = some (some ResultCode.tx_failed, ResultCode.op_underfunded ∷ []);
        message = [];
      });
  get_transaction = λ hash. HorizonLookup.found confirmed;
  result_of_xdr = λ xdr. none;
  new_id = λ s. 1;
  text_of = λ message. 7;
}

abbrev request : SubmitTransactionRequest
request = record { xdr = 3; type = TransactionType.loan_repay }

abbrev nothing : TransactionStore
nothing = record {
  checker = record {
    transactions = [];
    repo = record { loans = []; changes = [] };
    notifications = [];
  };
  cache = [];
}

abbrev submitted : Transaction
submitted = pending_row 200 1 7 99 request

abbrev waiting : TransactionStore
waiting = record nothing { checker = record (nothing.checker) { transactions = submitted ∷ [] } }

submits :
    submit_transaction sources 200 7 request nothing
    ≡ (ok (record { transaction_hash = 99; status = TransactionStatus.pending }), waiting)
unfolding submit_transaction persist_transaction_record
submits = refl

rejects :
    submit_transaction sources 200 7 (record request { xdr = 5 }) nothing
    ≡ (err (TransactionError.stellar ResultCode.tx_failed), nothing)
unfolding submit_transaction persist_transaction_record handle_horizon_error
rejects = refl

abbrev final_response : TransactionStatusResponse
final_response = record {
  hash = 99;
  status = TransactionStatus.success;
  type = some TransactionType.loan_repay;
  result = some 5;
  error = none;
  submitted_at = some 200;
  confirmed_at = some 300;
  last_checked_at = 400;
}

abbrev queried : TransactionStore
queried = record {
  checker = record (nothing.checker) {
    transactions =
        record submitted { status = TransactionStatus.success; completed_at = some 300 } ∷ [];
  };
  cache = (99, final_response) ∷ [];
}

queries : get_transaction_status sources 400 99 waiting ≡ (ok final_response, queried)
unfolding get_transaction_status find_transaction_record answer_lookup build_finalized_response
    persist_finalized
queries = refl

abbrev checker_sources : CheckerSources
checker_sources = record {
  loan_sources = record { loans_table = reliable; queue_refuses = λ event. false };
  transactions_table = reliable;
  notifications_table = reliable;
  find_pending = λ rows. ok rows;
  get_transaction = λ hash. response (record { successful = some true; result_codes = none });
  from_xdr = λ xdr. Decoded.malformed;
}

get_transaction_status-settles_example :
    ((finalize_transaction checker_sources 500 submitted TransactionStatus.success none
        queried.checker).1
      ≡ queried.checker)
    × (queried.checker.repo ≡ nothing.checker.repo)
    × (queried.checker.notifications ≡ [])
unfolding get_transaction_status find_transaction_record answer_lookup build_finalized_response
    persist_finalized
get_transaction_status-settles_example =
    get_transaction_status-settles sources checker_sources (λ p f rows. refl) 400 500 99 confirmed
      submitted TransactionStatus.success none waiting final_response refl refl refl refl
