-- ===== src/Webhooks/Tests.antt =====
-- A merchant's endpoint, a status change and its delivery, and the theorems of the modules at them.
use trust_up_api.Base.{
  ◌+◌, ◌==◌, ◌≡◌, ◌≢◌, any, true, false, none, some, List, [], ◌∷◌, ok, err, refl, DbError,
  reliable, with_unique_key, Each, if◌then◌else◌,
}
use trust_up_api.Loans.Defs.{LoanStatus, LoanStatusChangeEvent}
use trust_up_api.Admin.Defs.{MerchantRow}
use trust_up_api.Webhooks.Defs.{
  EventName, WebhookEndpoint, DeliveryStatus, WebhookDelivery, WebhookJob, WebhookStore,
  WebhookSources, same_delivery, put_deliveries,
}
use trust_up_api.Webhooks.Dispatch.{
  max_occurrences, event_id_at, pending_delivery, ensure_from, ensure_delivery, enqueue_targets,
  enqueue_loan_status_change,
}
use trust_up_api.Webhooks.Delivery.{
  marked, request_of, mark, answered, send, send_to, deliver_found, deliver,
}
use trust_up_api.Webhooks.Endpoints.{
  UpdateWebhook, require_merchant, get_endpoint, owned_endpoint, write_endpoint, erase_endpoint,
  update_mine, delete_mine,
}
use trust_up_api.Webhooks.Occurrences.{HandsOut, ensure_delivery-HandsOut}
use trust_up_api.Webhooks.Attempts.{Tries, deliver-Tries}
use trust_up_api.Webhooks.Accepted.{deliver-once}
use trust_up_api.Webhooks.Queue.{Enqueues, enqueue_loan_status_change-Enqueues}
use trust_up_api.Webhooks.Owners.{Patches, Erases, update_mine-owned}

abbrev sources : WebhookSources
sources = record {
  merchants_table = reliable;
  endpoints_table = reliable;
  deliveries_table = with_unique_key same_delivery;
  new_id = λ s. 90;
  queue_refuses = λ j. false;
  post = λ r. if r.url == 8 then ok 204 else ok 500;
  is_http_message = λ m. false;
  sign_payload = λ secret body. secret + 1;
  generate_secret = λ s. 77;
}

abbrev shop : MerchantRow
shop = record { id = 5; wallet = 50; details = 0; is_active = true }

abbrev hook : WebhookEndpoint
hook = record {
  id = 3;
  merchant_id = 5;
  url = 8;
  secret = 77;
  events = EventName.loan_status_changed ∷ [];
  is_active = true;
  created_at = 1;
  updated_at = 1;
}

abbrev event : LoanStatusChangeEvent
event = record {
  loan_id = 42;
  merchant_id = some 5;
  user_wallet = 7;
  previous_status = LoanStatus.active;
  status = LoanStatus.defaulted;
}

-- The first occurrence was accepted.
abbrev first : WebhookDelivery
first = record (pending_delivery 80 3 100 event 0) { status = DeliveryStatus.success }

abbrev second : WebhookDelivery
second = pending_delivery 90 3 500 event 1

abbrev before : WebhookStore
before = record {
  merchants = shop ∷ [];
  endpoints = hook ∷ [];
  deliveries = first ∷ [];
  queue = [];
  sent = [];
}

abbrev job : WebhookJob
job = record { delivery_id = 90; endpoint_id = 3; event_id = event_id_at event 1 }

abbrev queued : WebhookStore
queued = record before { deliveries = first ∷ second ∷ []; queue = job ∷ [] }

enqueues : enqueue_loan_status_change sources 500 event before ≡ (ok tt, queued)
unfolding enqueue_loan_status_change enqueue_targets ensure_delivery ensure_from
enqueues = refl

refuses :
    (r : WebhookDelivery) (rows : List WebhookDelivery)
    → any (same_delivery r) rows ≡ true
    → sources.deliveries_table.insert r rows ≡ err DbError.unique_violation
refuses r rows known = rw known refl

ensure_delivery-HandsOut_example :
    HandsOut 500 event 3 0 max_occurrences before
      (some (90, event_id_at event 1), put_deliveries before (first ∷ second ∷ []))
unfolding ensure_delivery ensure_from
ensure_delivery-HandsOut_example = ensure_delivery-HandsOut 500 event 3 sources refuses before

enqueue_loan_status_change-Enqueues_example : Enqueues (some 5) before queued
unfolding enqueue_loan_status_change enqueue_targets ensure_delivery ensure_from
enqueue_loan_status_change-Enqueues_example =
    enqueue_loan_status_change-Enqueues sources 500 event refuses before

abbrev accepted : WebhookStore
accepted = record queued {
  deliveries = first ∷ marked 600 1 DeliveryStatus.success (some 204) none second ∷ [];
  sent = request_of sources 600 second hook ∷ [];
}

delivers : deliver sources 600 job 0 queued ≡ (ok tt, accepted)
unfolding deliver deliver_found send_to send answered mark
delivers = refl

deliver-Tries_example :
    Each (Tries sources 600 job 0 queued) (first ∷ second ∷ []) accepted.deliveries
unfolding deliver deliver_found send_to send answered mark
deliver-Tries_example = deliver-Tries sources 600 job 0 queued

sends : request_of sources 600 second hook ∷ [] ≢ []
sends e = cc

deliver-once_example : (deliver sources 700 job 1 accepted).1 ≡ accepted
unfolding deliver deliver_found send_to send answered mark
deliver-once_example =
    deliver-once sources (λ p f rows. refl) 600 700 job job 0 1 queued refl refl sends

abbrev pause : UpdateWebhook
pause = record { url = none; events = none; is_active = some false }

update_mine-owned_example :
    Each
      (Patches sources before 50 3)
      (hook ∷ [])
      (record hook { is_active = false; updated_at = 900 } ∷ [])
    × Erases sources before 50 3 (record before { endpoints = [] })
unfolding update_mine delete_mine owned_endpoint require_merchant get_endpoint write_endpoint
    erase_endpoint
update_mine-owned_example = update_mine-owned sources before 900 50 3 pause
