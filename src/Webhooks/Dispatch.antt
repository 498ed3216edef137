-- ===== src/Webhooks/Dispatch.antt =====
-- WebhookDispatchService (jobs/webhook-delivery/webhook-dispatch.service.ts).
use trust_up_api.Base.{
  ℕ, zero, suc, ◌+◌, ◌==◌, ◌&&◌, Bool, true, false, Option, none, some, List, [], ◌∷◌, ◌++◌, any,
  keep, Result, ok, err, DbError, ◌>>◌, pure, if◌then◌else◌,
}
use trust_up_api.Loans.Defs.{same_status, LoanStatusChangeEvent}
use trust_up_api.Webhooks.Defs.{
  EventName, is_loan_status_changed, WebhookEndpoint, EventId, DeliveryStatus, is_success,
  WebhookDelivery, WebhookJob, WebhookStore, WebhookSources, WebhookError, Webhooks, put_deliveries,
  is_delivery_of,
}

abbrev pub max_occurrences : ℕ
max_occurrences = 1000

abbrev pub event_id_at : LoanStatusChangeEvent → ℕ → EventId
event_id_at event sequence = record {
  loan_id = event.loan_id;
  previous_status = event.previous_status;
  status = event.status;
  sequence = sequence;
}

abbrev pub pending_delivery : ℕ → ℕ → ℕ → LoanStatusChangeEvent → ℕ → WebhookDelivery
pending_delivery id endpoint_id occurred_at event sequence = record {
  id = id;
  endpoint_id = endpoint_id;
  event_id = event_id_at event sequence;
  event = EventName.loan_status_changed;
  payload = record {
    event = EventName.loan_status_changed;
    event_id = event_id_at event sequence;
    occurred_at = occurred_at;
    change = event;
  };
  status = DeliveryStatus.pending;
  attempts = 0;
  response_code = none;
  last_error = none;
  updated_at = occurred_at;
}

-- `.eq('merchant_id', …).eq('is_active', true)`
abbrev pub is_endpoint_of : ℕ → WebhookEndpoint → Bool
is_endpoint_of merchant_id e = (e.merchant_id == merchant_id) && e.is_active

abbrev pub is_subscribed : WebhookEndpoint → Bool
is_subscribed e = any is_loan_status_changed e.events

-- A delivery with the identifier of its event
abbrev pub Handle : Type 0
Handle = ℕ × EventId

module _ (src : WebhookSources) (occurred_at : ℕ) (event : LoanStatusChangeEvent) where
  -- The rounds of the loop that are left, and the sequence that it is at.
  unfoldable pub ensure_from : ℕ → ℕ → ℕ → WebhookStore → Option Handle × WebhookStore
  ensure_from endpoint zero sequence s = (none, s)
  ensure_from endpoint (suc left) sequence s =
      let row = pending_delivery (src.new_id s) endpoint occurred_at event sequence in
      let event_id = event_id_at event sequence in
      elim (src.deliveries_table.insert row s.deliveries) [
        | ok rows ↦ (some (row.id, event_id), put_deliveries s rows)
        | err DbError.other_error ↦ (none, s)
        | err DbError.unique_violation ↦
            elim (src.deliveries_table.maybe_single (is_delivery_of endpoint event_id)
              s.deliveries) [
                | err _ ↦ (none, s)
                | ok none ↦ (none, s)
                | ok (some d) ↦ elim (is_success d.status) [
                  | true ↦ ensure_from endpoint left (sequence + 1) s
                  | false ↦ (some (d.id, event_id), s)
                ]
              ]
      ]

  unfoldable pub ensure_delivery : ℕ → WebhookStore → Option Handle × WebhookStore
  unfolding ensure_from
  ensure_delivery endpoint s = ensure_from endpoint max_occurrences 0 s

  abbrev pub add_job : WebhookJob → Webhooks (Unit {0})
  add_job job s =
      if src.queue_refuses job
      then (err WebhookError.queue_error, s)
      else (ok tt, record s { queue = s.queue ++ job ∷ [] })

  -- `if (!result) continue;`
  abbrev pub add_if : ℕ → Option Handle → Webhooks (Unit {0})
  add_if endpoint none = pure tt
  add_if endpoint (some (id, event_id)) =
      add_job (record { delivery_id = id; endpoint_id = endpoint; event_id = event_id })

  unfoldable pub enqueue_targets : List WebhookEndpoint → Webhooks (Unit {0})
  enqueue_targets [] s = (ok tt, s)
  enqueue_targets (e ∷ targets) s =
      let (handle, s') = ensure_delivery e.id s in
      (add_if e.id handle >> enqueue_targets targets) s'

  abbrev pub enqueue_found :
      WebhookStore
      → Result DbError (List WebhookEndpoint)
      → Result WebhookError (Unit {0}) × WebhookStore
  enqueue_found s (ok endpoints) = enqueue_targets (keep is_subscribed endpoints) s
  enqueue_found s (err _) = (ok tt, s)

  abbrev pub enqueue_for : Option ℕ → Bool → Webhooks (Unit {0})
  enqueue_for none same s = (ok tt, s)
  enqueue_for (some merchant_id) true s = (ok tt, s)
  enqueue_for (some merchant_id) false s =
      enqueue_found s (src.endpoints_table.select (is_endpoint_of merchant_id) s.endpoints)

-- `enqueueLoanStatusChange`, at a time
unfoldable pub enqueue_loan_status_change :
    WebhookSources → ℕ → LoanStatusChangeEvent → Webhooks (Unit {0})
unfolding enqueue_targets
enqueue_loan_status_change src occurred_at event =
    enqueue_for src occurred_at event event.merchant_id
      (same_status event.previous_status event.status)
