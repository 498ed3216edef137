-- ===== src/Webhooks/Delivery.antt =====
-- WebhookDeliveryProcessor (jobs/webhook-delivery/webhook-delivery.processor.ts).
use trust_up_api.Base.{
  ℕ, ◌+◌, ◌==◌, ◌&&◌, ltb, leb, Bool, Option, none, some, [], ◌∷◌, ◌++◌, Result, ok, err, DbError,
  ◌>>◌, throw, if◌then◌else◌, unchecked,
}
use trust_up_api.Webhooks.Defs.{
  WebhookEndpoint, DeliveryStatus, is_success, LastError, WebhookDelivery, WebhookJob,
  WebhookRequest, WebhookSources, WebhookError, Webhooks, put_deliveries,
}

abbrev pub marked :
    ℕ → ℕ → DeliveryStatus → Option ℕ → Option LastError → WebhookDelivery → WebhookDelivery
marked now attempts status code error d = record d {
  attempts = attempts;
  status = status;
  response_code = code;
  last_error = error;
  updated_at = now;
}

abbrev pub request_of : WebhookSources → ℕ → WebhookDelivery → WebhookEndpoint → WebhookRequest
request_of src now d e = record {
  url = e.url;
  body = d.payload;
  signature = src.sign_payload e.secret d.payload;
  event = d.event;
  delivery_id = d.id;
  timestamp = now;
}

-- `response.status >= 200 && response.status < 300`
abbrev pub is_ok : ℕ → Bool
is_ok code = leb 200 code && ltb code 300

module _ (src : WebhookSources) (now : ℕ) (job : WebhookJob) (attempts_made : ℕ) where
  -- An error of the update is not looked at.
  unfoldable pub mark : DeliveryStatus → Option ℕ → Option LastError → Webhooks (Unit {0})
  mark status code error = unchecked put_deliveries (λ s.
      src.deliveries_table.update (λ d. d.id == job.delivery_id)
        (marked now (attempts_made + 1) status code error) s.deliveries)

  -- The answer of `http.post`; the exception for a status outside 2xx passes through the handler,
  -- which marks the delivery only for another message.
  unfoldable pub answered : Result ℕ ℕ → Webhooks (Unit {0})
  unfolding mark
  answered (ok code) =
      if is_ok code
      then mark DeliveryStatus.success (some code) none
      else mark DeliveryStatus.failed (some code) (some (LastError.http_status code))
        >> throw (WebhookError.returned_http code)
  answered (err message) =
      if src.is_http_message message
      then throw (WebhookError.post_failed message)
      else mark DeliveryStatus.failed none (some (LastError.exception message))
        >> throw (WebhookError.post_failed message)

  unfoldable pub send : WebhookDelivery → WebhookEndpoint → Webhooks (Unit {0})
  unfolding answered
  send d e s =
      let request = request_of src now d e in
      answered (src.post request) (record s { sent = s.sent ++ request ∷ [] })

  unfoldable pub send_to :
      WebhookDelivery → Result DbError (Option WebhookEndpoint) → Webhooks (Unit {0})
  unfolding mark send
  send_to d (ok (some e)) =
      if e.is_active
      then send d e
      else mark DeliveryStatus.failed none (some LastError.endpoint_inactive_or_missing)
  send_to d _ = mark DeliveryStatus.failed none (some LastError.endpoint_inactive_or_missing)

  unfoldable pub deliver_found : Result DbError (Option WebhookDelivery) → Webhooks (Unit {0})
  unfolding send_to
  deliver_found (ok (some d)) s =
      if is_success d.status
      then (ok tt, s)
      else send_to d (src.endpoints_table.maybe_single (λ e. e.id == job.endpoint_id) s.endpoints) s
  deliver_found _ s = (err WebhookError.delivery_not_found, s)

  -- `process`
  unfoldable pub deliver : Webhooks (Unit {0})
  unfolding deliver_found
  deliver s =
      deliver_found (src.deliveries_table.maybe_single (λ d. d.id == job.delivery_id) s.deliveries)
        s
