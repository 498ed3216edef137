-- ===== src/Webhooks/Defs.antt =====
-- The tables of the webhooks, the queue and what the HTTP client is asked to send. The text of an
-- event identifier, `loan:previous:status` with `:sequence` from the second occurrence on, is the
-- record of its parts: identifiers of loans hold no colon.
use trust_up_api.Base.{
  ℕ, ◌==◌, ◌≡◌, ◌&&◌, Bool, true, false, Option, List, Table, Result, Action, arith, ==_refl,
}
use trust_up_api.Loans.Defs.{LoanStatus, same_status, LoanStatusChangeEvent}
use trust_up_api.Admin.Defs.{MerchantRow}

pub data EventName : Type 0 where
  loan_status_changed : EventName
  other_event : ℕ → EventName

abbrev pub is_loan_status_changed : EventName → Bool
is_loan_status_changed EventName.loan_status_changed = true
is_loan_status_changed (EventName.other_event n) = false

-- A row of `webhook_endpoints`
pub record WebhookEndpoint : Type 0 where
  pub id : ℕ
  pub merchant_id : ℕ
  pub url : ℕ
  pub secret : ℕ
  pub events : List EventName
  pub is_active : Bool
  pub created_at : ℕ
  pub updated_at : ℕ

pub record EventId : Type 0 where
  pub loan_id : ℕ
  pub previous_status : LoanStatus
  pub status : LoanStatus
  pub sequence : ℕ

abbrev pub same_event : EventId → EventId → Bool
same_event a b =
    (a.loan_id == b.loan_id)
    && same_status a.previous_status b.previous_status
    && same_status a.status b.status
    && (a.sequence == b.sequence)

pub record WebhookPayload : Type 0 where
  pub event : EventName
  pub event_id : EventId
  pub occurred_at : ℕ
  pub change : LoanStatusChangeEvent

pub data DeliveryStatus : Type 0 where
  pending success failed : DeliveryStatus

abbrev pub is_success : DeliveryStatus → Bool
is_success DeliveryStatus.success = true
is_success _ = false

-- The texts of `last_error`
pub data LastError : Type 0 where
  endpoint_inactive_or_missing : LastError
  http_status : ℕ → LastError
  exception : ℕ → LastError

-- A row of `webhook_deliveries`
pub record WebhookDelivery : Type 0 where
  pub id : ℕ
  pub endpoint_id : ℕ
  pub event_id : EventId
  pub event : EventName
  pub payload : WebhookPayload
  pub status : DeliveryStatus
  pub attempts : ℕ
  pub response_code : Option ℕ
  pub last_error : Option LastError
  pub updated_at : ℕ

pub record WebhookJob : Type 0 where
  pub delivery_id : ℕ
  pub endpoint_id : ℕ
  pub event_id : EventId

-- What `http.post` is called with: the headers hold the signature, the event, the identifier of the
-- delivery and the time.
pub record WebhookRequest : Type 0 where
  pub url : ℕ
  pub body : WebhookPayload
  pub signature : ℕ
  pub event : EventName
  pub delivery_id : ℕ
  pub timestamp : ℕ

pub record WebhookStore : Type 0 where
  pub merchants : List MerchantRow
  pub endpoints : List WebhookEndpoint
  pub deliveries : List WebhookDelivery
  pub queue : List WebhookJob
  -- the requests sent so far
  pub sent : List WebhookRequest

pub record WebhookSources : Type 0 where
  pub merchants_table : Table MerchantRow
  pub endpoints_table : Table WebhookEndpoint
  pub deliveries_table : Table WebhookDelivery
  -- the identifier that the database gives to a new row
  pub new_id : WebhookStore → ℕ
  -- whether `queue.add` throws
  pub queue_refuses : WebhookJob → Bool
  -- `http.post`: a status, or an exception with its message
  pub post : WebhookRequest → Result ℕ ℕ
  -- whether a message includes 'Webhook endpoint returned HTTP'
  pub is_http_message : ℕ → Bool
  -- HMAC-SHA256 of the body under the secret (modules/webhooks/hmac.util.ts), and 32 random bytes
  pub sign_payload : ℕ → WebhookPayload → ℕ
  pub generate_secret : WebhookStore → ℕ

pub data WebhookError : Type 0 where
  queue_error database_error delivery_not_found : WebhookError
  returned_http : ℕ → WebhookError
  post_failed : ℕ → WebhookError
  webhook_url_exists merchant_required webhook_not_found : WebhookError

abbrev pub Webhooks : Type 0 → Type 0
Webhooks A = Action WebhookStore WebhookError A

abbrev pub put_endpoints : WebhookStore → List WebhookEndpoint → WebhookStore
put_endpoints s rows = record s { endpoints = rows }

abbrev pub put_deliveries : WebhookStore → List WebhookDelivery → WebhookStore
put_deliveries s rows = record s { deliveries = rows }

-- `.eq('endpoint_id', …).eq('event_id', …)`, the unique key of the deliveries
abbrev pub is_delivery_of : ℕ → EventId → WebhookDelivery → Bool
is_delivery_of endpoint event d = (d.endpoint_id == endpoint) && same_event d.event_id event

abbrev pub same_delivery : WebhookDelivery → WebhookDelivery → Bool
same_delivery r = is_delivery_of r.endpoint_id r.event_id

pub same_event_refl : (e : EventId) → same_event e e ≡ true
same_event_refl e = ground (arith, ==_refl e.loan_id, ==_refl e.sequence)
