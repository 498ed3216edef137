-- ===== src/Webhooks/Endpoints.antt =====
-- WebhooksService (modules/webhooks/webhooks.service.ts).
use trust_up_api.Base.{
  ℕ, ◌==◌, not, Bool, true, Option, none, some, List, [], ◌∷◌, get_or, Result, ok, err, DbError,
  ◌>>=◌, ◌>>◌, pure, throw, throw_if, reading, writing, updating_one,
}
use trust_up_api.Admin.Defs.{MerchantRow}
use trust_up_api.Webhooks.Defs.{
  EventName, WebhookEndpoint, WebhookStore, WebhookSources, WebhookError, Webhooks, put_endpoints,
}

pub record CreateWebhook : Type 0 where
  pub url : ℕ
  pub events : Option (List EventName)

pub record UpdateWebhook : Type 0 where
  pub url : Option ℕ
  pub events : Option (List EventName)
  pub is_active : Option Bool

-- `dto.events?.length ? dto.events : DEFAULT_EVENTS`
abbrev pub events_or_default : Option (List EventName) → List EventName
events_or_default (some (e ∷ events)) = e ∷ events
events_or_default _ = EventName.loan_status_changed ∷ []

abbrev pub new_endpoint : ℕ → ℕ → ℕ → ℕ → CreateWebhook → WebhookEndpoint
new_endpoint now id secret merchant_id dto = record {
  id = id;
  merchant_id = merchant_id;
  url = dto.url;
  secret = secret;
  events = events_or_default dto.events;
  is_active = true;
  created_at = now;
  updated_at = now;
}

abbrev pub patch : ℕ → UpdateWebhook → WebhookEndpoint → WebhookEndpoint
patch now dto e = record e {
  url = get_or dto.url e.url;
  events = get_or dto.events e.events;
  is_active = get_or dto.is_active e.is_active;
  updated_at = now;
}

abbrev pub insert_error : DbError → WebhookError
insert_error DbError.unique_violation = WebhookError.webhook_url_exists
insert_error DbError.other_error = WebhookError.database_error

-- The columns of an endpoint that are handed out: all but its secret.
pub record PublicEndpoint : Type 0 where
  pub id : ℕ
  pub merchant_id : ℕ
  pub url : ℕ
  pub events : List EventName
  pub is_active : Bool
  pub created_at : ℕ
  pub updated_at : ℕ

abbrev pub public_endpoint : WebhookEndpoint → PublicEndpoint
public_endpoint e = record {
  id = e.id;
  merchant_id = e.merchant_id;
  url = e.url;
  events = e.events;
  is_active = e.is_active;
  created_at = e.created_at;
  updated_at = e.updated_at;
}

module _ (src : WebhookSources) where
  abbrev pub merchant_or_throw : Option MerchantRow → Webhooks MerchantRow
  merchant_or_throw none = throw WebhookError.merchant_required
  merchant_or_throw (some m) = pure m

  unfoldable pub require_merchant : ℕ → Webhooks MerchantRow
  require_merchant wallet =
      reading (λ s. src.merchants_table.maybe_single (λ m. m.wallet == wallet) s.merchants)
        WebhookError.database_error
      >>= merchant_or_throw

  abbrev pub endpoint_or_throw : Option WebhookEndpoint → Webhooks WebhookEndpoint
  endpoint_or_throw none = throw WebhookError.webhook_not_found
  endpoint_or_throw (some e) = pure e

  unfoldable pub get_endpoint : ℕ → Webhooks WebhookEndpoint
  get_endpoint id =
      reading (λ s. src.endpoints_table.maybe_single (λ e. e.id == id) s.endpoints)
        WebhookError.database_error
      >>= endpoint_or_throw

  abbrev pub assert_owner : ℕ → ℕ → Webhooks (Unit {0})
  assert_owner owner_id merchant_id =
      throw_if (not (owner_id == merchant_id)) WebhookError.webhook_not_found

  abbrev pub created :
      WebhookEndpoint
      → WebhookStore
      → Result DbError (List WebhookEndpoint)
      → Result WebhookError WebhookEndpoint × WebhookStore
  created e s (ok rows) = (ok e, put_endpoints s rows)
  created e s (err x) = (err (insert_error x), s)

  unfoldable pub insert_endpoint : ℕ → ℕ → CreateWebhook → Webhooks WebhookEndpoint
  insert_endpoint now merchant_id dto s =
      let e = new_endpoint now (src.new_id s) (src.generate_secret s) merchant_id dto in
      created e s (src.endpoints_table.insert e s.endpoints)

  -- The only answer that holds the secret.
  unfoldable pub create_endpoint : ℕ → ℕ → CreateWebhook → Webhooks WebhookEndpoint
  unfolding require_merchant
  create_endpoint now wallet dto = do
    merchant ← require_merchant wallet
    insert_endpoint now merchant.id dto

  -- The lines that getMine, updateMine and deleteMine start with.
  unfoldable pub owned_endpoint : ℕ → ℕ → Webhooks WebhookEndpoint
  unfolding require_merchant get_endpoint
  owned_endpoint wallet id = do
    merchant ← require_merchant wallet
    endpoint ← get_endpoint id
    assert_owner endpoint.merchant_id merchant.id
    pure endpoint

  unfoldable pub get_mine : ℕ → ℕ → Webhooks PublicEndpoint
  unfolding owned_endpoint
  get_mine wallet id = do endpoint ← owned_endpoint wallet id; pure (public_endpoint endpoint)

  unfoldable pub write_endpoint : ℕ → ℕ → UpdateWebhook → Webhooks WebhookEndpoint
  write_endpoint now id dto =
      updating_one put_endpoints
        (λ s. src.endpoints_table.update_one (λ e. e.id == id) (patch now dto) s.endpoints)
        WebhookError.database_error

  unfoldable pub update_mine : ℕ → ℕ → ℕ → UpdateWebhook → Webhooks PublicEndpoint
  unfolding owned_endpoint write_endpoint
  update_mine now wallet id dto = do
    endpoint ← owned_endpoint wallet id
    updated ← write_endpoint now id dto
    pure (public_endpoint updated)

  unfoldable pub erase_endpoint : ℕ → Webhooks (Unit {0})
  erase_endpoint id =
      writing put_endpoints (λ s. src.endpoints_table.delete (λ e. e.id == id) s.endpoints)
        WebhookError.database_error

  unfoldable pub delete_mine : ℕ → ℕ → Webhooks ℕ
  unfolding owned_endpoint erase_endpoint
  delete_mine wallet id = do endpoint ← owned_endpoint wallet id; erase_endpoint id; pure id

  unfoldable pub admin_update : ℕ → ℕ → UpdateWebhook → Webhooks PublicEndpoint
  unfolding get_endpoint write_endpoint
  admin_update now id dto = do
    endpoint ← get_endpoint id
    updated ← write_endpoint now id dto
    pure (public_endpoint updated)
