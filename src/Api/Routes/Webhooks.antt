-- ===== src/Api/Routes/Webhooks.antt =====
-- app/api/routes/webhooks.py. Metrics are left out.
use tenantforge.Session.{Done, gets, or_error}
use tenantforge.Services.Webhooks.Signature.{signature_tolerance_seconds, verify_webhook_signature}
use tenantforge.Services.Webhooks.Processing.{store_webhook_event}
use tenantforge.Services.Webhooks.{BillingWebhook, webhook_error, validate_webhook}
use tenantforge.Security.Crypto.{Primitives, Settings}
use tenantforge.Model.Time.{day_micros, instant}
use tenantforge.Model.Tables.{Uuid, WebhookEvent}
use tenantforge.Model.Json.{Json, Fields}
use tenantforge.Model.Errors.{Result, invalid_webhook_event}
use tenantforge.Model.Enums.{WebhookStatus, webhook_status_eq}
use tenantforge.Api.Responses.{Response, receipt_body}
use tenantforge.Api.Email.{Adapters, enqueue_job}
use tenantforge.Api.Deps.{Headers}
use tenantforge.Api.{Endpoint, reply, on_db, ◌>>=◌, ◌>>◌, answer, commit_session}
use tenantforge.Prelude.{◌-◌, ◌*◌, Bool, true, false, not, ◌||◌, Text, codes}

module _ (p : Primitives) (s : Settings) (adapters : Adapters) where
  abbrev pub event_fields : Uuid → Fields
  event_fields i = Fields.field (codes "webhook_event_id") (Json.str (p.uuid_str i)) Fields.end

  -- `except ValidationError:`
  abbrev pub read_event : Text → Result BillingWebhook
  read_event body = or_error (adapters.validate_json body) (webhook_error invalid_webhook_event)

  -- The signature of the body, its schema and what the event must carry.
  unfoldable pub checked_event : Headers → Text → Endpoint BillingWebhook
  checked_event headers body = do
    now ← on_db (gets λ w. w.clock)
    answer (
        verify_webhook_signature adapters.signing s.billing_webhook_secret body
          headers.stripe_signature (instant now - 719163 * day_micros) signature_tolerance_seconds)
    event ← answer (read_event body)
    answer (validate_webhook adapters.webhooks now event)
    reply event

  abbrev pub process_later : Bool → WebhookEvent → Endpoint Done
  process_later true event =
      enqueue_job p adapters (codes "process_billing_webhook") (event_fields event.id)
  process_later false event = reply tt

  -- The event is committed before its job is queued.
  unfoldable pub billing_webhook_route : Headers → Text → Endpoint Response
  billing_webhook_route headers body = do
    event ← checked_event headers body
    stored ← on_db (store_webhook_event adapters.webhooks event)
    commit_session
    process_later (stored.1 || not (webhook_status_eq stored.0.status WebhookStatus.processed))
        stored.0
    reply (record {
      status = 202;
      body =
          receipt_body
            (record { event_id = stored.0.id; status = stored.0.status; duplicate = not stored.1 });
    })
