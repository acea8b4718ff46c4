-- ===== src/Services/Webhooks/Processing.antt =====
-- The storing and processing of events in app/services/webhooks.py, and the job of
-- app/workers/jobs.py that processes one.
use tenantforge.Services.Rows.{same_text, touch_subscription, organization_is, subscription_of}
use tenantforge.Services.Periods.{calendar_period}
use tenantforge.Services.Billing.{create_default_subscription, save_subscription}
use tenantforge.Services.Audit.{write_audit}
use tenantforge.Model.Time.{Timestamp, aware}
use tenantforge.Model.Tables.{
  Uuid, Subscription, WebhookEvent, Detail, ResourceType, World, from_plan, to_plan, from_status,
  to_status, subscription_changed,
}
use tenantforge.Model.Errors.{
  not_found_error, Exception, Result, webhook_event_not_found, integrity_error, err, ok,
}
use tenantforge.Model.Enums.{WebhookStatus, webhook_status_eq}
use tenantforge.Prelude.{
  update_where, ◌+◌, Bool, true, false, not, ◌&&◌, Option, none, some, [], ◌∷◌, scalar, exists,
  Text, codes, text_eq, ◌==◌, if◌then◌else◌,
}
use tenantforge.Services.Webhooks.{
  changed_subscription, BillingWebhook, WebhookCodec, provider_name, or_value_error,
  organization_of, validate_webhook,
}
use tenantforge.Model.Json
use tenantforge.Model.Json.{Json, Fields}
use tenantforge.Session.{
  modify, when, pure, lift, Action, Done, gets, find, transaction, ◌>>=◌, ◌>>◌,
}

abbrev pub webhook_is : Text → WebhookEvent → Bool
webhook_is i e = text_eq e.provider provider_name && text_eq e.external_event_id i

-- The flush of a new event; provider and external identifier are unique together.
unfoldable pub add_webhook_event : BillingWebhook → Json → Action WebhookEvent
add_webhook_event event payload w =
    let row : WebhookEvent = record {
      id = w.next_uuid;
      provider = provider_name;
      external_event_id = event.id;
      event_type = event.event_type;
      payload = payload;
      status = WebhookStatus.pending;
      received_at = aware w.clock;
      processed_at = none;
    } in
    if exists (webhook_is event.id) w.webhook_events
    then (err integrity_error, w)
    else (ok row, record w { webhook_events = row ∷ w.webhook_events; next_uuid = w.next_uuid + 1 })

abbrev pub existing_or : Option WebhookEvent → Exception → Result (WebhookEvent × Bool)
existing_or none e = err e
existing_or (some event) e = ok (event, false)

-- `except IntegrityError:` around the savepoint, which undoes the flush.
abbrev pub stored_or_existing : Text → World → Result WebhookEvent → Action (WebhookEvent × Bool)
stored_or_existing i w0 (ok row) w = (ok (row, true), w)
stored_or_existing i w0 (err integrity_error) w =
    (existing_or (scalar (webhook_is i) w0.webhook_events) integrity_error, w0)
stored_or_existing i w0 (err e) w = (err e, w)

unfoldable pub insert_webhook : WebhookCodec → BillingWebhook → Action (WebhookEvent × Bool)
insert_webhook codec event w =
    let (r, w') = add_webhook_event event (codec.model_dump event) w in
    stored_or_existing event.id w r w'

abbrev pub existing_or_insert :
    WebhookCodec → BillingWebhook → Option WebhookEvent → Action (WebhookEvent × Bool)
existing_or_insert codec event (some existing) = pure (existing, false)
existing_or_insert codec event none = insert_webhook codec event

unfoldable pub store_webhook_event : WebhookCodec → BillingWebhook → Action (WebhookEvent × Bool)
store_webhook_event codec event = do
  existing ← gets λ w. scalar (webhook_is event.id) w.webhook_events
  existing_or_insert codec event existing

unfoldable pub locked_subscription : Uuid → Action Subscription
locked_subscription o = do
  organization ← gets λ w. scalar (organization_is o) w.organizations
  lift (or_value_error organization)
  found ← gets λ w. scalar (subscription_of o) w.subscriptions
  elim found [ some subscription ↦ pure subscription | none ↦ create_default_subscription o none ]

abbrev pub save_processed : Uuid → Timestamp → World → World
save_processed i at w = record w {
  webhook_events =
      update_where (λ e. e.id == i)
        (λ e. record e { status = WebhookStatus.processed; processed_at = some at })
        w.webhook_events;
}

abbrev pub save_failed : Uuid → World → World
save_failed i w = record w {
  webhook_events =
      update_where (λ e. e.id == i) (λ e. record e { status = WebhookStatus.failed })
        w.webhook_events;
}

-- `NULL` is equal to no value.
abbrev pub holds_external_id : Option Text → Subscription → Bool
holds_external_id none r = false
holds_external_id (some i) r = same_text r.external_subscription_id (some i)

-- `external_subscription_id` is unique: another subscription has the identifier of this one.
abbrev pub has_claimed : Subscription → World → Bool
has_claimed s w =
    exists (λ r. not (r.id == s.id) && holds_external_id s.external_subscription_id r)
      w.subscriptions

abbrev pub unless_claimed : Bool → Result Done
unless_claimed true = err integrity_error
unless_claimed false = ok tt

-- An event that is not processed yet, at the time of the call.
unfoldable pub apply_webhook_event : WebhookCodec → WebhookEvent → Action (WebhookEvent × Bool)
apply_webhook_event codec event = do
  now ← gets λ w. w.clock
  parsed_event ← lift (or_value_error (codec.model_validate event.payload))
  object ← lift (validate_webhook codec now parsed_event)
  o ← lift (organization_of codec (Json.get (codes "organization_id") object))
  old ← locked_subscription o
  period ← lift (calendar_period now)
  changed ← lift (changed_subscription codec event.event_type object old period)
  claimed ← gets (has_claimed changed)
  lift (unless_claimed claimed)
  modify (save_subscription (touch_subscription now old changed))
  write_audit o none subscription_changed ResourceType.subscription old.id
      (Detail.event_id event.external_event_id
        ∷ Detail.event_type event.event_type
        ∷ from_plan old.plan
        ∷ to_plan changed.plan
        ∷ from_status old.status
        ∷ to_status changed.status
        ∷ [])
      none
  modify (save_processed event.id (aware now))
  pure (record event { status = WebhookStatus.processed; processed_at = some (aware now) }, true)

abbrev pub unless_processed : WebhookCodec → WebhookEvent → Bool → Action (WebhookEvent × Bool)
unless_processed codec event true = pure (event, false)
unless_processed codec event false = apply_webhook_event codec event

-- Events are found by their primary key.
abbrev pub event_is : Uuid → WebhookEvent → Bool
event_is i e = e.id == i

unfoldable pub process_webhook_event : WebhookCodec → Uuid → Action (WebhookEvent × Bool)
process_webhook_event codec i = do
  event ← find (λ w. scalar (event_is i) w.webhook_events) (not_found_error webhook_event_not_found)
  unless_processed codec event (webhook_status_eq event.status WebhookStatus.processed)

abbrev pub fail_unless_processed : Option WebhookEvent → Action Done
fail_unless_processed none = pure tt
fail_unless_processed (some e) =
    when (not (webhook_status_eq e.status WebhookStatus.processed)) (modify (save_failed e.id))

unfoldable pub mark_webhook_failed : Uuid → Action Done
mark_webhook_failed i = do
  event ← gets λ w. scalar (event_is i) w.webhook_events
  fail_unless_processed event

-- `process_billing_webhook_job`: a failure is marked in a transaction of its own, and raised again.
abbrev pub or_mark_failed : Uuid → Result (WebhookEvent × Bool) → Action Done
or_mark_failed i (ok outcome) w = (ok tt, w)
or_mark_failed i (err e) w = (err e, (transaction (mark_webhook_failed i) w).1)

unfoldable pub process_billing_webhook_job : WebhookCodec → Uuid → Action Done
process_billing_webhook_job codec i w =
    let (r, w') = transaction (process_webhook_event codec i) w in or_mark_failed i r w'
