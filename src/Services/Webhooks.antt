-- ===== src/Services/Webhooks.antt =====
-- app/services/webhooks.py: the events of the billing provider. The body of an event is a JSON
-- value; Pydantic, `uuid.UUID` and the parsing of dates are parameters.
pub mod Processing
pub mod Idempotence
pub mod Periods
pub mod Failure
pub mod Signature
pub mod Ownership
use tenantforge.Model.Time.{aware, Datetime, stamp}
use tenantforge.Model.Tables.{Subscription, Uuid}
use tenantforge.Model.Json.{Json, Fields, JsonCodec, str_of}
use tenantforge.Model.Errors.{
  value_error, ErrorCode, AppError, Result, unsupported_webhook_event, invalid_webhook_event,
  app_error, err, ok,
}
use tenantforge.Model.Enums.{Plan, SubscriptionStatus, past_due, canceled}
use tenantforge.Session.{Done, checked}
use tenantforge.Prelude.{
  Bool, true, false, ◌&&◌, ◌||◌, Option, none, some, [], length, Text, codes, text_eq, upper, ltb,
  leb, if◌then◌else◌,
}
use tenantforge.Model.Json
use tenantforge.Model.Errors.{◌>>=◌}

-- schemas/billing.py
pub record BillingWebhook : Type 0 where
  pub id : Text
  pub event_type : Text
  pub contents : Fields

pub record WebhookCodec : Type 0 where
  pub json : JsonCodec
  -- `event.model_dump(mode="json")`, and `BillingWebhook.model_validate`, a `ValueError` on `none`
  pub model_dump : BillingWebhook → Json
  pub model_validate : Json → Option BillingWebhook
  -- `uuid.UUID(text)`
  pub parse_uuid : Text → Option Uuid
  -- `datetime.fromisoformat(text.replace("Z", "+00:00"))` in UTC, where a naive value is UTC
  pub from_iso : Text → Option Datetime
  -- what a second `datetime.now(UTC)` gives, a moment after a first one
  pub next_reading : Datetime → Datetime
  -- `datetime.fromtimestamp(number, tz=UTC)`
  pub from_timestamp : Json → Option Datetime

abbrev pub provider_name : Text
provider_name = codes "stripe-like"

abbrev pub or_value_error : {A : Type 0} → Option A → Result A
or_value_error none = err value_error
or_value_error (some a) = ok a

-- `_parse_datetime`, where a missing key is `None`.
unfoldable pub parse_datetime : WebhookCodec → Option Json → Datetime → Result Datetime
parse_datetime codec none fallback = ok fallback
parse_datetime codec (some Json.null) fallback = ok fallback
parse_datetime codec (some (Json.str t)) fallback = or_value_error (codec.from_iso t)
parse_datetime codec (some (Json.int i)) fallback =
    or_value_error (codec.from_timestamp (Json.int i))
parse_datetime codec (some (Json.bool b)) fallback =
    or_value_error (codec.from_timestamp (Json.bool b))
parse_datetime codec (some (Json.float t)) fallback =
    or_value_error (codec.from_timestamp (Json.float t))
parse_datetime codec (some (Json.arr items)) fallback = err value_error
parse_datetime codec (some (Json.obj entries)) fallback = err value_error

-- `Plan(text)` and `SubscriptionStatus(text)`
abbrev pub plan_named : Text → Option Plan
plan_named t =
    if text_eq t (codes "FREE")
    then some Plan.free
    else if text_eq t (codes "PRO")
    then some Plan.pro
    else if text_eq t (codes "BUSINESS")
    then some Plan.business
    else none

abbrev pub status_named : Text → Option SubscriptionStatus
status_named t =
    if text_eq t (codes "ACTIVE")
    then some SubscriptionStatus.active
    else if text_eq t (codes "PAST_DUE")
    then some past_due
    else if text_eq t (codes "CANCELED")
    then some canceled
    else none

abbrev pub upper_str : WebhookCodec → Json → Text
upper_str codec v = upper (str_of codec.json v)

-- `Plan(str(event_object["plan"]).upper())`
abbrev pub plan_field : WebhookCodec → Option Json → Result Plan
plan_field codec none = err value_error
plan_field codec (some v) = or_value_error (plan_named (upper_str codec v))

-- `SubscriptionStatus(str(event_object.get("status", "ACTIVE")).upper())`
abbrev pub status_field : WebhookCodec → Option Json → Result SubscriptionStatus
status_field codec none = ok SubscriptionStatus.active
status_field codec (some v) = or_value_error (status_named (upper_str codec v))

abbrev pub webhook_error : ErrorCode → AppError
webhook_error c = record { status_code = 400; code = c; headers = [] }

-- `try: ... except (...): raise AppError(400, ...)`
abbrev pub or_invalid : {A : Type 0} → Result A → Result A
or_invalid (ok a) = ok a
or_invalid (err e) = err (app_error (webhook_error invalid_webhook_event))

abbrev pub is_change : Text → Bool
is_change t = text_eq t (codes "subscription.created") || text_eq t (codes "subscription.updated")

abbrev pub is_supported : Text → Bool
is_supported t =
    is_change t
    || text_eq t (codes "subscription.cancelled")
    || text_eq t (codes "invoice.payment_failed")

abbrev pub object_of : Option Json → Result Fields
object_of (some (Json.obj entries)) = ok entries
object_of _ = err (app_error (webhook_error invalid_webhook_event))

abbrev pub organization_of : WebhookCodec → Option Json → Result Uuid
organization_of codec none = err value_error
organization_of codec (some v) = or_value_error (codec.parse_uuid (str_of codec.json v))

-- `period_end <= period_start`
abbrev pub in_order : Datetime → Datetime → Result Done
in_order start end = if ltb (stamp start) (stamp end) then ok tt else err value_error

-- Both boundaries, or none.
abbrev pub period_field : WebhookCodec → Datetime → Option Json → Option Json → Result Done
period_field codec now none none = ok tt
period_field codec now (some a) (some b) = parse_datetime codec (some a) now >>= λ start.
    parse_datetime codec (some b) (codec.next_reading now) >>= λ end. in_order start end
period_field codec now _ _ = err value_error

abbrev pub is_id : Option Json → Bool
is_id none = true
is_id (some Json.null) = true
is_id (some (Json.str t)) = leb 1 (length t) && leb (length t) 120
is_id _ = false

-- What a created or updated subscription must carry. The clock is read once for each boundary: `now`
-- is the first reading.
unfoldable pub check_change : WebhookCodec → Datetime → Fields → Result Done
check_change codec now object = do
  _ ← or_invalid (plan_field codec (Json.get (codes "plan") object))
  _ ← or_invalid (status_field codec (Json.get (codes "status") object))
  _ ← or_invalid (
      period_field codec now (Json.get (codes "current_period_start") object)
        (Json.get (codes "current_period_end") object))
  checked
      (is_id (Json.get (codes "customer_id") object)
        && is_id (Json.get (codes "subscription_id") object))
      (webhook_error invalid_webhook_event)

unfoldable pub validate_webhook : WebhookCodec → Datetime → BillingWebhook → Result Fields
validate_webhook codec now event = do
  _ ← checked (is_supported event.event_type) (webhook_error unsupported_webhook_event)
  object ← object_of (Json.get (codes "object") event.contents)
  _ ← or_invalid (organization_of codec (Json.get (codes "organization_id") object))
  _ ← if is_change event.event_type then check_change codec now object else ok tt
  ok object

abbrev pub text_of : Json → Option Text
text_of (Json.str t) = some t
text_of _ = none

-- `if key in event_object: ... = event_object[key]`; the value is a text or null by then.
abbrev pub id_or_keep : Option Json → Option Text → Option Text
id_or_keep none old = old
id_or_keep (some v) old = text_of v

-- The subscription after a created or updated event. A missing plan is a `KeyError`, which is not
-- told apart from a `ValueError` here.
unfoldable pub replaced_subscription :
    WebhookCodec → Fields → Subscription → Datetime × Datetime → Result Subscription
replaced_subscription codec object s period =
    plan_field codec (Json.get (codes "plan") object) >>= λ plan.
    status_field codec (Json.get (codes "status") object) >>= λ status.
    parse_datetime codec (Json.get (codes "current_period_start") object) period.0 >>= λ start.
    parse_datetime codec (Json.get (codes "current_period_end") object) period.1 >>= λ end.
    in_order start end >>= λ _. ok (record s {
      plan = plan;
      status = status;
      external_customer_id =
          id_or_keep (Json.get (codes "customer_id") object) s.external_customer_id;
      external_subscription_id =
          id_or_keep (Json.get (codes "subscription_id") object) s.external_subscription_id;
      current_period_start = aware start;
      current_period_end = aware end;
    })

-- The three kinds of event; a supported event is one of them.
unfoldable pub changed_subscription :
    WebhookCodec → Text → Fields → Subscription → Datetime × Datetime → Result Subscription
changed_subscription codec kind object s period =
    if is_change kind
    then replaced_subscription codec object s period
    else if text_eq kind (codes "subscription.cancelled")
    then ok (record s { status = canceled })
    else if text_eq kind (codes "invoice.payment_failed")
    then ok (record s { status = past_due })
    else ok s
