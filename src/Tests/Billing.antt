-- ===== src/Tests/Billing.antt =====
-- Webhooks of the billing provider.
use tenantforge.Services.Webhooks.Periods.{IsProper, changed_subscription-IsProper}
use tenantforge.Services.Webhooks.Idempotence.{store_webhook_event_once, process_webhook_event_once}
use tenantforge.Services.Webhooks.Failure.{process_billing_webhook_job_failure}
use tenantforge.Services.Webhooks.{
  BillingWebhook, WebhookCodec, parse_datetime, check_change, validate_webhook,
  replaced_subscription, changed_subscription,
}
use tenantforge.Services.Rows.{has_organization}
use tenantforge.Services.Periods.{add_month, calendar_period}
use tenantforge.Services.Audit.{write_audit}
use tenantforge.Model.Time.{is_leap, days_in_month, aware}
use tenantforge.Model.Tables.{Subscription, WebhookEvent, World}
use tenantforge.Model.Json.{Fields, Json}
use tenantforge.Model.Errors.{integrity_error, ok}
use tenantforge.Model.Enums.{Plan, WebhookStatus, webhook_status_eq}
use tenantforge.Prelude.{
  ◌∷◌, ◌+◌, pos, ◌≡◌, refl, true, false, Option, none, some, [], arith, scalar, exists,
  update_where, Text, codes, text_eq, upper,
}
use tenantforge.Model.Json
use tenantforge.Session.{transaction, ◌>>=◌}
use tenantforge.Services.Webhooks.Processing.{
  add_webhook_event, insert_webhook, locked_subscription, save_failed, apply_webhook_event,
  store_webhook_event, process_webhook_event, process_billing_webhook_job,
}
use tenantforge.Tests.Fixtures.{database, january_plan, day_of_january, day_of_february}

abbrev about_acme : Fields
about_acme =
    Fields.field (codes "object")
      (Json.obj (Fields.field (codes "organization_id") (Json.str (codes "3")) Fields.end))
      Fields.end

abbrev delivery : Text → Json → Option BillingWebhook
delivery kind (Json.obj entries) =
    some (record { id = codes "evt"; event_type = kind; contents = entries })
delivery kind _ = none

abbrev codec : Text → WebhookCodec
codec kind = record {
  json = record {
    dumps = λ v. [];
    loads = λ t. none;
    str_of_other = λ v. [];
    int_of_text = λ t. none;
    truncate = λ t. pos 0;
  };
  model_dump = λ e. Json.obj e.contents;
  model_validate = delivery kind;
  parse_uuid = λ t. some 3;
  from_iso = λ t. none;
  from_timestamp = λ v. none;
  next_reading = λ t. record t { micros = t.micros + 1 };
}

abbrev cancelled : Text
cancelled = codes "subscription.cancelled"

abbrev updated : Text
updated = codes "subscription.updated"

abbrev cancellation : BillingWebhook
cancellation = record { id = codes "evt"; event_type = cancelled; contents = about_acme }

abbrev stored : WebhookEvent
stored = record {
  id = 20;
  provider = codes "stripe-like";
  external_event_id = codes "evt";
  event_type = cancelled;
  payload = Json.obj about_acme;
  status = WebhookStatus.pending;
  received_at = aware (day_of_january 15);
  processed_at = none;
}

abbrev delivered : World
delivered = (store_webhook_event (codec cancelled) cancellation database).1

abbrev done : WebhookEvent
done = record stored {
  status = WebhookStatus.processed;
  processed_at = some (aware (day_of_january 15));
}

store_webhook_event_once_example :
    store_webhook_event
      (codec cancelled)
      cancellation
      (record delivered { clock = day_of_january 16 })
    ≡ (ok (stored, false), record delivered { clock = day_of_january 16 })
unfolding store_webhook_event insert_webhook add_webhook_event scalar exists text_eq ◌>>=◌
store_webhook_event_once_example =
    store_webhook_event_once (codec cancelled) cancellation cancellation database delivered
      (day_of_january 16) {row = stored} {created = true} refl refl

process_webhook_event_once_example :
    (event : WebhookEvent) × (webhook_status_eq event.status WebhookStatus.processed ≡ true)
    × (process_webhook_event
          (codec cancelled)
          20
          (record (process_webhook_event (codec cancelled) 20 delivered).1 {
            clock = day_of_january 16;
          })
        ≡ (
          ok (event, false),
          record (process_webhook_event (codec cancelled) 20 delivered).1 {
            clock = day_of_january 16;
          },
        ))
unfolding store_webhook_event insert_webhook add_webhook_event scalar exists text_eq ◌>>=◌
    process_webhook_event apply_webhook_event locked_subscription validate_webhook Json.get
    changed_subscription calendar_period add_month days_in_month is_leap write_audit
    has_organization update_where
process_webhook_event_once_example =
    process_webhook_event_once (codec cancelled) 20 delivered
      (process_webhook_event (codec cancelled) 20 delivered).1 (day_of_january 16) {e = done}
      {applied = true} refl

-- An update that names the subscription of another organization, whose identifier is unique: the
-- flush fails after the lock and the parsing, and the event is marked.
abbrev claim : Fields
claim =
    Fields.field (codes "object")
      (Json.obj (
        Fields.field (codes "organization_id") (Json.str (codes "3")) (
          Fields.field (codes "plan") (Json.str (codes "pro"))
            (Fields.field (codes "subscription_id") (Json.str (codes "sub")) Fields.end))))
      Fields.end

abbrev claiming : WebhookEvent
claiming = record stored { event_type = updated; payload = Json.obj claim }

abbrev claimed_elsewhere : World
claimed_elsewhere = record database {
  subscriptions =
      record january_plan {
        id = 14;
        organization_id = 13;
        external_subscription_id = some (codes "sub");
      }
      ∷ january_plan
      ∷ [];
  webhook_events = claiming ∷ [];
}

process_billing_webhook_job_failure_example :
    (process_billing_webhook_job (codec updated) 20 claimed_elsewhere).1
    ≡ save_failed claiming.id claimed_elsewhere
unfolding scalar exists text_eq ◌>>=◌ process_webhook_event apply_webhook_event locked_subscription
    validate_webhook Json.get check_change changed_subscription replaced_subscription parse_datetime
    calendar_period add_month days_in_month is_leap update_where process_billing_webhook_job
    transaction upper
process_billing_webhook_job_failure_example =
    process_billing_webhook_job_failure (codec updated) 20 claimed_elsewhere
      (process_billing_webhook_job (codec updated) 20 claimed_elsewhere).1 claiming
      {e = integrity_error} refl refl

abbrev pro_plan : Fields
pro_plan = Fields.field (codes "plan") (Json.str (codes "pro")) Fields.end

abbrev upgraded : Subscription
upgraded = record january_plan { plan = Plan.pro }

changed_subscription-IsProper_example :
    IsProper upgraded
    × (upgraded.id ≡ january_plan.id)
    × (upgraded.organization_id ≡ january_plan.organization_id)
unfolding changed_subscription replaced_subscription parse_datetime Json.get text_eq upper
changed_subscription-IsProper_example =
    changed_subscription-IsProper (codec updated) updated pro_plan january_plan
      (day_of_january 1, day_of_february 1) upgraded (omega arith) refl
