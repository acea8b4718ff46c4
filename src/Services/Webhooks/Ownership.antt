-- ===== src/Services/Webhooks/Ownership.antt =====
-- Storing and processing a webhook event, however it ends, keeps the owners of the organizations.
use tenantforge.Session.Keeps.{Keeps, Survives, Keeps-transaction, keeps_rules}
use tenantforge.Services.Webhooks.Processing.{
  webhook_is, add_webhook_event, stored_or_existing, insert_webhook, existing_or_insert,
  store_webhook_event, locked_subscription, save_processed, save_failed, apply_webhook_event,
  unless_processed, process_webhook_event, fail_unless_processed, mark_webhook_failed,
  or_mark_failed, process_billing_webhook_job,
}
use tenantforge.Services.Webhooks.{BillingWebhook, WebhookCodec}
use tenantforge.Services.System.Writes.{IsOwned-step}
use tenantforge.Services.System.Kept.{owner_rules, found_or_default-Keeps}
use tenantforge.Services.Organizations.Ownership.{IsOwned}
use tenantforge.Model.Time.{Timestamp}
use tenantforge.Model.Tables.{Uuid, WebhookEvent, World}
use tenantforge.Model.Json.{Json}
use tenantforge.Prelude.{
  refl, inl, inr, Bool, true, false, Option, none, some, arith, exists, Text, Bool-cases,
}
use tenantforge.Model.Errors.{Result, err, ok, Exception, integrity_error, app_error}

add_webhook_event-Keeps :
    (event : BillingWebhook) (payload : Json) → Keeps IsOwned (add_webhook_event event payload)
unfolding add_webhook_event
add_webhook_event-Keeps event payload = record {
  at = λ w v. elim (Bool-cases (exists (webhook_is event.id) w.webhook_events)) [
    | inl taken ↦ rw taken v
    | inr new ↦ rw new (IsOwned-step w _ refl refl (omega arith) v)
  ];
}

stored-IsOwned :
    (i : Text) (w0 w : World) (r : Result WebhookEvent)
    → IsOwned w0
    → IsOwned w
    → IsOwned (stored_or_existing i w0 r w).1
stored-IsOwned i w0 w (ok row) v0 v = v
stored-IsOwned i w0 w (err integrity_error) v0 v = v0
stored-IsOwned i w0 w (err (app_error e)) v0 v = v
stored-IsOwned i w0 w (err Exception.redis_error) v0 v = v
stored-IsOwned i w0 w (err Exception.validation_error) v0 v = v
stored-IsOwned i w0 w (err Exception.value_error) v0 v = v
stored-IsOwned i w0 w (err Exception.overflow_error) v0 v = v

module _ (codec : WebhookCodec) where
  insert_webhook-Keeps : (event : BillingWebhook) → Keeps IsOwned (insert_webhook codec event)
  unfolding insert_webhook
  insert_webhook-Keeps event = record {
    at = λ w v.
        stored-IsOwned event.id w _ _ v
          ((add_webhook_event-Keeps event (codec.model_dump event)).at w v);
  }

  existing_or_insert-Keeps :
      (event : BillingWebhook) (found : Option WebhookEvent)
      → Keeps IsOwned (existing_or_insert codec event found)
  existing_or_insert-Keeps event (some existing) = record { at = λ w v. v }
  existing_or_insert-Keeps event none = insert_webhook-Keeps event

  pub store_webhook_event-Keeps :
      (event : BillingWebhook) → Keeps IsOwned (store_webhook_event codec event)
  unfolding store_webhook_event
  store_webhook_event-Keeps event = search (keeps_rules, existing_or_insert-Keeps)

  save_processed-Survives : (i : Uuid) (t : Timestamp) → Survives IsOwned (save_processed i t)
  save_processed-Survives i t = record { at = λ w v. IsOwned-step w _ refl refl (omega arith) v }

  save_failed-Survives : (i : Uuid) → Survives IsOwned (save_failed i)
  save_failed-Survives i = record { at = λ w v. IsOwned-step w _ refl refl (omega arith) v }

  locked_subscription-Keeps : (o : Uuid) → Keeps IsOwned (locked_subscription o)
  unfolding locked_subscription
  locked_subscription-Keeps o = search (owner_rules, found_or_default-Keeps) depth 12

  apply_webhook_event-Keeps :
      (event : WebhookEvent) → Keeps IsOwned (apply_webhook_event codec event)
  unfolding apply_webhook_event
  apply_webhook_event-Keeps event =
      search (owner_rules, locked_subscription-Keeps, save_processed-Survives) depth 24

  unless_processed-Keeps :
      (event : WebhookEvent) (done : Bool) → Keeps IsOwned (unless_processed codec event done)
  unless_processed-Keeps event true = record { at = λ w v. v }
  unless_processed-Keeps event false = apply_webhook_event-Keeps event

  process_webhook_event-Keeps : (i : Uuid) → Keeps IsOwned (process_webhook_event codec i)
  unfolding process_webhook_event
  process_webhook_event-Keeps i = search (keeps_rules, unless_processed-Keeps)

  fail_unless_processed-Keeps :
      (found : Option WebhookEvent) → Keeps IsOwned (fail_unless_processed found)
  fail_unless_processed-Keeps none = record { at = λ w v. v }
  fail_unless_processed-Keeps (some e) = search (keeps_rules, save_failed-Survives)

  mark_webhook_failed-Keeps : (i : Uuid) → Keeps IsOwned (mark_webhook_failed i)
  unfolding mark_webhook_failed
  mark_webhook_failed-Keeps i = search (keeps_rules, fail_unless_processed-Keeps)

  or_mark_failed-IsOwned :
      (i : Uuid) (r : Result (WebhookEvent × Bool)) (w : World)
      → IsOwned w
      → IsOwned (or_mark_failed i r w).1
  or_mark_failed-IsOwned i (ok outcome) w v = v
  or_mark_failed-IsOwned i (err e) w v = (Keeps-transaction _ (mark_webhook_failed-Keeps i)).at w v

  pub process_billing_webhook_job-Keeps :
      (i : Uuid) → Keeps IsOwned (process_billing_webhook_job codec i)
  unfolding process_billing_webhook_job
  process_billing_webhook_job-Keeps i = record {
    at = λ w v.
        or_mark_failed-IsOwned i _ _ ((Keeps-transaction _ (process_webhook_event-Keeps i)).at w v);
  }
