-- ===== src/Services/Webhooks/Idempotence.antt =====
-- A billing event of app/services/webhooks.py is applied once, however often it is delivered or its
-- job is run.
use tenantforge.Workers.Jobs.{present}
use tenantforge.Session.Keeps.{Keeps, keeps_rules}
use tenantforge.Services.Rows.{add_subscription}
use tenantforge.Services.Billing.{create_default_subscription}
use tenantforge.Model.Enums.{WebhookStatus, webhook_status_eq, Plan, SubscriptionStatus}
use tenantforge.Session.Rules.{or_error-ok, on-bind, on-read, on-step, on-modify}
use tenantforge.Session.{◌>>=◌, pure}
use tenantforge.Services.Audit.Rules.{on-audit}
use tenantforge.Model.Time.{Timestamp, Datetime, aware}
use tenantforge.Model.Tables.{Uuid, Subscription, WebhookEvent, World}
use tenantforge.Model.Errors.{Result, ok}
use tenantforge.Prelude.{
  ◌∙◌, true, scalar-update_found, sym, ap, inl, inr, Option, none, some, arith, scalar,
  exists-scalar, text_eq_refl, Option-cases, ◌≡◌, refl, Bool, false,
}
use tenantforge.Services.Webhooks.{provider_name, BillingWebhook, WebhookCodec}
use tenantforge.Services.Webhooks.Processing.{
  unless_processed, event_is, process_webhook_event, event_is, webhook_is, save_processed,
  apply_webhook_event, process_webhook_event, store_webhook_event, insert_webhook,
  add_webhook_event, locked_subscription,
}

-- The events and the clock of a world.
abbrev SameEvents : World → World → Type 0
SameEvents w v = (v.webhook_events ≡ w.webhook_events) × (v.clock ≡ w.clock)

add_subscription-Keeps-SameEvents :
    (w : World) (o : Uuid) (plan : Plan) (status : SubscriptionStatus) (a b : Timestamp)
    → Keeps (SameEvents w) (add_subscription o plan status a b)
unfolding add_subscription
add_subscription-Keeps-SameEvents w o plan status a b = record {
  at = λ v h. (ground arith, ground arith);
}

default-Keeps-SameEvents :
    (w : World) (o : Uuid) (now : Option Timestamp)
    → Keeps (SameEvents w) (create_default_subscription o now)
unfolding create_default_subscription
default-Keeps-SameEvents w o now = search (keeps_rules, add_subscription-Keeps-SameEvents) depth 9

found_or_default-Keeps-SameEvents :
    (w : World) (o : Uuid) (found : Option Subscription)
    → Keeps (SameEvents w) (elim found [
      | some subscription ↦ pure subscription
      | none ↦ create_default_subscription o none
    ])
found_or_default-Keeps-SameEvents w o (some s) = search keeps_rules
found_or_default-Keeps-SameEvents w o none = default-Keeps-SameEvents w o none

locked_subscription-Keeps-SameEvents :
    (w : World) (o : Uuid) → Keeps (SameEvents w) (locked_subscription o)
unfolding locked_subscription
locked_subscription-Keeps-SameEvents w o =
    search (keeps_rules, found_or_default-Keeps-SameEvents) depth 9

module _ (codec : WebhookCodec) where
  new_event_found :
      (event : BillingWebhook) (w w' : World) {row : WebhookEvent} {created : Bool}
      → scalar (webhook_is event.id) w.webhook_events ≡ none
      → insert_webhook codec event w ≡ (ok (row, created), w')
      → scalar (webhook_is event.id) w'.webhook_events ≡ some row
  unfolding insert_webhook add_webhook_event scalar
  new_event_found event w w' {row} {created} absent h =
      let free_id = exists-scalar (webhook_is event.id) w.webhook_events absent in
      let run : ◌≡◌ {A = Result (WebhookEvent × Bool) × World} _ (ok (row, created), w') =
        rw free_id at h in
      ground (arith, run, text_eq_refl event.id, text_eq_refl provider_name)

  stored_found :
      (event : BillingWebhook) (w w' : World) {row : WebhookEvent} {created : Bool}
      → store_webhook_event codec event w ≡ (ok (row, created), w')
      → scalar (webhook_is event.id) w'.webhook_events ≡ some row
  unfolding store_webhook_event
  stored_found event w w' {row} {created} h = on-step _ _ _ h refl λ h.
      elim (Option-cases (scalar (webhook_is event.id) w.webhook_events)) [
        | inl absent ↦ new_event_found event w w' absent (rw absent at h)
        | inr present ↦
            let run = rw present.1 at h in
            let world_is : w ≡ w' = ap (λ x. x.1) run in
            let row_is : present.0 ≡ row = cc run in rw (sym world_is) (present.1 ∙ ap some row_is)
      ]

  -- A second delivery of an event that was stored, before which only the clock moves, finds its row:
  -- no row is added, and the call reports a duplicate.
  pub store_webhook_event_once :
      (event again : BillingWebhook) (w w' : World) (later : Datetime) {row : WebhookEvent}
      {created : Bool}
      → again.id ≡ event.id
      → store_webhook_event codec event w ≡ (ok (row, created), w')
      → store_webhook_event codec again (record w' { clock = later })
        ≡ (ok (row, false), record w' { clock = later })
  unfolding store_webhook_event ◌>>=◌
  store_webhook_event_once event again w w' later {row} {created} same h =
      rw (same, stored_found event w w' h) refl

  -- The table of events after an application.
  apply_webhook_event-ok :
      (event : WebhookEvent) (w w' : World) {e : WebhookEvent} {applied : Bool}
      → apply_webhook_event codec event w ≡ (ok (e, applied), w')
      → w'.webhook_events ≡ (save_processed event.id (aware w.clock) w).webhook_events
  unfolding apply_webhook_event
  apply_webhook_event-ok event w w' h = on-step _ _ _ h refl λ h.
      on-read _ _ _ h refl λ parsed_event _ h. on-read _ _ _ h refl λ object _ h.
        on-read _ _ _ h refl λ o _ h. on-bind _ _ _ h λ old w1 locked h.
          on-read _ _ _ h refl λ period _ h. on-read _ _ _ h refl λ changed _ h.
            on-read _ _ _ h refl λ claimed _ h. on-read _ _ _ h refl λ _ _ h.
              on-audit _ _ _ _ _ _ _ _ _ (on-modify _ _ _ h) λ _ h.
                let kept = (locked_subscription-Keeps-SameEvents w o).at w (refl, refl) in
                let same : w1.webhook_events ≡ w.webhook_events =
                  rw (ap (λ x. x.1) locked) at kept.0 in
                rw (sym same) (sym (ap (λ x. x.1.webhook_events) (on-modify _ _ _ h)))

  -- The event that is found after its processing.
  record Processed (i : Uuid) (w' : World) : Type 0 where
    event : WebhookEvent
    found : scalar (event_is i) w'.webhook_events ≡ some event
    status_is : webhook_status_eq event.status WebhookStatus.processed ≡ true

  processed_after :
      (i : Uuid) (w w' : World) (event : WebhookEvent) {e : WebhookEvent} {applied : Bool}
      → scalar (event_is i) w.webhook_events ≡ some event
      → (b : Bool) → webhook_status_eq event.status WebhookStatus.processed ≡ b
      → unless_processed codec event b w ≡ (ok (e, applied), w')
      → Processed i w'
  processed_after i w w' event found true is_processed h =
      let world_is : w ≡ w' = ap (λ x. x.1) h in
      record { event = event; found = rw (sym world_is) found; status_is = is_processed }
  processed_after i w w' event found false not_processed h = record {
    event = record event { status = WebhookStatus.processed; processed_at = some (aware w.clock) };
    found = rw (apply_webhook_event-ok event w w' h) (
        scalar-update_found (λ e. e.id) (event_is i)
          (λ e. record e { status = WebhookStatus.processed; processed_at = some (aware w.clock) })
          w.webhook_events event (λ x. refl) found);
    status_is = refl;
  }

  process-Processed :
      (i : Uuid) (w w' : World) {e : WebhookEvent} {applied : Bool}
      → process_webhook_event codec i w ≡ (ok (e, applied), w')
      → Processed i w'
  unfolding process_webhook_event
  process-Processed i w w' h =
      on-read _ _ _ h refl
        λ event found h. processed_after i w w' event (or_error-ok _ _ found) _ refl h

  -- After a processing that returned, to process the event again, at any later time (only the clock
  -- moves until then), finds it processed and writes nothing.
  pub process_webhook_event_once :
      (i : Uuid) (w w' : World) (later : Datetime) {e : WebhookEvent} {applied : Bool}
      → process_webhook_event codec i w ≡ (ok (e, applied), w')
      → (event : WebhookEvent) × (webhook_status_eq event.status WebhookStatus.processed ≡ true)
        × (process_webhook_event codec i (record w' { clock = later })
            ≡ (ok (event, false), record w' { clock = later }))
  unfolding process_webhook_event ◌>>=◌
  process_webhook_event_once i w w' later h =
      let c = process-Processed i w w' h in (c.event, c.status_is, rw (c.found, c.status_is) refl)
