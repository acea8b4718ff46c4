-- ===== src/Services/Webhooks/Failure.antt =====
-- `process_billing_webhook_job` of app/workers/jobs.py when the processing raises.
use tenantforge.Session.Rules.{transaction-err}
use tenantforge.Model.Tables.{Uuid, WebhookEvent, World}
use tenantforge.Model.Errors.{Exception, Result, err, ok}
use tenantforge.Model.Enums.{WebhookStatus, webhook_status_eq}
use tenantforge.Prelude.{
  sym, ◌≡◌, refl, ap, ◌∙◌, inl, inr, Bool, true, false, some, scalar, Bool-cases,
}
use tenantforge.Services.Webhooks.{WebhookCodec}
use tenantforge.Services.Webhooks.Processing.{
  event_is, save_failed, process_webhook_event, mark_webhook_failed, or_mark_failed,
  process_billing_webhook_job,
}
use tenantforge.Session.{transaction, ◌>>=◌}

-- An event that is not processed is marked.
mark_webhook_failed-ok :
    (i : Uuid) (w : World) (event : WebhookEvent)
    → scalar (event_is i) w.webhook_events ≡ some event
    → webhook_status_eq event.status WebhookStatus.processed ≡ false
    → (transaction (mark_webhook_failed i) w).1 ≡ save_failed event.id w
unfolding mark_webhook_failed transaction ◌>>=◌
mark_webhook_failed-ok i w event found not_processed = rw (found, not_processed) refl

module _ (codec : WebhookCodec) where
  -- A processed event is not processed again, and the call returns.
  processed_returns :
      (i : Uuid) (w : World) (event : WebhookEvent)
      → scalar (event_is i) w.webhook_events ≡ some event
      → webhook_status_eq event.status WebhookStatus.processed ≡ true
      → (transaction (process_webhook_event codec i) w).0 ≡ ok (event, false)
  unfolding process_webhook_event transaction ◌>>=◌
  processed_returns i w event found is_processed = rw (found, is_processed) refl

  raised_job :
      (i : Uuid) (w w' : World) (event : WebhookEvent) {e : Exception}
      → scalar (event_is i) w.webhook_events ≡ some event
      → (r : Result (WebhookEvent × Bool)) → (w1 : World)
      → transaction (process_webhook_event codec i) w ≡ (r, w1)
      → or_mark_failed i r w1 ≡ (err e, w')
      → w' ≡ save_failed event.id w
  raised_job i w w' event found (ok outcome) w1 runs h = absurd (cc)
  raised_job i w w' event found (err raised) w1 runs h =
      let rolled : w1 ≡ w =
        sym (ap (λ x. x.1) runs)
        ∙ transaction-err (process_webhook_event codec i) w (ap (λ x. x.0) runs) in
      elim (Bool-cases (webhook_status_eq event.status WebhookStatus.processed)) [
        | inl done ↦
            let returned = processed_returns i w event found done in
            absurd (cc (returned, ap (λ x. x.0) runs))
        | inr not_processed ↦
            sym (ap (λ x. x.1) h)
            ∙ ap (λ v. (transaction (mark_webhook_failed i) v).1) rolled
            ∙ mark_webhook_failed-ok i w event found not_processed
      ]

  -- A job that raises, for an event that exists, leaves the database as it was before the job, but
  -- for the event, whose status is failed: what the processing has flushed is rolled back.
  pub process_billing_webhook_job_failure :
      (i : Uuid) (w w' : World) (event : WebhookEvent) {e : Exception}
      → scalar (event_is i) w.webhook_events ≡ some event
      → process_billing_webhook_job codec i w ≡ (err e, w')
      → w' ≡ save_failed event.id w
  unfolding process_billing_webhook_job
  process_billing_webhook_job_failure i w w' event found h =
      let (r, w1) = transaction (process_webhook_event codec i) w in
      raised_job i w w' event found r w1 refl h
