-- ===== src/Workers/Jobs/Kept.antt =====
-- The handlers of app/workers/jobs.py and the owners of the organizations.
use tenantforge.Workers.Jobs.{
  send_invitation_email, billing_handler, write_usage_rollup, build_handlers, run_handler,
  run_job_type,
}
use tenantforge.Session.Keeps.{Keeps, keeps_rules}
use tenantforge.Services.Webhooks.Ownership.{process_billing_webhook_job-Keeps}
use tenantforge.Services.Webhooks.{WebhookCodec}
use tenantforge.Services.Organizations.Ownership.{IsOwned}
use tenantforge.Model.Json.{Fields}
use tenantforge.Prelude.{inl, inr, none, Text, codes, text_eq, Bool-cases}

module _ (codec : WebhookCodec) where
  send_invitation_email-Keeps :
      (payload : Fields) → Keeps IsOwned (send_invitation_email codec payload)
  unfolding send_invitation_email
  send_invitation_email-Keeps payload = search keeps_rules depth 9

  billing_handler-Keeps : (payload : Fields) → Keeps IsOwned (billing_handler codec payload)
  unfolding billing_handler
  billing_handler-Keeps payload = search (keeps_rules, process_billing_webhook_job-Keeps) depth 9

  write_usage_rollup-Keeps : (payload : Fields) → Keeps IsOwned (write_usage_rollup codec payload)
  unfolding write_usage_rollup
  write_usage_rollup-Keeps payload = search keeps_rules depth 18

  unknown-Keeps : (payload : Fields) → Keeps IsOwned (run_handler codec none payload)
  unknown-Keeps payload = search keeps_rules

  pub run_job_type-Keeps :
      (job_type : Text) (payload : Fields) → Keeps IsOwned (run_job_type codec job_type payload)
  unfolding run_job_type build_handlers
  run_job_type-Keeps job_type payload =
      elim (Bool-cases (text_eq job_type (codes "send_invitation_email"))) [
        | inl e ↦ rw e (search (keeps_rules, send_invitation_email-Keeps) depth 9)
        | inr n1 ↦ elim (Bool-cases (text_eq job_type (codes "process_billing_webhook"))) [
          | inl e ↦ rw (n1, e) (billing_handler-Keeps payload)
          | inr n2 ↦ elim (Bool-cases (text_eq job_type (codes "write_usage_rollup"))) [
            | inl e ↦ rw (n1, n2, e) (search (keeps_rules, write_usage_rollup-Keeps) depth 9)
            | inr n3 ↦ rw (n1, n2, n3) (unknown-Keeps payload)
          ]
        ]
      ]
