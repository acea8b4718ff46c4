-- ===== src/Api/Email.antt =====
-- app/services/email.py, and the enqueuing of a job by a route. Formats that other packages
-- define are parameters.
use tenantforge.Session.{Action, Done, gets}
use tenantforge.Services.Webhooks.Signature.{Signing}
use tenantforge.Services.Webhooks.{BillingWebhook, WebhookCodec}
use tenantforge.Security.Crypto.{Primitives}
use tenantforge.Model.Time.{Datetime}
use tenantforge.Model.Tables.{Uuid, Invitation}
use tenantforge.Model.Json.{Json, Fields}
use tenantforge.Api.{Endpoint, fail, on_db, on_redis, ◌>>=◌, answer}
use tenantforge.Prelude.{◌+◌, Option, [], ◌∷◌, Text, codes}
use tenantforge.Model.Errors.{Exception, Result, err, ok, redis_error}
use tenantforge.Infrastructure.Queue.{Parsed, Job, create_job, enqueue, parsed, failed}

-- `datetime.isoformat`, and `BillingWebhook.model_validate_json`, which is `none` on a
-- `ValidationError`; the codecs of the queue and of the webhooks.
pub record Adapters : Type 0 where
  pub signing : Signing
  pub webhooks : WebhookCodec
  pub isoformat : Datetime → Text
  pub validate_json : Text → Option BillingWebhook

-- `uuid.uuid4()`
unfoldable pub new_uuid : Action Uuid
new_uuid w = (ok w.next_uuid, record w { next_uuid = w.next_uuid + 1 })

abbrev pub created_job : Parsed Job → Result Job
created_job (parsed job) = ok job
created_job (failed problem) = err Exception.value_error

module _ (p : Primitives) (adapters : Adapters) where
  -- `RedisJobQueue(redis).enqueue(job_type, payload)`
  unfoldable pub enqueue_job : Text → Fields → Endpoint Done
  enqueue_job job_type payload = do
    job_id ← on_db new_uuid
    now ← on_db (gets λ w. adapters.isoformat w.clock)
    job ←
        answer
          (created_job (create_job adapters.webhooks.json (p.uuid_str job_id) now job_type payload))
    on_redis λ app. (ok tt, record app { redis = enqueue adapters.webhooks.json job app.redis })

  abbrev pub invitation_fields : Invitation → Fields
  invitation_fields i = Fields.field (codes "email") (Json.str i.email) (
      Fields.field (codes "organization_id") (Json.str (p.uuid_str i.organization_id))
        (Fields.field (codes "invitation_id") (Json.str (p.uuid_str i.id)) Fields.end))

  -- `DevelopmentEmailSender.send_invitation`; a `RedisError` stands for `InvitationDeliveryError`.
  unfoldable pub send_invitation : Invitation → Text → Endpoint Done
  send_invitation i [] = fail Exception.value_error
  send_invitation i (c ∷ token) = enqueue_job (codes "send_invitation_email") (invitation_fields i)

  abbrev pub logged : Result Done → Result Done
  logged (err redis_error) = ok tt
  logged r = r

  -- `except InvitationDeliveryError:`, which is logged.
  unfoldable pub or_log : Endpoint Done → Endpoint Done
  or_log m app = let (r, app') = m app in (logged r, app')
