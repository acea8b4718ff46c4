-- ===== src/Tests/Deliveries.antt =====
-- Signed webhooks, and their signatures.
use tenantforge.Services.Webhooks.Signature.Built.{verify-build}
use tenantforge.Tests.Fixtures.{settings, database}
use tenantforge.Services.Webhooks.Signature.{
  split, partition, values_of, header_values, distance, signed_payload, build_webhook_signature,
  verify_webhook_signature,
}
use tenantforge.Services.Webhooks.Processing.{
  add_webhook_event, insert_webhook, store_webhook_event,
}
use tenantforge.Services.Webhooks.{validate_webhook}
use tenantforge.Model.Time.{ordinal}
use tenantforge.Model.Errors.{ok}
use tenantforge.Model.Enums.{WebhookStatus}
use tenantforge.Infrastructure.Queue.{job_fields, to_json, create_job, enqueue}
use tenantforge.Api.Routes.Webhooks.{checked_event, billing_webhook_route}
use tenantforge.Api.Requests.Accepted.{IsStored, IsAccepted, respond-IsAccepted}
use tenantforge.Api.Email.{new_uuid, enqueue_job}
use tenantforge.Api.Deps.{Headers, unix_time}
use tenantforge.Prelude.{
  is_space, pos, ◌/◌, ◌≡◌, refl, Bool, some, [], scalar, exists, codes, text_eq, strip,
}
use tenantforge.Session.{◌>>=◌ as ◌>>==◌}
use tenantforge.Api.Responses.{Response, receipt_body}
use tenantforge.Api.Requests.{serve, respond, receives_webhook}
use tenantforge.Model.Json.{Json, JsonCodec, Fields}
use tenantforge.Api.{App, on_db, on_redis, commit_session, in_session, ◌>>=◌}
use tenantforge.Model.Json
use tenantforge.Tests.Web.{web, headers_of, signing, adapters, idle_app}

abbrev signed_headers : Headers
signed_headers = record (headers_of []) {
  stripe_signature = some (
      build_webhook_signature signing (codes "secret") (codes "{}")
        (pos (unix_time database / 1000000)));
}

abbrev delivered : App
delivered =
    (respond web settings adapters [] signed_headers (receives_webhook (codes "{}")) idle_app).1

abbrev receipt : Response
receipt = record {
  status = 202;
  body =
      receipt_body
        (record { event_id = 20; status = WebhookStatus.pending; duplicate = Bool.false });
}

respond-IsAccepted_example :
    (a : IsAccepted web settings adapters database signed_headers (codes "{}")) × IsStored
      a.event.id delivered.saved
unfolding serve billing_webhook_route checked_event verify_webhook_signature ordinal
    build_webhook_signature header_values split values_of partition distance signed_payload
    validate_webhook store_webhook_event insert_webhook add_webhook_event enqueue_job new_uuid
    create_job enqueue to_json job_fields commit_session on_redis on_db in_session Json.get scalar
    exists text_eq strip ◌>>=◌ ◌>>==◌
respond-IsAccepted_example =
    respond-IsAccepted web settings adapters [] signed_headers (codes "{}") idle_app
      {answered = receipt} {app' = delivered} refl

-- Read five microseconds later.
verify-build_example :
    verify_webhook_signature signing
      (codes "secret")
      (codes "{}")
      (some (build_webhook_signature signing (codes "secret") (codes "{}") (pos 65)))
      65000005
      300
    ≡ ok tt
unfolding signed_payload distance text_eq is_space
verify-build_example =
    verify-build signing (codes "secret") (codes "secret") (codes "{}") (codes "{}") (pos 65)
      65000005 300 (refl, refl, tt)
      (
        refl,
        refl,
        (
          refl,
          refl,
          (
            refl,
            refl,
            (
              refl,
              refl,
              (
                refl,
                refl,
                (refl, refl, (refl, refl, (refl, refl, (refl, refl, (refl, refl, tt))))),
              ),
            ),
          ),
        ),
      )
      refl
