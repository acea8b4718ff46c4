-- ===== src/Workers/Jobs.antt =====
-- app/workers/jobs.py: the handlers of the jobs. Logs are left out, but the figures of the usage
-- rollup, which are its only result, are returned.
pub mod Kept
use tenantforge.Services.Webhooks.Processing.{process_billing_webhook_job}
use tenantforge.Services.Webhooks.{WebhookCodec, or_value_error, in_order}
use tenantforge.Model.Time.{Datetime}
use tenantforge.Model.Tables.{Uuid}
use tenantforge.Model.Json.{Json, Fields, str_of}
use tenantforge.Model.Errors.{Exception, Result, err, ok}
use tenantforge.Session.{◌>>=◌, ◌>>◌, Action, Done, pure, throw, gets, lift}
use tenantforge.Prelude.{ℕ, Option, none, some, [], Text, codes, text_eq, if◌then◌else◌}
use tenantforge.Model.Json
use tenantforge.Services.Usage.{api_requests_metric, usage_total}

-- `payload.get(key)` is `None` or empty.
abbrev pub present : Option Json → Result Json
present none = err Exception.value_error
present (some Json.null) = err Exception.value_error
present (some (Json.str [])) = err Exception.value_error
present (some v) = ok v

-- `_required`
unfoldable pub required : Fields → Text → Result Json
required payload key = present (Json.get key payload)

-- `_parse_time`
unfoldable pub parse_time : WebhookCodec → Option Json → Datetime → Result Datetime
parse_time codec none default = ok default
parse_time codec (some Json.null) default = ok default
parse_time codec (some (Json.str t)) default = or_value_error (codec.from_iso t)
parse_time codec (some v) default = err Exception.value_error

-- `period_end.replace(day=1, hour=0, minute=0, second=0, microsecond=0)`
abbrev pub month_start : Datetime → Datetime
month_start t = record t { day = 1; micros = 0 }

-- What the rollup logs.
pub record Rollup : Type 0 where
  pub organization_id : Uuid
  pub metric : Text
  pub quantity : ℕ
  pub period_start : Datetime
  pub period_end : Datetime

-- `payload.get("metric", "api_requests")`
abbrev pub metric_of : WebhookCodec → Option Json → Text
metric_of codec none = api_requests_metric
metric_of codec (some v) = str_of codec.json v

module _ (codec : WebhookCodec) where
  -- The recipient, the organization and the invitation of the e-mail.
  unfoldable pub send_invitation_email : Fields → Action (Text × Text × Text)
  send_invitation_email payload = do
    recipient ← lift (required payload (codes "email"))
    o ← lift (required payload (codes "organization_id"))
    i ← lift (required payload (codes "invitation_id"))
    pure (str_of codec.json recipient, str_of codec.json o, str_of codec.json i)

  -- `process_billing_webhook_job`; a text that is no UUID is a `ValueError` of both its sessions.
  unfoldable pub billing_handler : Fields → Action Done
  billing_handler payload = do
    raw ← lift (required payload (codes "webhook_event_id"))
    i ← lift (or_value_error (codec.parse_uuid (str_of codec.json raw)))
    process_billing_webhook_job codec i

  unfoldable pub write_usage_rollup : Fields → Action Rollup
  write_usage_rollup payload = do
    raw ← lift (required payload (codes "organization_id"))
    o ← lift (or_value_error (codec.parse_uuid (str_of codec.json raw)))
    now ← gets λ w. w.clock
    let metric = metric_of codec (Json.get (codes "metric") payload)
    period_end ← lift (parse_time codec (Json.get (codes "period_end") payload) now)
    period_start ←
        lift (parse_time codec (Json.get (codes "period_start") payload) (month_start period_end))
    lift (in_order period_start period_end)
    quantity ← gets (usage_total o metric period_start period_end)
    pure (record {
      organization_id = o;
      metric = metric;
      quantity = quantity;
      period_start = period_start;
      period_end = period_end;
    })

  abbrev pub unit_of : {A : Type 0} → Action A → Action Done
  unit_of m = m >>= λ _. pure tt

  -- `build_handlers`
  unfoldable pub build_handlers : Text → Option (Fields → Action Done)
  build_handlers job_type =
      if text_eq job_type (codes "send_invitation_email")
      then some (λ payload. unit_of (send_invitation_email payload))
      else if text_eq job_type (codes "process_billing_webhook")
      then some billing_handler
      else if text_eq job_type (codes "write_usage_rollup")
      then some (λ payload. unit_of (write_usage_rollup payload))
      else none

  abbrev pub run_handler : Option (Fields → Action Done) → Fields → Action Done
  run_handler none payload = throw Exception.value_error
  run_handler (some handler) payload = handler payload

  -- The `try` of `run_once` in worker.py: an unknown type is a `ValueError`.
  unfoldable pub run_job_type : Text → Fields → Action Done
  run_job_type job_type payload = run_handler (build_handlers job_type) payload
