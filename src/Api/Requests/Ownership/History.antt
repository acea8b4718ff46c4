-- ===== src/Api/Requests/Ownership/History.antt =====
-- Histories of the application, and its invariant.
use tenantforge.Workers.Jobs.Kept.{run_job_type-Keeps}
use tenantforge.Workers.Jobs.{run_job_type}
use tenantforge.Model.Json.{Fields}
use tenantforge.Infrastructure.RateLimit.{Counter}
use tenantforge.Services.Organizations.Ownership.{IsOwned}
use tenantforge.Security.Crypto.{Primitives, Settings}
use tenantforge.Model.Time.{Datetime, stamp}
use tenantforge.Model.Tables.{Uuid}
use tenantforge.Infrastructure.Queue.{Redis}
use tenantforge.Api.Requests.Serves.{Serves, in_session-keeps}
use tenantforge.Api.Requests.Ownership.Routes.{
  register_route-Serves, login_route-Serves, refresh_route-Serves, logout_route-Serves,
  me_route-Serves, create_organization_route-Serves, list_organizations_route-Serves,
  get_organization_route-Serves, update_organization_route-Serves, delete_organization_route-Serves,
  list_members_route-Serves, update_member_route-Serves, delete_member_route-Serves,
  accept_invitation_route-Serves, create_project_route-Serves, list_projects_route-Serves,
  get_project_route-Serves, update_project_route-Serves, delete_project_route-Serves,
  create_api_key_route-Serves, list_api_keys_route-Serves, delete_api_key_route-Serves,
  read_usage_route-Serves, create_usage_event_route-Serves, read_subscription_route-Serves,
  change_plan_route-Serves, read_audit_log_route-Serves, create_invitation_route-Serves,
  billing_webhook_route-Serves,
}
use tenantforge.Api.Requests.{
  Request, TenantRequest, serve_tenant, serve, respond, reads_organization, drops_organization,
  lists_members, patches_organization, patches_member, drops_member, invites, lists_projects,
  lists_api_keys, reads_usage, reads_subscription, adds_project, reads_project, drops_project,
  drops_api_key, patches_project, adds_api_key, switches_plan, reads_audit_log, registers, logs_in,
  refreshes, logs_out, reads_me, lists_organizations, adds_organization, joins, meters,
  receives_webhook, in_organization,
}
use tenantforge.Api.Email.{Adapters}
use tenantforge.Api.Deps.{Headers}
use tenantforge.Api.{App}
use tenantforge.Prelude.{◌≤◌, Bool, List, Text}

module _ (p : Primitives) (s : Settings) (adapters : Adapters) (dummy_password_hash : Text) where
  -- What may happen: a request is served, a worker runs a job, Redis changes
  -- (by the workers, by expiry, by an outage), or time passes.
  pub data Happens (app : App) : App → Type 0 where
    served :
        (h : Headers) (r : Request)
        → Happens app (respond p s adapters dummy_password_hash h r app).1
    ran_job :
        (job_type : Text) (payload : Fields)
        → Happens app
            (record app { saved = (run_job_type adapters.webhooks job_type payload app.saved).1 })
    redis_changed :
        (counters : List Counter) (redis : Redis) (outages : List Bool)
        → Happens app (record app { counters = counters; redis = redis; outages = outages })
    time_passed :
        (t : Datetime)
        → stamp app.saved.clock ≤ stamp t
        → Happens app (record app { saved = record (app.saved) { clock = t } })

  pub data History (app : App) : App → Type 0 where
    start : History app app
    then_happens : {app1 app2 : App} → History app app1 → Happens app1 app2 → History app app2

  tenant-Serves :
      (h : Headers) (o : Uuid) (r : TenantRequest)
      → Serves IsOwned (serve_tenant p s adapters dummy_password_hash h o r)
  unfolding serve_tenant
  tenant-Serves h o reads_organization = get_organization_route-Serves p s h o
  tenant-Serves h o (patches_organization name slug) =
      update_organization_route-Serves p s h o name slug
  tenant-Serves h o drops_organization = delete_organization_route-Serves p s h o
  tenant-Serves h o lists_members = list_members_route-Serves p s h o
  tenant-Serves h o (patches_member i r) = update_member_route-Serves p s h o i r
  tenant-Serves h o (drops_member i) = delete_member_route-Serves p s h o i
  tenant-Serves h o (invites address role) =
      create_invitation_route-Serves p s adapters h o address role
  tenant-Serves h o (adds_project name description) =
      create_project_route-Serves p s h o name description
  tenant-Serves h o lists_projects = list_projects_route-Serves p s h o
  tenant-Serves h o (reads_project i) = get_project_route-Serves p s h o i
  tenant-Serves h o (patches_project i name description status) =
      update_project_route-Serves p s h o i name description status
  tenant-Serves h o (drops_project i) = delete_project_route-Serves p s h o i
  tenant-Serves h o (adds_api_key label) = create_api_key_route-Serves p s h o label
  tenant-Serves h o lists_api_keys = list_api_keys_route-Serves p s h o
  tenant-Serves h o (drops_api_key i) = delete_api_key_route-Serves p s h o i
  tenant-Serves h o reads_usage = read_usage_route-Serves p s h o
  tenant-Serves h o reads_subscription = read_subscription_route-Serves p s h o
  tenant-Serves h o (switches_plan plan) = change_plan_route-Serves p s h o plan
  tenant-Serves h o (reads_audit_log limit offset) =
      read_audit_log_route-Serves p s h o limit offset

  serve-Serves :
      (h : Headers) (r : Request) → Serves IsOwned (serve p s adapters dummy_password_hash h r)
  unfolding serve
  serve-Serves h (registers address password) =
      register_route-Serves p s dummy_password_hash address password
  serve-Serves h (logs_in address password) =
      login_route-Serves p s dummy_password_hash address password
  serve-Serves h (refreshes raw) = refresh_route-Serves p s dummy_password_hash raw
  serve-Serves h (logs_out raw) = logout_route-Serves p s dummy_password_hash raw
  serve-Serves h reads_me = me_route-Serves p s dummy_password_hash h
  serve-Serves h lists_organizations = list_organizations_route-Serves p s h
  serve-Serves h (adds_organization name slug) = create_organization_route-Serves p s h name slug
  serve-Serves h (joins token) = accept_invitation_route-Serves p s h token
  serve-Serves h (meters o quantity) = create_usage_event_route-Serves p s h o quantity
  serve-Serves h (receives_webhook body) = billing_webhook_route-Serves p s adapters h body
  serve-Serves h (in_organization o r) = tenant-Serves h o r

  Happens-IsOwned : (app app' : App) → Happens app app' → IsOwned app.saved → IsOwned app'.saved
  Happens-IsOwned app _ (served h r) v =
      in_session-keeps (serve p s adapters dummy_password_hash h r) (serve-Serves h r) app v
  Happens-IsOwned app _ (ran_job job_type payload) v =
      (run_job_type-Keeps adapters.webhooks job_type payload).at app.saved v
  Happens-IsOwned app _ (redis_changed counters redis outages) v = v
  Happens-IsOwned app _ (time_passed t later) v = record { owners = v.owners; ids = v.ids }

  -- Start from a committed database in which every organization has an owner and the membership
  -- keys fall along the table, below the next fresh one. After any history of requests (with any
  -- headers, answered or refused, by sessions that commit in the middle too), of jobs of the
  -- workers that succeed or fail, of changes of Redis and of moves of the clock, both are still so.
  pub History-IsOwned : (app app' : App) → History app app' → IsOwned app.saved → IsOwned app'.saved
  History-IsOwned app _ start v = v
  History-IsOwned app app' (then_happens {app1 = app1} before last) v =
      Happens-IsOwned app1 app' last (History-IsOwned app app1 before v)
