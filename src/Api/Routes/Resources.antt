-- ===== src/Api/Routes/Resources.antt =====
-- app/api/routes/projects.py, api_keys.py, usage.py, billing.py and audit.py.
use tenantforge.Schemas.{
  Sent, project_create, project_update, api_key_create, usage_event_create, audit_query,
}
use tenantforge.Session.{Done}
use tenantforge.Services.Usage.{api_requests_metric, get_usage_summary, record_usage}
use tenantforge.Services.Projects.{
  create_project, list_projects, get_project, update_project, delete_project,
}
use tenantforge.Services.Organizations.{owner_or_admin, only_owner}
use tenantforge.Services.Billing.{get_subscription, change_plan}
use tenantforge.Services.Audit.{list_audit_logs}
use tenantforge.Services.ApiKeys.{list_api_keys, revoke_api_key, create_api_key}
use tenantforge.Security.Crypto.{Primitives, Settings}
use tenantforge.Model.Tables.{Uuid}
use tenantforge.Model.Errors.{not_found_error, organization_not_found, billing_adapter_unavailable}
use tenantforge.Model.Enums.{ProjectStatus, Plan}
use tenantforge.Api.Responses.{
  read_api_key, Response, success, created, deleted, project_body, projects_body, created_key_body,
  api_keys_body, usage_body, usage_event_body, subscription_body, audit_body,
}
use tenantforge.Api.Deps.{Headers, get_api_key_principal, authorize, any_role}
use tenantforge.Api.{validated, Endpoint, reply, on_db, ◌>>=◌, ◌>>◌, demand}
use tenantforge.Prelude.{ℤ, Option, ◌||◌, none, map, Text, codes, text_eq, lower, ◌==◌}

module _ (p : Primitives) (s : Settings) where
  unfoldable pub create_project_route : Headers → Uuid → Text → Option Text → Endpoint Response
  create_project_route headers o name description = do
    caller ← authorize p s any_role headers o
    payload ← validated (project_create name description)
    project ← on_db (create_project o caller.user.id payload)
    reply (created (project_body project))

  unfoldable pub list_projects_route : Headers → Uuid → Endpoint Response
  list_projects_route headers o = do
    caller ← authorize p s any_role headers o
    projects ← on_db (list_projects o caller.user.id)
    reply (success (projects_body projects))

  unfoldable pub get_project_route : Headers → Uuid → Uuid → Endpoint Response
  get_project_route headers o i = do
    caller ← authorize p s any_role headers o
    project ← on_db (get_project o i caller.user.id)
    reply (success (project_body project))

  unfoldable pub update_project_route :
      Headers → Uuid → Uuid → Sent Text → Sent Text → Sent ProjectStatus → Endpoint Response
  update_project_route headers o i name description status = do
    caller ← authorize p s any_role headers o
    payload ← validated (project_update name description status)
    project ← on_db (update_project o i caller.user.id payload)
    reply (success (project_body project))

  unfoldable pub delete_project_route : Headers → Uuid → Uuid → Endpoint Response
  delete_project_route headers o i = do
    caller ← authorize p s any_role headers o
    on_db (delete_project o i caller.user.id)
    reply deleted

  unfoldable pub create_api_key_route : Headers → Uuid → Text → Endpoint Response
  create_api_key_route headers o name = do
    caller ← authorize p s only_owner headers o
    label ← validated (api_key_create name)
    made ← on_db (create_api_key p o caller.user.id label)
    reply (created (created_key_body (read_api_key made.0) made.1))

  unfoldable pub list_api_keys_route : Headers → Uuid → Endpoint Response
  list_api_keys_route headers o = do
    caller ← authorize p s only_owner headers o
    keys ← on_db (list_api_keys o caller.user.id)
    reply (success (api_keys_body (map read_api_key keys)))

  unfoldable pub delete_api_key_route : Headers → Uuid → Uuid → Endpoint Response
  delete_api_key_route headers o i = do
    caller ← authorize p s only_owner headers o
    on_db (revoke_api_key o i caller.user.id)
    reply deleted

  unfoldable pub read_usage_route : Headers → Uuid → Endpoint Response
  read_usage_route headers o = do
    caller ← authorize p s any_role headers o
    summary ← on_db (get_usage_summary caller.membership.organization_id api_requests_metric none)
    reply (success (usage_body summary))

  -- The only route of an API key.
  unfoldable pub create_usage_event_route : Headers → Uuid → ℤ → Endpoint Response
  create_usage_event_route headers o amount = do
    principal ← get_api_key_principal p s headers
    quantity ← validated (usage_event_create amount)
    demand (principal.organization_id == o) (not_found_error organization_not_found)
    event ← on_db (record_usage principal.organization_id api_requests_metric quantity none)
    reply (created (usage_event_body event))

  unfoldable pub read_subscription_route : Headers → Uuid → Endpoint Response
  read_subscription_route headers o = do
    caller ← authorize p s only_owner headers o
    subscription ← on_db (get_subscription caller.membership.organization_id)
    reply (success (subscription_body subscription))

  -- `require_development_billing`
  unfoldable pub require_development_billing : Endpoint Done
  require_development_billing =
      demand
        (text_eq (lower s.app_env) (codes "development")
          || text_eq (lower s.app_env) (codes "test"))
        (not_found_error billing_adapter_unavailable)

  unfoldable pub change_plan_route : Headers → Uuid → Plan → Endpoint Response
  change_plan_route headers o plan = do
    caller ← authorize p s only_owner headers o
    require_development_billing
    subscription ← on_db (
        change_plan caller.membership.organization_id plan caller.membership.user_id
          headers.client_host none)
    reply (success (subscription_body subscription))

  unfoldable pub read_audit_log_route : Headers → Uuid → ℤ → ℤ → Endpoint Response
  read_audit_log_route headers o limit offset = do
    caller ← authorize p s owner_or_admin headers o
    page ← validated (audit_query limit offset)
    entries ← on_db (list_audit_logs caller.membership.organization_id page.0 page.1)
    reply (success (audit_body entries))
