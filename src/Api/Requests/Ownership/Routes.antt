-- ===== src/Api/Requests/Ownership/Routes.antt =====
-- Each route of app/api/routes keeps the owners of the organizations.
use tenantforge.Schemas.{Sent}
use tenantforge.Schemas.{Sent}
use tenantforge.Session.Keeps.{Keeps, keeps_rules}
use tenantforge.Services.Webhooks.Ownership.{store_webhook_event-Keeps}
use tenantforge.Services.System.Kept.{
  update_project-Keeps, update_organization-Keeps, create_project-Keeps, delete_project-Keeps,
  record_usage-Keeps, change_plan-Keeps, create_api_key-Keeps, revoke_api_key-Keeps,
  create_invitation-Keeps, accept_invitation-Keeps, register_user-Keeps, issue_tokens-Keeps,
  rotate_refresh_token-Keeps, revoke_refresh_token-Keeps,
}
use tenantforge.Services.Projects.{list_projects, get_project}
use tenantforge.Services.Organizations.Ownership.{IsOwned}
use tenantforge.Services.Organizations.{list_organizations, get_organization, list_members}
use tenantforge.Services.Billing.{get_subscription}
use tenantforge.Services.Auth.{authenticate_user}
use tenantforge.Services.Audit.{list_audit_logs}
use tenantforge.Services.ApiKeys.{list_api_keys}
use tenantforge.Security.Crypto.{Primitives, Settings}
use tenantforge.Model.Tables.{Uuid, WebhookEvent}
use tenantforge.Model.Enums.{ProjectStatus, Role, Plan}
use tenantforge.Api.Routes.Webhooks.{checked_event, process_later, billing_webhook_route}
use tenantforge.Api.Routes.Resources.{
  create_project_route, list_projects_route, get_project_route, update_project_route,
  delete_project_route, create_api_key_route, list_api_keys_route, delete_api_key_route,
  read_usage_route, create_usage_event_route, read_subscription_route, require_development_billing,
  change_plan_route, read_audit_log_route,
}
use tenantforge.Api.Routes.Organizations.{
  create_organization_route, list_organizations_route, get_organization_route,
  update_organization_route, delete_organization_route, list_members_route, update_member_route,
  delete_member_route, create_invitation_route, accept_invitation_route,
}
use tenantforge.Api.Routes.Accounts.{
  register_route, login_route, refresh_route, logout_route, me_route,
}
use tenantforge.Api.Requests.Serves.{Serves, Serves-reply, Holds-Serves, serves_rules}
use tenantforge.Api.Requests.Ownership.{
  new_uuid-IsOwned, create_organization-Returns, update_membership-Returns,
  remove_membership-Returns, delete_organization-Returns, get_usage_summary-Keeps,
  get_current_user-Serves, authorize-Serves, get_api_key_principal-Serves, enqueue_job-Holds,
  send_invitation-Holds, or_log-Serves,
}
use tenantforge.Api.Email.{Adapters}
use tenantforge.Api.Deps.{Headers}
use tenantforge.Prelude.{ℤ, Option, Bool, true, false, Text}

module _ (p : Primitives) (s : Settings) where
  authenticate_user-Keeps :
      (d address password : Text) → Keeps IsOwned (authenticate_user p s d address password)
  unfolding authenticate_user
  authenticate_user-Keeps d address password = search keeps_rules

  ruleset tenant_rules = (serves_rules, keeps_rules, authorize-Serves, get_current_user-Serves)

  pub register_route-Serves :
      (d : Text) (address password : Text) → Serves IsOwned (register_route p s d address password)
  unfolding register_route
  register_route-Serves d address password = search (tenant_rules, register_user-Keeps) depth 12

  pub login_route-Serves :
      (d : Text) (address password : Text) → Serves IsOwned (login_route p s d address password)
  unfolding login_route
  login_route-Serves d address password =
      search (tenant_rules, authenticate_user-Keeps, issue_tokens-Keeps) depth 12

  pub refresh_route-Serves : (d : Text) (raw : Text) → Serves IsOwned (refresh_route p s d raw)
  unfolding refresh_route
  refresh_route-Serves d raw = search (tenant_rules, rotate_refresh_token-Keeps) depth 12

  pub logout_route-Serves : (d : Text) (raw : Text) → Serves IsOwned (logout_route p s d raw)
  unfolding logout_route
  logout_route-Serves d raw = search (tenant_rules, revoke_refresh_token-Keeps) depth 12

  pub me_route-Serves : (d : Text) (h : Headers) → Serves IsOwned (me_route p s d h)
  unfolding me_route
  me_route-Serves d h = search tenant_rules depth 12

  pub create_organization_route-Serves :
      (h : Headers) (name slug : Text) → Serves IsOwned (create_organization_route p s h name slug)
  unfolding create_organization_route
  create_organization_route-Serves h name slug =
      search (tenant_rules, create_organization-Returns) depth 12

  pub list_organizations_route-Serves :
      (h : Headers) → Serves IsOwned (list_organizations_route p s h)
  unfolding list_organizations_route list_organizations
  list_organizations_route-Serves h = search tenant_rules depth 12

  pub get_organization_route-Serves :
      (h : Headers) (o : Uuid) → Serves IsOwned (get_organization_route p s h o)
  unfolding get_organization_route get_organization
  get_organization_route-Serves h o = search tenant_rules depth 12

  pub update_organization_route-Serves :
      (h : Headers) (o : Uuid) (name slug : Sent Text)
      → Serves IsOwned (update_organization_route p s h o name slug)
  unfolding update_organization_route
  update_organization_route-Serves h o name slug =
      search (tenant_rules, update_organization-Keeps) depth 12

  pub delete_organization_route-Serves :
      (h : Headers) (o : Uuid) → Serves IsOwned (delete_organization_route p s h o)
  unfolding delete_organization_route
  delete_organization_route-Serves h o = search (tenant_rules, delete_organization-Returns) depth 12

  pub list_members_route-Serves :
      (h : Headers) (o : Uuid) → Serves IsOwned (list_members_route p s h o)
  unfolding list_members_route list_members
  list_members_route-Serves h o = search tenant_rules depth 12

  pub update_member_route-Serves :
      (h : Headers) (o i : Uuid) (r : Role) → Serves IsOwned (update_member_route p s h o i r)
  unfolding update_member_route
  update_member_route-Serves h o i r = search (tenant_rules, update_membership-Returns) depth 12

  pub delete_member_route-Serves :
      (h : Headers) (o i : Uuid) → Serves IsOwned (delete_member_route p s h o i)
  unfolding delete_member_route
  delete_member_route-Serves h o i = search (tenant_rules, remove_membership-Returns) depth 12

  pub accept_invitation_route-Serves :
      (h : Headers) (token : Text) → Serves IsOwned (accept_invitation_route p s h token)
  unfolding accept_invitation_route
  accept_invitation_route-Serves h token = search (tenant_rules, accept_invitation-Keeps) depth 12

  pub create_project_route-Serves :
      (h : Headers) (o : Uuid) (name : Text) (description : Option Text)
      → Serves IsOwned (create_project_route p s h o name description)
  unfolding create_project_route
  create_project_route-Serves h o name description =
      search (tenant_rules, create_project-Keeps) depth 12

  pub list_projects_route-Serves :
      (h : Headers) (o : Uuid) → Serves IsOwned (list_projects_route p s h o)
  unfolding list_projects_route list_projects
  list_projects_route-Serves h o = search tenant_rules depth 12

  pub get_project_route-Serves :
      (h : Headers) (o i : Uuid) → Serves IsOwned (get_project_route p s h o i)
  unfolding get_project_route get_project
  get_project_route-Serves h o i = search tenant_rules depth 12

  pub update_project_route-Serves :
      (h : Headers) (o i : Uuid) (name description : Sent Text) (status : Sent ProjectStatus)
      → Serves IsOwned (update_project_route p s h o i name description status)
  unfolding update_project_route
  update_project_route-Serves h o i name description status =
      search (tenant_rules, update_project-Keeps) depth 12

  pub delete_project_route-Serves :
      (h : Headers) (o i : Uuid) → Serves IsOwned (delete_project_route p s h o i)
  unfolding delete_project_route
  delete_project_route-Serves h o i = search (tenant_rules, delete_project-Keeps) depth 12

  pub create_api_key_route-Serves :
      (h : Headers) (o : Uuid) (label : Text) → Serves IsOwned (create_api_key_route p s h o label)
  unfolding create_api_key_route
  create_api_key_route-Serves h o label = search (tenant_rules, create_api_key-Keeps) depth 12

  pub list_api_keys_route-Serves :
      (h : Headers) (o : Uuid) → Serves IsOwned (list_api_keys_route p s h o)
  unfolding list_api_keys_route list_api_keys
  list_api_keys_route-Serves h o = search tenant_rules depth 12

  pub delete_api_key_route-Serves :
      (h : Headers) (o i : Uuid) → Serves IsOwned (delete_api_key_route p s h o i)
  unfolding delete_api_key_route
  delete_api_key_route-Serves h o i = search (tenant_rules, revoke_api_key-Keeps) depth 12

  pub read_usage_route-Serves : (h : Headers) (o : Uuid) → Serves IsOwned (read_usage_route p s h o)
  unfolding read_usage_route
  read_usage_route-Serves h o = search (tenant_rules, get_usage_summary-Keeps) depth 12

  pub create_usage_event_route-Serves :
      (h : Headers) (o : Uuid) (amount : ℤ)
      → Serves IsOwned (create_usage_event_route p s h o amount)
  unfolding create_usage_event_route
  create_usage_event_route-Serves h o amount =
      search (tenant_rules, get_api_key_principal-Serves, record_usage-Keeps) depth 12

  pub read_subscription_route-Serves :
      (h : Headers) (o : Uuid) → Serves IsOwned (read_subscription_route p s h o)
  unfolding read_subscription_route get_subscription
  read_subscription_route-Serves h o = search tenant_rules depth 12

  pub change_plan_route-Serves :
      (h : Headers) (o : Uuid) (plan : Plan) → Serves IsOwned (change_plan_route p s h o plan)
  unfolding change_plan_route require_development_billing
  change_plan_route-Serves h o plan = search (tenant_rules, change_plan-Keeps) depth 12

  pub read_audit_log_route-Serves :
      (h : Headers) (o : Uuid) (limit offset : ℤ)
      → Serves IsOwned (read_audit_log_route p s h o limit offset)
  unfolding read_audit_log_route list_audit_logs
  read_audit_log_route-Serves h o limit offset = search tenant_rules depth 12

  module _ (adapters : Adapters) where
    pub create_invitation_route-Serves :
        (h : Headers) (o : Uuid) (address : Text) (role : Role)
        → Serves IsOwned (create_invitation_route p s adapters h o address role)
    unfolding create_invitation_route
    create_invitation_route-Serves h o address role =
        search
          (
            tenant_rules, create_invitation-Keeps, or_log-Serves, send_invitation-Holds,
            new_uuid-IsOwned,
          )
          depth 12

    checked_event-Serves :
        (h : Headers) (body : Text) → Serves IsOwned (checked_event p s adapters h body)
    unfolding checked_event
    checked_event-Serves h body = search (serves_rules, keeps_rules) depth 12

    process_later-Serves :
        (now : Bool) (event : WebhookEvent) → Serves IsOwned (process_later p s adapters now event)
    process_later-Serves true event =
        Holds-Serves _ (enqueue_job-Holds p adapters new_uuid-IsOwned _ _)
    process_later-Serves false event = Serves-reply tt

    pub billing_webhook_route-Serves :
        (h : Headers) (body : Text) → Serves IsOwned (billing_webhook_route p s adapters h body)
    unfolding billing_webhook_route
    billing_webhook_route-Serves h body =
        search (serves_rules, checked_event-Serves, store_webhook_event-Keeps, process_later-Serves)
          depth 12
