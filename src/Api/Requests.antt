-- ===== src/Api/Requests.antt =====
-- The routes as one function of a request: the router of app/main.py with its paths and methods as
-- constructors.
pub mod Rules
pub mod Access
pub mod Refusals
pub mod Serves
pub mod Ownership
pub mod Accepted
pub mod Isolation
pub mod Keyed
use tenantforge.Schemas.{Sent}
use tenantforge.Schemas.{Sent}
use tenantforge.Services.Projects.{ProjectCreate, ProjectUpdate}
use tenantforge.Services.Organizations.{OrganizationCreate, OrganizationUpdate}
use tenantforge.Services.Invitations.{InvitationCreate}
use tenantforge.Security.Crypto.{Primitives, Settings}
use tenantforge.Model.Tables.{Uuid}
use tenantforge.Model.Enums.{ProjectStatus, Role, Plan, owner, admin, member}
use tenantforge.Api.Routes.Webhooks.{billing_webhook_route}
use tenantforge.Api.Routes.Resources.{
  create_project_route, list_projects_route, get_project_route, update_project_route,
  delete_project_route, create_api_key_route, list_api_keys_route, delete_api_key_route,
  read_usage_route, create_usage_event_route, read_subscription_route, change_plan_route,
  read_audit_log_route,
}
use tenantforge.Api.Routes.Organizations.{
  create_organization_route, list_organizations_route, get_organization_route,
  update_organization_route, delete_organization_route, list_members_route, update_member_route,
  delete_member_route, create_invitation_route, accept_invitation_route,
}
use tenantforge.Api.Routes.Accounts.{
  register_route, login_route, refresh_route, logout_route, me_route,
}
use tenantforge.Api.Responses.{Response}
use tenantforge.Api.Email.{Adapters}
use tenantforge.Api.Deps.{Headers}
use tenantforge.Api.{Endpoint, in_session}
use tenantforge.Prelude.{none, some, ℤ, Option, ℕ, Bool, Text, leb}

-- A request under /organizations/{organization_id} of a user.
pub data TenantRequest : Type 0 where
  reads_organization drops_organization lists_members : TenantRequest
  patches_organization : Sent Text → Sent Text → TenantRequest
  patches_member : Uuid → Role → TenantRequest
  drops_member : Uuid → TenantRequest
  invites : Text → Role → TenantRequest
  lists_projects lists_api_keys reads_usage reads_subscription : TenantRequest
  adds_project : Text → Option Text → TenantRequest
  reads_project drops_project drops_api_key : Uuid → TenantRequest
  patches_project : Uuid → Sent Text → Sent Text → Sent ProjectStatus → TenantRequest
  adds_api_key : Text → TenantRequest
  switches_plan : Plan → TenantRequest
  reads_audit_log : ℤ → ℤ → TenantRequest

pub data Request : Type 0 where
  registers logs_in : Text → Text → Request
  refreshes logs_out : Text → Request
  reads_me lists_organizations : Request
  adds_organization : Text → Text → Request
  joins : Text → Request
  meters : Uuid → ℤ → Request
  receives_webhook : Text → Request
  in_organization : Uuid → TenantRequest → Request

-- The organization in the path of a request, /organizations/{organization_id}/...
abbrev pub tenant_of : Request → Option Uuid
tenant_of (in_organization o r) = some o
tenant_of (meters o quantity) = some o
tenant_of r = none

module _ (p : Primitives) (s : Settings) (adapters : Adapters) (dummy_password_hash : Text) where
  unfoldable pub serve_tenant : Headers → Uuid → TenantRequest → Endpoint Response
  serve_tenant h o reads_organization = get_organization_route p s h o
  serve_tenant h o (patches_organization name slug) = update_organization_route p s h o name slug
  serve_tenant h o drops_organization = delete_organization_route p s h o
  serve_tenant h o lists_members = list_members_route p s h o
  serve_tenant h o (patches_member i r) = update_member_route p s h o i r
  serve_tenant h o (drops_member i) = delete_member_route p s h o i
  serve_tenant h o (invites address role) = create_invitation_route p s adapters h o address role
  serve_tenant h o (adds_project name description) = create_project_route p s h o name description
  serve_tenant h o lists_projects = list_projects_route p s h o
  serve_tenant h o (reads_project i) = get_project_route p s h o i
  serve_tenant h o (patches_project i name description status) =
      update_project_route p s h o i name description status
  serve_tenant h o (drops_project i) = delete_project_route p s h o i
  serve_tenant h o (adds_api_key label) = create_api_key_route p s h o label
  serve_tenant h o lists_api_keys = list_api_keys_route p s h o
  serve_tenant h o (drops_api_key i) = delete_api_key_route p s h o i
  serve_tenant h o reads_usage = read_usage_route p s h o
  serve_tenant h o reads_subscription = read_subscription_route p s h o
  serve_tenant h o (switches_plan plan) = change_plan_route p s h o plan
  serve_tenant h o (reads_audit_log limit offset) = read_audit_log_route p s h o limit offset

  unfoldable pub serve : Headers → Request → Endpoint Response
  serve h (registers address password) = register_route p s dummy_password_hash address password
  serve h (logs_in address password) = login_route p s dummy_password_hash address password
  serve h (refreshes raw) = refresh_route p s dummy_password_hash raw
  serve h (logs_out raw) = logout_route p s dummy_password_hash raw
  serve h reads_me = me_route p s dummy_password_hash h
  serve h lists_organizations = list_organizations_route p s h
  serve h (adds_organization name slug) = create_organization_route p s h name slug
  serve h (joins token) = accept_invitation_route p s h token
  serve h (meters o quantity) = create_usage_event_route p s h o quantity
  serve h (receives_webhook body) = billing_webhook_route p s adapters h body
  serve h (in_organization o r) = serve_tenant h o r

  -- A request in its session.
  abbrev pub respond : Headers → Request → Endpoint Response
  respond h r = in_session (serve h r)

-- The least role that may make a request.
abbrev pub least_role : TenantRequest → Role
least_role (patches_organization name slug) = admin
least_role drops_organization = owner
least_role (patches_member i r) = admin
least_role (drops_member i) = admin
least_role (invites address role) = admin
least_role (adds_api_key label) = owner
least_role lists_api_keys = owner
least_role (drops_api_key i) = owner
least_role reads_subscription = owner
least_role (switches_plan plan) = owner
least_role (reads_audit_log limit offset) = admin
least_role r = member

abbrev pub rank : Role → ℕ
rank owner = 2
rank admin = 1
rank member = 0

abbrev pub may : TenantRequest → Role → Bool
may r role = leb (rank (least_role r)) (rank role)
