-- ===== src/Api/Requests/Isolation/Tenants.antt =====
-- The requests under an organization, one by one, and the rows of the other organizations.
use tenantforge.Api.Requests.Isolation.Meters.{meters-Leaves}
use tenantforge.Services.Isolation.Organizations.{
  update_membership-Apart, remove_membership-Apart, update_organization-Apart,
  delete_organization-Apart,
}
use tenantforge.Services.Isolation.Changes.{
  create_project-Apart, create_api_key-Apart, create_invitation-Apart, update_project-Apart,
  delete_project-Apart, revoke_api_key-Apart,
}
use tenantforge.Services.Isolation.{TenantKeys, Apart}
use tenantforge.Services.Usage.{get_usage_summary}
use tenantforge.Services.Isolation.Plans.{change_plan-Apart}
use tenantforge.Services.Billing.{get_subscription}
use tenantforge.Model.Errors.{ok}
use tenantforge.Model.Enums.{Role}
use tenantforge.Api.Requests.Access.{authorize-scope}
use tenantforge.Api.{in_session, App}
use tenantforge.Session.Keeps.{keeps_rules}
use tenantforge.Services.Projects.{list_projects, get_project}
use tenantforge.Services.Organizations.Deletion.{tenant_rows, TenantRows}
use tenantforge.Services.Organizations.{get_organization, owner_or_admin, only_owner, list_members}
use tenantforge.Services.Audit.{list_audit_logs}
use tenantforge.Services.ApiKeys.{list_api_keys}
use tenantforge.Security.Crypto.{Primitives, Settings}
use tenantforge.Model.Tables.{Uuid}
use tenantforge.Api.Routes.Resources.{
  read_usage_route, read_subscription_route, require_development_billing, change_plan_route,
  create_project_route, list_projects_route, get_project_route, update_project_route,
  delete_project_route, create_api_key_route, list_api_keys_route, delete_api_key_route,
  read_audit_log_route,
}
use tenantforge.Api.Routes.Organizations.{
  create_invitation_route, get_organization_route, update_organization_route,
  delete_organization_route, list_members_route, update_member_route, delete_member_route,
}
use tenantforge.Api.Requests.Serves.{
  closed_keeps, Serves-demand, Serves-commit_session, Serves-bind, Serves-reply, Serves-validated,
}
use tenantforge.Api.Requests.Ownership.{send_invitation-Holds, or_log-Serves, authorize-Serves}
use tenantforge.Api.Requests.Isolation.{
  Guarded, Leaves-first, new_uuid-Apart, Leaves, Leaves-after, Leaves-service, Leaves-kept,
}
use tenantforge.Api.Requests.{
  tenant_of, registers, logs_in, refreshes, logs_out, reads_me, lists_organizations,
  adds_organization, joins, meters, receives_webhook, serve, respond, in_organization, invites,
  reads_usage, reads_subscription, switches_plan, TenantRequest, serve_tenant, reads_organization,
  drops_organization, lists_members, patches_organization, patches_member, drops_member,
  lists_projects, lists_api_keys, adds_project, reads_project, drops_project, drops_api_key,
  patches_project, adds_api_key, reads_audit_log,
}
use tenantforge.Api.Requests.{Request}
use tenantforge.Api.Email.{Adapters}
use tenantforge.Api.Deps.{Caller, authorize, Headers, any_role}
use tenantforge.Prelude.{some, refl, ◌≢◌, arith, Bool, ◌≡◌, false, Text, ◌==◌}

module _ (p : Primitives) (s : Settings) (adapters : Adapters) (dummy_password_hash : Text)
    (h : Headers) (g : Uuid) (rows : TenantRows) (o : Uuid) (apart : (o == g) ≡ false) where
  -- The membership that admits a caller is one of `o`.
  caller_elsewhere :
      (allowed : Role → Bool) (app : App) {c : Caller} {app' : App}
      → authorize p s allowed h o app ≡ (ok c, app')
      → (c.membership.organization_id == g) ≡ false
  caller_elsewhere allowed app e = rw (authorize-scope p s h allowed o app e) apart

  tenant-Leaves :
      (r : TenantRequest) → Leaves g rows (serve_tenant p s adapters dummy_password_hash h o r)
  unfolding serve_tenant get_usage_summary get_subscription read_usage_route read_subscription_route
      require_development_billing change_plan_route create_invitation_route get_organization
      get_project list_api_keys list_audit_logs list_members list_projects get_organization_route
      update_organization_route delete_organization_route list_members_route update_member_route
      delete_member_route list_projects_route list_api_keys_route create_project_route
      get_project_route delete_project_route delete_api_key_route update_project_route
      create_api_key_route read_audit_log_route
  tenant-Leaves reads_organization =
      Leaves-after g rows _ _ (authorize-Serves p s any_role h o)
        λ c. Leaves-kept g rows _ _ (search keeps_rules) λ x. Serves-reply _
  tenant-Leaves (patches_organization name slug) =
      Leaves-after g rows _ _ (authorize-Serves p s owner_or_admin h o) λ c.
        Leaves-after g rows _ _ (Serves-validated _) λ input.
          Leaves-service g rows _ _ (λ w v. update_organization-Apart g rows o apart _ _ w v.unseen)
            λ x. Serves-reply _
  tenant-Leaves drops_organization =
      Leaves-after g rows _ _ (authorize-Serves p s only_owner h o) λ c.
        Leaves-service g rows _ _ (λ w v. delete_organization-Apart g rows o apart _ w v.unseen)
          λ x. Serves-reply _
  tenant-Leaves lists_members =
      Leaves-after g rows _ _ (authorize-Serves p s any_role h o)
        λ c. Leaves-kept g rows _ _ (search keeps_rules) λ x. Serves-reply _
  tenant-Leaves (patches_member i r) =
      Leaves-after g rows _ _ (authorize-Serves p s owner_or_admin h o) λ c.
        Leaves-service g rows _ _
          (λ w v. update_membership-Apart g rows o apart _ _ _ w v.keys v.unseen)
          λ x. Serves-reply _
  tenant-Leaves (drops_member i) =
      Leaves-after g rows _ _ (authorize-Serves p s owner_or_admin h o) λ c.
        Leaves-service g rows _ _
          (λ w v. remove_membership-Apart g rows o apart _ _ w v.keys v.unseen) λ x. Serves-reply _
  tenant-Leaves lists_projects =
      Leaves-after g rows _ _ (authorize-Serves p s any_role h o)
        λ c. Leaves-kept g rows _ _ (search keeps_rules) λ x. Serves-reply _
  tenant-Leaves lists_api_keys =
      Leaves-after g rows _ _ (authorize-Serves p s only_owner h o)
        λ c. Leaves-kept g rows _ _ (search keeps_rules) λ x. Serves-reply _
  tenant-Leaves (adds_project name description) =
      Leaves-after g rows _ _ (authorize-Serves p s any_role h o) λ c.
        Leaves-after g rows _ _ (Serves-validated _) λ input.
          Leaves-kept g rows _ _ (create_project-Apart g rows o apart _ _) λ x. Serves-reply _
  tenant-Leaves (reads_project i) =
      Leaves-after g rows _ _ (authorize-Serves p s any_role h o)
        λ c. Leaves-kept g rows _ _ (search keeps_rules) λ x. Serves-reply _
  tenant-Leaves (drops_project i) = Leaves-after g rows _ _ (authorize-Serves p s any_role h o) λ c.
      Leaves-service g rows _ _ (λ w v. delete_project-Apart g rows o apart _ _ w v.keys v.unseen)
        λ x. Serves-reply _
  tenant-Leaves (drops_api_key i) =
      Leaves-after g rows _ _ (authorize-Serves p s only_owner h o) λ c.
        Leaves-service g rows _ _ (λ w v. revoke_api_key-Apart g rows o apart _ _ w v.keys v.unseen)
          λ x. Serves-reply _
  tenant-Leaves (patches_project i name description status) =
      Leaves-after g rows _ _ (authorize-Serves p s any_role h o) λ c.
        Leaves-after g rows _ _ (Serves-validated _) λ input.
          Leaves-service g rows _ _
            (λ w v. update_project-Apart g rows o apart _ _ _ w v.keys v.unseen) λ x. Serves-reply _
  tenant-Leaves (adds_api_key label) =
      Leaves-after g rows _ _ (authorize-Serves p s only_owner h o) λ c.
        Leaves-after g rows _ _ (Serves-validated _) λ input.
          Leaves-kept g rows _ _ (create_api_key-Apart g rows o apart _ _ _) λ x. Serves-reply _
  tenant-Leaves (reads_audit_log limit offset) =
      Leaves-after g rows _ _ (authorize-Serves p s owner_or_admin h o) λ c.
        Leaves-after g rows _ _ (Serves-validated _)
          λ input. Leaves-kept g rows _ _ (search keeps_rules) λ x. Serves-reply _
  tenant-Leaves reads_usage =
      Leaves-after g rows _ _ (authorize-Serves p s any_role h o)
        λ c. Leaves-kept g rows _ _ (search keeps_rules depth 12) λ x. Serves-reply _
  tenant-Leaves reads_subscription =
      Leaves-after g rows _ _ (authorize-Serves p s only_owner h o)
        λ c. Leaves-kept g rows _ _ (search keeps_rules) λ x. Serves-reply _
  tenant-Leaves (switches_plan plan) =
      Leaves-first g rows _ _ (authorize-Serves p s only_owner h o) λ c app app1 e.
        let there = caller_elsewhere only_owner app e in
        Leaves-after g rows _ _ (Serves-demand _ _) λ x.
          Leaves-service g rows _ _
            (λ w v.
              change_plan-Apart g rows c.membership.organization_id there _ _ _ _ w
                v.keys.subscriptions v.unseen)
            λ x. Serves-reply _
  tenant-Leaves (invites address role) =
      Leaves-after g rows _ _ (authorize-Serves p s owner_or_admin h o) λ c.
        Leaves-after g rows _ _ (Serves-validated _) λ input.
          Leaves-kept g rows _ _ (create_invitation-Apart g rows o apart _ _ _ _) λ x.
            Serves-bind _ _ Serves-commit_session λ y.
              Serves-bind _ _
                (or_log-Serves p adapters _
                  (send_invitation-Holds p adapters (new_uuid-Apart g rows) _ _))
                λ z. Serves-reply _

request-Leaves :
    (p : Primitives) (s : Settings) (adapters : Adapters) (dummy_password_hash : Text) (h : Headers)
    (g : Uuid) (rows : TenantRows) (o : Uuid) (r : Request)
    → tenant_of r ≡ some o
    → (o == g) ≡ false
    → Leaves g rows (serve p s adapters dummy_password_hash h r)
unfolding serve
request-Leaves p s adapters dummy h g rows o (in_organization o1 r) e apart =
    let same : o1 ≡ o = cc in tenant-Leaves p s adapters dummy h g rows o1 (rw same apart) r
request-Leaves p s adapters dummy h g rows o (meters o1 quantity) e apart =
    let same : o1 ≡ o = cc in meters-Leaves g rows p s h o1 quantity (rw same apart)
request-Leaves p s adapters dummy h g rows o (registers address password) e apart = absurd (cc)
request-Leaves p s adapters dummy h g rows o (logs_in address password) e apart = absurd (cc)
request-Leaves p s adapters dummy h g rows o (refreshes raw) e apart = absurd (cc)
request-Leaves p s adapters dummy h g rows o (logs_out raw) e apart = absurd (cc)
request-Leaves p s adapters dummy h g rows o reads_me e apart = absurd (cc)
request-Leaves p s adapters dummy h g rows o lists_organizations e apart = absurd (cc)
request-Leaves p s adapters dummy h g rows o (adds_organization name slug) e apart = absurd (cc)
request-Leaves p s adapters dummy h g rows o (joins token) e apart = absurd (cc)
request-Leaves p s adapters dummy h g rows o (receives_webhook body) e apart = absurd (cc)

-- A request under /organizations/{o}, of a user or of an API key, whatever it is, whoever sends it
-- and however it ends, leaves every committed row of every other organization as it was: its row
-- in the table of organizations, its memberships, projects, API keys, invitations, subscription,
-- usage events and audit log. The primary keys of memberships, API keys, projects and
-- subscriptions are assumed to fall along their tables, from the next fresh one, as they do where
-- each new row takes the next key.
pub respond-isolates :
    (p : Primitives) (s : Settings) (adapters : Adapters) (dummy_password_hash : Text) (h : Headers)
    (o g : Uuid) (r : Request) (app : App)
    → tenant_of r ≡ some o
    → TenantKeys app.saved
    → g ≢ o
    → tenant_rows g (respond p s adapters dummy_password_hash h r app).1.saved
      ≡ tenant_rows g app.saved
unfolding in_session
respond-isolates p s adapters dummy_password_hash h o g r app under keys other =
    let rows = tenant_rows g app.saved in
    let apart : (o == g) ≡ false = ground (arith, other) in
    let start : App = record app { db = app.saved } in
    let v : Guarded g rows app.saved = record { unseen = refl; keys = keys } in
    let leaves =
      (request-Leaves p s adapters dummy_password_hash h g rows o r under apart).at start v v in
    let (result, end) = serve p s adapters dummy_password_hash h r start in
    closed_keeps (Apart g rows) result end leaves
