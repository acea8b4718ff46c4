-- ===== src/Api/Requests/Refusals.antt =====
-- What a request of a user is answered who may not make it.
use tenantforge.Services.Rows.{member_is}
use tenantforge.Services.Organizations.{owner_or_admin, only_owner}
use tenantforge.Security.Crypto.{Primitives, Settings}
use tenantforge.Model.Tables.{Uuid, User, World}
use tenantforge.Model.Errors.{
  AppError, not_found_error, forbidden_error, Exception, forbidden, organization_not_found,
  app_error, err, ok,
}
use tenantforge.Api.Routes.Resources.{
  create_project_route, list_projects_route, get_project_route, update_project_route,
  delete_project_route, create_api_key_route, list_api_keys_route, delete_api_key_route,
  read_usage_route, read_subscription_route, change_plan_route, read_audit_log_route,
}
use tenantforge.Api.Routes.Organizations.{
  get_organization_route, update_organization_route, delete_organization_route, list_members_route,
  update_member_route, delete_member_route, create_invitation_route,
}
use tenantforge.Api.Requests.Rules.{first-err}
use tenantforge.Api.Requests.Access.{get_current_user-IsSender}
use tenantforge.Api.Requests.{
  serve, respond, in_organization, TenantRequest, serve_tenant, least_role, rank, may,
  reads_organization, drops_organization, lists_members, patches_organization, patches_member,
  drops_member, invites, lists_projects, lists_api_keys, reads_usage, reads_subscription,
  adds_project, reads_project, drops_project, drops_api_key, patches_project, adds_api_key,
  switches_plan, reads_audit_log,
}
use tenantforge.Api.Email.{Adapters}
use tenantforge.Api.Deps.{
  Headers, get_current_membership, check_role, get_current_user, authorize, any_role,
}
use tenantforge.Api.{in_session, App, on_db, ◌>>=◌}
use tenantforge.Model.Enums.{Role, owner, admin, member}
use tenantforge.Prelude.{
  Bool-cases, arith, ◌≡◌, refl, ap, inl, inr, Bool, Option, none, some, scalar, Text, leb,
  if◌then◌else◌, Option-cases,
}

-- The error of a request of `user`, if it is refused: an organization that the user does not belong
-- to is not found, whether it exists or not; a member whose role may not make it is forbidden.
abbrev pub refusal : World → User → Uuid → TenantRequest → Option AppError
refusal w user o r = elim (scalar (member_is o user.id) w.memberships) [
  | none ↦ some (not_found_error organization_not_found)
  | some m ↦ if may r m.role then none else some (forbidden_error forbidden)
]

-- The check of a route, by the least role of its request.
guard_for : Role → Role → Bool
guard_for owner = only_owner
guard_for admin = owner_or_admin
guard_for member = any_role

guard_for-rank : (least r : Role) → guard_for least r ≡ leb (rank least) (rank r)
unfolding guard_for
guard_for-rank owner owner = refl
guard_for-rank owner admin = refl
guard_for-rank owner member = refl
guard_for-rank admin owner = refl
guard_for-rank admin admin = refl
guard_for-rank admin member = refl
guard_for-rank member owner = refl
guard_for-rank member admin = refl
guard_for-rank member member = refl

module _ (p : Primitives) (s : Settings) (adapters : Adapters) (dummy_password_hash : Text)
    (headers : Headers) (o : Uuid) where
  -- The route raises what its dependencies raise.
  serve_tenant-err :
      (r : TenantRequest) (app : App) {e : Exception} {app' : App}
      → authorize p s (guard_for (least_role r)) headers o app ≡ (err e, app')
      → serve_tenant p s adapters dummy_password_hash headers o r app ≡ (err e, app')
  unfolding guard_for serve_tenant get_organization_route update_organization_route
      delete_organization_route list_members_route update_member_route delete_member_route
      create_invitation_route create_project_route list_projects_route get_project_route
      update_project_route delete_project_route create_api_key_route list_api_keys_route
      delete_api_key_route read_usage_route read_subscription_route change_plan_route
      read_audit_log_route
  serve_tenant-err reads_organization app h = first-err _ _ app h
  serve_tenant-err drops_organization app h = first-err _ _ app h
  serve_tenant-err lists_members app h = first-err _ _ app h
  serve_tenant-err (patches_organization name slug) app h = first-err _ _ app h
  serve_tenant-err (patches_member i r) app h = first-err _ _ app h
  serve_tenant-err (drops_member i) app h = first-err _ _ app h
  serve_tenant-err (invites address role) app h = first-err _ _ app h
  serve_tenant-err lists_projects app h = first-err _ _ app h
  serve_tenant-err lists_api_keys app h = first-err _ _ app h
  serve_tenant-err reads_usage app h = first-err _ _ app h
  serve_tenant-err reads_subscription app h = first-err _ _ app h
  serve_tenant-err (adds_project name description) app h = first-err _ _ app h
  serve_tenant-err (reads_project i) app h = first-err _ _ app h
  serve_tenant-err (drops_project i) app h = first-err _ _ app h
  serve_tenant-err (drops_api_key i) app h = first-err _ _ app h
  serve_tenant-err (patches_project i name description status) app h = first-err _ _ app h
  serve_tenant-err (adds_api_key label) app h = first-err _ _ app h
  serve_tenant-err (switches_plan plan) app h = first-err _ _ app h
  serve_tenant-err (reads_audit_log limit offset) app h = first-err _ _ app h

  authorize-refuses :
      (r : TenantRequest) (app : App) {user : User} {e : AppError} {app1 : App}
      → get_current_user p s headers app ≡ (ok user, app1)
      → refusal app.db user o r ≡ some e
      → authorize p s (guard_for (least_role r)) headers o app ≡ (err (app_error e), app1)
  unfolding authorize get_current_membership check_role on_db ◌>>=◌
  authorize-refuses r app {user = user} {app1 = app1} current h =
      let same = (get_current_user-IsSender p s headers app current).1 in
      let query : scalar (member_is o user.id) app1.db.memberships
          ≡ scalar (member_is o user.id) app.db.memberships =
        ap (λ w. scalar (member_is o user.id) w.memberships) same in
      elim (Option-cases (scalar (member_is o user.id) app.db.memberships)) [
        | inl missing ↦ rw (current, query, missing) (ground arith)
        | inr (m, found) ↦ elim (Bool-cases (may r m.role)) [
          | inl good ↦ absurd (ground arith)
          | inr bad ↦
              rw (current, query, found, guard_for-rank (least_role r) m.role, bad) (ground arith)
        ]
      ]

  -- The request of a user who may not make it, once it has passed the limiter, is refused: with
  -- 404 where the user has no membership of the organization, whether there is such an organization
  -- or not, and with 403 where the table gives the request to higher roles. What was committed
  -- stays as it was, and the session is back at it.
  pub respond-refuses :
      (r : TenantRequest) (app : App) {user : User} {e : AppError} {app1 : App}
      → get_current_user p s headers (record app { db = app.saved }) ≡ (ok user, app1)
      → refusal app.saved user o r ≡ some e
      → (respond p s adapters dummy_password_hash headers (in_organization o r) app
          ≡ (err (app_error e), record app1 { db = app.saved }))
        × (app1.saved ≡ app.saved)
  unfolding serve in_session
  respond-refuses r app {e = e} {app1 = app1} current h =
      let fresh : App = record app { db = app.saved } in
      let kept = (get_current_user-IsSender p s headers fresh current).2 in
      let raised = serve_tenant-err r fresh (authorize-refuses r fresh current h) in
      (rw raised (ap (λ w. (err (app_error e), record app1 { db = w })) kept), kept)
