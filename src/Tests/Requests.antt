-- ===== src/Tests/Requests.antt =====
-- Requests of the API: who may make them, and what a history leaves.
use tenantforge.Api.Responses.{created}
use tenantforge.Services.Usage.{total_quantity, usage_total, record_usage}
use tenantforge.Services.Rows.{has_organization, add_usage_event}
use tenantforge.Services.Periods.{roll_forward, period_of, subscription_period}
use tenantforge.Services.ApiKeys.{authenticate_api_key}
use tenantforge.Api.Requests.Keyed.{IsKeyHolder, respond-IsKeyHolder}
use tenantforge.Schemas.{usage_event_create, given, unset}
use tenantforge.Services.Organizations.Deletion.{tenant_rows}
use tenantforge.Api.Requests.Isolation.Tenants.{respond-isolates}
use tenantforge.Tests.Fixtures.{
  first_event, acme, website, settings, day_of_january, bob, january_plan, database,
  database-IsOwned,
}
use tenantforge.Services.Organizations.Ownership.{IsOwned}
use tenantforge.Services.Billing.{get_subscription}
use tenantforge.Security.Crypto.{hash_token, decode_access_token}
use tenantforge.Model.Time.{aware}
use tenantforge.Model.Tables.{UsageEvent, Organization, Project}
use tenantforge.Model.Errors.{forbidden_error, forbidden, app_error, err}
use tenantforge.Api.Routes.Resources.{create_usage_event_route, read_subscription_route}
use tenantforge.Api.Requests.Refusals.{respond-refuses}
use tenantforge.Api.Requests.Access.{IsAuthorized, respond-IsAuthorized}
use tenantforge.Api.Deps.{
  get_api_key_principal, Headers, enforce_limit, get_current_membership, check_role,
  get_current_user, authorize,
}
use tenantforge.Prelude.{
  ℕ, select, update_where, starts_with, arith, pos, ◌≡◌, refl, true, none, some, [], ◌∷◌, scalar,
  exists, delete_where, codes, text_eq, lower,
}
use tenantforge.Infrastructure.RateLimit.{increment_window, enforce, check}
use tenantforge.Api.Requests.Ownership.History.{
  History-IsOwned, served, redis_changed, then_happens, start,
}
use tenantforge.Session.{◌>>=◌ as ◌>>==◌}
use tenantforge.Api.Responses.{usage_event_body, subscription_body, success}
use tenantforge.Api.Requests.{
  meters, patches_project, serve_tenant, serve, respond, may, reads_subscription, adds_organization,
  in_organization, Request,
}
use tenantforge.Api.{App, on_db, on_redis, in_session, ◌>>=◌}
use tenantforge.Tests.Web.{headers_of, web, adapters, idle_app, of_alice, of_bob}

respond-IsAuthorized_example :
    IsAuthorized web settings of_alice database 3 (may reads_subscription)
unfolding serve serve_tenant read_subscription_route authorize get_current_user
    get_current_membership check_role enforce_limit on_redis on_db in_session get_subscription
    decode_access_token increment_window enforce check delete_where scalar exists text_eq lower
    ◌>>=◌
respond-IsAuthorized_example =
    respond-IsAuthorized web settings adapters [] of_alice 3 reads_subscription idle_app
      {answered = success (subscription_body january_plan)}
      {app' = (respond web settings adapters [] of_alice (in_organization 3 reads_subscription)
        idle_app).1}
      refl

-- A member may not see the subscription.
respond-refuses_example :
    (respond web settings adapters [] of_bob (in_organization 3 reads_subscription) idle_app ≡ (
      err (app_error (forbidden_error forbidden)),
      record (get_current_user web settings of_bob idle_app).1 { db = database },
    ))
    × ((get_current_user web settings of_bob idle_app).1.saved ≡ database)
unfolding serve serve_tenant read_subscription_route authorize get_current_user
    get_current_membership check_role enforce_limit on_redis on_db in_session get_subscription
    decode_access_token increment_window enforce check delete_where scalar exists text_eq lower
    ◌>>=◌
respond-refuses_example =
    respond-refuses web settings adapters [] of_bob 3 reads_subscription idle_app {user = bob}
      {e = forbidden_error forbidden} {app1 = (get_current_user web settings of_bob idle_app).1}
      refl refl

abbrev founding : Request
founding = adds_organization (codes "New") (codes "new")

abbrev founded : App
founded = (respond web settings adapters [] of_alice founding idle_app).1

History-IsOwned_example : IsOwned founded.saved
History-IsOwned_example =
    History-IsOwned web settings adapters [] idle_app
      (record founded { redis = idle_app.redis; counters = []; outages = true ∷ [] })
      (then_happens (then_happens start (served of_alice founding))
        (redis_changed [] idle_app.redis (true ∷ [])))
      database-IsOwned

-- A second tenant, with a project.
abbrev beta : Organization
beta = record acme { id = 14; name = codes "Beta"; slug = codes "beta" }

abbrev beta_site : Project
beta_site = record website { id = 15; organization_id = 14 }

abbrev two_tenants : App
two_tenants = record idle_app {
  saved = record database {
    organizations = beta ∷ database.organizations;
    projects = beta_site ∷ database.projects;
  };
}

abbrev renaming : Request
renaming = in_organization 3 (patches_project 8 (given (codes "home")) unset unset)

respond-isolates_example :
    tenant_rows 14 (respond web settings adapters [] of_alice renaming two_tenants).1.saved
    ≡ tenant_rows 14 two_tenants.saved
respond-isolates_example =
    respond-isolates web settings adapters [] of_alice 3 14 renaming two_tenants refl
      (record {
        memberships = (omega arith, (omega arith, tt));
        api_keys = (omega arith, tt);
        projects = (omega arith, (omega arith, tt));
        subscriptions = (omega arith, tt);
      })
      (λ e. absurd (ground arith))

-- Five requests, with the key of the organization.
abbrev of_key : Headers
of_key = record (headers_of []) { authorization = none; x_api_key = some (codes "tf_live_x") }

abbrev five_requests : UsageEvent
five_requests = record first_event { id = 20; quantity = 5; created_at = aware (day_of_january 15) }

respond-IsKeyHolder_example :
    IsKeyHolder web of_key database 3
    × ((quantity : ℕ) × (usage_event_create (pos 5) ≡ some quantity))
unfolding serve create_usage_event_route get_api_key_principal enforce_limit on_redis on_db
    in_session authenticate_api_key record_usage usage_total total_quantity select
    subscription_period period_of roll_forward add_usage_event has_organization update_where
    increment_window enforce check delete_where scalar exists text_eq starts_with hash_token
    usage_event_create ◌>>=◌ ◌>>==◌
respond-IsKeyHolder_example =
    respond-IsKeyHolder web of_key settings adapters [] 3 (pos 5) idle_app
      {answered = created (usage_event_body five_requests)}
      {app' = (respond web settings adapters [] of_key (meters 3 (pos 5)) idle_app).1} refl
