-- ===== src/Api/Requests/Access.antt =====
-- Who may do what: the table of roles in README.md against the dependencies of the routes.
use tenantforge.Services.Organizations.{owner_or_admin, only_owner}
use tenantforge.Api.Routes.Resources.{
  create_project_route, list_projects_route, get_project_route, update_project_route,
  delete_project_route, create_api_key_route, list_api_keys_route, delete_api_key_route,
  read_usage_route, read_subscription_route, change_plan_route, read_audit_log_route,
}
use tenantforge.Api.Routes.Organizations.{
  get_organization_route, update_organization_route, delete_organization_route, list_members_route,
  update_member_route, delete_member_route, create_invitation_route,
}
use tenantforge.Api.Requests.{
  serve, respond, drops_organization, patches_organization, patches_member, drops_member, invites,
  lists_projects, lists_api_keys, reads_usage, reads_subscription, adds_project, reads_project,
  drops_project, drops_api_key, patches_project, adds_api_key, switches_plan, reads_audit_log,
  in_organization, TenantRequest, serve_tenant, rank, may, reads_organization, lists_members,
}
use tenantforge.Api.Email.{Adapters}
use tenantforge.Session.Rules.{or_error-ok, checked-ok}
use tenantforge.Session.{checked}
use tenantforge.Api.Responses.{Response}
use tenantforge.Services.Rows.{member_is}
use tenantforge.Security.Crypto.{Primitives, Settings, decode_access_token}
use tenantforge.Model.Tables.{Uuid, User, Membership, World}
use tenantforge.Model.Errors.{ok}
use tenantforge.Model.Enums.{member, owner, admin, Role}
use tenantforge.Api.Requests.Rules.{in_session-ok, enforce_limit-db, on-first, on-query, on-answer}
use tenantforge.Api.Deps.{
  any_role, get_current_membership, check_role, Caller, authorize, Headers, bearer_token,
  is_active_user, get_current_user,
}
use tenantforge.Api.{Endpoint, ◌>>=◌, App}
use tenantforge.Prelude.{
  ◌∙◌, refl, leb, sym, subst, ◌++◌, codes, ◌≡◌, Bool, true, some, arith, scalar, scalar-holds, Text,
}

module _ (p : Primitives) (s : Settings) (headers : Headers) where
  -- The user that a request comes from.
  pub record IsSender (w : World) (user : User) : Type 0 where
    pub token : Text
    pub bearer : bearer_token headers.authorization ≡ some token
    pub decoded : decode_access_token p s token w.clock ≡ some user.id
    pub stored : scalar (is_active_user user.id) w.users ≡ some user

  -- A user who sends the request, with a membership of the organization whose role may make it.
  pub record IsAuthorized (w : World) (o : Uuid) (allowed : Role → Bool) : Type 0 where
    pub user : User
    pub sender : IsSender w user
    pub membership : Membership
    pub joined : scalar (member_is o user.id) w.memberships ≡ some membership
    pub role : allowed membership.role ≡ true

  -- The row of an active user has the key that was asked for.
  found_id :
      (w : World) (i : Uuid) (u : User) → scalar (is_active_user i) w.users ≡ some u → u.id ≡ i
  found_id w i u h = let e = scalar-holds (is_active_user i) w.users u h in ground arith

  -- The end of the dependency: the limiter let the request pass.
  sent :
      (w : World) (i : Uuid) (u : User) (token : Text)
      → bearer_token headers.authorization ≡ some token
      → decode_access_token p s token w.clock ≡ some i
      → scalar (is_active_user i) w.users ≡ some u
      → IsSender w u
  sent w i u token bearer decoded stored =
      let same = found_id w i u stored in
      record {
        token = token;
        bearer = bearer;
        decoded = rw same decoded;
        stored = subst (λ k. scalar (is_active_user k) w.users ≡ some u) (sym same) stored;
      }

  -- The current user of a request that goes on sent it; the databases are as before.
  pub get_current_user-IsSender :
      (app : App) {u : User} {app' : App}
      → get_current_user p s headers app ≡ (ok u, app')
      → IsSender app.db u × (app'.db ≡ app.db) × (app'.saved ≡ app.saved)
  unfolding get_current_user
  get_current_user-IsSender app {u = u'} {app' = app'} h = on-answer _ _ app h λ token bearer h.
      on-query (λ w. decode_access_token p s token w.clock) _ _ app h
        λ i decoded h.
          on-query (λ w. scalar (is_active_user i) w.users) _ _ app h
            λ u stored h. on-first _ _ app h λ _ app1 limited h.
              let same : u ≡ u' = cc in
              let last : app1 ≡ app' = cc in
              let kept =
                enforce_limit-db (codes "user:" ++ p.uuid_str u.id) s.user_rate_limit_per_minute
                  app in
              (
                subst (IsSender app.db) same (
                    sent app.db i u token
                      (or_error-ok (bearer_token headers.authorization) _ bearer) decoded stored),
                rw (sym last) (subst (λ x. x.1.db ≡ app.db) limited kept.0),
                rw (sym last) (subst (λ x. x.1.saved ≡ app.saved) limited kept.1),
              )

  -- The membership of the caller is one of the organization that the request names.
  pub authorize-scope :
      (allowed : Role → Bool) (o : Uuid) (app : App) {c : Caller} {app' : App}
      → authorize p s allowed headers o app ≡ (ok c, app')
      → c.membership.organization_id ≡ o
  unfolding authorize get_current_membership check_role
  authorize-scope allowed o app {c = c} h = on-first _ _ app h λ user app1 current h.
      on-query (λ w. scalar (member_is o user.id) w.memberships) _ _ app1 h
        λ membership found h. on-first _ _ app1 h λ _ app2 checks h.
          let at_row = scalar-holds (member_is o user.id) app1.db.memberships membership found in
          let same : membership.organization_id ≡ c.membership.organization_id = cc in
          sym same ∙ ground arith

  -- The caller that the dependencies find.
  pub authorize-IsAuthorized :
      (allowed : Role → Bool) (o : Uuid) (app : App) {c : Caller} {app' : App}
      → authorize p s allowed headers o app ≡ (ok c, app')
      → IsAuthorized app.db o allowed
  unfolding authorize get_current_membership check_role
  authorize-IsAuthorized allowed o app h = on-first _ _ app h λ user app1 current h.
      let (sender, same, _) = get_current_user-IsSender app current in
      on-query (λ w. scalar (member_is o user.id) w.memberships) _ _ app1 h
        λ membership found h. on-first _ _ app1 h λ _ app2 checks h.
          on-answer (checked (allowed membership.role) _) _ app1 checks λ _ permits _. record {
            user = user;
            sender = sender;
            membership = membership;
            joined =
                subst (λ w. scalar (member_is o user.id) w.memberships ≡ some membership) same
                  found;
            role = checked-ok (allowed membership.role) _ permits;
          }

  -- A route whose first step is `authorize`.
  guarded :
      (allowed : Role → Bool) (o : Uuid) (rest : Caller → Endpoint Response) (app : App)
      {answered : Response} {app' : App}
      → (authorize p s allowed headers o >>= rest) app ≡ (ok answered, app')
      → IsAuthorized app.db o allowed
  guarded allowed o rest app h =
      on-first _ rest app h λ c app1 found _. authorize-IsAuthorized allowed o app found

  weaken :
      (w : World) (o : Uuid) (allowed other : Role → Bool)
      → ((r : Role) → allowed r ≡ true → other r ≡ true)
      → IsAuthorized w o allowed
      → IsAuthorized w o other
  weaken w o allowed other k a = record {
    user = a.user;
    sender = a.sender;
    membership = a.membership;
    joined = a.joined;
    role = k a.membership.role a.role;
  }

owners_may : (r : Role) → only_owner r ≡ true → leb (rank owner) (rank r) ≡ true
owners_may owner h = refl
owners_may admin h = absurd (cc)
owners_may member h = absurd (cc)

admins_may : (r : Role) → owner_or_admin r ≡ true → leb (rank admin) (rank r) ≡ true
admins_may owner h = refl
admins_may admin h = refl
admins_may member h = absurd (cc)

all_may : (r : Role) → any_role r ≡ true → leb (rank member) (rank r) ≡ true
all_may r h = ground arith

module _ (p : Primitives) (s : Settings) (adapters : Adapters) (dummy_password_hash : Text)
    (headers : Headers) (o : Uuid) where
  as_member :
      (rest : Caller → Endpoint Response) (app : App) {answered : Response} {app' : App}
      → (authorize p s any_role headers o >>= rest) app ≡ (ok answered, app')
      → IsAuthorized p s headers app.db o (λ r. leb (rank member) (rank r))
  as_member rest app h =
      weaken p s headers app.db o any_role _ all_may (guarded p s headers any_role o rest app h)

  as_admin :
      (rest : Caller → Endpoint Response) (app : App) {answered : Response} {app' : App}
      → (authorize p s owner_or_admin headers o >>= rest) app ≡ (ok answered, app')
      → IsAuthorized p s headers app.db o (λ r. leb (rank admin) (rank r))
  as_admin rest app h =
      weaken p s headers app.db o owner_or_admin _ admins_may
        (guarded p s headers owner_or_admin o rest app h)

  as_owner :
      (rest : Caller → Endpoint Response) (app : App) {answered : Response} {app' : App}
      → (authorize p s only_owner headers o >>= rest) app ≡ (ok answered, app')
      → IsAuthorized p s headers app.db o (λ r. leb (rank owner) (rank r))
  as_owner rest app h =
      weaken p s headers app.db o only_owner _ owners_may
        (guarded p s headers only_owner o rest app h)

  -- Each route asks for the role of the table.
  serve_tenant-IsAuthorized :
      (r : TenantRequest) (app : App) {answered : Response} {app' : App}
      → serve_tenant p s adapters dummy_password_hash headers o r app ≡ (ok answered, app')
      → IsAuthorized p s headers app.db o (may r)
  unfolding serve_tenant get_organization_route update_organization_route delete_organization_route
      list_members_route update_member_route delete_member_route create_invitation_route
      create_project_route list_projects_route get_project_route update_project_route
      delete_project_route create_api_key_route list_api_keys_route delete_api_key_route
      read_usage_route read_subscription_route change_plan_route read_audit_log_route
  serve_tenant-IsAuthorized reads_organization app h = as_member _ app h
  serve_tenant-IsAuthorized drops_organization app h = as_owner _ app h
  serve_tenant-IsAuthorized lists_members app h = as_member _ app h
  serve_tenant-IsAuthorized (patches_organization name slug) app h = as_admin _ app h
  serve_tenant-IsAuthorized (patches_member i r) app h = as_admin _ app h
  serve_tenant-IsAuthorized (drops_member i) app h = as_admin _ app h
  serve_tenant-IsAuthorized (invites address role) app h = as_admin _ app h
  serve_tenant-IsAuthorized lists_projects app h = as_member _ app h
  serve_tenant-IsAuthorized lists_api_keys app h = as_owner _ app h
  serve_tenant-IsAuthorized reads_usage app h = as_member _ app h
  serve_tenant-IsAuthorized reads_subscription app h = as_owner _ app h
  serve_tenant-IsAuthorized (adds_project name description) app h = as_member _ app h
  serve_tenant-IsAuthorized (reads_project i) app h = as_member _ app h
  serve_tenant-IsAuthorized (drops_project i) app h = as_member _ app h
  serve_tenant-IsAuthorized (drops_api_key i) app h = as_owner _ app h
  serve_tenant-IsAuthorized (patches_project i name description status) app h = as_member _ app h
  serve_tenant-IsAuthorized (adds_api_key label) app h = as_owner _ app h
  serve_tenant-IsAuthorized (switches_plan plan) app h = as_owner _ app h
  serve_tenant-IsAuthorized (reads_audit_log limit offset) app h = as_admin _ app h

  -- A request of a user under /organizations/{o}, that is every request under it but the posting of
  -- usage, which an API key makes, is answered only if its bearer token decodes to the identifier
  -- of a stored, active user who has a membership of `o`, whose role may make the request by the
  -- table of README.md: owners everything; admins all but deleting the organization, API keys and
  -- the subscription; members what concerns projects and what only reads the organization, its
  -- members or its usage. Token, user and membership are those of the database that was committed
  -- when the request came.
  pub respond-IsAuthorized :
      (r : TenantRequest) (app : App) {answered : Response} {app' : App}
      → respond p s adapters dummy_password_hash headers (in_organization o r) app
        ≡ (ok answered, app')
      → IsAuthorized p s headers app.saved o (may r)
  unfolding serve
  respond-IsAuthorized r app h =
      let (end, answers, _) =
        in_session-ok (serve p s adapters dummy_password_hash headers (in_organization o r)) app
          h in
      serve_tenant-IsAuthorized r (record app { db = app.saved }) answers
