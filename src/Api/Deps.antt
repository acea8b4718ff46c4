-- ===== src/Api/Deps.antt =====
-- app/api/deps.py: who sends a request, and what that lets it do.
use tenantforge.Session.{Done, or_error, find}
use tenantforge.Services.Rows.{user_is, member_is}
use tenantforge.Services.ApiKeys.{ApiKeyPrincipal, authenticate_api_key}
use tenantforge.Security.Crypto.{Primitives, Settings, decode_access_token}
use tenantforge.Model.Time.{day_micros, instant}
use tenantforge.Model.Tables.{Uuid, User, Membership, World}
use tenantforge.Model.Errors.{
  not_found_error, forbidden_error, authentication_error, Exception, Result, forbidden,
  authentication_required, organization_not_found, invalid_api_key, invalid_access_token, app_error,
  err, ok,
}
use tenantforge.Model.Enums.{Role}
use tenantforge.Api.{demand, reply, on_db, ◌>>=◌, ◌>>◌, answer, App, Endpoint, on_redis}
use tenantforge.Prelude.{
  ℕ, ◌-◌, ◌*◌, Bool, true, ◌&&◌, Option, none, some, List, ◌++◌, length, scalar, Text, codes,
  text_eq, lower, leb, if◌then◌else◌,
}
use tenantforge.Infrastructure.RateLimit.{Enforced, enforce, Counter, passed, refused, invalid}

-- `HTTPAuthorizationCredentials`
pub record Credentials : Type 0 where
  pub scheme : Text
  pub credentials : Text

-- The headers that the API reads, and `request.client.host`.
pub record Headers : Type 0 where
  pub authorization : Option Credentials
  pub x_api_key : Option Text
  pub stripe_signature : Option Text
  pub client_host : Option Text

-- `time.time()`, in microseconds.
abbrev pub unix_time : World → ℕ
unix_time w = instant w.clock - 719163 * day_micros

abbrev pub let_through : Enforced → Result Done
let_through (passed r) = ok tt
let_through (refused e) = err (app_error e)
let_through invalid = err Exception.value_error

abbrev pub with_counters : App → Enforced × List Counter → Result Done × App
with_counters app (e, counters) = (let_through e, record app { counters = counters })

-- `FixedWindowRateLimiter(redis).enforce(identifier, limit)`
unfoldable pub enforce_limit : Text → ℕ → Endpoint Done
enforce_limit identifier limit =
    on_redis λ app. with_counters app (enforce identifier limit 60 (unix_time app.db) app.counters)

-- The token of a header, whose scheme is read in any case.
abbrev pub bearer_token : Option Credentials → Option Text
bearer_token none = none
bearer_token (some c) =
    if text_eq (lower c.scheme) (codes "bearer") then some c.credentials else none

-- `User.id == user_id, User.is_active.is_(True)`
abbrev pub is_active_user : Uuid → User → Bool
is_active_user i u = user_is i u && u.is_active

unfoldable pub get_current_membership : Uuid → User → Endpoint Membership
get_current_membership o user = on_db (
    find (λ w. scalar (member_is o user.id) w.memberships) (not_found_error organization_not_found))

-- `check_role` of `require_roles(...)`
unfoldable pub check_role : (Role → Bool) → Membership → Endpoint Membership
check_role allowed membership = do
  demand (allowed membership.role) (forbidden_error forbidden)
  reply membership

-- `8 <= len(raw_key) <= 256`
abbrev pub plausible_key : Option Text → Option Text
plausible_key none = none
plausible_key (some raw) = if leb 8 (length raw) && leb (length raw) 256 then some raw else none

module _ (p : Primitives) (s : Settings) where
  unfoldable pub get_current_user : Headers → Endpoint User
  get_current_user headers = do
    token ← answer (
        or_error (bearer_token headers.authorization)
          (authentication_error authentication_required))
    user_id ← on_db (
        find (λ w. decode_access_token p s token w.clock)
          (authentication_error invalid_access_token))
    user ← on_db (
        find (λ w. scalar (is_active_user user_id) w.users)
          (authentication_error invalid_access_token))
    enforce_limit (codes "user:" ++ p.uuid_str user.id) s.user_rate_limit_per_minute
    reply user

  unfoldable pub get_api_key_principal : Headers → Endpoint ApiKeyPrincipal
  get_api_key_principal headers = do
    raw ← answer (or_error (plausible_key headers.x_api_key) (authentication_error invalid_api_key))
    principal ← on_db (authenticate_api_key p raw)
    enforce_limit (codes "api-key:" ++ p.uuid_str principal.key_id) s.api_rate_limit_per_minute
    reply principal

-- The dependencies of a route under /organizations/{organization_id}: FastAPI solves the current
-- user once, then the membership, then the role.
pub record Caller : Type 0 where
  pub user : User
  pub membership : Membership

module _ (p : Primitives) (s : Settings) where
  unfoldable pub authorize : (Role → Bool) → Headers → Uuid → Endpoint Caller
  authorize allowed headers o = do
    user ← get_current_user p s headers
    membership ← get_current_membership o user
    check_role allowed membership
    reply (record { user = user; membership = membership })

-- `OrganizationMembership`, a membership of any role.
abbrev pub any_role : Role → Bool
any_role r = true
