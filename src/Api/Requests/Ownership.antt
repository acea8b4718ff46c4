-- ===== src/Api/Requests/Ownership.antt =====
-- The owners of the organizations beside the whole application: the steps of its routes, and of the
-- dependencies and e-mails that the routes share.
pub mod Routes
pub mod History
use tenantforge.Model.Tables.{World}
use tenantforge.Session.Keeps.{Keeps, keeps_rules}
use tenantforge.Session.{Done}
use tenantforge.Services.Usage.{get_usage_summary}
use tenantforge.Services.System.Writes.{IsOwned-step}
use tenantforge.Services.Organizations.Ownership.{
  IsOwned, remove_membership-IsOwned, update_membership-IsOwned,
}
use tenantforge.Services.Organizations.Founding.{create_organization-IsOwned}
use tenantforge.Services.Organizations.Deletion.{delete_organization-IsOwned}
use tenantforge.Services.Organizations.{
  OrganizationCreate, create_organization, delete_organization, update_membership,
  remove_membership,
}
use tenantforge.Security.Crypto.{Primitives, Settings}
use tenantforge.Model.Time.{Timestamp}
use tenantforge.Model.Tables.{Uuid, User, Membership, Invitation}
use tenantforge.Model.Json.{Fields}
use tenantforge.Model.Errors.{ok}
use tenantforge.Model.Enums.{Role}
use tenantforge.Infrastructure.RateLimit.{enforce}
use tenantforge.Infrastructure.Queue.{enqueue}
use tenantforge.Api.Requests.Serves.{
  Serves, Returns, Holds, transaction-Returns, Holds-Serves, Holds-fail, Holds-answer, Holds-on_db,
  Holds-on_redis, Holds-bind, serves_rules,
}
use tenantforge.Api.Email.{Adapters, new_uuid, enqueue_job, send_invitation, or_log}
use tenantforge.Api.Deps.{
  Headers, unix_time, with_counters, enforce_limit, get_current_membership, check_role,
  get_current_user, get_api_key_principal, authorize,
}
use tenantforge.Api.{Endpoint}
use tenantforge.Prelude.{ℕ, refl, Bool, Option, [], ◌∷◌, arith, Text}
use tenantforge.Services.System.Kept.{authenticate_api_key-Keeps}

pub create_organization-Returns :
    (a : Uuid) (c : OrganizationCreate) → Returns IsOwned (create_organization a c)
create_organization-Returns a c =
    transaction-Returns (create_organization a c) (create_organization-IsOwned a c)

pub update_membership-Returns :
    (o i a : Uuid) (r : Role) → Returns IsOwned (update_membership o i a r)
update_membership-Returns o i a r =
    transaction-Returns (update_membership o i a r) (update_membership-IsOwned o i a r)

pub remove_membership-Returns : (o i a : Uuid) → Returns IsOwned (remove_membership o i a)
remove_membership-Returns o i a =
    transaction-Returns (remove_membership o i a) (remove_membership-IsOwned o i a)

pub delete_organization-Returns : (o a : Uuid) → Returns IsOwned (delete_organization o a)
delete_organization-Returns o a =
    transaction-Returns (delete_organization o a) (delete_organization-IsOwned o a)

pub new_uuid-IsOwned : Keeps IsOwned new_uuid
unfolding new_uuid
new_uuid-IsOwned = record { at = λ w v. IsOwned-step w _ refl refl (omega arith) v }

pub get_usage_summary-Keeps :
    (o : Uuid) (metric : Text) (now : Option Timestamp)
    → Keeps IsOwned (get_usage_summary o metric now)
unfolding get_usage_summary
get_usage_summary-Keeps o metric now = search keeps_rules depth 12

-- The dependencies keep every invariant, since all that they do to a database is to read it.
module _ {P : World → Type 0} where
  pub enforce_limit-Serves : (i : Text) (limit : ℕ) → Serves P (enforce_limit i limit)
  unfolding enforce_limit
  enforce_limit-Serves i limit = Holds-Serves _ (
      Holds-on_redis (λ a. with_counters a (enforce i limit 60 (unix_time a.db) a.counters))
        (λ a. (refl, refl)))

  pub check_role-Serves : (allowed : Role → Bool) (m : Membership) → Serves P (check_role allowed m)
  unfolding check_role
  check_role-Serves allowed m = search serves_rules

  pub get_current_membership-Serves : (o : Uuid) (u : User) → Serves P (get_current_membership o u)
  unfolding get_current_membership
  get_current_membership-Serves o u = search (serves_rules, keeps_rules)

module _ {P : World → Type 0} (p : Primitives) (s : Settings) where
  pub get_current_user-Serves : (h : Headers) → Serves P (get_current_user p s h)
  unfolding get_current_user
  get_current_user-Serves h = search (serves_rules, keeps_rules, enforce_limit-Serves) depth 12

  pub authorize-Serves :
      (allowed : Role → Bool) (h : Headers) (o : Uuid) → Serves P (authorize p s allowed h o)
  unfolding authorize
  authorize-Serves allowed h o =
      search
        (serves_rules, get_current_user-Serves, get_current_membership-Serves, check_role-Serves)
        depth 12

module _ {P : World → Type 0} (p : Primitives) (adapters : Adapters)
    (fresh : Keeps P new_uuid) where
  pub enqueue_job-Holds :
      (job_type : Text) (payload : Fields) → Holds P (enqueue_job p adapters job_type payload)
  unfolding enqueue_job
  enqueue_job-Holds job_type payload = Holds-bind _ _ (Holds-on_db _ fresh) λ job_id.
      Holds-bind _ _ (Holds-on_db _ (search keeps_rules)) λ now.
        Holds-bind _ _ (Holds-answer _) λ job.
          Holds-on_redis
            (λ a. (ok tt, record a { redis = enqueue adapters.webhooks.json job a.redis }))
            (λ a. (refl, refl))

  pub send_invitation-Holds :
      (i : Invitation) (token : Text) → Holds P (send_invitation p adapters i token)
  unfolding send_invitation
  send_invitation-Holds i [] = Holds-fail _
  send_invitation-Holds i (c ∷ token) = enqueue_job-Holds _ _

pub or_log-Serves :
    {P : World → Type 0} (p : Primitives) (adapters : Adapters) (m : Endpoint Done)
    → Holds P m
    → Serves P (or_log p adapters m)
unfolding or_log
or_log-Serves p adapters m k = Holds-Serves _ (record { at = k.at })

pub get_api_key_principal-Serves :
    (p : Primitives) (s : Settings) (h : Headers) → Serves IsOwned (get_api_key_principal p s h)
unfolding get_api_key_principal
get_api_key_principal-Serves p s h =
    search (serves_rules, authenticate_api_key-Keeps, enforce_limit-Serves) depth 12
