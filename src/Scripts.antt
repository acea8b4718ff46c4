-- ===== src/Scripts.antt =====
-- scripts/seed_demo.py: the demonstration data of a development database. The loops over the three
-- users and the three projects are written out. A changed attribute is flushed, one that is set to
-- the value that it had is not. The printed lines are left out.
pub mod Seeded
pub mod Twice
use tenantforge.Services.Rows.{
  slug_is, member_is, subscription_of, add_organization, add_membership, add_subscription, email_is,
  add_project,
}
use tenantforge.Services.Billing.{save_subscription}
use tenantforge.Security.Crypto.{Primitives, draw}
use tenantforge.Model.Time.{Datetime, add_days, aware}
use tenantforge.Model.Tables.{Uuid, User, Organization, Project, Subscription}
use tenantforge.Model.Errors.{integrity_error, err, ok}
use tenantforge.Model.Enums.{Role, Plan, SubscriptionStatus, plan_eq}
use tenantforge.Session.{◌>>=◌, ◌>>◌, Action, Done, pure, gets, lift, when, modify, transaction}
use tenantforge.Prelude.{
  false, ◌+◌, Bool, true, not, ◌&&◌, none, some, ◌∷◌, scalar, exists, Text, codes, text_eq, ◌==◌,
  if◌then◌else◌,
}

abbrev pub demo_password : Text
demo_password = codes "tenantforge-demo"

abbrev pub owner_email : Text
owner_email = codes "owner@tenantforge.local"

abbrev pub admin_email : Text
admin_email = codes "admin@tenantforge.local"

abbrev pub member_email : Text
member_email = codes "member@tenantforge.local"

abbrev pub demo_slug : Text
demo_slug = codes "acme-labs"

abbrev pub public_api : Text
public_api = codes "Public API"

abbrev pub usage_dashboard : Text
usage_dashboard = codes "Usage Dashboard"

abbrev pub billing_adapter : Text
billing_adapter = codes "Billing Adapter"

-- `User(email=..., password_hash=..., is_active=True, is_verified=True)`, flushed.
unfoldable pub add_verified_user : Text → Text → Action User
add_verified_user email password_hash w =
    let row : User = record {
      id = w.next_uuid;
      email = email;
      password_hash = password_hash;
      is_active = true;
      is_verified = true;
      created_at = aware w.clock;
      updated_at = aware w.clock;
    } in
    if exists (email_is email) w.users
    then (err integrity_error, w)
    else (ok row, record w { users = row ∷ w.users; next_uuid = w.next_uuid + 1 })

unfoldable pub get_or_create_user : Primitives → Text → Action User
get_or_create_user p email = do
  found ← gets λ w. scalar (email_is email) w.users
  elim found [
    | some user ↦ pure user
    | none ↦ do salt ← draw; add_verified_user email (p.hash_password salt demo_password)
  ]

unfoldable pub ensure_organization : Action Organization
ensure_organization = do
  found ← gets λ w. scalar (slug_is demo_slug) w.organizations
  elim found [
    | some organization ↦ pure organization
    | none ↦ add_organization (codes "Acme Labs") demo_slug
  ]

-- A turn of the loop over the users.
unfoldable pub ensure_membership : Uuid → Uuid → Role → Action Done
ensure_membership o user role = do
  there ← gets λ w. exists (member_is o user) w.memberships
  when (not there) (add_membership user o role >>= λ _. pure tt)

abbrev pub is_named : Uuid → Text → Project → Bool
is_named o name r = (r.organization_id == o) && text_eq r.name name

-- A turn of the loop over the projects.
unfoldable pub ensure_project : Uuid → Uuid → Text → Text → Action Done
ensure_project o user name description = do
  there ← gets λ w. exists (is_named o name) w.projects
  when (not there) (add_project o name (some description) user >>= λ _. pure tt)

-- `subscription.plan = Plan.PRO` and `subscription.status = SubscriptionStatus.ACTIVE`
abbrev pub promoted : Datetime → Subscription → Subscription
promoted now s = record s {
  plan = Plan.pro;
  status = SubscriptionStatus.active;
  updated_at = aware now;
}

abbrev pub is_pro_active : Plan → SubscriptionStatus → Bool
is_pro_active Plan.pro SubscriptionStatus.active = true
is_pro_active _ _ = false

abbrev pub is_promoted : Subscription → Bool
is_promoted s = is_pro_active s.plan s.status

unfoldable pub ensure_subscription : Uuid → Action Done
ensure_subscription o = do
  found ← gets λ w. scalar (subscription_of o) w.subscriptions
  elim found [
    | some s ↦ when (not (is_promoted s)) (modify λ w. save_subscription (promoted w.clock s) w)
    | none ↦ do
      start ← gets λ w. w.clock
      end ← lift (add_days 30 start)
      add_subscription o Plan.pro SubscriptionStatus.active (aware start) (aware end)
      pure tt
  ]

module _ (p : Primitives) where
  unfoldable pub seed_rows : Action Done
  seed_rows = do
    owning ← get_or_create_user p owner_email
    managing ← get_or_create_user p admin_email
    working ← get_or_create_user p member_email
    organization ← ensure_organization
    ensure_membership organization.id owning.id Role.owner
    ensure_membership organization.id managing.id Role.admin
    ensure_membership organization.id working.id Role.member
    ensure_project organization.id owning.id public_api
        (codes "Customer-facing API surface and integrations.")
    ensure_project organization.id owning.id usage_dashboard
        (codes "Monthly usage and quota reporting.")
    ensure_project organization.id owning.id billing_adapter
        (codes "Development billing workflow and webhook handling.")
    ensure_subscription organization.id

  -- `async with SessionLocal() as session, session.begin()`
  abbrev pub seed : Action Done
  seed = transaction seed_rows
