-- ===== src/Services/Organizations.antt =====
-- app/services/organizations.py: organizations, their members and the members' roles.
pub mod Owners
pub mod Founding
pub mod Deletion
pub mod Ownership
pub mod Authority
use tenantforge.Prelude.{
  ◌==◌, not, Bool, ◌&&◌, ◌||◌, Option, none, some, List, [], ◌∷◌, ◌++◌, scalar, select, exists,
  update_where, delete_where, order_by, if◌then◌else◌, Text, lower, ltb,
}
use tenantforge.Model.Enums.{Role, owner, admin, member, role_eq}
use tenantforge.Model.Errors.{
  ok, err, integrity_error, not_found_error, forbidden_error, conflict_error, forbidden, slug_taken,
  organization_not_found, owner_required, membership_not_found, membership_change_forbidden,
  membership_remove_forbidden, last_owner,
}
use tenantforge.Model.Time.{as_utc, stamp}
use tenantforge.Model.Tables.{
  Uuid, User, Organization, Membership, World, ResourceType, FieldName, Detail, fields, old_role,
  new_role, organization_created, organization_updated, organization_deleted, member_role_changed,
  member_removed,
}
use tenantforge.Session.{
  Action, Done, pure, gets, when, modify, ensure, find, ensure_that, or_rollback, ◌>>=◌, ◌>>◌,
}
use tenantforge.Services.Rows.{
  touch_organization, organization_is, slug_is, member_is, user_is, add_organization,
  add_membership,
}
use tenantforge.Services.Audit.{write_audit}
use tenantforge.Services.Billing.{create_default_subscription}

-- schemas/organizations.py, after validation. A field that is not set is `none`.
pub record OrganizationCreate : Type 0 where
  pub name : Text
  pub slug : Text

pub record OrganizationUpdate : Type 0 where
  pub name : Option Text
  pub slug : Option Text

-- The `try` block: the organization, its owner and its subscription are flushed in turn.
unfoldable pub found_organization : Uuid → Text → Text → Action Organization
found_organization actor name slug = do
  organization ← add_organization name slug
  add_membership actor organization.id owner
  create_default_subscription organization.id none
  pure organization

unfoldable pub create_organization : Uuid → OrganizationCreate → Action Organization
create_organization actor payload = do
  let slug = lower payload.slug
  ensure_that (λ w. not (exists (slug_is slug) w.organizations)) (conflict_error slug_taken)
  organization ←
      or_rollback (found_organization actor payload.name slug) (conflict_error slug_taken)
  write_audit organization.id (some actor) organization_created ResourceType.organization
      organization.id [] none
  pure organization

-- `.join(Membership, ...).where(Membership.user_id == user_id)`
abbrev pub joined : World → Uuid → Organization → Bool
joined w user o = exists (member_is o.id user) w.memberships

-- `.order_by(Organization.created_at, Organization.id)`
abbrev pub oldest_first : Organization → Organization → Bool
oldest_first a b =
    ltb (stamp (as_utc a.created_at)) (stamp (as_utc b.created_at))
    || (stamp (as_utc a.created_at) == stamp (as_utc b.created_at)) && ltb a.id b.id

unfoldable pub list_organizations : Uuid → Action (List Organization)
list_organizations user = gets λ w. order_by oldest_first (select (joined w user) w.organizations)

unfoldable pub get_organization : Uuid → Uuid → Action Organization
get_organization o user =
    find (λ w. scalar (λ r. organization_is o r && joined w user r) w.organizations)
      (not_found_error organization_not_found)

-- The member of an organization with one of the roles, as in `Membership.role.in_(...)`.
abbrev pub holds_role : (Role → Bool) → Uuid → Uuid → Membership → Bool
holds_role allowed o user m = member_is o user m && allowed m.role

abbrev pub owner_or_admin : Role → Bool
owner_or_admin r = role_eq r owner || role_eq r admin

abbrev pub only_owner : Role → Bool
only_owner r = role_eq r owner

-- The organization that the joined statement returns, with the membership's role checked.
abbrev pub managed : (Role → Bool) → Uuid → Uuid → World → Option Organization
managed allowed o user w =
    scalar (λ r. organization_is o r && exists (holds_role allowed r.id user) w.memberships)
      w.organizations

-- The flush of changed columns; the slug is unique.
unfoldable pub save_organization : Organization → Action Done
save_organization o w =
    if exists (λ r. slug_is o.slug r && not (r.id == o.id)) w.organizations
    then (err integrity_error, w)
    else (
      ok tt,
      record w { organizations = update_where (organization_is o.id) (λ _. o) w.organizations },
    )

-- `setattr` for each field that is set; the slug in lower case.
abbrev pub set_or_keep : Option Text → Text → Text
set_or_keep none old = old
set_or_keep (some t) old = t

abbrev pub lowered : Option Text → Option Text
lowered none = none
lowered (some t) = some (lower t)

-- `sorted(changes)`
abbrev pub field_if_set : Option Text → FieldName → List FieldName
field_if_set none f = []
field_if_set (some _) f = f ∷ []

abbrev pub changed_fields : OrganizationUpdate → List FieldName
changed_fields u = field_if_set u.name FieldName.name ++ field_if_set u.slug FieldName.slug

unfoldable pub update_organization : Uuid → Uuid → OrganizationUpdate → Action Organization
update_organization o actor payload = do
  organization ← find (managed owner_or_admin o actor) (forbidden_error forbidden)
  now ← gets λ w. w.clock
  let changed = touch_organization now organization (record organization {
    name = set_or_keep payload.name organization.name;
    slug = set_or_keep (lowered payload.slug) organization.slug;
  })
  or_rollback (save_organization changed) (conflict_error slug_taken)
  write_audit o (some actor) organization_updated ResourceType.organization o
      (fields (changed_fields payload) ∷ []) none
  pure changed

-- `session.delete(organization)`: the row, and `ON DELETE CASCADE` in every table of the tenant.
unfoldable pub cascade_organization : Uuid → World → World
cascade_organization o w = record w {
  organizations = delete_where (organization_is o) w.organizations;
  memberships = delete_where (λ r. r.organization_id == o) w.memberships;
  invitations = delete_where (λ r. r.organization_id == o) w.invitations;
  api_keys = delete_where (λ r. r.organization_id == o) w.api_keys;
  projects = delete_where (λ r. r.organization_id == o) w.projects;
  subscriptions = delete_where (λ r. r.organization_id == o) w.subscriptions;
  usage_events = delete_where (λ r. r.organization_id == o) w.usage_events;
  audit_logs = delete_where (λ r. r.organization_id == o) w.audit_logs;
}

unfoldable pub delete_organization : Uuid → Uuid → Action Done
delete_organization o actor = do
  organization ← find (managed only_owner o actor) (forbidden_error owner_required)
  write_audit o (some actor) organization_deleted ResourceType.organization o [] none
  modify (cascade_organization organization.id)

pub record MemberRow : Type 0 where
  pub membership : Membership
  pub email : Text

-- The join with `User`.
unfoldable pub with_email : List User → List Membership → List MemberRow
with_email users [] = []
with_email users (m ∷ ms) = elim (scalar (user_is m.user_id) users) [
  | none ↦ with_email users ms
  | some u ↦ record { membership = m; email = u.email } ∷ with_email users ms
]

-- `.order_by(Membership.joined_at, Membership.id)`
abbrev pub joined_first : Membership → Membership → Bool
joined_first a b =
    ltb (stamp (as_utc a.joined_at)) (stamp (as_utc b.joined_at))
    || (stamp (as_utc a.joined_at) == stamp (as_utc b.joined_at)) && ltb a.id b.id

unfoldable pub list_members : Uuid → Action (List MemberRow)
list_members o = gets λ w.
    with_email w.users (order_by joined_first (select (λ m. m.organization_id == o) w.memberships))

unfoldable pub lock_actor_membership : Uuid → Uuid → Action Membership
lock_actor_membership o user =
    find (λ w. scalar (member_is o user) w.memberships) (forbidden_error forbidden)

abbrev pub membership_is : Uuid → Uuid → Membership → Bool
membership_is o i m = (m.id == i) && (m.organization_id == o)

unfoldable pub lock_membership : Uuid → Uuid → Action Membership
lock_membership o i =
    find (λ w. scalar (membership_is o i) w.memberships) (not_found_error membership_not_found)

-- `any(owner_id != excluded ...)` over the owners of the organization.
abbrev pub another_owner : Uuid → Uuid → Membership → Bool
another_owner o excluded m =
    (m.organization_id == o) && role_eq m.role owner && not (m.id == excluded)

unfoldable pub ensure_another_owner : Uuid → Uuid → Action Done
ensure_another_owner o excluded =
    ensure_that (λ w. exists (another_owner o excluded) w.memberships) (conflict_error last_owner)

-- The role checks of `update_membership`, by the roles of actor and target and the new role.
unfoldable pub check_role_change : Role → Role → Role → Action Done
check_role_change admin target new =
    ensure (role_eq target member && role_eq new member)
      (forbidden_error membership_change_forbidden)
check_role_change owner target new = pure tt
check_role_change member target new = ensure Bool.false (forbidden_error forbidden)

abbrev pub save_role : Uuid → Role → World → World
save_role i r w = record w {
  memberships = update_where (λ m. m.id == i) (λ m. record m { role = r }) w.memberships;
}

unfoldable pub update_membership : Uuid → Uuid → Uuid → Role → Action Membership
update_membership o i actor new = do
  acting ← lock_actor_membership o actor
  target ← lock_membership o i
  check_role_change acting.role target.role new
  when (role_eq target.role owner && not (role_eq new owner)) (ensure_another_owner o target.id)
  modify (save_role target.id new)
  write_audit o (some actor) member_role_changed ResourceType.membership target.id
      (old_role target.role ∷ new_role new ∷ []) none
  pure (record target { role = new })

-- The role checks of `remove_membership`.
unfoldable pub check_removal : Role → Role → Action Done
check_removal admin target =
    ensure (role_eq target member) (forbidden_error membership_remove_forbidden)
check_removal owner target = pure tt
check_removal member target = ensure Bool.false (forbidden_error forbidden)

abbrev pub drop_membership : Uuid → World → World
drop_membership i w = record w { memberships = delete_where (λ m. m.id == i) w.memberships }

unfoldable pub remove_membership : Uuid → Uuid → Uuid → Action Done
remove_membership o i actor = do
  acting ← lock_actor_membership o actor
  target ← lock_membership o i
  check_removal acting.role target.role
  when (role_eq target.role owner) (ensure_another_owner o target.id)
  write_audit o (some actor) member_removed ResourceType.membership target.id
      (Detail.user_id target.user_id ∷ Detail.role target.role ∷ []) none
  modify (drop_membership target.id)
