-- ===== src/Services/Organizations/Deletion.antt =====
-- `delete_organization`: a deleted organization leaves no row behind, and no other loses one.
use tenantforge.Services.Audit.{audit_entry, audited}
use tenantforge.Session.{Done, transaction}
use tenantforge.Services.Organizations.Ownership.{IsOwned-of_tables, IsOwned}
use tenantforge.Services.Audit.Rules.{on-audit}
use tenantforge.Session.Rules.{or_error-ok, transaction-keeps, on-read}
use tenantforge.Model.Errors.{ok}
use tenantforge.Model.Tables.{
  Invitation, ApiKey, Project, UsageEvent, ResourceType, organization_deleted, AuditLog, Uuid,
  Organization, Membership, Subscription, World,
}
use tenantforge.Prelude.{
  ◌∙◌, FallingKeys-delete, delete_where, All-delete_rest, select-delete, select-delete_self, ◌≢◌,
  none, [], sym, ap, subst, select, ◌&&◌, some, scalar-holds, List, FallingKeys-mono, ◌==◌, refl,
  ◌≡◌, true, false, arith, exists,
}
use tenantforge.Services.Rows.{organization_is}
use tenantforge.Services.Organizations.{
  managed, cascade_organization, delete_organization, holds_role, only_owner,
}
use tenantforge.Services.Organizations.Owners.{owned-delete_organization, HasOwner}

-- The rows of a tenant, in each of its tables.
pub record TenantRows : Type 0 where
  pub organizations : List Organization
  pub memberships : List Membership
  pub invitations : List Invitation
  pub api_keys : List ApiKey
  pub projects : List Project
  pub subscriptions : List Subscription
  pub usage_events : List UsageEvent
  pub audit_logs : List AuditLog

abbrev pub tenant_rows : Uuid → World → TenantRows
tenant_rows o w = record {
  organizations = select (organization_is o) w.organizations;
  memberships = select (λ r. r.organization_id == o) w.memberships;
  invitations = select (λ r. r.organization_id == o) w.invitations;
  api_keys = select (λ r. r.organization_id == o) w.api_keys;
  projects = select (λ r. r.organization_id == o) w.projects;
  subscriptions = select (λ r. r.organization_id == o) w.subscriptions;
  usage_events = select (λ r. r.organization_id == o) w.usage_events;
  audit_logs = select (λ r. r.organization_id == o) w.audit_logs;
}

abbrev pub no_rows : TenantRows
no_rows = record {
  organizations = [];
  memberships = [];
  invitations = [];
  api_keys = [];
  projects = [];
  subscriptions = [];
  usage_events = [];
  audit_logs = [];
}

cascade_rows_self : (o : Uuid) (w : World) → tenant_rows o (cascade_organization o w) ≡ no_rows
unfolding cascade_organization
cascade_rows_self o w = ground (
  arith,
  select-delete_self (organization_is o) w.organizations,
  select-delete_self (λ r. r.organization_id == o) w.memberships,
  select-delete_self (λ r. r.organization_id == o) w.invitations,
  select-delete_self (λ r. r.organization_id == o) w.api_keys,
  select-delete_self (λ r. r.organization_id == o) w.projects,
  select-delete_self (λ r. r.organization_id == o) w.subscriptions,
  select-delete_self (λ r. r.organization_id == o) w.usage_events,
  select-delete_self (λ r. r.organization_id == o) w.audit_logs,
)

-- A column that equals `g` is not `o`.
apart : (g o i : Uuid) → g ≢ o → (i == g) ≡ true → (i == o) ≡ false
apart g o i ne e = ground arith

pub cascade_rows_other :
    (g o : Uuid) (w : World) → g ≢ o → tenant_rows g (cascade_organization o w) ≡ tenant_rows g w
unfolding cascade_organization
cascade_rows_other g o w ne = ground (
  arith,
  select-delete (organization_is g) (organization_is o) w.organizations (λ r. apart g o r.id ne),
  select-delete (λ r. r.organization_id == g) (λ r. r.organization_id == o) w.memberships
      (λ r. apart g o r.organization_id ne),
  select-delete (λ r. r.organization_id == g) (λ r. r.organization_id == o) w.invitations
      (λ r. apart g o r.organization_id ne),
  select-delete (λ r. r.organization_id == g) (λ r. r.organization_id == o) w.api_keys
      (λ r. apart g o r.organization_id ne),
  select-delete (λ r. r.organization_id == g) (λ r. r.organization_id == o) w.projects
      (λ r. apart g o r.organization_id ne),
  select-delete (λ r. r.organization_id == g) (λ r. r.organization_id == o) w.subscriptions
      (λ r. apart g o r.organization_id ne),
  select-delete (λ r. r.organization_id == g) (λ r. r.organization_id == o) w.usage_events
      (λ r. apart g o r.organization_id ne),
  select-delete (λ r. r.organization_id == g) (λ r. r.organization_id == o) w.audit_logs
      (λ r. apart g o r.organization_id ne),
)

-- An entry is in its own organization's log only.
audited_rows_other :
    (g : Uuid) (entry : AuditLog) (w : World)
    → entry.organization_id ≢ g
    → tenant_rows g (audited entry w) ≡ tenant_rows g w
unfolding select
audited_rows_other g entry w ne = ground arith

abbrev deletion_entry : Uuid → Uuid → World → AuditLog
deletion_entry o actor w =
    audit_entry o (some actor) organization_deleted ResourceType.organization o [] none w

-- A deletion that returned: the cascade of the organization, after an audit entry of its own.
record Deleted (o actor : Uuid) (w w' : World) : Type 0 where
  organization : Organization
  managed_by : managed only_owner o actor w ≡ some organization
  cascaded : w' ≡ cascade_organization o (audited (deletion_entry o actor w) w)

delete_organization-ok :
    (o actor : Uuid) (w w' : World) {d : Done}
    → delete_organization o actor w ≡ (ok d, w')
    → Deleted o actor w w'
unfolding delete_organization
delete_organization-ok o actor w w' h = on-read _ _ _ h refl λ g found h.
    on-audit _ _ _ _ _ _ _ _ _ h λ _ h.
      let is_managed = or_error-ok _ _ found in
      let at_row =
        scalar-holds
          (λ r. organization_is o r && exists (holds_role only_owner r.id actor) w.memberships)
          w.organizations g is_managed in
      let same : g.id ≡ o = ground arith in
      record {
        organization = g;
        managed_by = is_managed;
        cascaded = sym (
            subst (λ i. cascade_organization i (audited (deletion_entry o actor w) w) ≡ w') same
              (ap (λ x. x.1) h));
      }

-- When `delete_organization` returns, no row of the organization is left in any table, its audit
-- log included, and the rows of every other organization are the same as before.
pub delete_organization_scope :
    (o actor g : Uuid) (w w' : World) {d : Done}
    → delete_organization o actor w ≡ (ok d, w')
    → g ≢ o
    → (tenant_rows o w' ≡ no_rows) × (tenant_rows g w' ≡ tenant_rows g w)
delete_organization_scope o actor g w w' h ne =
    let c = delete_organization-ok o actor w w' h in
    (
      rw c.cascaded (cascade_rows_self o _),
      rw c.cascaded (
          cascade_rows_other g o _ ne
          ∙ audited_rows_other g (deletion_entry o actor w) w (λ e. ne (sym e))),
    )

-- The owners that are left after a deletion.
pub delete_organization-IsOwned :
    (o actor : Uuid) (w : World)
    → IsOwned w
    → IsOwned (transaction (delete_organization o actor) w).1
unfolding cascade_organization
delete_organization-IsOwned o actor w v = transaction-keeps IsOwned _ w v λ _ w' h.
    let c = delete_organization-ok o actor w w' h in
    IsOwned-of_tables w' (delete_where (organization_is o) w.organizations)
      (delete_where (λ r. r.organization_id == o) w.memberships)
      (ap (λ v. v.organizations) c.cascaded) (ap (λ v. v.memberships) c.cascaded)
      (All-delete_rest (HasOwner w.memberships) _ (organization_is o) w.organizations
        (λ x other e. owned-delete_organization x.id o w.memberships other e) v.owners)
      (FallingKeys-mono _ w.next_uuid _ _ (omega (arith, ap (λ v. v.next_uuid) c.cascaded))
        (FallingKeys-delete _ _ w.next_uuid w.memberships v.ids))
