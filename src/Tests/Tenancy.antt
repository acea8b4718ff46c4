-- ===== src/Tests/Tenancy.antt =====
-- Organizations, members and projects.
use tenantforge.Session.{◌>>=◌, transaction}
use tenantforge.Services.System.Reachable.{Reach-IsOwned}
use tenantforge.Services.Rows.{
  member_is, has_user, has_organization, add_organization, add_membership, add_subscription,
}
use tenantforge.Services.Periods.{add_month, calendar_period}
use tenantforge.Services.Organizations.Founding.{Founded, create_organization-ok}
use tenantforge.Services.Organizations.Deletion.{tenant_rows, no_rows, delete_organization_scope}
use tenantforge.Services.Organizations.Authority.{
  update_membership_authority, remove_membership_authority,
}
use tenantforge.Services.Organizations.{
  OrganizationCreate, found_organization, create_organization, cascade_organization,
  delete_organization, lock_actor_membership, membership_is, lock_membership, ensure_another_owner,
  check_role_change, update_membership, check_removal, remove_membership,
}
use tenantforge.Services.Billing.{create_default_subscription}
use tenantforge.Services.Audit.Listing.{list_audit_logs-Page}
use tenantforge.Services.Audit.{write_audit, newest_first, list_audit_logs}
use tenantforge.Model.Time.{ordinal, is_leap, days_in_month, aware}
use tenantforge.Model.Tables.{
  Uuid, AuditAction, ResourceType, Organization, Membership, AuditLog, World,
}
use tenantforge.Model.Errors.{ok}
use tenantforge.Model.Enums.{owner, admin, member}
use tenantforge.Prelude.{
  ℕ, none, [], ◌∷◌, select, insert_ordered, order_by, take, drop, ◌≡◌, refl, ◌⊎◌, some, List, arith,
  Page, scalar, exists, update_where, delete_where, codes, text_eq, lower, ◌==◌,
}
use tenantforge.Services.Organizations.Ownership.{IsOwned}
use tenantforge.Services.System.{
  handle, creates_organization, updates_membership, removes_membership, called, next, here,
}
use tenantforge.Tests.Fixtures.{
  bob_joined, primitives, settings, database, database-IsOwned, day_of_january,
}

abbrev beta : OrganizationCreate
beta = record { name = codes "Beta"; slug = codes "Beta" }

-- Three calls: the owner founds a second organization, promotes a member and leaves.
abbrev founded : World
founded = (transaction (handle primitives settings (creates_organization 0 beta)) database).1

abbrev promoted : World
promoted = (transaction (handle primitives settings (updates_membership 3 5 0 owner)) founded).1

abbrev left : World
left = (transaction (handle primitives settings (removes_membership 3 4 0)) promoted).1

Reach-IsOwned_example : IsOwned left
Reach-IsOwned_example =
    Reach-IsOwned primitives settings database left
      (next
        (next (next here (called (creates_organization 0 beta)))
          (called (updates_membership 3 5 0 owner)))
        (called (removes_membership 3 4 0)))
      database-IsOwned

update_membership_authority_example :
    (acting : Membership) × (target : Membership) × (scalar (member_is 3 0) database.memberships
      ≡ some acting)
    × (scalar (membership_is 3 5) database.memberships ≡ some target)
    × ((acting.role ≡ owner) ⊎ ((acting.role ≡ admin) × (target.role ≡ member) × (admin ≡ member)))
unfolding update_membership lock_actor_membership lock_membership check_role_change
    ensure_another_owner write_audit has_organization scalar exists update_where ◌>>=◌
update_membership_authority_example =
    update_membership_authority 3 5 0 admin database (update_membership 3 5 0 admin database).1
      {t = record bob_joined { role = admin }} refl

remove_membership_authority_example :
    (acting : Membership) × (target : Membership) × (scalar (member_is 3 0) database.memberships
      ≡ some acting)
    × (scalar (membership_is 3 5) database.memberships ≡ some target)
    × ((acting.role ≡ owner) ⊎ ((acting.role ≡ admin) × (target.role ≡ member)))
unfolding remove_membership lock_actor_membership lock_membership check_removal ensure_another_owner
    write_audit has_organization scalar exists delete_where ◌>>=◌
remove_membership_authority_example =
    remove_membership_authority 3 5 0 database (remove_membership 3 5 0 database).1 {d = tt} refl

abbrev beta_row : Organization
beta_row = record {
  id = 20;
  name = codes "Beta";
  slug = codes "beta";
  created_at = aware (day_of_january 15);
  updated_at = aware (day_of_january 15);
}

create_organization-ok_example :
    Founded 0 beta beta_row database (create_organization 0 beta database).1
unfolding create_organization found_organization add_organization add_membership
    create_default_subscription add_subscription calendar_period add_month days_in_month is_leap
    write_audit has_organization has_user scalar exists lower text_eq ◌>>=◌
create_organization-ok_example =
    create_organization-ok 0 beta database (create_organization 0 beta database).1 {o = beta_row}
      refl

delete_organization_scope_example :
    (tenant_rows 3 (delete_organization 3 0 database).1 ≡ no_rows)
    × (tenant_rows 9 (delete_organization 3 0 database).1 ≡ tenant_rows 9 database)
unfolding delete_organization cascade_organization write_audit has_organization scalar exists
    delete_where ◌>>=◌
delete_organization_scope_example =
    delete_organization_scope 3 0 9 database (delete_organization 3 0 database).1 {d = tt} refl
      (λ e. absurd (ground arith))

-- Three changes of the organization, a day apart, and one of another organization.
abbrev logged_on : Uuid → Uuid → ℕ → AuditLog
logged_on i o day = record {
  id = i;
  organization_id = o;
  actor_user_id = some 0;
  action = AuditAction.project_created;
  resource_type = ResourceType.project;
  resource_id = 8;
  details = [];
  ip_address = none;
  created_at = aware (day_of_january day);
}

abbrev busy : World
busy = record database {
  audit_logs = logged_on 13 3 12 ∷ logged_on 12 9 11 ∷ logged_on 11 3 10 ∷ logged_on 10 3 9 ∷ [];
}

-- The second page of one entry.
list_audit_logs-Page_example :
    (rows : List AuditLog) × (list_audit_logs 3 1 1 busy ≡ (ok rows, busy))
    × Page newest_first (select (λ a. a.organization_id == 3) busy.audit_logs) 1 1 rows
list_audit_logs-Page_example = list_audit_logs-Page 3 1 1 busy

second_page : list_audit_logs 3 1 1 busy ≡ (ok (logged_on 11 3 10 ∷ []), busy)
unfolding list_audit_logs order_by insert_ordered take drop select ordinal
second_page = refl
