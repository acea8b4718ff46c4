-- ===== src/Services/Organizations/Authority.antt =====
-- Who may change what in app/services/organizations.py.
use tenantforge.Session.{Done}
use tenantforge.Services.Rows.{member_is}
use tenantforge.Services.Organizations.{
  membership_is, check_role_change, update_membership, check_removal, remove_membership,
}
use tenantforge.Model.Tables.{Uuid, Membership, World}
use tenantforge.Model.Errors.{ok}
use tenantforge.Model.Enums.{Role, owner, admin, member}
use tenantforge.Prelude.{◌≡◌, ◌⊎◌, some, arith, scalar}
use tenantforge.Services.Organizations.Ownership.{update_membership-ok, remove_membership-ok}

role_change_permitted :
    (acting target new : Role) (w : World)
    → (check_role_change acting target new w).0 ≡ ok tt
    → (acting ≡ owner) ⊎ ((acting ≡ admin) × (target ≡ member) × (new ≡ member))
unfolding check_role_change
role_change_permitted acting target new w h = ground arith

removal_permitted :
    (acting target : Role) (w : World)
    → (check_removal acting target w).0 ≡ ok tt
    → (acting ≡ owner) ⊎ ((acting ≡ admin) × (target ≡ member))
unfolding check_removal
removal_permitted acting target w h = ground arith

-- A role change that returns was asked for by a member of the organization: an owner, or an admin
-- who leaves a member's role at member. No admin and no member promotes or demotes anybody.
pub update_membership_authority :
    (o i actor : Uuid) (new : Role) (w w' : World) {t : Membership}
    → update_membership o i actor new w ≡ (ok t, w')
    → (acting : Membership) × (target : Membership) × (scalar (member_is o actor) w.memberships
        ≡ some acting)
      × (scalar (membership_is o i) w.memberships ≡ some target)
      × ((acting.role ≡ owner) ⊎ ((acting.role ≡ admin) × (target.role ≡ member) × (new ≡ member)))
update_membership_authority o i actor new w w' h =
    let c = update_membership-ok o i actor new w w' h in
    (
      c.acting,
      c.target,
      c.acts,
      c.found,
      role_change_permitted c.acting.role c.target.role new w c.permitted,
    )

-- A removal that returns was asked for by an owner of the organization, or by an admin of it and
-- the removed membership was that of a plain member.
pub remove_membership_authority :
    (o i actor : Uuid) (w w' : World) {d : Done}
    → remove_membership o i actor w ≡ (ok d, w')
    → (acting : Membership) × (target : Membership) × (scalar (member_is o actor) w.memberships
        ≡ some acting)
      × (scalar (membership_is o i) w.memberships ≡ some target)
      × ((acting.role ≡ owner) ⊎ ((acting.role ≡ admin) × (target.role ≡ member)))
remove_membership_authority o i actor w w' h =
    let c = remove_membership-ok o i actor w w' h in
    (
      c.acting,
      c.target,
      c.acts,
      c.found,
      removal_permitted c.acting.role c.target.role w c.permitted,
    )
