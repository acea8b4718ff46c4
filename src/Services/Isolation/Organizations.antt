-- ===== src/Services/Isolation/Organizations.antt =====
-- The changes of app/services to organizations and memberships.
use tenantforge.Services.Isolation.{TenantKeys, elsewhere}
use tenantforge.Session.Keeps.{Keeps-bind, Keeps-or_rollback}
use tenantforge.Services.Rows.{touch_organization, organization_is, slug_is, member_is}
use tenantforge.Session.Keeps.{Keeps, keeps_rules}
use tenantforge.Services.Organizations.Deletion.{cascade_rows_other, TenantRows}
use tenantforge.Services.Organizations.{
  OrganizationUpdate, owner_or_admin, managed, save_organization, set_or_keep, lowered,
  changed_fields, update_organization, delete_organization, holds_role, only_owner,
  lock_actor_membership, membership_is, lock_membership, ensure_another_owner, save_role,
  update_membership, remove_membership, check_role_change, check_removal,
}
use tenantforge.Services.Isolation.{read-then, audit-then, Apart, found-then, write_audit-Apart}
use tenantforge.Services.Audit.{audited, write_audit}
use tenantforge.Model.Errors.{conflict_error, slug_taken, AppError}
use tenantforge.Model.Enums.{role_eq, Role, owner, admin, member}
use tenantforge.Session.{gets, or_rollback, ◌>>=◌, pure, ensure_that, when}
use tenantforge.Prelude.{
  ◌∙◌, ◌≢◌, inl, inr, List, select, exists, update_where, Bool-cases, not, ◌&&◌, arith,
  select-delete_other, scalar, scalar-holds, ◌≡◌, refl, Bool, true, false, none, some, [], ◌∷◌,
  select-update_other, ◌==◌,
}
use tenantforge.Model.Tables.{
  Organization, Detail, organization_updated, old_role, new_role, member_role_changed, Uuid,
  ResourceType, World,
}

check_role_change-reads :
    (acting target new : Role) (w : World) → (check_role_change acting target new w).1 ≡ w
unfolding check_role_change
check_role_change-reads owner target new w = refl
check_role_change-reads admin target new w = refl
check_role_change-reads member target new w = refl

check_removal-reads : (acting target : Role) (w : World) → (check_removal acting target w).1 ≡ w
unfolding check_removal
check_removal-reads owner target w = refl
check_removal-reads admin target w = refl
check_removal-reads member target w = refl

when-reads :
    (c : Bool) (test : World → Bool) (e : AppError) (w : World)
    → (when c (ensure_that test e) w).1 ≡ w
when-reads true test e w = refl
when-reads false test e w = refl

-- A change of rows that a query sees neither before nor after.
select-update_unseen :
    {A : Type 0} (q p : A → Bool) (f : A → A) (xs : List A)
    → ((x : A) → p x ≡ true → q x ≡ false)
    → ((x : A) → q (f x) ≡ false)
    → select q (update_where p f xs) ≡ select q xs
unfolding select update_where
select-update_unseen q p f [] before after = refl
select-update_unseen q p f (x ∷ xs) before after =
    ground (arith, before x, after x, select-update_unseen q p f xs before after)

module _ (g : Uuid) (rows : TenantRows) (o : Uuid) (apart : (o == g) ≡ false) where
  pub update_membership-Apart :
      (i a : Uuid) (new : Role) (w : World)
      → TenantKeys w
      → Apart g rows w
      → Apart g rows (update_membership o i a new w).1
  unfolding update_membership lock_actor_membership lock_membership ensure_another_owner ◌>>=◌
  update_membership-Apart i a new w keys h =
      found-then (Apart g rows) (λ w. scalar (member_is o a) w.memberships) _ _ w h
        λ acting acts.
          found-then (Apart g rows) (λ w. scalar (membership_is o i) w.memberships) _ _ w h
            λ row seen.
              read-then (Apart g rows) (check_role_change acting.role row.role new) _ w
                (check_role_change-reads acting.role row.role new w) h
                λ _.
                  read-then (Apart g rows)
                    (when (role_eq row.role owner && not (role_eq new owner))
                      (ensure_another_owner o row.id))
                    _ w (when-reads (role_eq row.role owner && not (role_eq new owner)) _ _ w) h
                    λ _.
                      let at_row = scalar-holds (membership_is o i) w.memberships row seen in
                      let there = elsewhere g rows o apart row.organization_id (ground arith) in
                      let saved =
                        select-update_other (λ r. r.id) (λ r. r.organization_id == g) _
                          (λ m. record m { role = new }) w.next_uuid w.memberships row
                          keys.memberships seen there there in
                      let rest : Keeps (Apart g rows) (
                          write_audit o (some a) member_role_changed ResourceType.membership row.id
                            (old_role row.role ∷ new_role new ∷ []) none
                          >>= λ _. pure (record row { role = new })) =
                        search (keeps_rules, write_audit-Apart) in
                      rest.at (save_role row.id new w) (rw saved h)

  pub remove_membership-Apart :
      (i a : Uuid) (w : World)
      → TenantKeys w
      → Apart g rows w
      → Apart g rows (remove_membership o i a w).1
  unfolding remove_membership lock_actor_membership lock_membership ensure_another_owner ◌>>=◌
  remove_membership-Apart i a w keys h =
      found-then (Apart g rows) (λ w. scalar (member_is o a) w.memberships) _ _ w h
        λ acting acts.
          found-then (Apart g rows) (λ w. scalar (membership_is o i) w.memberships) _ _ w h
            λ row seen.
              read-then (Apart g rows) (check_removal acting.role row.role) _ w
                (check_removal-reads acting.role row.role w) h
                λ _.
                  read-then (Apart g rows)
                    (when (role_eq row.role owner) (ensure_another_owner o row.id)) _ w
                    (when-reads (role_eq row.role owner) _ _ w) h
                    λ _.
                      let at_row = scalar-holds (membership_is o i) w.memberships row seen in
                      let there = elsewhere g rows o apart row.organization_id (ground arith) in
                      let dropped =
                        select-delete_other (λ r. r.id) (λ r. r.organization_id == g) _ w.next_uuid
                          w.memberships row keys.memberships seen there in
                      audit-then g rows o apart _ _ _ _ _ _ _ w h λ entry logged. rw dropped logged

  save_organization-Apart :
      (c : Organization) → c.id ≡ o → Keeps (Apart g rows) (save_organization c)
  unfolding save_organization
  save_organization-Apart c own = record {
    at = λ w h.
        let there = elsewhere g rows o apart c.id own in
        let unseen : (x : Organization)
            → organization_is c.id x ≡ true
            → organization_is g x ≡ false =
          λ x e. ground arith in
        let saved =
          select-update_unseen (organization_is g) (organization_is c.id) (λ _. c) w.organizations
            unseen (λ x. there) in
        elim (Bool-cases (exists (λ r. slug_is c.slug r && not (r.id == c.id)) w.organizations)) [
          | inl taken ↦ rw taken h
          | inr free ↦ rw (free, saved) h
        ];
  }

  managed_id :
      (allowed : Role → Bool) (a : Uuid) (w : World) (r : Organization)
      → managed allowed o a w ≡ some r
      → r.id ≡ o
  managed_id allowed a w r h =
      let at_row =
        scalar-holds (λ r. organization_is o r && exists (holds_role allowed r.id a) w.memberships)
          w.organizations r h in
      ground arith

  pub update_organization-Apart :
      (a : Uuid) (u : OrganizationUpdate) (w : World)
      → Apart g rows w
      → Apart g rows (update_organization o a u w).1
  unfolding update_organization
  update_organization-Apart a u w h =
      found-then (Apart g rows) (managed owner_or_admin o a) _ _ w h λ row seen.
        read-then (Apart g rows) (gets (λ w. w.clock)) _ w refl h λ now.
          let changed = touch_organization now row (record row {
            name = set_or_keep u.name row.name;
            slug = set_or_keep (lowered u.slug) row.slug;
          }) in
          let saves = save_organization-Apart changed (managed_id owner_or_admin a w row seen) in
          let rest : Keeps (Apart g rows) (
              or_rollback (save_organization changed) (conflict_error slug_taken) >>= λ _.
              write_audit o (some a) organization_updated ResourceType.organization o
                (Detail.fields (changed_fields u) ∷ []) none
              >>= λ _. pure changed) =
            Keeps-bind _ _ (Keeps-or_rollback _ _ saves)
              (λ x. search (keeps_rules, write_audit-Apart)) in
          rest.at w h

  pub delete_organization-Apart :
      (a : Uuid) (w : World) → Apart g rows w → Apart g rows (delete_organization o a w).1
  unfolding delete_organization
  delete_organization-Apart a w h =
      found-then (Apart g rows) (managed only_owner o a) _ _ w h λ row seen.
        let own = managed_id only_owner a w row seen in
        let there = elsewhere g rows o apart row.id own in
        let other : g ≢ row.id = λ e. absurd (ground arith) in
        audit-then g rows o apart _ _ _ _ _ _ _ w h
          λ entry logged. cascade_rows_other g row.id (audited entry w) other ∙ logged
