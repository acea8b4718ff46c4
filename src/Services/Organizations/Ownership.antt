-- ===== src/Services/Organizations/Ownership.antt =====
-- The last-owner rule of app/services/organizations.py: whoever changes roles or removes members,
-- every organization keeps an owner.
use tenantforge.Services.Rows.{member_is}
use tenantforge.Prelude.{
  FallingKeys-mono, FallingKeys-update, FallingKeys-delete, delete_where, scalar-holds, ℕ, ◌+◌, ◌≡◌,
  refl, ◌⊎◌, true, false, ◌&&◌, not, ◌==◌, List, some, scalar, exists, update_where, All, All-mono,
  arith, Bool-cases, inl, inr,
}
use tenantforge.Model.Enums.{Role, owner, admin, member, role_eq}
use tenantforge.Model.Tables.{Uuid, Organization, Membership, World}
use tenantforge.Session.{transaction}
use tenantforge.Model.Errors.{ok}
use tenantforge.Session.Rules.{on-read, on-modify, on-guard, or_error-ok, transaction-keeps}
use tenantforge.Services.Audit.Rules.{on-audit}
use tenantforge.Services.Organizations.{
  Done, remove_membership, check_removal, drop_membership, another_owner, membership_is, save_role,
  update_membership, lock_actor_membership, lock_membership, check_role_change,
  ensure_another_owner,
}
use tenantforge.Services.Organizations.Owners.{
  another-delete, owned_by, HasOwner, Below, not_owned_another, another-set_role, owned-grant_owner,
}

pub record IsOwned (w : World) : Type 0 where
  pub owners : All (HasOwner w.memberships) w.organizations
  pub ids : Below w.next_uuid w.memberships

-- The invariant of a world from its two tables.
pub IsOwned-of_tables :
    (w : World) (os : List Organization) (ms : List Membership)
    → w.organizations ≡ os
    → w.memberships ≡ ms
    → All (HasOwner ms) os
    → Below w.next_uuid ms
    → IsOwned w
IsOwned-of_tables w os ms eo em h b = record { owners = rw (eo, em) h; ids = rw em b }

-- A change of role that returned: the row that it found, what its guard saw, what it wrote.
pub record RoleChanged (o i actor : Uuid) (new : Role) (w w' : World) : Type 0 where
  pub acting : Membership
  pub acts : scalar (member_is o actor) w.memberships ≡ some acting
  pub target : Membership
  pub found : scalar (membership_is o i) w.memberships ≡ some target
  pub permitted : (check_role_change acting.role target.role new w).0 ≡ ok tt
  pub guarded :
      ((role_eq target.role owner && not (role_eq new owner)) ≡ false)
      ⊎ (exists (another_owner o target.id) w.memberships ≡ true)
  pub written : w'.memberships ≡ (save_role target.id new w).memberships
  pub kept : w'.organizations ≡ w.organizations
  pub drawn : w'.next_uuid ≡ w.next_uuid + 1

check_role_change_reads :
    (acting target new : Role) (w : World)
    → check_role_change acting target new w ≡ ((check_role_change acting target new w).0, w)
unfolding check_role_change
check_role_change_reads admin _ _ w = refl
check_role_change_reads owner _ _ w = refl
check_role_change_reads member _ _ w = refl

pub update_membership-ok :
    (o i actor : Uuid) (new : Role) (w w' : World) {t' : Membership}
    → update_membership o i actor new w ≡ (ok t', w')
    → RoleChanged o i actor new w w'
unfolding update_membership lock_actor_membership lock_membership ensure_another_owner
update_membership-ok o i actor new w w' h = on-read _ _ _ h refl λ acting acts h.
    on-read _ _ _ h refl λ target found h.
      on-read _ _ _ h (check_role_change_reads acting.role target.role new w) λ _ permitted h.
        on-guard _ _ _ _ _ h λ guarded h. on-audit _ _ _ _ _ _ _ _ _ (on-modify _ _ _ h) λ _ h.
          record {
            acting = acting;
            acts = or_error-ok _ _ acts;
            permitted = permitted;
            target = target;
            found = or_error-ok _ _ found;
            guarded = guarded;
            written = ground arith;
            kept = ground arith;
            drawn = ground arith;
          }

-- An owner is left after a change of the row `t` that the guard has let through.
owner_after_change :
    (o i : Uuid) (new : Role) (n : ℕ) (ms : List Membership) (t : Membership) (x : Organization)
    → Below n ms
    → scalar (membership_is o i) ms ≡ some t
    → ((role_eq t.role owner && not (role_eq new owner)) ≡ false)
      ⊎ (exists (another_owner o t.id) ms ≡ true)
    → HasOwner ms x
    → HasOwner (update_where (λ m. m.id == t.id) (λ m. record m { role = new }) ms) x
owner_after_change o i new n ms t x b found guarded e =
    let at_row = scalar-holds (membership_is o i) ms t found in
    let same : t.id ≡ i = ground arith in
    elim (Bool-cases (owned_by x.id t)) [
      | inl yes_owned ↦ granted_or_other at_row yes_owned guarded
      | inr not_owned ↦
          rw same
            (another-set_role x.id i new ms (not_owned_another x.id o i n ms t b found not_owned e))
    ]
  where
    granted_or_other :
        membership_is o i t ≡ true
        → owned_by x.id t ≡ true
        → ((role_eq t.role owner && not (role_eq new owner)) ≡ false)
          ⊎ (exists (another_owner o t.id) ms ≡ true)
        → HasOwner (update_where (λ m. m.id == t.id) (λ m. record m { role = new }) ms) x
    granted_or_other at_row owned (inl free) =
        let grant : new ≡ owner = ground arith in rw grant (owned-grant_owner x.id t.id ms e)
    granted_or_other at_row owned (inr other) =
        let here : o ≡ x.id = ground arith in another-set_role x.id t.id new ms (rw here at other)

-- A removal that returned.
pub record Removed (o i actor : Uuid) (w w' : World) : Type 0 where
  pub acting : Membership
  pub acts : scalar (member_is o actor) w.memberships ≡ some acting
  pub target : Membership
  pub found : scalar (membership_is o i) w.memberships ≡ some target
  pub permitted : (check_removal acting.role target.role w).0 ≡ ok tt
  pub guarded :
      (role_eq target.role owner ≡ false)
      ⊎ (exists (another_owner o target.id) w.memberships ≡ true)
  pub written : w'.memberships ≡ (drop_membership target.id w).memberships
  pub kept : w'.organizations ≡ w.organizations
  pub drawn : w'.next_uuid ≡ w.next_uuid + 1

check_removal_reads :
    (acting target : Role) (w : World)
    → check_removal acting target w ≡ ((check_removal acting target w).0, w)
unfolding check_removal
check_removal_reads admin _ w = refl
check_removal_reads owner _ w = refl
check_removal_reads member _ w = refl

pub remove_membership-ok :
    (o i actor : Uuid) (w w' : World) {d : Done}
    → remove_membership o i actor w ≡ (ok d, w')
    → Removed o i actor w w'
unfolding remove_membership lock_actor_membership lock_membership ensure_another_owner
remove_membership-ok o i actor w w' h = on-read _ _ _ h refl λ acting acts h.
    on-read _ _ _ h refl λ target found h.
      on-read _ _ _ h (check_removal_reads acting.role target.role w) λ _ permitted h.
        on-guard _ _ _ _ _ h λ guarded h. on-audit _ _ _ _ _ _ _ _ _ h λ _ h. record {
          acting = acting;
          acts = or_error-ok _ _ acts;
          permitted = permitted;
          target = target;
          found = or_error-ok _ _ found;
          guarded = guarded;
          written = ground arith;
          kept = ground arith;
          drawn = ground arith;
        }

owner_after_removal :
    (o i : Uuid) (n : ℕ) (ms : List Membership) (t : Membership) (x : Organization)
    → Below n ms
    → scalar (membership_is o i) ms ≡ some t
    → (role_eq t.role owner ≡ false) ⊎ (exists (another_owner o t.id) ms ≡ true)
    → HasOwner ms x
    → HasOwner (delete_where (λ m. m.id == t.id) ms) x
owner_after_removal o i n ms t x b found guarded e =
    let at_row = scalar-holds (membership_is o i) ms t found in
    let same : t.id ≡ i = ground arith in
    elim (Bool-cases (owned_by x.id t)) [
      | inl yes_owned ↦ other_left at_row yes_owned guarded
      | inr not_owned ↦
          rw same (another-delete x.id i ms (not_owned_another x.id o i n ms t b found not_owned e))
    ]
  where
    other_left :
        membership_is o i t ≡ true
        → owned_by x.id t ≡ true
        → (role_eq t.role owner ≡ false) ⊎ (exists (another_owner o t.id) ms ≡ true)
        → HasOwner (delete_where (λ m. m.id == t.id) ms) x
    other_left at_row owned (inl free) = ground arith
    other_left at_row owned (inr other) =
        let here : o ≡ x.id = ground arith in another-delete x.id t.id ms (rw here at other)

-- Whoever removes a member, every organization keeps an owner.
pub remove_membership-IsOwned :
    (o i actor : Uuid) (w : World)
    → IsOwned w
    → IsOwned (transaction (remove_membership o i actor) w).1
remove_membership-IsOwned o i actor w v = transaction-keeps IsOwned _ w v λ _ w' h.
    let c = remove_membership-ok o i actor w w' h in
    IsOwned-of_tables w' w.organizations _ c.kept c.written
      (All-mono (HasOwner w.memberships) _ w.organizations
        (λ x e.
          owner_after_removal o i w.next_uuid w.memberships c.target x v.ids c.found c.guarded e)
        v.owners)
      (FallingKeys-mono _ w.next_uuid _ _ (omega (arith, c.drawn))
        (FallingKeys-delete _ _ w.next_uuid w.memberships v.ids))

-- Whatever role change is asked for, and by whom, every organization keeps an owner.
pub update_membership-IsOwned :
    (o i actor : Uuid) (new : Role) (w : World)
    → IsOwned w
    → IsOwned (transaction (update_membership o i actor new) w).1
update_membership-IsOwned o i actor new w v = transaction-keeps IsOwned _ w v λ _ w' h.
    let c = update_membership-ok o i actor new w w' h in
    IsOwned-of_tables w' w.organizations _ c.kept c.written
      (All-mono (HasOwner w.memberships) _ w.organizations
        (λ x e.
          owner_after_change o i new w.next_uuid w.memberships c.target x v.ids c.found c.guarded e)
        v.owners)
      (FallingKeys-mono _ w.next_uuid _ _ (omega (arith, c.drawn))
        (FallingKeys-update _ _ _ w.next_uuid w.memberships (λ _. refl) v.ids))
