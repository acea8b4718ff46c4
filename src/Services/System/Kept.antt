-- ===== src/Services/System/Kept.antt =====
-- Each service, however it ends, keeps the owners of the organizations.
use tenantforge.Session.{pure}
use tenantforge.Services.Usage.{record_usage}
use tenantforge.Security.Permissions.{ensure_invitation_role}
use tenantforge.Security.Crypto.{Primitives, Settings}
use tenantforge.Model.Enums.{Plan}
use tenantforge.Services.System.Writes.{
  IsOwned-step, add_user-Keeps, add_refresh_token-Keeps, add_invitation-Keeps, add_api_key-Keeps,
  add_project-Keeps, add_usage_event-Keeps, add_subscription-Keeps, write_audit-Keeps, draw-Keeps,
  create_access_token-Keeps, add_membership-Keeps,
}
use tenantforge.Services.Rows.{organization_is, slug_is}
use tenantforge.Services.Projects.{
  ProjectCreate, create_project, delete_project, ProjectUpdate, save_project, drop_project,
  update_project,
}
use tenantforge.Services.Organizations.{OrganizationUpdate, update_organization, save_organization}
use tenantforge.Services.Invitations.{
  InvitationCreate, lock_organization, lock_actor, create_invitation, join_organization,
  accept_invitation, save_accepted,
}
use tenantforge.Services.Billing.{
  create_default_subscription, get_or_create_subscription, change_plan, save_subscription,
}
use tenantforge.Services.Auth.{
  register_user, issue_tokens, rotate_refresh_token, revoke_refresh_token, save_token_revoked,
}
use tenantforge.Services.ApiKeys.{
  lock_owner, revoke_api_key, create_api_key, authenticate_api_key, save_revoked, save_used,
}
use tenantforge.Model.Time.{Timestamp}
use tenantforge.Model.Tables.{User, Uuid, Organization, Membership, Project, Subscription}
use tenantforge.Prelude.{
  ℕ, Option, none, some, Text, ◌≡◌, refl, sym, inl, inr, not, ◌&&◌, List, [], ◌∷◌, arith, exists,
  update_where, All, ◌==◌, Bool-cases,
}
use tenantforge.Session.Keeps.{Keeps, Survives, keeps_rules}
use tenantforge.Services.Organizations.Ownership.{IsOwned, IsOwned-of_tables}
use tenantforge.Services.Organizations.Owners.{HasOwner}

pub save_project-Survives : (r : Project) → Survives IsOwned (save_project r)
save_project-Survives r = record { at = λ w v. IsOwned-step w _ refl refl (omega arith) v }

pub drop_project-Survives : (i : Uuid) → Survives IsOwned (drop_project i)
drop_project-Survives i = record { at = λ w v. IsOwned-step w _ refl refl (omega arith) v }

pub save_revoked-Survives : (i : Uuid) (t : Timestamp) → Survives IsOwned (save_revoked i t)
save_revoked-Survives i t = record { at = λ w v. IsOwned-step w _ refl refl (omega arith) v }

pub save_used-Survives : (i : Uuid) (t : Timestamp) → Survives IsOwned (save_used i t)
save_used-Survives i t = record { at = λ w v. IsOwned-step w _ refl refl (omega arith) v }

pub save_token_revoked-Survives :
    (i : Uuid) (t : Timestamp) → Survives IsOwned (save_token_revoked i t)
save_token_revoked-Survives i t = record { at = λ w v. IsOwned-step w _ refl refl (omega arith) v }

pub save_accepted-Survives : (i : Uuid) (t : Timestamp) → Survives IsOwned (save_accepted i t)
save_accepted-Survives i t = record { at = λ w v. IsOwned-step w _ refl refl (omega arith) v }

pub save_subscription-Survives : (s : Subscription) → Survives IsOwned (save_subscription s)
save_subscription-Survives s = record { at = λ w v. IsOwned-step w _ refl refl (omega arith) v }

-- The owner of a row with the same key.
owned_after_save :
    (o : Organization) (ms : List Membership) (os : List Organization)
    → All (HasOwner ms) os
    → All (HasOwner ms) (update_where (organization_is o.id) (λ _. o) os)
unfolding update_where
owned_after_save o ms [] h = tt
owned_after_save o ms (x ∷ xs) h = elim (Bool-cases (organization_is o.id x)) [
  | inl e ↦
      let same : x.id ≡ o.id = ground arith in
      rw e (rw (sym same) h.0, owned_after_save o ms xs h.1)
  | inr e ↦ rw e (h.0, owned_after_save o ms xs h.1)
]

pub save_organization-Keeps : (o : Organization) → Keeps IsOwned (save_organization o)
unfolding save_organization
save_organization-Keeps o = record {
  at = λ w v.
      elim (Bool-cases (exists (λ r. slug_is o.slug r && not (r.id == o.id)) w.organizations)) [
        | inl e ↦ rw e v
        | inr e ↦ rw e (
            IsOwned-of_tables _ (update_where (organization_is o.id) (λ _. o) w.organizations)
              w.memberships refl refl (owned_after_save o w.memberships w.organizations v.owners)
              v.ids)
      ];
}

pub ruleset owner_rules = (
  keeps_rules, add_user-Keeps, add_refresh_token-Keeps, add_invitation-Keeps, add_api_key-Keeps,
  add_project-Keeps, add_usage_event-Keeps, add_subscription-Keeps, add_membership-Keeps,
  write_audit-Keeps, draw-Keeps, create_access_token-Keeps, save_project-Survives,
  drop_project-Survives, save_revoked-Survives, save_used-Survives, save_token_revoked-Survives,
  save_accepted-Survives, save_subscription-Survives, save_organization-Keeps,
)

pub update_project-Keeps :
    (o i a : Uuid) (u : ProjectUpdate) → Keeps IsOwned (update_project o i a u)
unfolding update_project
update_project-Keeps o i a u = search owner_rules

pub update_organization-Keeps :
    (o a : Uuid) (u : OrganizationUpdate) → Keeps IsOwned (update_organization o a u)
unfolding update_organization
update_organization-Keeps o a u = search owner_rules depth 9

pub create_project-Keeps : (o a : Uuid) (c : ProjectCreate) → Keeps IsOwned (create_project o a c)
unfolding create_project
create_project-Keeps o a c = search owner_rules depth 9

pub delete_project-Keeps : (o i a : Uuid) → Keeps IsOwned (delete_project o i a)
unfolding delete_project
delete_project-Keeps o i a = search owner_rules depth 9

pub record_usage-Keeps :
    (o : Uuid) (m : Text) (q : ℕ) (now : Option Timestamp) → Keeps IsOwned (record_usage o m q now)
unfolding record_usage
record_usage-Keeps o m q now = search owner_rules depth 12

pub create_default_subscription-Keeps :
    (o : Uuid) (now : Option Timestamp) → Keeps IsOwned (create_default_subscription o now)
unfolding create_default_subscription
create_default_subscription-Keeps o now = search owner_rules depth 9

pub found_or_default-Keeps :
    (o : Uuid) (now : Option Timestamp) (found : Option Subscription)
    → Keeps IsOwned (elim found [
      | some subscription ↦ pure subscription
      | none ↦ create_default_subscription o now
    ])
found_or_default-Keeps o now (some s) = search owner_rules
found_or_default-Keeps o now none = create_default_subscription-Keeps o now

pub get_or_create_subscription-Keeps :
    (o : Uuid) (now : Option Timestamp) → Keeps IsOwned (get_or_create_subscription o now)
unfolding get_or_create_subscription
get_or_create_subscription-Keeps o now = search (owner_rules, found_or_default-Keeps) depth 9

pub change_plan-Keeps :
    (o : Uuid) (plan : Plan) (a : Uuid) (ip : Option Text) (now : Option Timestamp)
    → Keeps IsOwned (change_plan o plan a ip now)
unfolding change_plan
change_plan-Keeps o plan a ip now = search (owner_rules, get_or_create_subscription-Keeps) depth 12

pub create_api_key-Keeps :
    (p : Primitives) (o a : Uuid) (label : Text) → Keeps IsOwned (create_api_key p o a label)
unfolding create_api_key lock_owner
create_api_key-Keeps p o a label = search owner_rules depth 12

pub revoke_api_key-Keeps : (o i a : Uuid) → Keeps IsOwned (revoke_api_key o i a)
unfolding revoke_api_key lock_owner
revoke_api_key-Keeps o i a = search owner_rules depth 12

pub authenticate_api_key-Keeps :
    (p : Primitives) (raw : Text) → Keeps IsOwned (authenticate_api_key p raw)
unfolding authenticate_api_key
authenticate_api_key-Keeps p raw = search owner_rules depth 12

module _ (p : Primitives) (s : Settings) where
  pub create_invitation-Keeps :
      (o a : Uuid) (c : InvitationCreate) → Keeps IsOwned (create_invitation p s o a c)
  unfolding create_invitation lock_organization lock_actor ensure_invitation_role
  create_invitation-Keeps o a c = search owner_rules depth 16

  pub accept_invitation-Keeps :
      (raw : Text) (u : User) → Keeps IsOwned (accept_invitation p s raw u)
  unfolding accept_invitation join_organization
  accept_invitation-Keeps raw u = search owner_rules depth 16

  pub register_user-Keeps :
      (d address password : Text) → Keeps IsOwned (register_user p s d address password)
  unfolding register_user
  register_user-Keeps d address password = search owner_rules depth 12

  pub issue_tokens-Keeps : (d : Text) (u : User) → Keeps IsOwned (issue_tokens p s d u)
  unfolding issue_tokens
  issue_tokens-Keeps d u = search owner_rules depth 12

  pub rotate_refresh_token-Keeps : (d raw : Text) → Keeps IsOwned (rotate_refresh_token p s d raw)
  unfolding rotate_refresh_token
  rotate_refresh_token-Keeps d raw = search (owner_rules, issue_tokens-Keeps) depth 12

  pub revoke_refresh_token-Keeps : (d raw : Text) → Keeps IsOwned (revoke_refresh_token p s d raw)
  unfolding revoke_refresh_token
  revoke_refresh_token-Keeps d raw = search owner_rules depth 12
