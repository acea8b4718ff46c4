-- ===== src/Services/Invitations.antt =====
-- app/services/invitations.py.
pub mod Acceptance
pub mod Authority
use tenantforge.Model.Tables.{
  Uuid, User, Organization, Membership, Invitation, Detail, ResourceType, World, member_invited,
  invitation_accepted,
}
use tenantforge.Model.Errors.{
  not_found_error, forbidden_error, conflict_error, forbidden, already_member, invitation_exists,
  invitation_not_found, invitation_used, invitation_expired, invitation_email_mismatch,
}
use tenantforge.Model.Time.{Datetime, Timestamp, stamp, add_days, as_utc, has_expired, aware}
use tenantforge.Model.Enums.{Role}
use tenantforge.Prelude.{
  Bool, true, false, not, ◌&&◌, Option, none, some, [], ◌∷◌, ltb, ◌==◌, scalar, exists,
  update_where, Text, text_eq, lower,
}
use tenantforge.Session.{
  Action, pure, gets, modify, ensure, find, ensure_that, lift, or_rollback, ◌>>=◌, ◌>>◌,
}
use tenantforge.Services.Rows.{
  organization_is, member_is, user_is, invitation_is, add_invitation, add_membership,
}
use tenantforge.Services.Audit.{write_audit}
use tenantforge.Services.Organizations.{holds_role, owner_or_admin}
use tenantforge.Security.Permissions.{ensure_invitation_role}
use tenantforge.Security.Crypto.{Primitives, Settings, draw, generate_opaque_token, hash_token}

pub record InvitationCreate : Type 0 where
  pub email : Text
  pub role : Role

-- `accepted_at.is_(None)`, `revoked_at is None`.
abbrev pub is_none {ℓ} : {A : Type ℓ} → Option A → Bool
is_none none = true
is_none (some _) = false

unfoldable pub lock_organization : Uuid → Action Organization
lock_organization o =
    find (λ w. scalar (organization_is o) w.organizations) (forbidden_error forbidden)

unfoldable pub lock_actor : Uuid → Uuid → Action Membership
lock_actor o user =
    find (λ w. scalar (holds_role owner_or_admin o user) w.memberships) (forbidden_error forbidden)

-- The join of memberships with users on an email, in lower case.
abbrev pub has_email : World → Text → Membership → Bool
has_email w email m = exists (λ u. user_is m.user_id u && text_eq (lower u.email) email) w.users

abbrev pub member_exists : Uuid → Text → World → Bool
member_exists o email w =
    exists (λ m. (m.organization_id == o) && has_email w email m) w.memberships

abbrev pub is_pending : Datetime → Invitation → Bool
is_pending now i = is_none i.accepted_at && ltb (stamp now) (stamp (as_utc i.expires_at))

abbrev pub active_invitation : Uuid → Text → World → Bool
active_invitation o email w =
    exists (λ i. (i.organization_id == o) && text_eq (lower i.email) email && is_pending w.clock i)
      w.invitations

abbrev pub save_accepted : Uuid → Timestamp → World → World
save_accepted i at w = record w {
  invitations =
      update_where (λ r. r.id == i) (λ r. record r { accepted_at = some at }) w.invitations;
}

module _ (p : Primitives) (settings : Settings) where
  unfoldable pub create_invitation : Uuid → Uuid → InvitationCreate → Action (Invitation × Text)
  create_invitation o actor payload = do
    lock_organization o
    acting ← lock_actor o actor
    ensure_invitation_role acting.role payload.role
    ensure_that (λ w. not (member_exists o payload.email w)) (conflict_error already_member)
    ensure_that (λ w. not (active_invitation o payload.email w)) (conflict_error invitation_exists)
    now ← gets λ w. w.clock
    n ← draw
    expires ← lift (add_days settings.invitation_expire_days now)
    let raw_token = generate_opaque_token p n
    invitation ←
        add_invitation o payload.email payload.role (hash_token p raw_token) (aware expires) actor
          (aware now)
    write_audit o (some actor) member_invited ResourceType.invitation invitation.id
        (Detail.email payload.email ∷ Detail.role payload.role ∷ []) none
    pure (invitation, raw_token)

  -- The `try` block: the invitation is marked and the membership is flushed.
  unfoldable pub join_organization : Invitation → User → Timestamp → Action Membership
  join_organization invitation user now = do
    modify (save_accepted invitation.id now)
    add_membership user.id invitation.organization_id invitation.role

  unfoldable pub accept_invitation : Text → User → Action Membership
  accept_invitation raw_token user = do
    now ← gets λ w. w.clock
    invitation ←
        find (λ w. scalar (invitation_is (hash_token p raw_token)) w.invitations)
          (not_found_error invitation_not_found)
    ensure (is_none invitation.accepted_at) (conflict_error invitation_used)
    ensure (not (has_expired invitation.expires_at now)) (conflict_error invitation_expired)
    ensure (text_eq (lower invitation.email) (lower user.email))
        (forbidden_error invitation_email_mismatch)
    ensure_that (λ w. not (exists (member_is invitation.organization_id user.id) w.memberships))
        (conflict_error already_member)
    membership ←
        or_rollback (join_organization invitation user (aware now)) (conflict_error already_member)
    write_audit invitation.organization_id (some user.id) invitation_accepted
        ResourceType.invitation invitation.id (Detail.membership_id membership.id ∷ []) none
    pure membership
