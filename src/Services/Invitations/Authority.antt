-- ===== src/Services/Invitations/Authority.antt =====
-- Who may invite whom, in `create_invitation` of app/services/invitations.py with
-- `ensure_invitation_role` of app/security/permissions.py.
use tenantforge.Session.Rules.{on-read, on-step, on-insert, or_error-ok, checked-ok}
use tenantforge.Services.Rows.{add_invitation}
use tenantforge.Services.Organizations.{holds_role, owner_or_admin}
use tenantforge.Services.Audit.Rules.{on-audit}
use tenantforge.Security.Permissions.{may_invite, ensure_invitation_role}
use tenantforge.Security.Crypto.{Primitives, Settings, draw, hash_token}
use tenantforge.Model.Tables.{Uuid, Membership, Invitation, World}
use tenantforge.Model.Errors.{ok}
use tenantforge.Model.Enums.{Role, owner, admin, member}
use tenantforge.Prelude.{◌≡◌, refl, ◌⊎◌, false, none, some, ◌∷◌, arith, scalar, Text}
use tenantforge.Services.Invitations.{
  InvitationCreate, active_invitation, lock_organization, lock_actor, member_exists,
  create_invitation,
}

invitation_permitted :
    (acting invited : Role) (w : World)
    → (ensure_invitation_role acting invited w).0 ≡ ok tt
    → (acting ≡ owner) ⊎ ((acting ≡ admin) × (invited ≡ member))
unfolding ensure_invitation_role may_invite
invitation_permitted acting invited w h = ground arith

ensure_invitation_role_reads :
    (acting invited : Role) (w : World)
    → ensure_invitation_role acting invited w ≡ ((ensure_invitation_role acting invited w).0, w)
unfolding ensure_invitation_role
ensure_invitation_role_reads acting invited w = refl

module _ (p : Primitives) (settings : Settings) where
  -- An invitation that is returned was asked for by an owner of the organization, for any role, or
  -- by an admin of it, for the role of a member. Nobody with the invited email is a member yet and
  -- no other invitation of that email is pending. The invitation's row is new, with the asked email
  -- and role and the hash of the returned token.
  pub create_invitation_authority :
      (o actor : Uuid) (payload : InvitationCreate) (w w' : World) {i : Invitation} {raw : Text}
      → create_invitation p settings o actor payload w ≡ (ok (i, raw), w')
      → (acting : Membership) × (scalar (holds_role owner_or_admin o actor) w.memberships
          ≡ some acting)
        × ((acting.role ≡ owner) ⊎ ((acting.role ≡ admin) × (payload.role ≡ member)))
        × (member_exists o payload.email w ≡ false)
        × (active_invitation o payload.email w ≡ false)
        × (i.email ≡ payload.email)
        × (i.role ≡ payload.role)
        × (i.accepted_at ≡ none)
        × (i.token_hash ≡ hash_token p raw)
        × (w'.invitations ≡ i ∷ w.invitations)
  unfolding create_invitation lock_organization lock_actor draw add_invitation
  create_invitation_authority o actor payload w w' h = on-read _ _ _ h refl λ _ _ h.
      on-read _ _ _ h refl λ acting acts h.
        on-read _ _ _ h (ensure_invitation_role_reads acting.role payload.role w) λ _ permitted h.
          on-read _ _ _ h refl λ _ no_member h. on-read _ _ _ h refl λ _ no_other h.
            on-step _ _ _ h refl λ h. on-step _ _ _ h refl λ h. on-read _ _ _ h refl λ expires _ h.
              on-insert _ _ _ _ _ _ _ h refl λ _ h. on-audit _ _ _ _ _ _ _ _ _ h λ _ h.
                let free_email = checked-ok _ _ no_member in
                let none_pending = checked-ok _ _ no_other in
                (
                  acting,
                  or_error-ok _ _ acts,
                  invitation_permitted acting.role payload.role w permitted,
                  ground (arith, free_email),
                  ground (arith, none_pending),
                  ground arith,
                  ground arith,
                  ground arith,
                  ground arith,
                  ground arith,
                )
