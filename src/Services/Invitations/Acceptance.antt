-- ===== src/Services/Invitations/Acceptance.antt =====
-- `accept_invitation` and `create_invitation` of app/services/invitations.py: who joins, as what,
-- and how often.
use tenantforge.Session.Rules.{
  on-bind, on-read, on-step, on-insert_last, on-modify, or_error-ok, rolled_back-ok, checked-ok,
}
use tenantforge.Services.Rows.{member_is, add_membership, invitation_is}
use tenantforge.Services.Audit.Rules.{on-audit}
use tenantforge.Security.Crypto.{Primitives, Settings, hash_token}
use tenantforge.Model.Time.{Datetime, has_expired, aware}
use tenantforge.Model.Tables.{User, Membership, Invitation, World}
use tenantforge.Model.Errors.{conflict_error, invitation_used, app_error, ok, err}
use tenantforge.Session.{◌>>=◌}
use tenantforge.Prelude.{
  ◌≡◌, refl, true, false, none, some, ◌∷◌, arith, scalar-update_found, scalar, exists, Text,
  text_eq, lower, text_eq→eq,
}
use tenantforge.Services.Invitations.{is_none, save_accepted, join_organization, accept_invitation}

module _ (p : Primitives) (settings : Settings) where
  -- An acceptance that returned.
  record Accepted (raw : Text) (user : User) (m : Membership) (w w' : World) : Type 0 where
    invited : Invitation
    found : scalar (invitation_is (hash_token p raw)) w.invitations ≡ some invited
    unused : is_none invited.accepted_at ≡ true
    unexpired : has_expired invited.expires_at w.clock ≡ false
    same_email : text_eq (lower invited.email) (lower user.email) ≡ true
    no_member : exists (member_is invited.organization_id user.id) w.memberships ≡ false
    joins : m.organization_id ≡ invited.organization_id
    is_user : m.user_id ≡ user.id
    has_role : m.role ≡ invited.role
    marked : w'.invitations ≡ (save_accepted invited.id (aware w.clock) w).invitations
    written : w'.memberships ≡ m ∷ w.memberships

  accept_invitation-ok :
      (raw : Text) (user : User) (w w' : World) {m : Membership}
      → accept_invitation p settings raw user w ≡ (ok m, w')
      → Accepted raw user m w w'
  unfolding accept_invitation join_organization add_membership
  accept_invitation-ok raw user w w' h = on-step _ _ _ h refl λ h.
      on-read _ _ _ h refl λ invited found h. on-read _ _ _ h refl λ _ unused h.
        on-read _ _ _ h refl λ _ unexpired h. on-read _ _ _ h refl λ _ same_email h.
          on-read _ _ _ h refl λ _ no_member h. on-bind _ _ _ h λ m w1 joined h.
            on-insert_last _ _ _ _ _ _ (on-modify _ _ _ (rolled_back-ok _ w _ _ joined)) refl
              λ _ row_is world_is. on-audit _ _ _ _ _ _ _ _ _ h λ _ h. record {
                invited = invited;
                found = or_error-ok _ _ found;
                unused = checked-ok _ _ unused;
                unexpired = ground (arith, checked-ok _ _ unexpired);
                same_email = checked-ok _ _ same_email;
                no_member = ground (arith, checked-ok _ _ no_member);
                joins = ground arith;
                is_user = ground arith;
                has_role = ground arith;
                marked = ground arith;
                written = ground arith;
              }

  -- An acceptance that returns had an invitation for this token that was neither accepted nor
  -- expired, and whose email is the account's up to case, for somebody who was no member. It adds
  -- one membership: of the account, in the invitation's organization, with the invitation's role.
  pub accept_invitation_joins :
      (raw : Text) (user : User) (w w' : World) {m : Membership}
      → accept_invitation p settings raw user w ≡ (ok m, w')
      → (invited : Invitation) × (scalar (invitation_is (hash_token p raw)) w.invitations
          ≡ some invited)
        × (invited.accepted_at ≡ none)
        × (has_expired invited.expires_at w.clock ≡ false)
        × (lower invited.email ≡ lower user.email)
        × (exists (member_is invited.organization_id user.id) w.memberships ≡ false)
        × (m.organization_id ≡ invited.organization_id)
        × (m.user_id ≡ user.id)
        × (m.role ≡ invited.role)
        × (w'.memberships ≡ m ∷ w.memberships)
  accept_invitation_joins raw user w w' h =
      let c = accept_invitation-ok raw user w w' h in
      (
        c.invited,
        c.found,
        ground (arith, c.unused),
        c.unexpired,
        text_eq→eq _ _ c.same_email,
        c.no_member,
        c.joins,
        c.is_user,
        c.has_role,
        c.written,
      )

  -- An invitation is accepted once: whoever presents its token again, at any later time (only the
  -- clock moves until then), is refused with the code of a used invitation, and nothing is written.
  pub accept_invitation_once :
      (raw : Text) (user other : User) (w w' : World) (later : Datetime) {m : Membership}
      → accept_invitation p settings raw user w ≡ (ok m, w')
      → accept_invitation p settings raw other (record w' { clock = later })
        ≡ (err (app_error (conflict_error invitation_used)), record w' { clock = later })
  unfolding accept_invitation ◌>>=◌
  accept_invitation_once raw user other w w' later h =
      let c = accept_invitation-ok raw user w w' h in
      let again : scalar (invitation_is (hash_token p raw)) w'.invitations
          ≡ some (record (c.invited) { accepted_at = some (aware w.clock) }) =
        rw c.marked (
          scalar-update_found (λ i. i.id) (invitation_is (hash_token p raw))
            (λ i. record i { accepted_at = some (aware w.clock) }) w.invitations c.invited
            (λ x. refl) c.found) in
      rw again refl
