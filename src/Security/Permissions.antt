-- ===== src/Security/Permissions.antt =====
-- app/security/permissions.py.
use tenantforge.Prelude.{Bool, ◌||◌, ◌&&◌, exists, List}
use tenantforge.Model.Enums.{Role, owner, admin, member, role_eq}
use tenantforge.Model.Errors.{forbidden_error, forbidden, invitation_role_forbidden}
use tenantforge.Session.{Action, Done, ensure}

-- `if role not in allowed: raise ForbiddenError()`
unfoldable pub ensure_role : Role → List Role → Action Done
ensure_role role allowed = ensure (exists (role_eq role) allowed) (forbidden_error forbidden)

unfoldable pub may_invite : Role → Role → Bool
may_invite actor invited = role_eq actor owner || role_eq actor admin && role_eq invited member

unfoldable pub ensure_invitation_role : Role → Role → Action Done
unfolding may_invite
ensure_invitation_role actor invited =
    ensure (may_invite actor invited) (forbidden_error invitation_role_forbidden)
