-- ===== src/Api/Routes/Organizations.antt =====
-- app/api/routes/organizations.py, members.py and invitations.py.
use tenantforge.Schemas.{Sent, organization_create, organization_update, invitation_create}
use tenantforge.Services.Organizations.{
  create_organization, list_organizations, get_organization, owner_or_admin, only_owner,
  update_organization, delete_organization, list_members, update_membership, remove_membership,
}
use tenantforge.Services.Invitations.{create_invitation, accept_invitation}
use tenantforge.Security.Crypto.{Primitives, Settings}
use tenantforge.Prelude.{Text}
use tenantforge.Model.Tables.{Uuid, Invitation}
use tenantforge.Model.Enums.{Role}
use tenantforge.Api.Responses.{
  InvitationCreated, Response, success, created, deleted, organization_body, organizations_body,
  members_body, membership_body, invitation_body,
}
use tenantforge.Api.Email.{Adapters, send_invitation, or_log}
use tenantforge.Api.Deps.{Headers, get_current_user, authorize, any_role}
use tenantforge.Api.{validated, Endpoint, reply, on_db, ◌>>=◌, ◌>>◌, commit_session}

module _ (p : Primitives) (s : Settings) where
  unfoldable pub create_organization_route : Headers → Text → Text → Endpoint Response
  create_organization_route headers name slug = do
    user ← get_current_user p s headers
    payload ← validated (organization_create name slug)
    organization ← on_db (create_organization user.id payload)
    reply (created (organization_body organization))

  unfoldable pub list_organizations_route : Headers → Endpoint Response
  list_organizations_route headers = do
    user ← get_current_user p s headers
    organizations ← on_db (list_organizations user.id)
    reply (success (organizations_body organizations))

  unfoldable pub get_organization_route : Headers → Uuid → Endpoint Response
  get_organization_route headers o = do
    caller ← authorize p s any_role headers o
    organization ← on_db (get_organization o caller.user.id)
    reply (success (organization_body organization))

  unfoldable pub update_organization_route :
      Headers → Uuid → Sent Text → Sent Text → Endpoint Response
  update_organization_route headers o name slug = do
    caller ← authorize p s owner_or_admin headers o
    payload ← validated (organization_update name slug)
    organization ← on_db (update_organization o caller.user.id payload)
    reply (success (organization_body organization))

  unfoldable pub delete_organization_route : Headers → Uuid → Endpoint Response
  delete_organization_route headers o = do
    caller ← authorize p s only_owner headers o
    on_db (delete_organization o caller.user.id)
    reply deleted

  unfoldable pub list_members_route : Headers → Uuid → Endpoint Response
  list_members_route headers o = do
    authorize p s any_role headers o
    members ← on_db (list_members o)
    reply (success (members_body members))

  unfoldable pub update_member_route : Headers → Uuid → Uuid → Role → Endpoint Response
  update_member_route headers o i role = do
    caller ← authorize p s owner_or_admin headers o
    membership ← on_db (update_membership o i caller.user.id role)
    reply (success (membership_body membership))

  unfoldable pub delete_member_route : Headers → Uuid → Uuid → Endpoint Response
  delete_member_route headers o i = do
    caller ← authorize p s owner_or_admin headers o
    on_db (remove_membership o i caller.user.id)
    reply deleted

  abbrev pub read_created : Invitation → Text → InvitationCreated
  read_created i token = record {
    id = i.id;
    organization_id = i.organization_id;
    email = i.email;
    role = i.role;
    token = token;
    expires_at = i.expires_at;
    created_at = i.created_at;
  }

  -- The invitation is committed before its e-mail is queued.
  unfoldable pub create_invitation_route :
      Adapters → Headers → Uuid → Text → Role → Endpoint Response
  create_invitation_route adapters headers o address role = do
    caller ← authorize p s owner_or_admin headers o
    payload ← validated (invitation_create address role)
    invited ← on_db (create_invitation p s o caller.user.id payload)
    commit_session
    or_log p adapters (send_invitation p adapters invited.0 invited.1)
    reply (created (invitation_body (read_created invited.0 invited.1)))

  unfoldable pub accept_invitation_route : Headers → Text → Endpoint Response
  accept_invitation_route headers token = do
    user ← get_current_user p s headers
    membership ← on_db (accept_invitation p s token user)
    reply (success (membership_body membership))
