-- ===== src/Services/Isolation/Changes.antt =====
-- The changes of app/services to projects, API keys and invitations.
use tenantforge.Services.Isolation.{TenantKeys, elsewhere}
use tenantforge.Model.Time.{Timestamp, aware}
use tenantforge.Session.Keeps.{Keeps, keeps_rules}
use tenantforge.Services.Projects.{
  ProjectCreate, ProjectUpdate, create_project, visible_project, changed_project,
  changed_project_fields, save_project, update_project, delete_project,
}
use tenantforge.Services.Organizations.Deletion.{TenantRows}
use tenantforge.Services.Organizations.{holds_role, only_owner}
use tenantforge.Services.Isolation.{
  audit-then, Apart, found-then, write_audit-Apart, add_project-Apart, add_api_key-Apart,
  add_invitation-Apart, add_usage_event-Apart, add_subscription-Apart, draw-Apart,
}
use tenantforge.Services.Invitations.{
  is_none, InvitationCreate, lock_organization, lock_actor, create_invitation,
}
use tenantforge.Services.Audit.{write_audit}
use tenantforge.Services.ApiKeys.{save_revoked, revoke_api_key, lock_owner, create_api_key}
use tenantforge.Security.Permissions.{ensure_invitation_role}
use tenantforge.Security.Crypto.{Primitives, Settings}
use tenantforge.Session.{modify, ◌>>=◌, pure, when}
use tenantforge.Prelude.{
  ◌&&◌, Option, arith, select-delete_other, scalar, scalar-holds, ◌≡◌, false, none, some, [], ◌∷◌,
  select-update_other, Text, ◌==◌,
}
use tenantforge.Model.Tables.{
  ApiKey, api_key_revoked, Uuid, ResourceType, World, project_updated, fields,
}
use tenantforge.Services.Projects.{is_member}
use tenantforge.Model.Tables.{Project}

visible_row :
    (o i actor : Uuid) (w : World) (r : Project)
    → visible_project o i actor w ≡ some r
    → r.organization_id ≡ o
visible_row o i actor w r h =
    let at_row =
      scalar-holds (λ r. (r.id == i) && (r.organization_id == o) && is_member o actor w) w.projects
        r h in
    ground arith

module _ (g : Uuid) (rows : TenantRows) (o : Uuid) (apart : (o == g) ≡ false) where
  ruleset apart_rules = (
    keeps_rules, write_audit-Apart, add_project-Apart, add_api_key-Apart, add_invitation-Apart,
    add_usage_event-Apart, add_subscription-Apart, draw-Apart,
  )

  pub create_project-Apart :
      (a : Uuid) (c : ProjectCreate) → Keeps (Apart g rows) (create_project o a c)
  unfolding create_project
  create_project-Apart a c = search apart_rules depth 9

  pub create_api_key-Apart :
      (p : Primitives) (a : Uuid) (label : Text) → Keeps (Apart g rows) (create_api_key p o a label)
  unfolding create_api_key lock_owner
  create_api_key-Apart p a label = search apart_rules depth 12

  pub create_invitation-Apart :
      (p : Primitives) (s : Settings) (a : Uuid) (c : InvitationCreate)
      → Keeps (Apart g rows) (create_invitation p s o a c)
  unfolding create_invitation lock_organization lock_actor ensure_invitation_role
  create_invitation-Apart p s a c = search apart_rules depth 16

  pub update_project-Apart :
      (i a : Uuid) (u : ProjectUpdate) (w : World)
      → TenantKeys w
      → Apart g rows w
      → Apart g rows (update_project o i a u w).1
  unfolding update_project ◌>>=◌
  update_project-Apart i a u w keys h =
      found-then (Apart g rows) (visible_project o i a) _ _ w h λ row seen.
        let there = elsewhere g rows o apart row.organization_id (visible_row o i a w row seen) in
        let saved =
          select-update_other (λ r. r.id) (λ r. r.organization_id == g) _
            (λ _. changed_project w.clock u row) w.next_uuid w.projects row keys.projects seen there
            there in
        let rest : Keeps (Apart g rows) (
            write_audit o (some a) project_updated ResourceType.project row.id
              (fields (changed_project_fields u) ∷ []) none
            >>= λ _. pure (changed_project w.clock u row)) =
          search apart_rules in
        rest.at (save_project (changed_project w.clock u row) w) (rw saved h)

  pub delete_project-Apart :
      (i a : Uuid) (w : World)
      → TenantKeys w
      → Apart g rows w
      → Apart g rows (delete_project o i a w).1
  unfolding delete_project ◌>>=◌
  delete_project-Apart i a w keys h =
      found-then (Apart g rows) (visible_project o i a) _ _ w h λ row seen.
        let there = elsewhere g rows o apart row.organization_id (visible_row o i a w row seen) in
        let dropped =
          select-delete_other (λ r. r.id) (λ r. r.organization_id == g) _ w.next_uuid w.projects row
            keys.projects seen there in
        audit-then g rows o apart _ _ _ _ _ _ _ w h λ entry logged. rw dropped logged

  -- A key is revoked once.
  revoked_or_not :
      (revoked : Option Timestamp) (i a : Uuid) (row : ApiKey) (w : World)
      → Apart g rows w
      → Apart g rows (save_revoked row.id (aware w.clock) w)
      → Apart g rows
          (when
            (is_none revoked)
            (modify (save_revoked row.id (aware w.clock)) >>= λ _.
              write_audit o (some a) api_key_revoked ResourceType.api_key row.id [] none >>= λ _.
              pure tt)
            w).1
  unfolding ◌>>=◌
  revoked_or_not (some t) i a row w h saved = h
  revoked_or_not none i a row w h saved =
      let rest : Keeps (Apart g rows) (
          write_audit o (some a) api_key_revoked ResourceType.api_key row.id [] none >>= λ _.
          pure tt) =
        search apart_rules in
      rest.at (save_revoked row.id (aware w.clock) w) saved

  pub revoke_api_key-Apart :
      (i a : Uuid) (w : World)
      → TenantKeys w
      → Apart g rows w
      → Apart g rows (revoke_api_key o i a w).1
  unfolding revoke_api_key lock_owner ◌>>=◌
  revoke_api_key-Apart i a w keys h =
      found-then (Apart g rows) (λ w. scalar (holds_role only_owner o a) w.memberships) _ _ w h
        λ acting acts.
          found-then (Apart g rows)
            (λ w. scalar (λ k. (k.id == i) && (k.organization_id == o)) w.api_keys) _ _ w h
            λ row seen.
              let at_row =
                scalar-holds (λ k. (k.id == i) && (k.organization_id == o)) w.api_keys row seen in
              let there = elsewhere g rows o apart row.organization_id (ground arith) in
              let saved =
                select-update_other (λ r. r.id) (λ r. r.organization_id == g) _
                  (λ k. record k { revoked_at = some (aware w.clock) }) w.next_uuid w.api_keys row
                  keys.api_keys seen there there in
              revoked_or_not row.revoked_at i a row w h (rw saved h)
