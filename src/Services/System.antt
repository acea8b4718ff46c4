-- ===== src/Services/System.antt =====
-- The services together: the calls that change the database, but those of webhooks, each run in a
-- transaction of its own (app/database.py), and a clock that moves between calls.
pub mod Writes
pub mod Kept
pub mod Reachable
use tenantforge.Model.Time.{Datetime, stamp}
use tenantforge.Model.Tables.{Uuid, User, World}
use tenantforge.Model.Enums.{Role, Plan}
use tenantforge.Prelude.{ℕ, ◌≤◌, Option, none, [], Text}
use tenantforge.Session.{Action, Done, transaction, pure, ◌>>=◌, ◌>>◌}
use tenantforge.Security.Crypto.{Primitives, Settings}
use tenantforge.Services.Organizations.{
  OrganizationCreate, OrganizationUpdate, create_organization, update_organization,
  delete_organization, update_membership, remove_membership,
}
use tenantforge.Services.Invitations.{InvitationCreate, create_invitation, accept_invitation}
use tenantforge.Services.Projects.{
  ProjectCreate, ProjectUpdate, create_project, update_project, delete_project,
}
use tenantforge.Services.ApiKeys.{create_api_key, revoke_api_key, authenticate_api_key}
use tenantforge.Services.Auth.{
  register_user, issue_tokens, rotate_refresh_token, revoke_refresh_token,
}
use tenantforge.Services.Usage.{record_usage}
use tenantforge.Services.Billing.{change_plan}

pub data Call : Type 0 where
  creates_organization : Uuid → OrganizationCreate → Call
  updates_organization : Uuid → Uuid → OrganizationUpdate → Call
  deletes_organization : Uuid → Uuid → Call
  updates_membership : Uuid → Uuid → Uuid → Role → Call
  removes_membership : Uuid → Uuid → Uuid → Call
  creates_invitation : Uuid → Uuid → InvitationCreate → Call
  accepts_invitation : Text → User → Call
  creates_project : Uuid → Uuid → ProjectCreate → Call
  updates_project : Uuid → Uuid → Uuid → ProjectUpdate → Call
  deletes_project : Uuid → Uuid → Uuid → Call
  creates_api_key : Uuid → Uuid → Text → Call
  revokes_api_key : Uuid → Uuid → Uuid → Call
  authenticates_api_key : Text → Call
  registers_user : Text → Text → Call
  issues_tokens : User → Call
  rotates_refresh_token : Text → Call
  revokes_refresh_token : Text → Call
  records_usage : Uuid → Text → ℕ → Call
  changes_plan : Uuid → Plan → Uuid → Option Text → Call

-- The result of a call is not looked at again.
abbrev pub ignored : {A : Type 0} → Action A → Action Done
ignored m = m >>= λ _. pure tt

module _ (p : Primitives) (s : Settings) where
  unfoldable pub handle : Call → Action Done
  handle (creates_organization actor c) = ignored (create_organization actor c)
  handle (updates_organization o actor u) = ignored (update_organization o actor u)
  handle (deletes_organization o actor) = delete_organization o actor
  handle (updates_membership o i actor r) = ignored (update_membership o i actor r)
  handle (removes_membership o i actor) = remove_membership o i actor
  handle (creates_invitation o actor c) = ignored (create_invitation p s o actor c)
  handle (accepts_invitation raw user) = ignored (accept_invitation p s raw user)
  handle (creates_project o actor c) = ignored (create_project o actor c)
  handle (updates_project o i actor u) = ignored (update_project o i actor u)
  handle (deletes_project o i actor) = delete_project o i actor
  handle (creates_api_key o actor label) = ignored (create_api_key p o actor label)
  handle (revokes_api_key o i actor) = revoke_api_key o i actor
  handle (authenticates_api_key raw) = ignored (authenticate_api_key p raw)
  handle (registers_user address password) = ignored (register_user p s [] address password)
  handle (issues_tokens user) = ignored (issue_tokens p s [] user)
  handle (rotates_refresh_token raw) = ignored (rotate_refresh_token p s [] raw)
  handle (revokes_refresh_token raw) = revoke_refresh_token p s [] raw
  handle (records_usage o metric quantity) = ignored (record_usage o metric quantity none)
  handle (changes_plan o plan actor ip) = ignored (change_plan o plan actor ip none)

  -- What may happen to the database: a call, committed or rolled back, or the passage of time.
  pub data Step (w : World) : World → Type 0 where
    called : (c : Call) → Step w (transaction (handle c) w).1
    ticked : (t : Datetime) → stamp w.clock ≤ stamp t → Step w (record w { clock = t })

  pub data Reach (w : World) : World → Type 0 where
    here : Reach w w
    next : {u v : World} → Reach w u → Step u v → Reach w v
