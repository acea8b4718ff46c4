-- ===== src/Services/System/Reachable.antt =====
-- The owners of the organizations under service calls in any order.
use tenantforge.Services.Organizations.Deletion.{delete_organization-IsOwned}
use tenantforge.Services.System.Kept.{
  update_project-Keeps, update_organization-Keeps, create_project-Keeps, delete_project-Keeps,
  record_usage-Keeps, change_plan-Keeps, create_api_key-Keeps, revoke_api_key-Keeps,
  authenticate_api_key-Keeps, create_invitation-Keeps, accept_invitation-Keeps, register_user-Keeps,
  issue_tokens-Keeps, rotate_refresh_token-Keeps, revoke_refresh_token-Keeps,
}
use tenantforge.Model.Errors.{Result, ok, err}
use tenantforge.Services.System.{
  Call, ignored, handle, Step, Reach, creates_organization, updates_organization,
  deletes_organization, updates_membership, removes_membership, creates_invitation,
  accepts_invitation, creates_project, updates_project, deletes_project, creates_api_key,
  revokes_api_key, authenticates_api_key, registers_user, issues_tokens, rotates_refresh_token,
  revokes_refresh_token, records_usage, changes_plan, called, ticked, here, next,
}
use tenantforge.Services.Organizations.Founding.{create_organization-IsOwned}
use tenantforge.Session.{◌>>=◌, continue, commit, Action, transaction, pure}
use tenantforge.Security.Crypto.{Primitives, Settings}
use tenantforge.Services.Organizations.{create_organization, update_membership}
use tenantforge.Model.Tables.{World}
use tenantforge.Prelude.{none, ◌≡◌, refl, []}
use tenantforge.Session.Keeps.{Keeps-transaction, Keeps}
use tenantforge.Services.Organizations.Ownership.{
  remove_membership-IsOwned, update_membership-IsOwned, IsOwned,
}

settled_alike :
    {A : Type 0} (r : Result A) (w w' : World)
    → (commit w (continue r (λ _. pure tt) w').0 (continue r (λ _. pure tt) w').1).1
      ≡ (commit w r w').1
settled_alike (ok a) w w' = refl
settled_alike (err e) w w' = refl

transaction-ignored :
    {A : Type 0} (m : Action A) (w : World) → (transaction (ignored m) w).1 ≡ (transaction m w).1
unfolding transaction ◌>>=◌
transaction-ignored m w = let (r, w') = m w in settled_alike r w w'

kept_when_ignored :
    {A : Type 0} {m : Action A}
    → Keeps IsOwned m
    → (w : World) → IsOwned w
    → IsOwned (transaction (ignored m) w).1
kept_when_ignored {m = m} k w v = rw (transaction-ignored m) ((Keeps-transaction m k).at w v)

module _ (p : Primitives) (s : Settings) where
  handle-IsOwned : (c : Call) (w : World) → IsOwned w → IsOwned (transaction (handle p s c) w).1
  unfolding handle
  handle-IsOwned (creates_organization a c) w v =
      rw (transaction-ignored (create_organization a c)) (create_organization-IsOwned a c w v)
  handle-IsOwned (updates_organization o a u) w v =
      kept_when_ignored (update_organization-Keeps o a u) w v
  handle-IsOwned (deletes_organization o a) w v = delete_organization-IsOwned o a w v
  handle-IsOwned (updates_membership o i a r) w v =
      rw (transaction-ignored (update_membership o i a r)) (update_membership-IsOwned o i a r w v)
  handle-IsOwned (removes_membership o i a) w v = remove_membership-IsOwned o i a w v
  handle-IsOwned (creates_invitation o a c) w v =
      kept_when_ignored (create_invitation-Keeps p s o a c) w v
  handle-IsOwned (accepts_invitation raw u) w v =
      kept_when_ignored (accept_invitation-Keeps p s raw u) w v
  handle-IsOwned (creates_project o a c) w v = kept_when_ignored (create_project-Keeps o a c) w v
  handle-IsOwned (updates_project o i a u) w v =
      kept_when_ignored (update_project-Keeps o i a u) w v
  handle-IsOwned (deletes_project o i a) w v =
      (Keeps-transaction _ (delete_project-Keeps o i a)).at w v
  handle-IsOwned (creates_api_key o a label) w v =
      kept_when_ignored (create_api_key-Keeps p o a label) w v
  handle-IsOwned (revokes_api_key o i a) w v =
      (Keeps-transaction _ (revoke_api_key-Keeps o i a)).at w v
  handle-IsOwned (authenticates_api_key raw) w v =
      kept_when_ignored (authenticate_api_key-Keeps p raw) w v
  handle-IsOwned (registers_user e password) w v =
      kept_when_ignored (register_user-Keeps p s [] e password) w v
  handle-IsOwned (issues_tokens u) w v = kept_when_ignored (issue_tokens-Keeps p s [] u) w v
  handle-IsOwned (rotates_refresh_token raw) w v =
      kept_when_ignored (rotate_refresh_token-Keeps p s [] raw) w v
  handle-IsOwned (revokes_refresh_token raw) w v =
      (Keeps-transaction _ (revoke_refresh_token-Keeps p s [] raw)).at w v
  handle-IsOwned (records_usage o m q) w v = kept_when_ignored (record_usage-Keeps o m q none) w v
  handle-IsOwned (changes_plan o plan a ip) w v =
      kept_when_ignored (change_plan-Keeps o plan a ip none) w v

  Step-IsOwned : (w w' : World) → Step p s w w' → IsOwned w → IsOwned w'
  Step-IsOwned w _ (called c) v = handle-IsOwned c w v
  Step-IsOwned w _ (ticked t later) v = record { owners = v.owners; ids = v.ids }

  -- Start from a database in which every organization has an owner and the membership keys fall
  -- along the table, below the next fresh one. After any sequence of service calls, by any callers,
  -- each committed or rolled back, and of moves of the clock, both are still so.
  pub Reach-IsOwned : (w w' : World) → Reach p s w w' → IsOwned w → IsOwned w'
  Reach-IsOwned w _ here v = v
  Reach-IsOwned w w' (next {u = u} before step) v =
      Step-IsOwned u w' step (Reach-IsOwned w u before v)
