-- ===== src/Services/System/Writes.antt =====
-- The writes that touch neither organizations nor memberships keep the owners, and so does a new
-- member.
use tenantforge.Session.Keeps.{Keeps}
use tenantforge.Services.Organizations.Ownership.{IsOwned, IsOwned-of_tables}
use tenantforge.Services.Organizations.Owners.{HasOwner}
use tenantforge.Services.Organizations.Founding.{owned-cons}
use tenantforge.Services.Audit.{write_audit}
use tenantforge.Security.Crypto.{Primitives, Settings, draw, create_access_token}
use tenantforge.Model.Time.{Timestamp}
use tenantforge.Model.Tables.{Uuid, Membership, Detail, AuditAction, ResourceType, World}
use tenantforge.Model.Enums.{Role, Plan, SubscriptionStatus}
use tenantforge.Prelude.{
  ℕ, ◌+◌, ◌≤◌, ◌≡◌, refl, inl, inr, not, ◌&&◌, ◌||◌, Option, List, ◌∷◌, arith, FallingKeys-mono,
  exists, All-mono, Text, Bool-cases,
}
use tenantforge.Services.Rows.{
  user_is, has_organization, add_user, add_refresh_token, add_membership, add_invitation,
  add_api_key, add_project, add_usage_event, add_subscription, member_is,
}

-- The same organizations and memberships.
pub IsOwned-step :
    (w w' : World)
    → w'.organizations ≡ w.organizations
    → w'.memberships ≡ w.memberships
    → w.next_uuid ≤ w'.next_uuid
    → IsOwned w
    → IsOwned w'
IsOwned-step w w' eo em le v =
    IsOwned-of_tables w' w.organizations w.memberships eo em v.owners
      (FallingKeys-mono _ w.next_uuid w'.next_uuid w.memberships le v.ids)

pub add_user-Keeps : (e h : Text) → Keeps IsOwned (add_user e h)
unfolding add_user
add_user-Keeps e h = record {
  at = λ w v. IsOwned-step w _ (ground arith) (ground arith) (ground arith) v;
}

pub add_refresh_token-Keeps :
    (u : Uuid) (h : Text) (e c : Timestamp) → Keeps IsOwned (add_refresh_token u h e c)
unfolding add_refresh_token
add_refresh_token-Keeps u h e c = record {
  at = λ w v. IsOwned-step w _ (ground arith) (ground arith) (ground arith) v;
}

pub add_invitation-Keeps :
    (o : Uuid) (m : Text) (r : Role) (h : Text) (e : Timestamp) (b : Uuid) (c : Timestamp)
    → Keeps IsOwned (add_invitation o m r h e b c)
unfolding add_invitation
add_invitation-Keeps o m r h e b c = record {
  at = λ w v. IsOwned-step w _ (ground arith) (ground arith) (ground arith) v;
}

pub add_api_key-Keeps :
    (o : Uuid) (n h pre : Text) (b : Uuid) → Keeps IsOwned (add_api_key o n h pre b)
unfolding add_api_key
add_api_key-Keeps o n h pre b = record {
  at = λ w v. IsOwned-step w _ (ground arith) (ground arith) (ground arith) v;
}

pub add_project-Keeps :
    (o : Uuid) (n : Text) (d : Option Text) (b : Uuid) → Keeps IsOwned (add_project o n d b)
unfolding add_project
add_project-Keeps o n d b = record {
  at = λ w v. IsOwned-step w _ (ground arith) (ground arith) (ground arith) v;
}

pub add_usage_event-Keeps :
    (o : Uuid) (m : Text) (q : ℕ) (t : Timestamp) → Keeps IsOwned (add_usage_event o m q t)
unfolding add_usage_event
add_usage_event-Keeps o m q t = record {
  at = λ w v. IsOwned-step w _ (ground arith) (ground arith) (ground arith) v;
}

pub add_subscription-Keeps :
    (o : Uuid) (plan : Plan) (s : SubscriptionStatus) (a b : Timestamp)
    → Keeps IsOwned (add_subscription o plan s a b)
unfolding add_subscription
add_subscription-Keeps o plan s a b = record {
  at = λ w v. IsOwned-step w _ (ground arith) (ground arith) (ground arith) v;
}

pub write_audit-Keeps :
    (o : Uuid) (actor : Option Uuid) (a : AuditAction) (k : ResourceType) (i : Uuid)
    (d : List Detail) (ip : Option Text)
    → Keeps IsOwned (write_audit o actor a k i d ip)
unfolding write_audit
write_audit-Keeps o actor a k i d ip = record {
  at = λ w v. IsOwned-step w _ (ground arith) (ground arith) (ground arith) v;
}

pub draw-Keeps : Keeps IsOwned draw
unfolding draw
draw-Keeps = record { at = λ w v. IsOwned-step w _ refl refl (omega arith) v }

pub create_access_token-Keeps :
    (p : Primitives) (s : Settings) (u : Uuid) → Keeps IsOwned (create_access_token p s u)
unfolding create_access_token
create_access_token-Keeps p s u = record { at = λ w v. IsOwned-step w _ refl refl (omega arith) v }

member_added :
    (m : Membership) (w : World)
    → m.id ≡ w.next_uuid
    → IsOwned w
    → IsOwned (record w { memberships = m ∷ w.memberships; next_uuid = w.next_uuid + 1 })
member_added m w e v =
    IsOwned-of_tables _ w.organizations (m ∷ w.memberships) refl refl
      (All-mono (HasOwner w.memberships) _ w.organizations
        (λ x h. owned-cons x.id m w.memberships h) v.owners)
      (omega arith, FallingKeys-mono _ w.next_uuid m.id w.memberships (omega arith) v.ids)

pub add_membership-Keeps : (u o : Uuid) (r : Role) → Keeps IsOwned (add_membership u o r)
unfolding add_membership
add_membership-Keeps u o r = record {
  at = λ w v.
      elim (Bool-cases (
        exists (member_is o u) w.memberships
        || not (exists (user_is u) w.users && has_organization w o))) [
          | inl e ↦ rw e v
          | inr e ↦ rw e (member_added _ w refl v)
        ];
}
