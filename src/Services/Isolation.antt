-- ===== src/Services/Isolation.antt =====
-- Tenant isolation in app/services: the writes to rows of one organization, and the rows of another.
pub mod Changes
pub mod Organizations
pub mod Plans
use tenantforge.Session.Keeps.{Keeps}
use tenantforge.Services.Rows.{
  user_is, subscription_of, has_organization, add_subscription, invitation_is, add_invitation,
  key_hash_is, add_api_key, add_project, add_usage_event,
}
use tenantforge.Services.Organizations.Deletion.{TenantRows, tenant_rows}
use tenantforge.Services.Audit.{audit_entry, audited, write_audit}
use tenantforge.Security.Crypto.{draw}
use tenantforge.Model.Time.{Timestamp}
use tenantforge.Model.Tables.{AuditLog, Uuid, Detail, AuditAction, ResourceType, World}
use tenantforge.Model.Errors.{Result, err, ok, AppError}
use tenantforge.Model.Enums.{Role, Plan, SubscriptionStatus}
use tenantforge.Session.{continue, ◌>>=◌, Action, find}
use tenantforge.Prelude.{
  FallingKeys, sym, subst, ℕ, ◌≡◌, inl, inr, false, not, ◌&&◌, ◌||◌, Option, some, List, select,
  exists, Text, ◌==◌, Bool-cases, Option-cases,
}

abbrev pub Apart : Uuid → TenantRows → World → Type 0
Apart g rows w = tenant_rows g w ≡ rows

-- The keys of the tables of tenants fall from the next fresh one, the newest row first.
pub record TenantKeys (w : World) : Type 0 where
  pub memberships : FallingKeys (λ r. r.id) w.next_uuid w.memberships
  pub api_keys : FallingKeys (λ r. r.id) w.next_uuid w.api_keys
  pub projects : FallingKeys (λ r. r.id) w.next_uuid w.projects
  pub subscriptions : FallingKeys (λ r. r.id) w.next_uuid w.subscriptions

-- A block from a given database: its first step is a query, whose row is at hand for the rest, or
-- any other step that only reads.
module _ {A B : Type 0} (P : World → Type 0) where
  pub found-then :
      (query : World → Option A) (e : AppError) (rest : A → Action B) (w : World)
      → P w
      → ((a : A) → query w ≡ some a → P (rest a w).1)
      → P ((find query e >>= rest) w).1
  unfolding ◌>>=◌
  found-then query e rest w h k = elim (Option-cases (query w)) [
    | inl missing ↦ rw missing h
    | inr (a, found) ↦ rw found (k a found)
  ]

  continued-then :
      (r : Result A) (rest : A → Action B) (w : World)
      → P w
      → ((a : A) → P (rest a w).1)
      → P (continue r rest w).1
  continued-then (ok a) rest w h k = k a
  continued-then (err e) rest w h k = h

  pub read-then :
      (m : Action A) (rest : A → Action B) (w : World)
      → (m w).1 ≡ w
      → P w
      → ((a : A) → P (rest a w).1)
      → P ((m >>= rest) w).1
  unfolding ◌>>=◌
  read-then m rest w reads h k =
      subst (λ x. P (continue (m w).0 rest x).1) (sym reads) (continued-then (m w).0 rest w h k)

module _ (g : Uuid) (rows : TenantRows) (o : Uuid) (apart : (o == g) ≡ false) where
  -- A row of `o` is no row of `g`.
  pub elsewhere : (i : Uuid) → i ≡ o → (i == g) ≡ false
  elsewhere i e = rw e apart

  pub write_audit-Apart :
      (actor : Option Uuid) (a : AuditAction) (k : ResourceType) (i : Uuid) (d : List Detail)
      (ip : Option Text)
      → Keeps (Apart g rows) (write_audit o actor a k i d ip)
  unfolding write_audit select
  write_audit-Apart actor a k i d ip = record {
    at = λ w h. elim (Bool-cases (has_organization w o)) [
      | inl there ↦ rw (there, apart) h
      | inr missing ↦ rw missing h
    ];
  }

  -- An entry of `o`, and the rest of the block after it.
  pub audit-then :
      {B : Type 0} (actor : Option Uuid) (a : AuditAction) (k : ResourceType) (i : Uuid)
      (d : List Detail) (ip : Option Text) (rest : AuditLog → Action B) (w : World)
      → Apart g rows w
      → ((entry : AuditLog)
          → Apart g rows (audited entry w)
          → Apart g rows (rest entry (audited entry w)).1)
      → Apart g rows ((write_audit o actor a k i d ip >>= rest) w).1
  unfolding write_audit select ◌>>=◌
  audit-then actor a k i d ip rest w h after = elim (Bool-cases (has_organization w o)) [
    | inl there ↦ rw there (after (audit_entry o actor a k i d ip w) (rw apart h))
    | inr missing ↦ rw missing h
  ]

  pub add_project-Apart :
      (n : Text) (d : Option Text) (b : Uuid) → Keeps (Apart g rows) (add_project o n d b)
  unfolding add_project select
  add_project-Apart n d b = record {
    at = λ w h. elim (Bool-cases (exists (user_is b) w.users && has_organization w o)) [
      | inl good ↦ rw (good, apart) h
      | inr bad ↦ rw bad h
    ];
  }

  pub add_api_key-Apart :
      (n h pre : Text) (b : Uuid) → Keeps (Apart g rows) (add_api_key o n h pre b)
  unfolding add_api_key select
  add_api_key-Apart n hash pre b = record {
    at = λ w h.
        elim (Bool-cases (
          exists (key_hash_is hash) w.api_keys
          || not (exists (user_is b) w.users && has_organization w o))) [
            | inl bad ↦ rw bad h
            | inr good ↦ rw (good, apart) h
          ];
  }

  pub add_invitation-Apart :
      (m : Text) (r : Role) (hash : Text) (e : Timestamp) (b : Uuid) (c : Timestamp)
      → Keeps (Apart g rows) (add_invitation o m r hash e b c)
  unfolding add_invitation select
  add_invitation-Apart m r hash e b c = record {
    at = λ w h.
        elim (Bool-cases (
          exists (invitation_is hash) w.invitations
          || not (exists (user_is b) w.users && has_organization w o))) [
            | inl bad ↦ rw bad h
            | inr good ↦ rw (good, apart) h
          ];
  }

  pub add_usage_event-Apart :
      (metric : Text) (quantity : ℕ) (t : Timestamp)
      → Keeps (Apart g rows) (add_usage_event o metric quantity t)
  unfolding add_usage_event select
  add_usage_event-Apart metric quantity t = record {
    at = λ w h. elim (Bool-cases (has_organization w o)) [
      | inl good ↦ rw (good, apart) h
      | inr bad ↦ rw bad h
    ];
  }

  pub add_subscription-Apart :
      (plan : Plan) (s : SubscriptionStatus) (a b : Timestamp)
      → Keeps (Apart g rows) (add_subscription o plan s a b)
  unfolding add_subscription select
  add_subscription-Apart plan s a b = record {
    at = λ w h.
        elim (Bool-cases
          (exists (subscription_of o) w.subscriptions || not (has_organization w o))) [
            | inl bad ↦ rw bad h
            | inr good ↦ rw (good, apart) h
          ];
  }

pub draw-Apart : (g : Uuid) (rows : TenantRows) → Keeps (Apart g rows) draw
unfolding draw
draw-Apart g rows = record { at = λ w h. h }
