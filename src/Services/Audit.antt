-- ===== src/Services/Audit.antt =====
-- app/services/audit.py.
pub mod Rules
pub mod Listing
use tenantforge.Prelude.{
  ℕ, ◌+◌, Bool, ◌&&◌, ◌||◌, Option, List, ◌∷◌, ◌==◌, ltb, if◌then◌else◌, Text, select, order_by,
  take, drop,
}
use tenantforge.Model.Errors.{ok, err, integrity_error}
use tenantforge.Model.Time.{aware, as_utc, stamp}
use tenantforge.Model.Tables.{Uuid, AuditAction, ResourceType, Detail, AuditLog, World}
use tenantforge.Session.{Action, gets}
use tenantforge.Services.Rows.{has_organization}

-- The row of an entry: its identifier and time are the session's.
abbrev pub audit_entry :
    Uuid
    → Option Uuid
    → AuditAction
    → ResourceType
    → Uuid
    → List Detail
    → Option Text
    → World
    → AuditLog
audit_entry o actor action resource_type resource_id metadata ip w = record {
  id = w.next_uuid;
  organization_id = o;
  actor_user_id = actor;
  action = action;
  resource_type = resource_type;
  resource_id = resource_id;
  details = metadata;
  ip_address = ip;
  created_at = aware w.clock;
}

abbrev pub audited : AuditLog → World → World
audited entry w = record w { audit_logs = entry ∷ w.audit_logs; next_uuid = w.next_uuid + 1 }

-- The entry's organization is a foreign key.
unfoldable pub write_audit :
    Uuid
    → Option Uuid
    → AuditAction
    → ResourceType
    → Uuid
    → List Detail
    → Option Text
    → Action AuditLog
write_audit o actor action resource_type resource_id metadata ip w =
    let entry = audit_entry o actor action resource_type resource_id metadata ip w in
    if has_organization w o then (ok entry, audited entry w) else (err integrity_error, w)

-- `order_by(AuditLog.created_at.desc(), AuditLog.id.desc())`
abbrev pub newest_first : AuditLog → AuditLog → Bool
newest_first a b =
    ltb (stamp (as_utc b.created_at)) (stamp (as_utc a.created_at))
    || (stamp (as_utc b.created_at) == stamp (as_utc a.created_at)) && ltb b.id a.id

unfoldable pub list_audit_logs : Uuid → ℕ → ℕ → Action (List AuditLog)
list_audit_logs o limit offset = gets λ w.
    take limit
      (drop offset (order_by newest_first (select (λ a. a.organization_id == o) w.audit_logs)))
