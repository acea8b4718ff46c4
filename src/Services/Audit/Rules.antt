-- ===== src/Services/Audit/Rules.antt =====
-- An audit entry in a block that returned: it is in the log, and nothing else has changed.
use tenantforge.Prelude.{◌≡◌, true, List, Option, Text, Bool-cases, inl, inr}
use tenantforge.Model.Errors.{ok}
use tenantforge.Model.Tables.{Uuid, AuditAction, ResourceType, Detail, AuditLog, World}
use tenantforge.Session.{Action, ◌>>=◌}
use tenantforge.Services.Rows.{has_organization}
use tenantforge.Services.Audit.{write_audit, audit_entry, audited}

pub on-audit :
    {B C : Type 0} (o : Uuid) (actor : Option Uuid) (action : AuditAction) (kind : ResourceType)
    (resource : Uuid) (metadata : List Detail) (ip : Option Text) (f : AuditLog → Action B)
    (w : World) {b : B} {w' : World}
    → (write_audit o actor action kind resource metadata ip >>= f) w ≡ (ok b, w')
    → (has_organization w o ≡ true
        → let entry = audit_entry o actor action kind resource metadata ip w in
          f entry (audited entry w) ≡ (ok b, w') → C)
    → C
unfolding ◌>>=◌ write_audit
on-audit o actor action kind resource metadata ip f w h k =
    elim (Bool-cases (has_organization w o)) [
      | inl e ↦ k e (rw e at h)
      | inr e ↦ absurd (cc (rw e at h))
    ]
