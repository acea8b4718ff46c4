-- ===== src/Services/Audit/Listing.antt =====
-- `list_audit_logs` of app/services/audit.py.
use tenantforge.Model.Tables.{Uuid, AuditLog, World}
use tenantforge.Model.Errors.{ok}
use tenantforge.Prelude.{ℕ, ◌≡◌, refl, true, false, List, arith, Page, Page-ok, select, ◌==◌}
use tenantforge.Services.Audit.{newest_first, list_audit_logs}

newest_first_asymmetric : (a b : AuditLog) → newest_first a b ≡ true → newest_first b a ≡ false
newest_first_asymmetric a b h = ground arith

-- `list_audit_logs` changes nothing and returns a page: the entries of the organization, all of
-- them and no other, can be listed with none directly after an entry that is older, or as old with
-- a smaller key, so that the entries returned follow the first `offset` ones; they are `limit`
-- entries, or as many as there are.
pub list_audit_logs-Page :
    (o : Uuid) (limit offset : ℕ) (w : World)
    → (rows : List AuditLog) × (list_audit_logs o limit offset w ≡ (ok rows, w))
      × Page newest_first (select (λ a. a.organization_id == o) w.audit_logs) limit offset rows
unfolding list_audit_logs
list_audit_logs-Page o limit offset w = (
  _,
  refl,
  Page-ok newest_first limit offset (select (λ a. a.organization_id == o) w.audit_logs)
      newest_first_asymmetric,
)
