-- ===== src/Services/Webhooks/Periods.antt =====
-- The billing periods that the events of app/services/webhooks.py set.
use tenantforge.Model.Time.{aware, Datetime, stamp, as_utc}
use tenantforge.Model.Tables.{Subscription}
use tenantforge.Model.Json.{Fields}
use tenantforge.Model.Enums.{Plan, SubscriptionStatus, past_due, canceled}
use tenantforge.Prelude.{
  Option, ltb, ◌<◌, ◌≡◌, inl, inr, arith, Text, codes, text_eq, if◌then◌else◌, Bool-cases,
}
use tenantforge.Model.Json
use tenantforge.Services.Webhooks.{
  id_or_keep, plan_field, status_field, parse_datetime, WebhookCodec, in_order, is_change,
  replaced_subscription, changed_subscription,
}
use tenantforge.Model.Errors.{◌>>=◌, Result, err, ok}

-- The period of a subscription is not empty.
abbrev pub IsProper : Subscription → Type 0
IsProper s = stamp (as_utc s.current_period_start) < stamp (as_utc s.current_period_end)

-- The parts that are parsed, in turn: the first that is refused refuses the event.
replaced_parts :
    (s : Subscription) (c i : Option Text) (plan : Result Plan) (status : Result SubscriptionStatus)
    (start end : Result Datetime) (changed : Subscription)
    → (plan >>= λ plan. status >>= λ status. start >>= λ start. end >>= λ end.
        in_order start end >>= λ _. ok (record s {
          plan = plan;
          status = status;
          external_customer_id = c;
          external_subscription_id = i;
          current_period_start = aware start;
          current_period_end = aware end;
        }))
      ≡ ok changed
    → IsProper changed × (changed.id ≡ s.id) × (changed.organization_id ≡ s.organization_id)
replaced_parts s c i (err e) status start end changed h = absurd (cc)
replaced_parts s c i (ok plan) (err e) start end changed h = absurd (cc)
replaced_parts s c i (ok plan) (ok status) (err e) end changed h = absurd (cc)
replaced_parts s c i (ok plan) (ok status) (ok start) (err e) changed h = absurd (cc)
replaced_parts s c i (ok plan) (ok status) (ok start) (ok end) changed h =
    elim (Bool-cases (ltb (stamp start) (stamp end))) [
      | inl proper ↦ let h = rw proper at h in (ground arith, ground arith, ground arith)
      | inr refused ↦ absurd (cc (rw refused at h))
    ]

replaced-IsProper :
    (codec : WebhookCodec) (object : Fields) (s : Subscription) (period : Datetime × Datetime)
    (changed : Subscription)
    → replaced_subscription codec object s period ≡ ok changed
    → IsProper changed × (changed.id ≡ s.id) × (changed.organization_id ≡ s.organization_id)
unfolding replaced_subscription
replaced-IsProper codec object s period changed h =
    replaced_parts s (id_or_keep (Json.get (codes "customer_id") object) s.external_customer_id)
      (id_or_keep (Json.get (codes "subscription_id") object) s.external_subscription_id)
      (plan_field codec (Json.get (codes "plan") object))
      (status_field codec (Json.get (codes "status") object))
      (parse_datetime codec (Json.get (codes "current_period_start") object) period.0)
      (parse_datetime codec (Json.get (codes "current_period_end") object) period.1) changed h

-- Whatever the kind of an event and its body, the subscription that it leaves is that of the same
-- organization, and its period is not empty if it was not empty before.
pub changed_subscription-IsProper :
    (codec : WebhookCodec) (kind : Text) (object : Fields) (s : Subscription)
    (period : Datetime × Datetime) (changed : Subscription)
    → IsProper s
    → changed_subscription codec kind object s period ≡ ok changed
    → IsProper changed × (changed.id ≡ s.id) × (changed.organization_id ≡ s.organization_id)
unfolding changed_subscription
changed_subscription-IsProper codec kind object s period changed proper h =
    elim (Bool-cases (is_change kind)) [
      | inl e ↦ replaced-IsProper codec object s period changed (rw e at h)
      | inr e ↦ other_kind (rw e at h)
    ]
  where
    other_kind :
        (if text_eq kind (codes "subscription.cancelled")
            then ok (record s { status = canceled })
            else if text_eq kind (codes "invoice.payment_failed")
            then ok (record s { status = past_due })
            else ok s)
          ≡ ok changed
        → IsProper changed × (changed.id ≡ s.id) × (changed.organization_id ≡ s.organization_id)
    other_kind h = (ground arith, ground arith, ground arith)
