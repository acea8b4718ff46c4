-- ===== src/Services/Usage/Quota.antt =====
-- The quota of app/services/usage.py: what `record_usage` adds to the period, and when it refuses.
use tenantforge.Session.{throw}
use tenantforge.Services.Periods.Coverage.{StartedBy, subscription_period-covers}
use tenantforge.Session.Rules.{on-read, on-append_last, on-when, checked-ok}
use tenantforge.Services.Usage.{counted, total_quantity, usage_total, plan_of, record_usage}
use tenantforge.Services.Rows.{subscription_of, add_usage_event}
use tenantforge.Services.Periods.{period_of, subscription_period}
use tenantforge.Services.Billing.{current_time}
use tenantforge.Model.Time.{stamp, as_utc, IsDatetime, Datetime, Timestamp, aware}
use tenantforge.Model.Tables.{Subscription, Uuid, UsageEvent, World}
use tenantforge.Model.Errors.{value_error, ok}
use tenantforge.Model.Enums.{plan_quota}
use tenantforge.Prelude.{
  ◌<◌, subst, some, select, text_eq_refl, ltb, if◌then◌else◌, ℕ, ◌+◌, ◌≤◌, ◌≡◌, refl, Option, ◌∷◌,
  arith, scalar, Text,
}

-- A `record_usage` that returned `event` at `current`.
pub record Metered (o : Uuid) (metric : Text) (quantity : ℕ) (current : Datetime)
    (event : UsageEvent) (w w' : World) : Type 0 where
  pub period : Datetime × Datetime
  pub period_is :
      subscription_period (scalar (subscription_of o) w.subscriptions) current ≡ ok period
  pub positive : 1 ≤ quantity
  pub within :
      usage_total o metric period.0 period.1 w + quantity
      ≤ plan_quota (plan_of (scalar (subscription_of o) w.subscriptions))
  pub written : w'.usage_events ≡ event ∷ w.usage_events
  pub kept : w'.subscriptions ≡ w.subscriptions
  pub of_organization : event.organization_id ≡ o
  pub of_metric : event.metric ≡ metric
  pub quantity_is : event.quantity ≡ quantity
  pub at_present : event.created_at ≡ aware current

pub record_usage-ok :
    (o : Uuid) (metric : Text) (quantity : ℕ) (now : Option Timestamp) (w w' : World)
    {event : UsageEvent}
    → record_usage o metric quantity now w ≡ (ok event, w')
    → Metered o metric quantity (current_time now w) event w w'
unfolding record_usage add_usage_event
record_usage-ok o metric quantity now w w' h =
    on-when (ltb quantity 1) (throw value_error) _ _ h
      (λ positive h. on-read _ _ _ h refl λ _ _ h. on-read _ _ _ h refl λ found found_is h.
        on-read _ _ _ h refl λ current current_is h. on-read _ _ _ h refl λ period period_is h.
          on-read _ _ _ h refl λ used used_is h. on-read _ _ _ h refl λ _ allowed h.
            on-append_last _ _ _ _ _ _ h refl λ _ row_is world_is. record {
              period = period;
              period_is = ground arith;
              positive = ground arith;
              within = ground (arith, checked-ok _ _ allowed);
              written = ground arith;
              kept = ground arith;
              of_organization = ground arith;
              of_metric = ground arith;
              quantity_is = ground arith;
              at_present = ground arith;
            })
      (λ _ h. on-read _ _ _ h refl λ _ raised _. absurd (cc))

-- The events of a period, with one more.
total_with :
    (o : Uuid) (metric : Text) (start end : Datetime) (e : UsageEvent) (w w' : World)
    → w'.usage_events ≡ e ∷ w.usage_events
    → usage_total o metric start end w'
      ≡ (if counted o metric start end e then e.quantity else 0) + usage_total o metric start end w
unfolding usage_total total_quantity select
total_with o metric start end e w w' written = rw written (ground arith)

-- A `record_usage` that returns leaves the total of the current billing period, whichever that
-- is, within the quota of the plan.
pub record_usage_within_quota :
    (o : Uuid) (metric : Text) (quantity : ℕ) (now : Option Timestamp) (w w' : World)
    (event : UsageEvent) (period : Datetime × Datetime)
    → record_usage o metric quantity now w ≡ (ok event, w')
    → subscription_period (scalar (subscription_of o) w.subscriptions) (current_time now w)
      ≡ ok period
    → usage_total o metric period.0 period.1 w'
      ≤ plan_quota (plan_of (scalar (subscription_of o) w.subscriptions))
record_usage_within_quota o metric quantity now w w' event period h e =
    let m = record_usage-ok o metric quantity now w w' h in
    let same : m.period ≡ period = cc (m.period_is, e) in
    let total = total_with o metric period.0 period.1 event w w' m.written in
    let within =
      subst
        (λ x.
          usage_total o metric x.0 x.1 w + quantity
          ≤ plan_quota (plan_of (scalar (subscription_of o) w.subscriptions)))
        same m.within in
    ground (arith, total, within, m.quantity_is)

-- Where the stored period has begun, the event that a successful `record_usage` returns counts in
-- the current billing period: the total grows by exactly the quantity, which is positive.
pub record_usage_counts :
    (o : Uuid) (metric : Text) (quantity : ℕ) (now : Option Timestamp) (w w' : World)
    (event : UsageEvent) (period : Datetime × Datetime)
    → IsDatetime (current_time now w)
    → (current_time now w).year ≤ 9998
    → StartedBy (scalar (subscription_of o) w.subscriptions) (current_time now w)
    → record_usage o metric quantity now w ≡ (ok event, w')
    → subscription_period (scalar (subscription_of o) w.subscriptions) (current_time now w)
      ≡ ok period
    → (usage_total o metric period.0 period.1 w'
        ≡ quantity + usage_total o metric period.0 period.1 w)
      × (1 ≤ quantity)
record_usage_counts o metric quantity now w w' event period v low started h e =
    let m = record_usage-ok o metric quantity now w w' h in
    let c = subscription_period-covers _ (current_time now w) v low started in
    let same : (c.start, c.end) ≡ period = cc (c.returned, e) in
    let total = total_with o metric period.0 period.1 event w w' m.written in
    (
      ground (
        arith,
        total,
        m.quantity_is,
        m.of_organization,
        text_eq_refl metric,
        m.of_metric,
        m.at_present,
        c.begun,
        c.open_end,
        same,
      ),
      m.positive,
    )

-- Where the stored period of a subscription lies in the future, what `record_usage` returns is not
-- counted in the period that `subscription_period` computes: its total does not grow, so that the
-- quota does not bound the usage until the period begins.
pub record_usage_before_period :
    (o : Uuid) (metric : Text) (quantity : ℕ) (now : Option Timestamp) (w w' : World)
    (event : UsageEvent) (s : Subscription)
    → scalar (subscription_of o) w.subscriptions ≡ some s
    → stamp (as_utc s.current_period_start) < stamp (as_utc s.current_period_end)
    → stamp (current_time now w) < stamp (as_utc s.current_period_start)
    → record_usage o metric quantity now w ≡ (ok event, w')
    → (subscription_period (some s) (current_time now w)
        ≡ ok (as_utc s.current_period_start, as_utc s.current_period_end))
      × (usage_total o metric (as_utc s.current_period_start) (as_utc s.current_period_end) w'
          ≡ usage_total o metric (as_utc s.current_period_start) (as_utc s.current_period_end) w)
unfolding subscription_period period_of
record_usage_before_period o metric quantity now w w' event s found proper future h =
    let m = record_usage-ok o metric quantity now w w' h in
    let total =
      total_with o metric (as_utc s.current_period_start) (as_utc s.current_period_end) event w w'
        m.written in
    (ground arith, ground (arith, total, m.at_present))
