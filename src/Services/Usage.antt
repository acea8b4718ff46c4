-- ===== src/Services/Usage.antt =====
-- app/services/usage.py: metered usage against the quota of the plan. Its periods are in
-- Services/Periods.antt. Python's `int` quantities are natural numbers: the route admits 1 to 1000.
pub mod Quota
use tenantforge.Model.Tables.{Uuid, Subscription, UsageEvent, World}
use tenantforge.Model.Errors.{
  AppError, not_found_error, organization_not_found, quota_exceeded, retry_after, value_error,
}
use tenantforge.Model.Time.{Datetime, Timestamp, stamp, seconds_between, as_utc, aware}
use tenantforge.Model.Enums.{Plan, plan_quota, free}
use tenantforge.Prelude.{
  ℕ, ◌+◌, ◌-◌, max, Bool, ◌&&◌, Option, none, some, List, [], ◌∷◌, ltb, leb, ◌==◌, scalar, select,
  Text, codes, text_eq,
}
use tenantforge.Session.{Action, pure, throw, gets, find, ensure, lift, when, ◌>>=◌, ◌>>◌}
use tenantforge.Services.Rows.{organization_is, subscription_of, add_usage_event}
use tenantforge.Services.Periods.{subscription_period}
use tenantforge.Services.Billing.{current_time}

pub record UsageSnapshot : Type 0 where
  pub plan : Plan
  pub used : ℕ
  pub limit : ℕ
  pub remaining : ℕ
  pub period_start : Datetime
  pub period_end : Datetime

abbrev pub api_requests_metric : Text
api_requests_metric = codes "api_requests"

-- The `where` clause of `_usage_total`: the period is closed at its start and open at its end.
abbrev pub counted : Uuid → Text → Datetime → Datetime → UsageEvent → Bool
counted o metric start end e =
    (e.organization_id == o)
    && text_eq e.metric metric
    && leb (stamp start) (stamp (as_utc e.created_at))
    && ltb (stamp (as_utc e.created_at)) (stamp end)

-- `coalesce(sum(quantity), 0)`
unfoldable pub total_quantity : List UsageEvent → ℕ
total_quantity [] = 0
total_quantity (e ∷ es) = e.quantity + total_quantity es

unfoldable pub usage_total : Uuid → Text → Datetime → Datetime → World → ℕ
usage_total o metric start end w =
    total_quantity (select (counted o metric start end) w.usage_events)

-- `subscription.plan if subscription is not None else Plan.FREE`
abbrev pub plan_of : Option Subscription → Plan
plan_of none = free
plan_of (some s) = s.plan

unfoldable pub get_usage_summary : Uuid → Text → Option Timestamp → Action UsageSnapshot
get_usage_summary o metric now = do
  find (λ w. scalar (organization_is o) w.organizations) (not_found_error organization_not_found)
  found ← gets λ w. scalar (subscription_of o) w.subscriptions
  current ← gets (current_time now)
  period ← lift (subscription_period found current)
  used ← gets (usage_total o metric period.0 period.1)
  let limit = plan_quota (plan_of found)
  pure (record {
    plan = plan_of found;
    used = used;
    limit = limit;
    remaining = limit - used;
    period_start = period.0;
    period_end = period.1;
  })

-- The `429` of an exhausted quota, with the seconds until the period ends.
abbrev pub quota_error : Datetime → Datetime → AppError
quota_error current end = record {
  status_code = 429;
  code = quota_exceeded;
  headers = retry_after (max 1 (seconds_between current end)) ∷ [];
}

unfoldable pub record_usage : Uuid → Text → ℕ → Option Timestamp → Action UsageEvent
record_usage o metric quantity now = do
  when (ltb quantity 1) (throw value_error)
  find (λ w. scalar (organization_is o) w.organizations) (not_found_error organization_not_found)
  found ← gets λ w. scalar (subscription_of o) w.subscriptions
  current ← gets (current_time now)
  period ← lift (subscription_period found current)
  used ← gets (usage_total o metric period.0 period.1)
  ensure (leb (used + quantity) (plan_quota (plan_of found))) (quota_error current period.1)
  add_usage_event o metric quantity (aware current)
