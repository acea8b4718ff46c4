-- ===== src/Tests/Metering.antt =====
-- Usage, billing periods and rate limits.
use tenantforge.Services.Usage.Quota.{
  record_usage_within_quota, record_usage_counts, record_usage_before_period,
}
use tenantforge.Services.Usage.{total_quantity, usage_total, plan_of, record_usage}
use tenantforge.Services.Rows.{subscription_of, has_organization, add_usage_event}
use tenantforge.Services.Periods.{roll_forward, period_of, subscription_period}
use tenantforge.Services.Billing.{current_time}
use tenantforge.Model.Time.{Datetime, as_utc, aware}
use tenantforge.Model.Tables.{Subscription, UsageEvent, World}
use tenantforge.Model.Errors.{ok}
use tenantforge.Model.Enums.{plan_quota}
use tenantforge.Infrastructure.RateLimit.RetryAfter.{seconds_left_bounds}
use tenantforge.Session.{◌>>=◌}
use tenantforge.Prelude.{
  ◌+◌, ◌-◌, ◌*◌, ◌≤◌, ◌<◌, min, ◌≡◌, refl, none, some, List, [], ◌∷◌, arith, scalar, select, exists,
  Text, codes, text_eq,
}
use tenantforge.Services.Periods.Coverage.{Covered, Started, subscription_period-covers}
use tenantforge.Infrastructure.RateLimit.Window.{
  window_end, Request, asked, passing_is_limited, passing,
}
use tenantforge.Infrastructure.RateLimit.{window_of, seconds_left, second}
use tenantforge.Tests.Fixtures.{
  database, january_plan, day_of_january, day_of_february, day_of_january-IsDatetime,
  february-IsDatetime,
}

abbrev requests : Text
requests = codes "api_requests"

abbrev ten_requests : UsageEvent
ten_requests = record {
  id = 20;
  organization_id = 3;
  metric = requests;
  quantity = 10;
  created_at = aware (day_of_january 15);
}

abbrev january : Datetime × Datetime
january = (day_of_january 1, day_of_february 1)

january-Started : Started january_plan (day_of_january 15)
january-Started = record { end_valid = february-IsDatetime; has_begun = λ _. omega arith }

subscription_period-covers_example :
    Covered (subscription_period (some january_plan) (day_of_january 15)) (day_of_january 15)
subscription_period-covers_example =
    subscription_period-covers (some january_plan) (day_of_january 15)
      (day_of_january-IsDatetime 15 (omega arith) (omega arith)) (omega arith) january-Started

record_usage_within_quota_example :
    usage_total 3 requests january.0 january.1 (record_usage 3 requests 10 none database).1
    ≤ plan_quota (plan_of (scalar (subscription_of 3) database.subscriptions))
unfolding record_usage usage_total total_quantity select subscription_period period_of roll_forward
    add_usage_event has_organization scalar exists text_eq ◌>>=◌
record_usage_within_quota_example =
    record_usage_within_quota 3 requests 10 none database
      (record_usage 3 requests 10 none database).1 ten_requests january refl refl

record_usage_counts_example :
    (usage_total 3 requests january.0 january.1 (record_usage 3 requests 10 none database).1
      ≡ 10 + usage_total 3 requests january.0 january.1 database)
    × (1 ≤ 10)
unfolding record_usage usage_total total_quantity select subscription_period period_of roll_forward
    add_usage_event has_organization scalar exists text_eq ◌>>=◌
record_usage_counts_example =
    record_usage_counts 3 requests 10 none database (record_usage 3 requests 10 none database).1
      ten_requests january (day_of_january-IsDatetime 15 (omega arith) (omega arith)) (omega arith)
      january-Started refl refl

-- A plan that starts in February.
abbrev february_plan : Subscription
february_plan = record january_plan {
  current_period_start = aware (day_of_february 1);
  current_period_end = aware (day_of_february 20);
}

abbrev before_february : World
before_february = record database { subscriptions = february_plan ∷ [] }

record_usage_before_period_example :
    (subscription_period (some february_plan) (current_time none before_february)
      ≡ ok (as_utc february_plan.current_period_start, as_utc february_plan.current_period_end))
    × (usage_total 3 requests
          (as_utc february_plan.current_period_start)
          (as_utc february_plan.current_period_end)
          (record_usage 3 requests 10 none before_february).1
        ≡ usage_total 3 requests
            (as_utc february_plan.current_period_start)
            (as_utc february_plan.current_period_end)
            before_february)
unfolding record_usage usage_total total_quantity select subscription_period period_of roll_forward
    add_usage_event has_organization scalar exists text_eq ◌>>=◌
record_usage_before_period_example =
    record_usage_before_period 3 requests 10 none before_february
      (record_usage 3 requests 10 none before_february).1 ten_requests february_plan refl
      (omega arith) (omega arith) refl

abbrev three_requests : List Request
three_requests =
    record { identifier = codes "a"; time = 5000000 }
    ∷ record { identifier = codes "b"; time = 6000000 }
    ∷ record { identifier = codes "a"; time = 7000000 }
    ∷ []

passing_is_limited_example :
    passing (codes "a") 0 1 60 three_requests [] ≡ min 1 (asked (codes "a") 0 1 60 three_requests)
passing_is_limited_example =
    passing_is_limited (codes "a") 0 1 60 three_requests (omega arith) (omega arith)
      (omega arith, (omega arith, (omega arith, tt)))

seconds_left_bounds_example :
    (1 ≤ seconds_left 60 90000000)
    × (seconds_left 60 90000000 ≤ 60)
    × (window_end 60 (window_of 60 90000000) ≤ 90000000 + seconds_left 60 90000000 * second)
    × (90000000 + (seconds_left 60 90000000 - 1) * second < window_end 60 (window_of 60 90000000))
seconds_left_bounds_example = seconds_left_bounds 60 90000000 (omega arith)
