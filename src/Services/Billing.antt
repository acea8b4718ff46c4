-- ===== src/Services/Billing.antt =====
-- app/services/billing.py. A `now` of `None` is the clock.
use tenantforge.Prelude.{◌==◌, not, Option, none, some, [], ◌∷◌, scalar, update_where, Text}
use tenantforge.Model.Enums.{Plan, free, SubscriptionStatus, plan_eq}
use tenantforge.Model.Errors.{not_found_error, organization_not_found, subscription_not_found}
use tenantforge.Model.Time.{Datetime, Timestamp, as_utc, aware}
use tenantforge.Model.Tables.{
  Uuid, Subscription, World, ResourceType, subscription_changed, from_plan, to_plan,
}
use tenantforge.Session.{Action, pure, gets, find, lift, when, modify, ◌>>=◌, ◌>>◌}
use tenantforge.Services.Rows.{
  touch_subscription, subscription_of, organization_is, add_subscription,
}
use tenantforge.Services.Audit.{write_audit}
use tenantforge.Services.Periods.{calendar_period, subscription_period}

-- `_as_utc(now or datetime.now(UTC))`
abbrev pub current_time : Option Timestamp → World → Datetime
current_time none w = w.clock
current_time (some t) w = as_utc t

unfoldable pub create_default_subscription : Uuid → Option Timestamp → Action Subscription
create_default_subscription o now = do
  current ← gets (current_time now)
  period ← lift (calendar_period current)
  add_subscription o free SubscriptionStatus.active (aware period.0) (aware period.1)

unfoldable pub get_subscription : Uuid → Action Subscription
get_subscription o =
    find (λ w. scalar (subscription_of o) w.subscriptions) (not_found_error subscription_not_found)

unfoldable pub get_or_create_subscription : Uuid → Option Timestamp → Action Subscription
get_or_create_subscription o now = do
  find (λ w. scalar (organization_is o) w.organizations) (not_found_error organization_not_found)
  found ← gets λ w. scalar (subscription_of o) w.subscriptions
  elim found [ some subscription ↦ pure subscription | none ↦ create_default_subscription o now ]

-- The flush of a changed subscription.
abbrev pub save_subscription : Subscription → World → World
save_subscription s w = record w {
  subscriptions = update_where (λ r. r.id == s.id) (λ _. s) w.subscriptions;
}

unfoldable pub change_plan :
    Uuid → Plan → Uuid → Option Text → Option Timestamp → Action Subscription
change_plan o plan actor ip now = do
  old ← get_or_create_subscription o now
  current ← gets (current_time now)
  period ← lift (subscription_period (some old) current)
  flushed_at ← gets λ w. w.clock
  let changed = touch_subscription flushed_at old (record old {
    plan = plan;
    status = SubscriptionStatus.active;
    current_period_start = aware period.0;
    current_period_end = aware period.1;
  })
  modify (save_subscription changed)
  when (not (plan_eq old.plan plan)) do
    write_audit o (some actor) subscription_changed ResourceType.subscription old.id
        (from_plan old.plan ∷ to_plan plan ∷ []) ip
    pure tt
  pure changed
