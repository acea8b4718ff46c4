-- ===== src/Model/Enums.antt =====
-- app/models/enums.py and the quotas of app/core/constants.py.
use tenantforge.Prelude.{ℕ, Bool, true, false}

pub data Role : Type 0 where
  owner admin member : Role

pub data ProjectStatus : Type 0 where
  active archived : ProjectStatus

pub data Plan : Type 0 where
  free pro business : Plan

pub data SubscriptionStatus : Type 0 where
  active past_due canceled : SubscriptionStatus

pub data WebhookStatus : Type 0 where
  pending processed failed : WebhookStatus

-- `==` on the members of `Role`, `Plan` and `WebhookStatus`.
abbrev pub role_eq : Role → Role → Bool
role_eq owner owner = true
role_eq admin admin = true
role_eq member member = true
role_eq _ _ = false

abbrev pub plan_eq : Plan → Plan → Bool
plan_eq free free = true
plan_eq pro pro = true
plan_eq business business = true
plan_eq _ _ = false

abbrev pub project_status_eq : ProjectStatus → ProjectStatus → Bool
project_status_eq ProjectStatus.active ProjectStatus.active = true
project_status_eq archived archived = true
project_status_eq _ _ = false

abbrev pub subscription_status_eq : SubscriptionStatus → SubscriptionStatus → Bool
subscription_status_eq SubscriptionStatus.active SubscriptionStatus.active = true
subscription_status_eq past_due past_due = true
subscription_status_eq canceled canceled = true
subscription_status_eq _ _ = false

abbrev pub webhook_status_eq : WebhookStatus → WebhookStatus → Bool
webhook_status_eq pending pending = true
webhook_status_eq processed processed = true
webhook_status_eq failed failed = true
webhook_status_eq _ _ = false

-- `PLAN_QUOTAS[plan.value]`.
abbrev pub plan_quota : Plan → ℕ
plan_quota free = 1000
plan_quota pro = 50000
plan_quota business = 500000
