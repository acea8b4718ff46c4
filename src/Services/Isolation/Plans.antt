-- ===== src/Services/Isolation/Plans.antt =====
-- `change_plan` of app/services/billing.py, and the rows of another organization.
use tenantforge.Session.Keeps.{Keeps, keeps_rules}
use tenantforge.Services.Audit.{write_audit}
use tenantforge.Services.Periods.{subscription_period, calendar_period}
use tenantforge.Model.Tables.{ResourceType, from_plan, to_plan, subscription_changed, Uuid}
use tenantforge.Services.Rows.{
  touch_subscription, organization_is, subscription_of, has_organization, add_subscription,
}
use tenantforge.Services.Organizations.Deletion.{TenantRows}
use tenantforge.Services.Isolation.{read-then, write_audit-Apart, Apart}
use tenantforge.Services.Billing.{
  save_subscription, current_time, change_plan, create_default_subscription,
  get_or_create_subscription,
}
use tenantforge.Model.Time.{Datetime, Timestamp, aware}
use tenantforge.Model.Tables.{Uuid, Subscription, World}
use tenantforge.Model.Errors.{Result, err, ok}
use tenantforge.Model.Enums.{plan_eq, Plan, SubscriptionStatus}
use tenantforge.Session.{pure, gets, when, modify, ◌>>=◌, Action, lift}
use tenantforge.Prelude.{
  [], ◌∷◌, select-update_other, scalar-holds, Text, ◌≡◌, refl, inl, inr, false, not, ◌||◌, Option,
  some, arith, FallingKeys, scalar, select, exists, ◌==◌, ==_refl, Bool-cases, Option-cases,
}

module _ (g : Uuid) (rows : TenantRows) (o : Uuid) (apart : (o == g) ≡ false) where
  -- The subscription of `o`, found or made.
  pub record Subscribed (s : Subscription) (w : World) : Type 0 where
    pub unseen : Apart g rows w
    pub keys : FallingKeys (λ r. r.id) w.next_uuid w.subscriptions
    pub found : scalar (subscription_of o) w.subscriptions ≡ some s

  module _ {B : Type 0} (rest : Subscription → Action B) (w : World) (h : Apart g rows w)
      (keys : FallingKeys (λ r. r.id) w.next_uuid w.subscriptions)
      (k : (s : Subscription) (w1 : World) → Subscribed s w1 → Apart g rows (rest s w1).1) where
    added-then :
        (period : Datetime × Datetime)
        → Apart g rows
            ((add_subscription o Plan.free SubscriptionStatus.active
                  (aware (period.0))
                  (aware (period.1))
                >>= rest)
              w).1
    unfolding add_subscription select scalar ◌>>=◌
    added-then period =
        elim (Bool-cases
          (exists (subscription_of o) w.subscriptions || not (has_organization w o))) [
            | inl bad ↦ rw bad h
            | inr good ↦ rw good (
                k _ _ (record {
                  unseen = rw apart h;
                  keys = (omega arith, keys);
                  found = rw (==_refl o) refl;
                }))
          ]

    lifted-then :
        (period : Result (Datetime × Datetime))
        → Apart g rows
            (((lift period >>= λ p.
                  add_subscription o Plan.free SubscriptionStatus.active
                    (aware (p.0))
                    (aware (p.1)))
                >>= rest)
              w).1
    unfolding ◌>>=◌
    lifted-then (err e) = h
    lifted-then (ok period) = added-then period

    got-then :
        (now : Option Timestamp) → Apart g rows ((get_or_create_subscription o now >>= rest) w).1
    unfolding get_or_create_subscription create_default_subscription ◌>>=◌
    got-then now = elim (Option-cases (scalar (organization_is o) w.organizations)) [
      | inl missing ↦ rw missing h
      | inr (row, there) ↦ elim (Option-cases (scalar (subscription_of o) w.subscriptions)) [
        | inl none_yet ↦ rw (there, none_yet) (lifted-then (calendar_period (current_time now w)))
        | inr (s, has) ↦ rw (there, has) (k s w (record { unseen = h; keys = keys; found = has }))
      ]
    ]

  -- The changed subscription is saved, and the audit entry is written if the plan is another.
  saved-then :
      (plan : Plan) (a : Uuid) (ip : Option Text) (s : Subscription) (period : Datetime × Datetime)
      (flushed_at : Datetime) (w : World)
      → Subscribed s w
      → let changed = touch_subscription flushed_at s (record s {
        plan = plan;
        status = SubscriptionStatus.active;
        current_period_start = aware (period.0);
        current_period_end = aware (period.1);
      }) in
        Apart g rows
          ((modify (save_subscription changed) >>= λ _.
              when (not (plan_eq s.plan plan)) (
                write_audit o
                  (some a)
                  subscription_changed
                  ResourceType.subscription
                  s.id
                  (from_plan s.plan ∷ to_plan plan ∷ [])
                  ip
                >>= λ _. pure tt)
              >>= λ _. pure changed)
            w).1
  unfolding ◌>>=◌
  saved-then plan a ip s period flushed_at w v =
      let own = scalar-holds (subscription_of o) w.subscriptions s v.found in
      let same : s.organization_id ≡ o = ground arith in
      let there : (s.organization_id == g) ≡ false = rw same apart in
      let changed = touch_subscription flushed_at s (record s {
        plan = plan;
        status = SubscriptionStatus.active;
        current_period_start = aware (period.0);
        current_period_end = aware (period.1);
      }) in
      let saved =
        select-update_other (λ r. r.id) (λ r. r.organization_id == g) _ (λ _. changed) w.next_uuid
          w.subscriptions s v.keys v.found there there in
      let rest : Keeps (Apart g rows) (
          when (not (plan_eq s.plan plan)) (
            write_audit o (some a) subscription_changed ResourceType.subscription s.id
              (from_plan s.plan ∷ to_plan plan ∷ []) ip
            >>= λ _. pure tt)
          >>= λ _. pure changed) =
        search (keeps_rules, write_audit-Apart) depth 9 in
      rest.at (save_subscription changed w) (rw saved v.unseen)

  pub change_plan-Apart :
      (plan : Plan) (a : Uuid) (ip : Option Text) (now : Option Timestamp) (w : World)
      → FallingKeys (λ r. r.id) w.next_uuid w.subscriptions
      → Apart g rows w
      → Apart g rows (change_plan o plan a ip now w).1
  unfolding change_plan
  change_plan-Apart plan a ip now w keys h =
      got-then _ w h keys
        (λ s w1 v. read-then (Apart g rows) (gets (current_time now)) _ w1 refl v.unseen λ current.
          read-then (Apart g rows) (lift (subscription_period (some s) current)) _ w1 refl v.unseen
            λ period.
              read-then (Apart g rows) (gets (λ w. w.clock)) _ w1 refl v.unseen
                λ flushed_at. saved-then plan a ip s period flushed_at w1 v)
        now
