-- ===== src/Scripts/Seeded/Tenancy.antt =====
-- The steps of scripts/seed_demo.py that add rows of the organization.
use tenantforge.Scripts.Seeded.{Grown-refl, Grown, Makes}
use tenantforge.Services.Billing.{save_subscription}
use tenantforge.Model.Time.{Datetime, add_days, aware}
use tenantforge.Model.Enums.{Plan, SubscriptionStatus, ProjectStatus, Role}
use tenantforge.Session.Rules.{on-read, on-append_last, on-insert, on-bind}
use tenantforge.Services.Rows.{
  subscription_of, add_subscription, has_user, has_organization, add_membership, add_project,
  member_is,
}
use tenantforge.Scripts.{
  promoted, is_promoted, ensure_subscription, ensure_membership, ensure_project, is_named,
}
use tenantforge.Model.Tables.{Project, Subscription, Membership, Uuid, World}
use tenantforge.Session.{lift, Done, pure, ◌>>=◌}
use tenantforge.Prelude.{
  ap, scalar-holds, [], update_where, ◌==◌, not, ◌&&◌, ◌||◌, ==_refl, ◌∙◌, Option-cases, ◌+◌, refl,
  sym, subst, inl, inr, Bool, none, List, ◌∷◌, arith, text_eq_refl, Bool-cases, ◌≡◌, true, some,
  scalar, exists, Text,
}

exists-added :
    {A : Type 0} (p : A → Bool) (row : A) (xs : List A)
    → exists p xs ≡ true
    → exists p (row ∷ xs) ≡ true
unfolding exists
exists-added p row xs h = ground arith

abbrev pub MemberAt : Uuid → Uuid → Done → World → Type 0
MemberAt o u d w = exists (member_is o u) w.memberships ≡ true

pub ensure_membership-Makes :
    (o u : Uuid) (role : Role) → Makes (MemberAt o u) (ensure_membership o u role)
unfolding ensure_membership add_membership exists ◌>>=◌
ensure_membership-Makes o u role = record {
  at = λ w {a} {w'} h. elim (Bool-cases (exists (member_is o u) w.memberships)) [
    | inl there ↦
        let run = rw there at h in
        let end : w ≡ w' = cc in
        (subst (Grown w) end (Grown-refl w), subst (MemberAt o u a) end there)
    | inr missing ↦
        let row : Membership = record {
          id = w.next_uuid;
          user_id = u;
          organization_id = o;
          role = role;
          joined_at = aware w.clock;
        } in
        on-insert (add_membership u o role) (λ _. pure tt) w
          (exists (member_is o u) w.memberships || not (has_user w u && has_organization w o)) _ row
          _ (rw missing at h) refl
          λ free run.
            let end : record w { memberships = row ∷ w.memberships; next_uuid = w.next_uuid + 1 }
                ≡ w' =
              cc in
            let grown : Grown w
                (record w { memberships = row ∷ w.memberships; next_uuid = w.next_uuid + 1 }) =
              record {
                users = λ e u h. h;
                organizations = λ t o h. h;
                members = λ o x h. exists-added (member_is o x) row w.memberships h;
                projects = λ o n h. h;
              } in
            (subst (Grown w) end grown, rw (sym end, ==_refl o, ==_refl u) refl)
  ];
}

abbrev pub ProjectAt : Uuid → Text → Done → World → Type 0
ProjectAt o n d w = exists (is_named o n) w.projects ≡ true

pub ensure_project-Makes :
    (o u : Uuid) (n d : Text) → Makes (ProjectAt o n) (ensure_project o u n d)
unfolding ensure_project add_project exists ◌>>=◌
ensure_project-Makes o u n d = record {
  at = λ w {a} {w'} h. elim (Bool-cases (exists (is_named o n) w.projects)) [
    | inl there ↦
        let run = rw there at h in
        let end : w ≡ w' = cc in
        (subst (Grown w) end (Grown-refl w), subst (ProjectAt o n a) end there)
    | inr missing ↦
        let row : Project = record {
          id = w.next_uuid;
          organization_id = o;
          name = n;
          description = some d;
          status = ProjectStatus.active;
          created_by = u;
          created_at = aware w.clock;
          updated_at = aware w.clock;
        } in
        on-bind (add_project o n (some d) u) (λ _. pure tt) w (rw missing at h)
          λ r w1 adds rest.
            on-append_last (add_project o n (some d) u w) (has_user w u && has_organization w o) _
              row w _ adds refl
              λ good same added.
                let end : record w { projects = row ∷ w.projects; next_uuid = w.next_uuid + 1 }
                    ≡ w' =
                  added ∙ cc in
                let grown : Grown w
                    (record w { projects = row ∷ w.projects; next_uuid = w.next_uuid + 1 }) =
                  record {
                    users = λ e u h. h;
                    organizations = λ t o h. h;
                    members = λ o x h. h;
                    projects = λ o n h. exists-added (is_named o n) row w.projects h;
                  } in
                (subst (Grown w) end grown, rw (sym end, ==_refl o, text_eq_refl n) refl)
  ];
}

-- The subscription of an organization, which is an active PRO one.
abbrev pub SubscribedAt : Uuid → Done → World → Type 0
SubscribedAt o d w =
    (s : Subscription) × (scalar (subscription_of o) w.subscriptions ≡ some s)
    × (is_promoted s ≡ true)

promoted_found :
    (o : Uuid) (now : Datetime) (s : Subscription) (xs : List Subscription)
    → (s.organization_id == o) ≡ true
    → scalar (subscription_of o) xs ≡ some s
    → scalar (subscription_of o) (update_where (λ r. r.id == s.id) (λ _. promoted now s) xs)
      ≡ some (promoted now s)
unfolding scalar update_where
promoted_found o now s [] own h = absurd (cc)
promoted_found o now s (x ∷ xs) own h = elim (Bool-cases (x.id == s.id)) [
  | inl same ↦ rw (same, own) refl
  | inr apart ↦ elim (Bool-cases (x.organization_id == o)) [
    | inl first ↦ let here : x ≡ s = ground arith in absurd (ground (arith, ap (λ r. r.id) here))
    | inr other ↦ rw (apart, other) (promoted_found o now s xs own (rw other at h))
  ]
]

pub ensure_subscription-Makes : (o : Uuid) → Makes (SubscribedAt o) (ensure_subscription o)
unfolding ensure_subscription add_subscription scalar ◌>>=◌
ensure_subscription-Makes o = record {
  at = λ w {a} {w'} h. elim (Option-cases (scalar (subscription_of o) w.subscriptions)) [
    | inr (s, found) ↦ elim (Bool-cases (is_promoted s)) [
      | inl promoted_before ↦
          let run = rw promoted_before at (rw found at h) in
          let end : w ≡ w' = cc in
          (
            subst (Grown w) end (Grown-refl w),
            subst (SubscribedAt o a) end (s, found, promoted_before),
          )
      | inr old ↦
          let run = rw old at (rw found at h) in
          let end : save_subscription (promoted w.clock s) w ≡ w' = cc in
          let grown : Grown w (save_subscription (promoted w.clock s) w) = record {
            users = λ e u h. h;
            organizations = λ t o h. h;
            members = λ o x h. h;
            projects = λ o n h. h;
          } in
          let saved : SubscribedAt o a (save_subscription (promoted w.clock s) w) = (
            promoted w.clock s,
            promoted_found o w.clock s w.subscriptions
                (scalar-holds (subscription_of o) w.subscriptions s found) found,
            refl,
          ) in
          (subst (Grown w) end grown, subst (SubscribedAt o a) end saved)
    ]
    | inl missing ↦ on-read (lift (add_days 30 w.clock)) _ w (rw missing at h) refl λ until e rest.
        let row : Subscription = record {
          id = w.next_uuid;
          organization_id = o;
          plan = Plan.pro;
          status = SubscriptionStatus.active;
          external_customer_id = none;
          external_subscription_id = none;
          current_period_start = aware w.clock;
          current_period_end = aware until;
          created_at = aware w.clock;
          updated_at = aware w.clock;
        } in
        on-insert
          (add_subscription o Plan.pro SubscriptionStatus.active (aware w.clock) (aware until))
          (λ _. pure tt) w
          (exists (subscription_of o) w.subscriptions || not (has_organization w o)) _ row _ rest
          refl
          λ free run.
            let end : record w {
              subscriptions = row ∷ w.subscriptions;
              next_uuid = w.next_uuid + 1;
            }
                ≡ w' =
              cc in
            let grown : Grown w
                (record w { subscriptions = row ∷ w.subscriptions; next_uuid = w.next_uuid + 1 }) =
              record {
                users = λ e u h. h;
                organizations = λ t o h. h;
                members = λ o x h. h;
                projects = λ o n h. h;
              } in
            (
              subst (Grown w) end grown,
              subst (SubscribedAt o a) end (row, rw (==_refl o) refl, refl),
            )
  ];
}
