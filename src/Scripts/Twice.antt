-- ===== src/Scripts/Twice.antt =====
-- The runs of scripts/seed_demo.py.
use tenantforge.Scripts.Seeded.Tenancy.{
  MemberAt, ensure_membership-Makes, ProjectAt, ensure_project-Makes, SubscribedAt,
  ensure_subscription-Makes,
}
use tenantforge.Scripts.Seeded.{
  IsStable, Makes-bind, UserAt, get_or_create_user-Makes, OrganizationAt, ensure_organization-Makes,
}
use tenantforge.Session.Rules.{transaction-ok}
use tenantforge.Model.Time.{Datetime}
use tenantforge.Session.{◌>>=◌, transaction}
use tenantforge.Services.Rows.{member_is}
use tenantforge.Security.Crypto.{Primitives}
use tenantforge.Scripts.{
  get_or_create_user, ensure_organization, ensure_membership, ensure_project, ensure_subscription,
  seed, owner_email, admin_email, member_email, demo_slug, public_api, usage_dashboard,
  billing_adapter, is_named, seed_rows,
}
use tenantforge.Model.Tables.{Uuid, User, Organization, World}
use tenantforge.Model.Errors.{ok}
use tenantforge.Model.Enums.{Role}
use tenantforge.Prelude.{refl, ◌≡◌, true, exists, Text}

-- The demonstration data.
pub record IsSeeded (w : World) : Type 0 where
  pub owning : User
  pub managing : User
  pub working : User
  pub organization : Organization
  pub owns : UserAt owner_email owning w
  pub manages : UserAt admin_email managing w
  pub works : UserAt member_email working w
  pub named : OrganizationAt organization w
  pub owner_joined : exists (member_is organization.id owning.id) w.memberships ≡ true
  pub admin_joined : exists (member_is organization.id managing.id) w.memberships ≡ true
  pub member_joined : exists (member_is organization.id working.id) w.memberships ≡ true
  pub api : exists (is_named organization.id public_api) w.projects ≡ true
  pub dashboard : exists (is_named organization.id usage_dashboard) w.projects ≡ true
  pub adapter : exists (is_named organization.id billing_adapter) w.projects ≡ true
  pub subscribed : SubscribedAt organization.id tt w

user_stable : (e : Text) → IsStable (UserAt e)
user_stable e u w w' g h = g.users e u h

organization_stable : IsStable OrganizationAt
organization_stable o w w' g h = g.organizations demo_slug o h

member_stable : (o u : Uuid) → IsStable (MemberAt o u)
member_stable o u d w w' g h = g.members o u h

project_stable : (o : Uuid) (n : Text) → IsStable (ProjectAt o n)
project_stable o n d w w' g h = g.projects o n h

seed_rows-IsSeeded :
    (p : Primitives) (w : World) {w1 : World} → seed_rows p w ≡ (ok tt, w1) → IsSeeded w1
unfolding seed_rows
seed_rows-IsSeeded p w h =
    let made =
      Makes-bind _ _ (user_stable owner_email) (get_or_create_user-Makes p owner_email) λ u1.
        Makes-bind _ _ (user_stable admin_email) (get_or_create_user-Makes p admin_email) λ u2.
          Makes-bind _ _ (user_stable member_email) (get_or_create_user-Makes p member_email) λ u3.
            Makes-bind _ _ organization_stable ensure_organization-Makes λ o.
              Makes-bind _ _ (member_stable o.id u1.id)
                (ensure_membership-Makes o.id u1.id Role.owner)
                λ x.
                  Makes-bind _ _ (member_stable o.id u2.id)
                    (ensure_membership-Makes o.id u2.id Role.admin)
                    λ x.
                      Makes-bind _ _ (member_stable o.id u3.id)
                        (ensure_membership-Makes o.id u3.id Role.member)
                        λ x.
                          Makes-bind _ _ (project_stable o.id public_api)
                            (ensure_project-Makes o.id u1.id public_api _)
                            λ x.
                              Makes-bind _ _ (project_stable o.id usage_dashboard)
                                (ensure_project-Makes o.id u1.id usage_dashboard _)
                                λ x.
                                  Makes-bind _ _ (project_stable o.id billing_adapter)
                                    (ensure_project-Makes o.id u1.id billing_adapter _)
                                    λ x. ensure_subscription-Makes o.id in
    let (
      grown,
      (
        u1,
        f1,
        (u2, f2, (u3, f3, (o, f4, (_, m1, (_, m2, (_, m3, (_, p1, (_, p2, (_, p3, last))))))))),
      ),
    ) =
      made.at w h in
    record {
      owning = u1;
      managing = u2;
      working = u3;
      organization = o;
      owns = f1;
      manages = f2;
      works = f3;
      named = f4;
      owner_joined = m1;
      admin_joined = m2;
      member_joined = m3;
      api = p1;
      dashboard = p2;
      adapter = p3;
      subscribed = last;
    }

-- All that the script looks for is there, so it writes nothing.
seeded_again :
    (p : Primitives) (w : World) (later : Datetime)
    → IsSeeded w
    → seed_rows p (record w { clock = later }) ≡ (ok tt, record w { clock = later })
unfolding seed_rows get_or_create_user ensure_organization ensure_membership ensure_project
    ensure_subscription ◌>>=◌
seeded_again p w later s =
    let (subscription, found, promoted_before) = s.subscribed in
    rw
      (
        s.owns, s.manages, s.works, s.named, s.owner_joined, s.admin_joined, s.member_joined, s.api,
        s.dashboard, s.adapter, found, promoted_before,
      )
      refl

-- A run of the seed script that is committed leaves the three accounts, the organization with a
-- membership of each of them, the three projects and an active PRO subscription; and another run,
-- at any other time, is committed and changes nothing at all.
pub seed_twice :
    (p : Primitives) (w : World) (later : Datetime) {w1 : World}
    → seed p w ≡ (ok tt, w1)
    → IsSeeded w1 × (seed p (record w1 { clock = later }) ≡ (ok tt, record w1 { clock = later }))
unfolding transaction
seed_twice p w later {w1} h =
    let done = seed_rows-IsSeeded p w (transaction-ok (seed_rows p) w h) in
    (done, rw (seeded_again p w1 later done) refl)
