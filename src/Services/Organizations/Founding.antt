-- ===== src/Services/Organizations/Founding.antt =====
-- `create_organization`: a new organization has an owner and a FREE subscription.
use tenantforge.Session.{transaction}
use tenantforge.Services.Organizations.Ownership.{IsOwned-of_tables, IsOwned}
use tenantforge.Services.Audit.Rules.{on-audit}
use tenantforge.Model.Time.{aware}
use tenantforge.Services.Billing.{create_default_subscription}
use tenantforge.Session.Rules.{
  transaction-keeps, on-insert_last, on-bind, on-read, rolled_back-ok, on-insert,
}
use tenantforge.Model.Enums.{owner, Plan, SubscriptionStatus}
use tenantforge.Model.Errors.{ok}
use tenantforge.Model.Tables.{Uuid, Organization, Membership, Subscription, World}
use tenantforge.Prelude.{
  All-mono, List, FallingKeys-mono, refl, ◌+◌, ◌≡◌, true, false, ◌∷◌, arith, exists, lower,
}
use tenantforge.Services.Rows.{add_membership, add_subscription, add_organization, slug_is}
use tenantforge.Services.Organizations.{create_organization, found_organization, OrganizationCreate}
use tenantforge.Services.Organizations.Owners.{HasOwner, owned_by}

-- The rows that `create_organization` has added when it returns `o`.
pub record Founded (actor : Uuid) (payload : OrganizationCreate) (o : Organization) (w w' : World)
    : Type 0 where
  pub member : Membership
  pub plan_row : Subscription
  pub organizations : w'.organizations ≡ o ∷ w.organizations
  pub memberships : w'.memberships ≡ member ∷ w.memberships
  pub subscriptions : w'.subscriptions ≡ plan_row ∷ w.subscriptions
  pub named : o.name ≡ payload.name
  pub addressed : o.slug ≡ lower payload.slug
  pub identified : o.id ≡ w.next_uuid
  pub slug_free : exists (slug_is o.slug) w.organizations ≡ false
  pub owns : owned_by o.id member ≡ true
  pub owner_is : member.user_id ≡ actor
  pub member_key : member.id ≡ w.next_uuid + 1
  pub plan_of_it : plan_row.organization_id ≡ o.id
  pub plan_free : plan_row.plan ≡ Plan.free
  pub plan_active : plan_row.status ≡ SubscriptionStatus.active
  pub drawn : w'.next_uuid ≡ w.next_uuid + 4

-- When `create_organization` returns, it has added one organization, with the name and the slug in
-- lower case that were asked for and a slug that was free, one membership, which makes the caller
-- its owner, and one subscription, which is active and FREE.
pub create_organization-ok :
    (actor : Uuid) (payload : OrganizationCreate) (w w' : World) {o : Organization}
    → create_organization actor payload w ≡ (ok o, w')
    → Founded actor payload o w w'
unfolding create_organization found_organization add_organization add_membership
    create_default_subscription add_subscription
create_organization-ok actor payload w w' {o} h = on-read _ _ _ h refl λ _ _ h.
    on-bind _ _ _ h λ new w1 flushed h.
      on-insert _ _ _ _ _ _ _ (rolled_back-ok _ w _ _ flushed) refl λ fresh_slug f.
        on-insert _ _ _ _ _ _ _ f refl λ _ f. on-bind _ _ _ f λ plan_row w2 planned f.
          on-read _ _ _ planned refl λ _ _ planned. on-read _ _ _ planned refl λ period _ planned.
            on-insert_last _ _ _ _ _ _ planned refl λ _ row_is world_is.
              on-audit _ _ _ _ _ _ _ _ _ h λ _ h. record {
                member = record {
                  id = w.next_uuid + 1;
                  user_id = actor;
                  organization_id = w.next_uuid;
                  role = owner;
                  joined_at = aware w.clock;
                };
                plan_row = plan_row;
                organizations = ground arith;
                memberships = ground arith;
                subscriptions = ground arith;
                named = ground arith;
                addressed = ground arith;
                identified = ground arith;
                slug_free = ground arith;
                owns = ground arith;
                owner_is = refl;
                member_key = refl;
                plan_of_it = ground arith;
                plan_free = ground arith;
                plan_active = ground arith;
                drawn = ground arith;
              }

-- Another member takes no owner away.
pub owned-cons :
    (g : Uuid) (m : Membership) (ms : List Membership)
    → exists (owned_by g) ms ≡ true
    → exists (owned_by g) (m ∷ ms) ≡ true
unfolding exists
owned-cons g m ms e = ground arith

owned_by_head :
    (g : Uuid) (m : Membership) (ms : List Membership)
    → owned_by g m ≡ true
    → exists (owned_by g) (m ∷ ms) ≡ true
unfolding exists
owned_by_head g m ms e = ground arith

pub create_organization-IsOwned :
    (actor : Uuid) (payload : OrganizationCreate) (w : World)
    → IsOwned w
    → IsOwned (transaction (create_organization actor payload) w).1
create_organization-IsOwned actor payload w v = transaction-keeps IsOwned _ w v λ o w' h.
    let c = create_organization-ok actor payload w w' h in
    IsOwned-of_tables w' (o ∷ w.organizations) (c.member ∷ w.memberships) c.organizations
      c.memberships
      (
        owned_by_head o.id c.member w.memberships c.owns,
        All-mono (HasOwner w.memberships) _ w.organizations
            (λ x e. owned-cons x.id c.member w.memberships e) v.owners,
      )
      (
        omega (arith, c.member_key, c.drawn),
        FallingKeys-mono _ w.next_uuid c.member.id w.memberships (omega (arith, c.member_key))
            v.ids,
      )
