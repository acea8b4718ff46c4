-- ===== src/Scripts/Seeded.antt =====
-- The steps of scripts/seed_demo.py, and what each of them looks for.
pub mod Tenancy
use tenantforge.Services.Billing.{save_subscription}
use tenantforge.Model.Time.{add_days, aware}
use tenantforge.Model.Enums.{Plan, SubscriptionStatus, ProjectStatus, Role}
use tenantforge.Security.Crypto.{Primitives, draw}
use tenantforge.Session.Rules.{on-read, on-append_last, on-insert, on-insert_last, on-bind}
use tenantforge.Services.Rows.{
  subscription_of, add_subscription, has_user, has_organization, add_organization, add_membership,
  add_project, slug_is, member_is, email_is,
}
use tenantforge.Scripts.{
  promoted, is_promoted, ensure_subscription, demo_slug, ensure_organization, ensure_membership,
  ensure_project, demo_password, get_or_create_user, add_verified_user, is_named,
}
use tenantforge.Model.Tables.{Project, Subscription, Membership, Uuid, User, Organization, World}
use tenantforge.Model.Errors.{ok}
use tenantforge.Session.{lift, Done, pure, ◌>>=◌, Action}
use tenantforge.Prelude.{
  ap, scalar-holds, [], update_where, ◌==◌, not, ◌&&◌, ◌||◌, codes, ==_refl, ◌∙◌, Option-cases, ◌+◌,
  refl, sym, subst, inl, inr, Bool, none, List, ◌∷◌, arith, text_eq, text_eq_refl, text_eq→eq,
  Bool-cases, ◌≡◌, true, some, scalar, exists, Text,
}

-- What was found is found again: rows were added in front, none of them for a key that had one.
pub record Grown (w w' : World) : Type 0 where
  pub users :
      (e : Text) (u : User)
      → scalar (email_is e) w.users ≡ some u
      → scalar (email_is e) w'.users ≡ some u
  pub organizations :
      (t : Text) (o : Organization)
      → scalar (slug_is t) w.organizations ≡ some o
      → scalar (slug_is t) w'.organizations ≡ some o
  pub members :
      (o u : Uuid)
      → exists (member_is o u) w.memberships ≡ true
      → exists (member_is o u) w'.memberships ≡ true
  pub projects :
      (o : Uuid) (n : Text)
      → exists (is_named o n) w.projects ≡ true
      → exists (is_named o n) w'.projects ≡ true

pub Grown-refl : (w : World) → Grown w w
Grown-refl w = record {
  users = λ e u h. h;
  organizations = λ t o h. h;
  members = λ o u h. h;
  projects = λ o n h. h;
}

Grown-trans : (u v w : World) → Grown u v → Grown v w → Grown u w
Grown-trans u v w a b = record {
  users = λ e x h. b.users e x (a.users e x h);
  organizations = λ t o h. b.organizations t o (a.organizations t o h);
  members = λ o x h. b.members o x (a.members o x h);
  projects = λ o n h. b.projects o n (a.projects o n h);
}

-- An action whose database has grown, and of which a fact holds, where it returns.
pub record Makes {A : Type 0} (Q : A → World → Type 0) (m : Action A) : Type 0 where
  pub at : (w : World) {a : A} {w' : World} → m w ≡ (ok a, w') → Grown w w' × Q a w'

abbrev pub IsStable : {A : Type 0} → (A → World → Type 0) → Type 0
IsStable {A = A} Q = (a : A) (w w' : World) → Grown w w' → Q a w → Q a w'

pub Makes-bind :
    {A B : Type 0} {Q : A → World → Type 0} {R : A → B → World → Type 0} (m : Action A)
    (f : A → Action B)
    → IsStable Q
    → Makes Q m
    → ((a : A) → Makes (R a) (f a))
    → Makes (λ b w. (a : A) × Q a w × R a b w) (m >>= f)
Makes-bind m f stable k kf = record {
  at = λ w h. on-bind m f w h λ a w1 e rest.
      let (grown, fact) = k.at w e in
      let (further, last) = (kf a).at w1 rest in
      (Grown-trans w w1 _ grown further, (a, stable a w1 _ further fact, last));
}

-- A row with a new key hides no other.
scalar-added :
    {A : Type 0} (key : A → Text) (e e' : Text) (row found : A) (xs : List A)
    → key row ≡ e
    → scalar (λ x. text_eq (key x) e) xs ≡ none
    → scalar (λ x. text_eq (key x) e') xs ≡ some found
    → scalar (λ x. text_eq (key x) e') (row ∷ xs) ≡ some found
unfolding scalar
scalar-added key e e' row found xs own missing h = elim (Bool-cases (text_eq (key row) e')) [
  | inl same ↦
      let equal : e ≡ e' = sym own ∙ text_eq→eq (key row) e' same in
      let none_there : scalar (λ x. text_eq (key x) e') xs ≡ none =
        subst (λ k. scalar (λ x. text_eq (key x) k) xs ≡ none) equal missing in
      absurd (cc)
  | inr other ↦ rw other h
]

abbrev pub UserAt : Text → User → World → Type 0
UserAt e u w = scalar (email_is e) w.users ≡ some u

add_verified_user-Makes :
    (e hash : Text) (w : World)
    → scalar (email_is e) w.users ≡ none
    → {u : User} {w' : World} → add_verified_user e hash w ≡ (ok u, w')
    → Grown w w' × UserAt e u w'
unfolding add_verified_user scalar
add_verified_user-Makes e hash w missing {u = u} {w' = w'} h =
    let row : User = record {
      id = w.next_uuid;
      email = e;
      password_hash = hash;
      is_active = true;
      is_verified = true;
      created_at = aware w.clock;
      updated_at = aware w.clock;
    } in
    on-insert_last (add_verified_user e hash w) (exists (email_is e) w.users) _ row w _ h refl
      λ free same end.
        let grown : Grown w (record w { users = row ∷ w.users; next_uuid = w.next_uuid + 1 }) =
          record {
            users = λ e' u h. scalar-added (λ x. x.email) e e' row u w.users refl missing h;
            organizations = λ t o h. h;
            members = λ o x h. h;
            projects = λ o n h. h;
          } in
        (subst (Grown w) end grown, rw (sym end) (rw (sym same, text_eq_refl e) refl))

pub get_or_create_user-Makes :
    (p : Primitives) (e : Text) → Makes (UserAt e) (get_or_create_user p e)
unfolding get_or_create_user draw ◌>>=◌
get_or_create_user-Makes p e = record {
  at = λ w {a} {w'} h. elim (Option-cases (scalar (email_is e) w.users)) [
    | inl missing ↦
        let w1 : World = record w { next_secret = w.next_secret + 1 } in
        let (grown, fact) =
          add_verified_user-Makes e (p.hash_password w.next_secret demo_password) w1 missing
            (rw missing at h) in
        (
          record {
            users = grown.users;
            organizations = grown.organizations;
            members = grown.members;
            projects = grown.projects;
          },
          fact,
        )
    | inr (u, found) ↦
        let run = rw found at h in
        let same : u ≡ a = cc in
        let end : w ≡ w' = cc in
        (
          subst (Grown w) end (Grown-refl w),
          subst (UserAt e a) end (subst (λ x. UserAt e x w) same found),
        )
  ];
}

abbrev pub OrganizationAt : Organization → World → Type 0
OrganizationAt o w = scalar (slug_is demo_slug) w.organizations ≡ some o

pub ensure_organization-Makes : Makes OrganizationAt ensure_organization
unfolding ensure_organization add_organization scalar text_eq ◌>>=◌
ensure_organization-Makes = record {
  at = λ w {a} {w'} h. elim (Option-cases (scalar (slug_is demo_slug) w.organizations)) [
    | inl missing ↦
        let row : Organization = record {
          id = w.next_uuid;
          name = codes "Acme Labs";
          slug = demo_slug;
          created_at = aware w.clock;
          updated_at = aware w.clock;
        } in
        on-insert_last (add_organization (codes "Acme Labs") demo_slug w)
          (exists (slug_is demo_slug) w.organizations) _ row w _ (rw missing at h) refl
          λ free same end.
            let grown : Grown w
                (record w { organizations = row ∷ w.organizations; next_uuid = w.next_uuid + 1 }) =
              record {
                users = λ e u h. h;
                organizations = λ t o h.
                    scalar-added (λ x. x.slug) demo_slug t row o w.organizations refl missing h;
                members = λ o x h. h;
                projects = λ o n h. h;
              } in
            (subst (Grown w) end grown, rw (sym end) (rw (sym same) refl))
    | inr (o, found) ↦
        let run = rw found at h in
        let same : o ≡ a = cc in
        let end : w ≡ w' = cc in
        (
          subst (Grown w) end (Grown-refl w),
          subst (OrganizationAt a) end (subst (λ x. OrganizationAt x w) same found),
        )
  ];
}
