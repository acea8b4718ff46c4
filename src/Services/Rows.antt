-- ===== src/Services/Rows.antt =====
-- The flush of a new row, with the constraints of app/models: unique columns and foreign keys,
-- whose violation is an `IntegrityError`. New rows stand first in their table. A default
-- `uuid.uuid4()` is a number that was never drawn before; `server_default=func.now()` is the clock.
use tenantforge.Prelude.{
  some, ℕ, ◌+◌, Bool, true, false, ◌&&◌, ◌||◌, not, Option, none, ◌∷◌, exists, ◌==◌, text_eq, Text,
  if◌then◌else◌,
}
use tenantforge.Model.Enums.{
  plan_eq, project_status_eq, subscription_status_eq, Role, Plan, SubscriptionStatus, ProjectStatus,
}
use tenantforge.Model.Errors.{ok, err, integrity_error}
use tenantforge.Model.Time.{Datetime, stamp, as_utc, Timestamp, aware}
use tenantforge.Model.Tables.{
  Uuid, User, RefreshToken, Organization, Membership, Invitation, ApiKey, Project, Subscription,
  UsageEvent, World,
}
use tenantforge.Session.{Action}

-- `onupdate=func.now()`: a flush that changes a column sets `updated_at`, and one that sets columns
-- to the values that they had writes nothing.
abbrev pub same_time : Timestamp → Timestamp → Bool
same_time a b = stamp (as_utc a) == stamp (as_utc b)

abbrev pub same_text : Option Text → Option Text → Bool
same_text none none = true
same_text (some a) (some b) = text_eq a b
same_text _ _ = false

abbrev pub touched_at : Bool → Datetime → Timestamp → Timestamp
touched_at true now old = old
touched_at false now old = aware now

abbrev pub touch_organization : Datetime → Organization → Organization → Organization
touch_organization now old new = record new {
  updated_at =
      touched_at (text_eq new.name old.name && text_eq new.slug old.slug) now old.updated_at;
}

abbrev pub touch_project : Datetime → Project → Project → Project
touch_project now old new = record new {
  updated_at =
      touched_at
        (text_eq new.name old.name
          && same_text new.description old.description
          && project_status_eq new.status old.status)
        now old.updated_at;
}

abbrev pub touch_subscription : Datetime → Subscription → Subscription → Subscription
touch_subscription now old new = record new {
  updated_at =
      touched_at
        (plan_eq new.plan old.plan
          && subscription_status_eq new.status old.status
          && same_text new.external_customer_id old.external_customer_id
          && same_text new.external_subscription_id old.external_subscription_id
          && same_time new.current_period_start old.current_period_start
          && same_time new.current_period_end old.current_period_end)
        now old.updated_at;
}

-- `where` clauses that several statements share.
abbrev pub user_is : Uuid → User → Bool
user_is i u = u.id == i

abbrev pub organization_is : Uuid → Organization → Bool
organization_is i o = o.id == i

abbrev pub slug_is : Text → Organization → Bool
slug_is s o = text_eq o.slug s

abbrev pub member_is : Uuid → Uuid → Membership → Bool
member_is o u m = (m.organization_id == o) && (m.user_id == u)

abbrev pub subscription_of : Uuid → Subscription → Bool
subscription_of o s = s.organization_id == o

unfoldable pub has_user : World → Uuid → Bool
has_user w i = exists (user_is i) w.users

unfoldable pub has_organization : World → Uuid → Bool
has_organization w i = exists (organization_is i) w.organizations

unfoldable pub add_organization : Text → Text → Action Organization
add_organization name slug w =
    let row : Organization = record {
      id = w.next_uuid;
      name = name;
      slug = slug;
      created_at = aware w.clock;
      updated_at = aware w.clock;
    } in
    if exists (slug_is slug) w.organizations
    then (err integrity_error, w)
    else (ok row, record w { organizations = row ∷ w.organizations; next_uuid = w.next_uuid + 1 })

unfoldable pub add_membership : Uuid → Uuid → Role → Action Membership
unfolding has_user has_organization
add_membership u o role w =
    let row : Membership = record {
      id = w.next_uuid;
      user_id = u;
      organization_id = o;
      role = role;
      joined_at = aware w.clock;
    } in
    if exists (member_is o u) w.memberships || not (has_user w u && has_organization w o)
    then (err integrity_error, w)
    else (ok row, record w { memberships = row ∷ w.memberships; next_uuid = w.next_uuid + 1 })

unfoldable pub add_subscription :
    Uuid → Plan → SubscriptionStatus → Timestamp → Timestamp → Action Subscription
unfolding has_organization
add_subscription o plan status start end w =
    let row : Subscription = record {
      id = w.next_uuid;
      organization_id = o;
      plan = plan;
      status = status;
      external_customer_id = none;
      external_subscription_id = none;
      current_period_start = start;
      current_period_end = end;
      created_at = aware w.clock;
      updated_at = aware w.clock;
    } in
    if exists (subscription_of o) w.subscriptions || not (has_organization w o)
    then (err integrity_error, w)
    else (ok row, record w { subscriptions = row ∷ w.subscriptions; next_uuid = w.next_uuid + 1 })

abbrev pub email_is : Text → User → Bool
email_is e u = text_eq u.email e

unfoldable pub add_user : Text → Text → Action User
add_user email password_hash w =
    let row : User = record {
      id = w.next_uuid;
      email = email;
      password_hash = password_hash;
      is_active = true;
      is_verified = false;
      created_at = aware w.clock;
      updated_at = aware w.clock;
    } in
    if exists (email_is email) w.users
    then (err integrity_error, w)
    else (ok row, record w { users = row ∷ w.users; next_uuid = w.next_uuid + 1 })

abbrev pub refresh_is : Text → RefreshToken → Bool
refresh_is h t = text_eq t.token_hash h

unfoldable pub add_refresh_token : Uuid → Text → Timestamp → Timestamp → Action RefreshToken
unfolding has_user
add_refresh_token user token_hash expires created w =
    let row : RefreshToken = record {
      id = w.next_uuid;
      user_id = user;
      token_hash = token_hash;
      expires_at = expires;
      revoked_at = none;
      created_at = created;
    } in
    if exists (refresh_is token_hash) w.refresh_tokens || not (has_user w user)
    then (err integrity_error, w)
    else (ok row, record w { refresh_tokens = row ∷ w.refresh_tokens; next_uuid = w.next_uuid + 1 })

abbrev pub invitation_is : Text → Invitation → Bool
invitation_is h i = text_eq i.token_hash h

unfoldable pub add_invitation :
    Uuid → Text → Role → Text → Timestamp → Uuid → Timestamp → Action Invitation
unfolding has_user has_organization
add_invitation o email role token_hash expires creator created w =
    let row : Invitation = record {
      id = w.next_uuid;
      organization_id = o;
      email = email;
      role = role;
      token_hash = token_hash;
      expires_at = expires;
      accepted_at = none;
      created_by = creator;
      created_at = created;
    } in
    if exists (invitation_is token_hash) w.invitations
      || not (has_user w creator && has_organization w o)
    then (err integrity_error, w)
    else (ok row, record w { invitations = row ∷ w.invitations; next_uuid = w.next_uuid + 1 })

abbrev pub key_hash_is : Text → ApiKey → Bool
key_hash_is h k = text_eq k.key_hash h

unfoldable pub add_api_key : Uuid → Text → Text → Text → Uuid → Action ApiKey
unfolding has_user has_organization
add_api_key o name key_hash prefix creator w =
    let row : ApiKey = record {
      id = w.next_uuid;
      organization_id = o;
      name = name;
      key_hash = key_hash;
      prefix = prefix;
      created_by = creator;
      last_used_at = none;
      created_at = aware w.clock;
      revoked_at = none;
    } in
    if exists (key_hash_is key_hash) w.api_keys || not (has_user w creator && has_organization w o)
    then (err integrity_error, w)
    else (ok row, record w { api_keys = row ∷ w.api_keys; next_uuid = w.next_uuid + 1 })

unfoldable pub add_project : Uuid → Text → Option Text → Uuid → Action Project
unfolding has_user has_organization
add_project o name description creator w =
    let row : Project = record {
      id = w.next_uuid;
      organization_id = o;
      name = name;
      description = description;
      status = ProjectStatus.active;
      created_by = creator;
      created_at = aware w.clock;
      updated_at = aware w.clock;
    } in
    if has_user w creator && has_organization w o
    then (ok row, record w { projects = row ∷ w.projects; next_uuid = w.next_uuid + 1 })
    else (err integrity_error, w)

unfoldable pub add_usage_event : Uuid → Text → ℕ → Timestamp → Action UsageEvent
unfolding has_organization
add_usage_event o metric quantity created w =
    let row : UsageEvent = record {
      id = w.next_uuid;
      organization_id = o;
      metric = metric;
      quantity = quantity;
      created_at = created;
    } in
    if has_organization w o
    then (ok row, record w { usage_events = row ∷ w.usage_events; next_uuid = w.next_uuid + 1 })
    else (err integrity_error, w)
