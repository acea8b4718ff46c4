-- ===== src/Tests/Fixtures.antt =====
-- A database with one organization, and primitives that compute.
use tenantforge.Services.Organizations.Ownership.{IsOwned}
use tenantforge.Security.Crypto.{Primitives, Settings}
use tenantforge.Model.Time.{Datetime, IsDatetime, days_in_month_bounds, aware}
use tenantforge.Model.Tables.{
  User, RefreshToken, Organization, Membership, Invitation, ApiKey, Project, Subscription,
  UsageEvent, World,
}
use tenantforge.Model.Enums.{ProjectStatus, Plan, SubscriptionStatus, owner, admin, member}
use tenantforge.Prelude.{ℕ, ◌≤◌, refl, true, false, none, [], ◌∷◌, arith, exists, codes, text_eq}

-- Hashing is the identity, and a token is its draw.
abbrev pub primitives : Primitives
primitives = record {
  sha256 = λ t. t;
  token_urlsafe = λ n k. k ∷ [];
  hash_password = λ salt t. t;
  verify_password = text_eq;
  uuid_str = λ i. i ∷ [];
  parse_uuid = λ t. none;
  jwt_encode = λ c t. c.sub;
  jwt_decode = λ t secret now. none;
}

abbrev pub settings : Settings
settings = record {
  jwt_secret = [];
  access_token_expire_minutes = 15;
  refresh_token_expire_days = 3;
  invitation_expire_days = 2;
  user_rate_limit_per_minute = 60;
  api_rate_limit_per_minute = 60;
  app_env = codes "test";
  billing_webhook_secret = codes "secret";
}

abbrev pub day_of_january : ℕ → Datetime
day_of_january d = record { year = 2024; month = 1; day = d; micros = 0 }

abbrev pub day_of_february : ℕ → Datetime
day_of_february d = record { year = 2024; month = 2; day = d; micros = 0 }

abbrev pub alice : User
alice = record {
  id = 0;
  email = codes "alice";
  password_hash = [];
  is_active = true;
  is_verified = false;
  created_at = aware (day_of_january 1);
  updated_at = aware (day_of_january 1);
}

abbrev pub bob : User
bob = record {
  id = 1;
  email = codes "bob";
  password_hash = [];
  is_active = true;
  is_verified = false;
  created_at = aware (day_of_january 1);
  updated_at = aware (day_of_january 1);
}

abbrev pub carol : User
carol = record {
  id = 2;
  email = codes "carol";
  password_hash = [];
  is_active = true;
  is_verified = false;
  created_at = aware (day_of_january 1);
  updated_at = aware (day_of_january 1);
}

abbrev pub acme : Organization
acme = record {
  id = 3;
  name = codes "Acme";
  slug = codes "acme";
  created_at = aware (day_of_january 1);
  updated_at = aware (day_of_january 1);
}

abbrev pub alice_owns : Membership
alice_owns = record {
  id = 4;
  user_id = 0;
  organization_id = 3;
  role = owner;
  joined_at = aware (day_of_january 1);
}

abbrev pub bob_joined : Membership
bob_joined = record {
  id = 5;
  user_id = 1;
  organization_id = 3;
  role = member;
  joined_at = aware (day_of_january 2);
}

abbrev pub for_carol : Invitation
for_carol = record {
  id = 6;
  organization_id = 3;
  email = codes "Carol";
  role = admin;
  token_hash = 70 ∷ [];
  expires_at = aware (day_of_january 20);
  accepted_at = none;
  created_by = 0;
  created_at = aware (day_of_january 2);
}

abbrev pub key_of_acme : ApiKey
key_of_acme = record {
  id = 7;
  organization_id = 3;
  name = codes "ci";
  key_hash = codes "tf_live_x";
  prefix = codes "tf_live_x";
  created_by = 0;
  last_used_at = none;
  created_at = aware (day_of_january 3);
  revoked_at = none;
}

abbrev pub website : Project
website = record {
  id = 8;
  organization_id = 3;
  name = codes "site";
  description = none;
  status = ProjectStatus.active;
  created_by = 1;
  created_at = aware (day_of_january 3);
  updated_at = aware (day_of_january 3);
}

abbrev pub january_plan : Subscription
january_plan = record {
  id = 9;
  organization_id = 3;
  plan = Plan.free;
  status = SubscriptionStatus.active;
  external_customer_id = none;
  external_subscription_id = none;
  current_period_start = aware (day_of_january 1);
  current_period_end = aware (day_of_february 1);
  created_at = aware (day_of_january 1);
  updated_at = aware (day_of_january 1);
}

abbrev pub token_of_alice : RefreshToken
token_of_alice = record {
  id = 10;
  user_id = 0;
  token_hash = 80 ∷ [];
  expires_at = aware (day_of_january 20);
  revoked_at = none;
  created_at = aware (day_of_january 3);
}

abbrev pub first_event : UsageEvent
first_event = record {
  id = 11;
  organization_id = 3;
  metric = codes "api_requests";
  quantity = 990;
  created_at = aware (day_of_january 5);
}

abbrev pub database : World
database = record {
  users = carol ∷ bob ∷ alice ∷ [];
  refresh_tokens = token_of_alice ∷ [];
  organizations = acme ∷ [];
  memberships = bob_joined ∷ alice_owns ∷ [];
  invitations = for_carol ∷ [];
  api_keys = key_of_acme ∷ [];
  projects = website ∷ [];
  subscriptions = january_plan ∷ [];
  usage_events = first_event ∷ [];
  webhook_events = [];
  audit_logs = [];
  clock = day_of_january 15;
  next_uuid = 20;
  next_secret = 100;
}

pub day_of_january-IsDatetime : (d : ℕ) → 1 ≤ d → d ≤ 28 → IsDatetime (day_of_january d)
day_of_january-IsDatetime d low high = record {
  year_low = omega arith;
  year_high = omega arith;
  month_low = omega arith;
  month_high = omega arith;
  day_low = low;
  day_high = let b = days_in_month_bounds 2024 1 in omega arith;
  micros_high = omega arith;
}

pub february-IsDatetime : IsDatetime (day_of_february 1)
february-IsDatetime = record {
  year_low = omega arith;
  year_high = omega arith;
  month_low = omega arith;
  month_high = omega arith;
  day_low = omega arith;
  day_high = let b = days_in_month_bounds 2024 2 in omega arith;
  micros_high = omega arith;
}

pub database-IsOwned : IsOwned database
unfolding exists
database-IsOwned = record { owners = (refl, tt); ids = (omega arith, (omega arith, tt)) }
