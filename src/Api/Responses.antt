-- ===== src/Api/Responses.antt =====
-- The response models of app/schemas, and the status of each answer. What a `Read` model does not
-- name is not sent: the hashes of a user and of an API key are left out here.
use tenantforge.Services.Usage.{UsageSnapshot}
use tenantforge.Services.Organizations.{MemberRow}
use tenantforge.Services.Auth.{IssuedTokens}
use tenantforge.Model.Time.{Timestamp}
use tenantforge.Model.Tables.{
  Uuid, User, Organization, Membership, ApiKey, Project, Subscription, UsageEvent, AuditLog,
}
use tenantforge.Model.Enums.{Role, WebhookStatus}
use tenantforge.Prelude.{ℕ, Bool, Option, List, Text}

-- schemas/users.py
pub record UserRead : Type 0 where
  pub id : Uuid
  pub email : Text
  pub is_active : Bool
  pub is_verified : Bool
  pub created_at : Timestamp
  pub updated_at : Timestamp

-- schemas/api_keys.py
pub record ApiKeyRead : Type 0 where
  pub id : Uuid
  pub organization_id : Uuid
  pub name : Text
  pub prefix : Text
  pub created_by : Uuid
  pub last_used_at : Option Timestamp
  pub created_at : Timestamp
  pub revoked_at : Option Timestamp

-- schemas/invitations.py
pub record InvitationCreated : Type 0 where
  pub id : Uuid
  pub organization_id : Uuid
  pub email : Text
  pub role : Role
  pub token : Text
  pub expires_at : Timestamp
  pub created_at : Timestamp

-- schemas/billing.py
pub record WebhookReceipt : Type 0 where
  pub event_id : Uuid
  pub status : WebhookStatus
  pub duplicate : Bool

-- `UserRead.model_validate(user)`
abbrev pub read_user : User → UserRead
read_user u = record {
  id = u.id;
  email = u.email;
  is_active = u.is_active;
  is_verified = u.is_verified;
  created_at = u.created_at;
  updated_at = u.updated_at;
}

-- `ApiKeyRead.model_validate(api_key)`
abbrev pub read_api_key : ApiKey → ApiKeyRead
read_api_key k = record {
  id = k.id;
  organization_id = k.organization_id;
  name = k.name;
  prefix = k.prefix;
  created_by = k.created_by;
  last_used_at = k.last_used_at;
  created_at = k.created_at;
  revoked_at = k.revoked_at;
}

-- The body of an answer.
pub data Body : Type 0 where
  no_content : Body
  user_body : UserRead → Body
  tokens_body : IssuedTokens → Body
  organization_body : Organization → Body
  organizations_body : List Organization → Body
  members_body : List MemberRow → Body
  membership_body : Membership → Body
  invitation_body : InvitationCreated → Body
  project_body : Project → Body
  projects_body : List Project → Body
  created_key_body : ApiKeyRead → Text → Body
  api_keys_body : List ApiKeyRead → Body
  usage_body : UsageSnapshot → Body
  usage_event_body : UsageEvent → Body
  subscription_body : Subscription → Body
  audit_body : List AuditLog → Body
  receipt_body : WebhookReceipt → Body

pub record Response : Type 0 where
  pub status : ℕ
  pub body : Body

abbrev pub success : Body → Response
success b = record { status = 200; body = b }

abbrev pub created : Body → Response
created b = record { status = 201; body = b }

abbrev pub deleted : Response
deleted = record { status = 204; body = no_content }
