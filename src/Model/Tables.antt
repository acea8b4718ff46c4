-- ===== src/Model/Tables.antt =====
-- The tables of app/models, one record for each row type, column by column. An identifier is a
-- number in place of a random UUID.
use tenantforge.Prelude.{ℕ, Bool, List, Option, Text}
use tenantforge.Model.Enums.{Role, ProjectStatus, Plan, SubscriptionStatus, WebhookStatus}
use tenantforge.Model.Json.{Json}
use tenantforge.Model.Time.{Datetime, Timestamp}

abbrev pub Uuid : Type 0
Uuid = ℕ

pub record User : Type 0 where
  pub id : Uuid
  pub email : Text
  pub password_hash : Text
  pub is_active : Bool
  pub is_verified : Bool
  pub created_at : Timestamp
  pub updated_at : Timestamp

pub record RefreshToken : Type 0 where
  pub id : Uuid
  pub user_id : Uuid
  pub token_hash : Text
  pub expires_at : Timestamp
  pub revoked_at : Option Timestamp
  pub created_at : Timestamp

pub record Organization : Type 0 where
  pub id : Uuid
  pub name : Text
  pub slug : Text
  pub created_at : Timestamp
  pub updated_at : Timestamp

pub record Membership : Type 0 where
  pub id : Uuid
  pub user_id : Uuid
  pub organization_id : Uuid
  pub role : Role
  pub joined_at : Timestamp

pub record Invitation : Type 0 where
  pub id : Uuid
  pub organization_id : Uuid
  pub email : Text
  pub role : Role
  pub token_hash : Text
  pub expires_at : Timestamp
  pub accepted_at : Option Timestamp
  pub created_by : Uuid
  pub created_at : Timestamp

pub record ApiKey : Type 0 where
  pub id : Uuid
  pub organization_id : Uuid
  pub name : Text
  pub key_hash : Text
  pub prefix : Text
  pub created_by : Uuid
  pub last_used_at : Option Timestamp
  pub created_at : Timestamp
  pub revoked_at : Option Timestamp

pub record Project : Type 0 where
  pub id : Uuid
  pub organization_id : Uuid
  pub name : Text
  pub description : Option Text
  pub status : ProjectStatus
  pub created_by : Uuid
  pub created_at : Timestamp
  pub updated_at : Timestamp

pub record Subscription : Type 0 where
  pub id : Uuid
  pub organization_id : Uuid
  pub plan : Plan
  pub status : SubscriptionStatus
  pub external_customer_id : Option Text
  pub external_subscription_id : Option Text
  pub current_period_start : Timestamp
  pub current_period_end : Timestamp
  pub created_at : Timestamp
  pub updated_at : Timestamp

pub record UsageEvent : Type 0 where
  pub id : Uuid
  pub organization_id : Uuid
  pub metric : Text
  pub quantity : ℕ
  pub created_at : Timestamp

pub record WebhookEvent : Type 0 where
  pub id : Uuid
  pub provider : Text
  pub external_event_id : Text
  pub event_type : Text
  pub payload : Json
  pub status : WebhookStatus
  pub received_at : Timestamp
  pub processed_at : Option Timestamp

-- What an audit entry says of a change: the keys and values that the services write.
pub data FieldName : Type 0 where
  name slug description status : FieldName

pub data Detail : Type 0 where
  fields : List FieldName → Detail
  old_role new_role role : Role → Detail
  user_id membership_id : Uuid → Detail
  email key_name prefix event_id event_type : Text → Detail
  from_plan to_plan : Plan → Detail
  from_status to_status : SubscriptionStatus → Detail

pub data AuditAction : Type 0 where
  organization_created organization_updated organization_deleted : AuditAction
  member_role_changed member_removed member_invited invitation_accepted : AuditAction
  subscription_changed project_created project_updated project_deleted : AuditAction
  api_key_created api_key_revoked : AuditAction

pub data ResourceType : Type 0 where
  organization membership invitation subscription project api_key : ResourceType

pub record AuditLog : Type 0 where
  pub id : Uuid
  pub organization_id : Uuid
  pub actor_user_id : Option Uuid
  pub action : AuditAction
  pub resource_type : ResourceType
  pub resource_id : Uuid
  pub details : List Detail
  pub ip_address : Option Text
  pub created_at : Timestamp

-- The database, with the transaction's clock and the source of fresh identifiers and secrets.
pub record World : Type 0 where
  pub users : List User
  pub refresh_tokens : List RefreshToken
  pub organizations : List Organization
  pub memberships : List Membership
  pub invitations : List Invitation
  pub api_keys : List ApiKey
  pub projects : List Project
  pub subscriptions : List Subscription
  pub usage_events : List UsageEvent
  pub webhook_events : List WebhookEvent
  pub audit_logs : List AuditLog
  pub clock : Datetime
  pub next_uuid : Uuid
  pub next_secret : ℕ
