-- ===== src/Tests/Access.antt =====
-- Accounts, API keys and invitations.
use tenantforge.Services.Rows.{
  member_is, has_user, has_organization, add_membership, refresh_is, add_refresh_token,
  invitation_is, add_invitation, add_api_key,
}
use tenantforge.Services.Organizations.{holds_role, owner_or_admin, only_owner}
use tenantforge.Services.Invitations.Authority.{create_invitation_authority}
use tenantforge.Services.Invitations.Acceptance.{accept_invitation_joins, accept_invitation_once}
use tenantforge.Services.Invitations.{
  InvitationCreate, lock_organization, lock_actor, member_exists, active_invitation,
  create_invitation, join_organization, accept_invitation,
}
use tenantforge.Services.Auth.Rotation.{rotate_refresh_token_once, rotate_refresh_token_admits}
use tenantforge.Services.Auth.{
  IssuedTokens, save_token_revoked, active_user, issue_tokens, rotate_refresh_token,
}
use tenantforge.Services.Audit.{write_audit}
use tenantforge.Services.ApiKeys.Validity.{revoked_key_is_refused, created_key_authenticates}
use tenantforge.Services.ApiKeys.{lock_owner, revoke_api_key, create_api_key, authenticate_api_key}
use tenantforge.Security.Permissions.{may_invite, ensure_invitation_role}
use tenantforge.Security.Crypto.{
  draw, generate_opaque_token, hash_token, generate_api_key, create_access_token,
}
use tenantforge.Model.Time.{is_leap, days_in_month, next_day, add_days, has_expired, aware}
use tenantforge.Model.Tables.{User, RefreshToken, Membership, Invitation, ApiKey, World}
use tenantforge.Model.Errors.{
  conflict_error, authentication_error, invitation_used, refresh_token_reused, app_error, ok, err,
}
use tenantforge.Model.Enums.{owner, admin, member}
use tenantforge.Session.{◌>>=◌}
use tenantforge.Prelude.{
  ◌≡◌, refl, ◌≢◌, ◌⊎◌, true, false, none, some, [], ◌∷◌, ◌++◌, arith, scalar, exists, update_where,
  Text, codes, text_eq, lower, starts_with, prefix,
}
use tenantforge.Tests.Fixtures.{key_of_acme, primitives, settings, database, carol, day_of_january}

abbrev in_use : Text
in_use = 80 ∷ []

abbrev invited : Text
invited = 70 ∷ []

abbrev new_tokens : IssuedTokens
new_tokens = record { access_token = 0 ∷ []; refresh_token = 100 ∷ []; expires_in = 900 }

rotate_refresh_token_once_example :
    rotate_refresh_token primitives settings [] in_use
      (record (rotate_refresh_token primitives settings [] in_use database).1 {
        clock = day_of_january 16;
      })
    ≡ (
      err (app_error (authentication_error refresh_token_reused)),
      record (rotate_refresh_token primitives settings [] in_use database).1 {
        clock = day_of_january 16;
      },
    )
unfolding rotate_refresh_token issue_tokens generate_opaque_token hash_token add_days next_day
    days_in_month is_leap draw add_refresh_token has_user create_access_token has_expired scalar
    exists update_where text_eq ◌>>=◌
rotate_refresh_token_once_example =
    rotate_refresh_token_once primitives settings [] in_use database
      (rotate_refresh_token primitives settings [] in_use database).1 (day_of_january 16)
      {tokens = new_tokens} refl

rotate_refresh_token_admits_example :
    (stored : RefreshToken) × (user : User) × (new_token : RefreshToken) × (scalar
        (refresh_is (hash_token primitives in_use))
        database.refresh_tokens
      ≡ some stored)
    × (stored.revoked_at ≡ none)
    × (has_expired stored.expires_at database.clock ≡ false)
    × (active_user stored.user_id database ≡ some user)
    × (new_token.token_hash ≡ hash_token primitives new_tokens.refresh_token)
    × (new_token.user_id ≡ user.id)
    × ((rotate_refresh_token primitives settings [] in_use database).1.refresh_tokens
        ≡ new_token ∷ (save_token_revoked stored.id (aware database.clock) database).refresh_tokens)
unfolding rotate_refresh_token issue_tokens generate_opaque_token hash_token add_days next_day
    days_in_month is_leap draw add_refresh_token has_user create_access_token has_expired scalar
    exists update_where text_eq ◌>>=◌
rotate_refresh_token_admits_example =
    rotate_refresh_token_admits primitives settings [] in_use database
      (rotate_refresh_token primitives settings [] in_use database).1 {tokens = new_tokens} refl

abbrev carol_joins : Membership
carol_joins = record {
  id = 20;
  user_id = 2;
  organization_id = 3;
  role = admin;
  joined_at = aware (day_of_january 15);
}

accept_invitation_once_example :
    accept_invitation primitives settings invited carol
      (record (accept_invitation primitives settings invited carol database).1 {
        clock = day_of_january 16;
      })
    ≡ (
      err (app_error (conflict_error invitation_used)),
      record (accept_invitation primitives settings invited carol database).1 {
        clock = day_of_january 16;
      },
    )
unfolding accept_invitation join_organization hash_token add_membership has_user has_organization
    write_audit has_expired scalar exists update_where text_eq lower ◌>>=◌
accept_invitation_once_example =
    accept_invitation_once primitives settings invited carol carol database
      (accept_invitation primitives settings invited carol database).1 (day_of_january 16)
      {m = carol_joins} refl

accept_invitation_joins_example :
    (offer : Invitation) × (scalar
        (invitation_is (hash_token primitives invited))
        database.invitations
      ≡ some offer)
    × (offer.accepted_at ≡ none)
    × (has_expired offer.expires_at database.clock ≡ false)
    × (lower offer.email ≡ lower carol.email)
    × (exists (member_is offer.organization_id carol.id) database.memberships ≡ false)
    × (carol_joins.organization_id ≡ offer.organization_id)
    × (carol_joins.user_id ≡ carol.id)
    × (carol_joins.role ≡ offer.role)
    × ((accept_invitation primitives settings invited carol database).1.memberships
        ≡ carol_joins ∷ database.memberships)
unfolding accept_invitation join_organization hash_token add_membership has_user has_organization
    write_audit has_expired scalar exists update_where text_eq lower ◌>>=◌
accept_invitation_joins_example =
    accept_invitation_joins primitives settings invited carol database
      (accept_invitation primitives settings invited carol database).1 {m = carol_joins} refl

abbrev for_dave : InvitationCreate
for_dave = record { email = codes "dave"; role = member }

abbrev offer_to_dave : Invitation
offer_to_dave = record {
  id = 20;
  organization_id = 3;
  email = codes "dave";
  role = member;
  token_hash = 100 ∷ [];
  expires_at = aware (day_of_january 17);
  accepted_at = none;
  created_by = 0;
  created_at = aware (day_of_january 15);
}

create_invitation_authority_example :
    (acting : Membership) × (scalar (holds_role owner_or_admin 3 0) database.memberships
      ≡ some acting)
    × ((acting.role ≡ owner) ⊎ ((acting.role ≡ admin) × (for_dave.role ≡ member)))
    × (member_exists 3 for_dave.email database ≡ false)
    × (active_invitation 3 for_dave.email database ≡ false)
    × (offer_to_dave.email ≡ for_dave.email)
    × (offer_to_dave.role ≡ for_dave.role)
    × (offer_to_dave.accepted_at ≡ none)
    × (offer_to_dave.token_hash ≡ hash_token primitives (100 ∷ []))
    × ((create_invitation primitives settings 3 0 for_dave database).1.invitations
        ≡ offer_to_dave ∷ database.invitations)
unfolding create_invitation lock_organization lock_actor ensure_invitation_role may_invite
    generate_opaque_token hash_token draw add_days next_day days_in_month is_leap add_invitation
    has_user has_organization write_audit scalar exists text_eq lower ◌>>=◌
create_invitation_authority_example =
    create_invitation_authority primitives settings 3 0 for_dave database
      (create_invitation primitives settings 3 0 for_dave database).1 {i = offer_to_dave}
      {raw = 100 ∷ []} refl

abbrev new_key : Text
new_key = codes "tf_live_" ++ 100 ∷ []

abbrev key_row : ApiKey
key_row = record {
  id = 20;
  organization_id = 3;
  name = codes "deploy";
  key_hash = new_key;
  prefix = new_key;
  created_by = 0;
  last_used_at = none;
  created_at = aware (day_of_january 15);
  revoked_at = none;
}

abbrev with_key : World
with_key = (create_api_key primitives 3 0 (codes "deploy") database).1

abbrev without_key : World
without_key = (revoke_api_key 3 7 0 with_key).1

created_key_authenticates_example :
    (exists (holds_role only_owner 3 0) database.memberships ≡ true)
    × ((authenticate_api_key primitives new_key (record with_key { clock = day_of_january 16 })).0
        ≡ ok (record { key_id = key_row.id; organization_id = 3 }))
unfolding create_api_key lock_owner generate_api_key hash_token draw prefix add_api_key has_user
    has_organization write_audit scalar exists text_eq ◌>>=◌
created_key_authenticates_example =
    created_key_authenticates primitives 3 0 (codes "deploy") database with_key (day_of_january 16)
      {key = key_row} {raw = new_key} refl

-- The old key is revoked; the new one still works, and is not the old one.
revoked_key_is_refused_example : key_row.id ≢ key_of_acme.id
unfolding create_api_key lock_owner generate_api_key hash_token draw prefix add_api_key has_user
    has_organization write_audit scalar exists text_eq ◌>>=◌ revoke_api_key authenticate_api_key
    starts_with update_where
revoked_key_is_refused_example =
    revoked_key_is_refused primitives 3 7 0 with_key without_key
      (authenticate_api_key primitives new_key (record without_key { clock = day_of_january 16 })).1
      (day_of_january 16) new_key {d = tt} {a = record { key_id = 20; organization_id = 3 }}
      (omega arith, (omega arith, tt)) refl refl
