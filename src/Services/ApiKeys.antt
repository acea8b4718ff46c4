-- ===== src/Services/ApiKeys.antt =====
-- app/services/api_keys.py.
pub mod Validity
use tenantforge.Model.Tables.{
  Uuid, Membership, ApiKey, Detail, ResourceType, World, api_key_created, api_key_revoked,
}
use tenantforge.Model.Errors.{
  not_found_error, forbidden_error, authentication_error, owner_required, api_key_not_found,
  invalid_api_key,
}
use tenantforge.Model.Time.{Timestamp, stamp, as_utc, aware}
use tenantforge.Prelude.{
  Bool, ◌&&◌, ◌||◌, Option, none, some, List, [], ◌∷◌, ltb, ◌==◌, scalar, select, exists,
  update_where, order_by, Text, codes, starts_with,
}
use tenantforge.Session.{Action, Done, pure, gets, modify, find, ensure, when, ◌>>=◌, ◌>>◌}
use tenantforge.Services.Rows.{key_hash_is, add_api_key}
use tenantforge.Services.Audit.{write_audit}
use tenantforge.Services.Invitations.{is_none}
use tenantforge.Services.Organizations.{holds_role, only_owner}
use tenantforge.Security.Crypto.{Primitives, draw, generate_api_key, hash_token}

pub record ApiKeyPrincipal : Type 0 where
  pub key_id : Uuid
  pub organization_id : Uuid

unfoldable pub lock_owner : Uuid → Uuid → Action Membership
lock_owner o user =
    find (λ w. scalar (holds_role only_owner o user) w.memberships) (forbidden_error owner_required)

-- `.order_by(ApiKey.created_at.desc(), ApiKey.id)`
abbrev pub newer_key : ApiKey → ApiKey → Bool
newer_key a b =
    ltb (stamp (as_utc b.created_at)) (stamp (as_utc a.created_at))
    || (stamp (as_utc a.created_at) == stamp (as_utc b.created_at)) && ltb a.id b.id

unfoldable pub list_api_keys : Uuid → Uuid → Action (List ApiKey)
list_api_keys o actor = gets λ w. order_by newer_key (
    select
      (λ k.
        (k.organization_id == o)
        && exists (holds_role only_owner k.organization_id actor) w.memberships)
      w.api_keys)

abbrev pub save_revoked : Uuid → Timestamp → World → World
save_revoked i at w = record w {
  api_keys = update_where (λ k. k.id == i) (λ k. record k { revoked_at = some at }) w.api_keys;
}

abbrev pub save_used : Uuid → Timestamp → World → World
save_used i at w = record w {
  api_keys = update_where (λ k. k.id == i) (λ k. record k { last_used_at = some at }) w.api_keys;
}

unfoldable pub revoke_api_key : Uuid → Uuid → Uuid → Action Done
revoke_api_key o i actor = do
  lock_owner o actor
  api_key ←
      find (λ w. scalar (λ k. (k.id == i) && (k.organization_id == o)) w.api_keys)
        (not_found_error api_key_not_found)
  now ← gets λ w. w.clock
  when (is_none api_key.revoked_at) do
    modify (save_revoked api_key.id (aware now))
    write_audit o (some actor) api_key_revoked ResourceType.api_key api_key.id [] none
    pure tt

module _ (p : Primitives) where
  unfoldable pub create_api_key : Uuid → Uuid → Text → Action (ApiKey × Text)
  create_api_key o actor name = do
    lock_owner o actor
    n ← draw
    let raw_key = (generate_api_key p n).0
    let prefix = (generate_api_key p n).1
    api_key ← add_api_key o name (hash_token p raw_key) prefix actor
    write_audit o (some actor) api_key_created ResourceType.api_key api_key.id
        (Detail.key_name name ∷ Detail.prefix prefix ∷ []) none
    pure (api_key, raw_key)

  -- A key that is stored and not revoked.
  abbrev pub live_key : Text → World → Option ApiKey
  live_key raw w = scalar (λ k. key_hash_is (hash_token p raw) k && is_none k.revoked_at) w.api_keys

  unfoldable pub authenticate_api_key : Text → Action ApiKeyPrincipal
  authenticate_api_key raw = do
    ensure (starts_with raw (codes "tf_live_")) (authentication_error invalid_api_key)
    api_key ← find (live_key raw) (authentication_error invalid_api_key)
    now ← gets λ w. w.clock
    modify (save_used api_key.id (aware now))
    pure (record { key_id = api_key.id; organization_id = api_key.organization_id })
