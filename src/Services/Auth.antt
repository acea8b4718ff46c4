-- ===== src/Services/Auth.antt =====
-- app/services/auth.py: accounts, login, and the rotation of refresh tokens.
pub mod Rotation
use tenantforge.Model.Tables.{Uuid, User, World}
use tenantforge.Model.Errors.{
  conflict_error, authentication_error, email_taken, invalid_credentials, inactive_user,
  invalid_refresh_token, refresh_token_reused, refresh_token_expired,
}
use tenantforge.Model.Time.{Timestamp, add_days, has_expired, aware}
use tenantforge.Prelude.{
  ℕ, not, ◌&&◌, Option, none, some, ◌==◌, if◌then◌else◌, scalar, exists, update_where, Text, lower,
  strip,
}
use tenantforge.Session.{
  Action, Done, pure, gets, modify, find, ensure, ensure_that, lift, when, or_rollback, ◌>>=◌, ◌>>◌,
}
use tenantforge.Services.Rows.{user_is, email_is, refresh_is, add_user, add_refresh_token}
use tenantforge.Services.Invitations.{is_none}
use tenantforge.Security.Crypto.{
  Primitives, Settings, draw, generate_opaque_token, hash_token, create_access_token,
}

pub record IssuedTokens : Type 0 where
  pub access_token : Text
  pub refresh_token : Text
  pub expires_in : ℕ

abbrev pub save_token_revoked : Uuid → Timestamp → World → World
save_token_revoked i at w = record w {
  refresh_tokens =
      update_where (λ t. t.id == i) (λ t. record t { revoked_at = some at }) w.refresh_tokens;
}

-- The user of a token, and `user is None or not user.is_active`.
abbrev pub if_active : Option User → Option User
if_active none = none
if_active (some u) = if u.is_active then some u else none

abbrev pub active_user : Uuid → World → Option User
active_user i w = if_active (scalar (user_is i) w.users)

module _ (p : Primitives) (settings : Settings) (dummy_password_hash : Text) where
  unfoldable pub register_user : Text → Text → Action User
  register_user email password = do
    let normal = lower (strip email)
    ensure_that (λ w. not (exists (email_is normal) w.users)) (conflict_error email_taken)
    salt ← draw
    or_rollback (add_user normal (p.hash_password salt password)) (conflict_error email_taken)

  -- `user.password_hash if user is not None else _DUMMY_PASSWORD_HASH`
  abbrev pub candidate_hash : Option User → Text
  candidate_hash none = dummy_password_hash
  candidate_hash (some u) = u.password_hash

  -- The user, if one was found, the password matches and the account is active.
  abbrev pub admitted : Text → Option User → Option User
  admitted password none = none
  admitted password (some u) =
      if p.verify_password password (candidate_hash (some u)) && u.is_active then some u else none

  unfoldable pub authenticate_user : Text → Text → Action User
  authenticate_user email password =
      find (λ w. admitted password (scalar (email_is (lower (strip email))) w.users))
        (authentication_error invalid_credentials)

  unfoldable pub issue_tokens : User → Action IssuedTokens
  issue_tokens user = do
    ensure user.is_active (authentication_error inactive_user)
    now ← gets λ w. w.clock
    n ← draw
    let token = generate_opaque_token p n
    expires ← lift (add_days settings.refresh_token_expire_days now)
    add_refresh_token user.id (hash_token p token) (aware expires) (aware now)
    access ← create_access_token p settings user.id
    pure (record { access_token = access.0; refresh_token = token; expires_in = access.1 })

  unfoldable pub rotate_refresh_token : Text → Action IssuedTokens
  rotate_refresh_token raw = do
    now ← gets λ w. w.clock
    stored ←
        find (λ w. scalar (refresh_is (hash_token p raw)) w.refresh_tokens)
          (authentication_error invalid_refresh_token)
    ensure (is_none stored.revoked_at) (authentication_error refresh_token_reused)
    ensure (not (has_expired stored.expires_at now)) (authentication_error refresh_token_expired)
    user ← find (active_user stored.user_id) (authentication_error inactive_user)
    modify (save_token_revoked stored.id (aware now))
    issue_tokens user

  unfoldable pub revoke_refresh_token : Text → Action Done
  revoke_refresh_token raw = do
    stored ←
        find (λ w. scalar (refresh_is (hash_token p raw)) w.refresh_tokens)
          (authentication_error invalid_refresh_token)
    now ← gets λ w. w.clock
    when (is_none stored.revoked_at) (modify (save_token_revoked stored.id (aware now)))
