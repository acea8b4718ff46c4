-- ===== src/Security/Crypto.antt =====
-- app/security/opaque_tokens.py, passwords.py and jwt.py over the primitives that they call:
-- SHA-256, `secrets.token_urlsafe`, `pwdlib` and PyJWT, which are parameters.
use tenantforge.Prelude.{
  ℕ, ◌+◌, ◌*◌, Bool, Option, none, some, Text, codes, prefix, ◌++◌, text_eq, if◌then◌else◌,
}
use tenantforge.Model.Tables.{Uuid}
use tenantforge.Model.Time.{Datetime}
use tenantforge.Model.Errors.{ok}
use tenantforge.Session.{Action}

-- The claims of an access token; `exp` is `lifetime` minutes after `iat`.
pub record Claims : Type 0 where
  pub sub : Text
  pub token_type : Text
  pub jti : Uuid
  pub iat : Datetime
  pub lifetime : ℕ

pub record Primitives : Type 0 where
  -- `hashlib.sha256(t.encode()).hexdigest()`
  pub sha256 : Text → Text
  -- `secrets.token_urlsafe(n)`, at the given draw of the generator
  pub token_urlsafe : ℕ → ℕ → Text
  -- `PasswordHash.hash`, at the given draw of the salt, and `PasswordHash.verify`
  pub hash_password : ℕ → Text → Text
  pub verify_password : Text → Text → Bool
  -- `str(uuid)` and `uuid.UUID(text)`, which is `none` on a `ValueError`
  pub uuid_str : Uuid → Text
  pub parse_uuid : Text → Option Uuid
  -- `jwt.encode(payload, secret)`, and `jwt.decode` at a time, which is `none` on a `PyJWTError`
  pub jwt_encode : Claims → Text → Text
  pub jwt_decode : Text → Text → Datetime → Option Claims

-- The settings of app/config.py that the services and the API read.
pub record Settings : Type 0 where
  pub jwt_secret : Text
  pub access_token_expire_minutes : ℕ
  pub refresh_token_expire_days : ℕ
  pub invitation_expire_days : ℕ
  pub user_rate_limit_per_minute : ℕ
  pub api_rate_limit_per_minute : ℕ
  pub app_env : Text
  pub billing_webhook_secret : Text

-- A fresh draw of the random generator.
unfoldable pub draw : Action ℕ
draw w = (ok w.next_secret, record w { next_secret = w.next_secret + 1 })

module _ (p : Primitives) where
  unfoldable pub generate_opaque_token : ℕ → Text
  generate_opaque_token n = p.token_urlsafe 48 n

  unfoldable pub hash_token : Text → Text
  hash_token = p.sha256

  -- The key and its first 16 characters.
  unfoldable pub generate_api_key : ℕ → Text × Text
  generate_api_key n = let key = codes "tf_live_" ++ p.token_urlsafe 32 n in (key, prefix 16 key)

  -- The token and its lifetime in seconds. `jti` is a fresh UUID.
  unfoldable pub create_access_token : Settings → Uuid → Action (Text × ℕ)
  create_access_token s user w =
      let claims : Claims = record {
        sub = p.uuid_str user;
        token_type = codes "access";
        jti = w.next_uuid;
        iat = w.clock;
        lifetime = s.access_token_expire_minutes;
      } in
      (
        ok (p.jwt_encode claims s.jwt_secret, s.access_token_expire_minutes * 60),
        record w { next_uuid = w.next_uuid + 1 },
      )

  -- `none` is `InvalidAccessToken`.
  subject : Option Claims → Option Uuid
  subject none = none
  subject (some c) = if text_eq c.token_type (codes "access") then p.parse_uuid c.sub else none

  unfoldable pub decode_access_token : Settings → Text → Datetime → Option Uuid
  unfolding subject
  decode_access_token s token now = subject (p.jwt_decode token s.jwt_secret now)
