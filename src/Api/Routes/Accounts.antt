-- ===== src/Api/Routes/Accounts.antt =====
-- app/api/routes/auth.py.
use tenantforge.Schemas.{register_request, login_request, refresh_request}
use tenantforge.Services.Auth.{
  register_user, authenticate_user, issue_tokens, rotate_refresh_token, revoke_refresh_token,
}
use tenantforge.Security.Crypto.{Primitives, Settings}
use tenantforge.Prelude.{Text}
use tenantforge.Api.Responses.{
  read_user, Response, success, created, deleted, user_body, tokens_body,
}
use tenantforge.Api.Deps.{Headers, get_current_user}
use tenantforge.Api.{validated, Endpoint, reply, on_db, ◌>>=◌, ◌>>◌}

module _ (p : Primitives) (s : Settings) (dummy_password_hash : Text) where
  unfoldable pub register_route : Text → Text → Endpoint Response
  register_route address password = do
    input ← validated (register_request address password)
    user ← on_db (register_user p s dummy_password_hash input.0 input.1)
    reply (created (user_body (read_user user)))

  unfoldable pub login_route : Text → Text → Endpoint Response
  login_route address password = do
    input ← validated (login_request address password)
    user ← on_db (authenticate_user p s dummy_password_hash input.0 input.1)
    tokens ← on_db (issue_tokens p s dummy_password_hash user)
    reply (success (tokens_body tokens))

  unfoldable pub refresh_route : Text → Endpoint Response
  refresh_route raw = do
    token ← validated (refresh_request raw)
    tokens ← on_db (rotate_refresh_token p s dummy_password_hash token)
    reply (success (tokens_body tokens))

  unfoldable pub logout_route : Text → Endpoint Response
  logout_route raw = do
    token ← validated (refresh_request raw)
    on_db (revoke_refresh_token p s dummy_password_hash token)
    reply deleted

  unfoldable pub me_route : Headers → Endpoint Response
  me_route headers = do
    user ← get_current_user p s headers
    reply (success (user_body (read_user user)))
