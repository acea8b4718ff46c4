-- ===== src/Api/Requests/Keyed.antt =====
-- Who may post usage: the route of an API key.
use tenantforge.Session.{checked}
use tenantforge.Session.Rules.{on-read, on-step, on-modify, or_error-ok, checked-ok}
use tenantforge.Services.ApiKeys.{ApiKeyPrincipal, live_key, authenticate_api_key}
use tenantforge.Security.Crypto.{Primitives, Settings}
use tenantforge.Schemas.{usage_event_create}
use tenantforge.Model.Tables.{Uuid, ApiKey, World}
use tenantforge.Model.Errors.{ok}
use tenantforge.Api.Routes.Resources.{create_usage_event_route}
use tenantforge.Api.Responses.{Response}
use tenantforge.Api.Requests.Rules.{on-first, on-answer, on-service, in_session-ok}
use tenantforge.Api.Requests.{serve, respond, meters}
use tenantforge.Api.Email.{Adapters}
use tenantforge.Api.Deps.{Headers, plausible_key, get_api_key_principal}
use tenantforge.Api.{validated, App}
use tenantforge.Prelude.{
  ap, subst, ◌∙◌, Option, none, arith, ◌==◌, ℤ, ℕ, ◌≡◌, refl, true, some, Text, codes, starts_with,
}

module _ (p : Primitives) (headers : Headers) where
  -- The header carries the text of a key that is stored, not revoked and one of the organization.
  pub record IsKeyHolder (w : World) (o : Uuid) : Type 0 where
    pub text : Text
    pub carried : plausible_key headers.x_api_key ≡ some text
    pub prefixed : starts_with text (codes "tf_live_") ≡ true
    pub key : ApiKey
    pub live : live_key p text w ≡ some key
    pub own : key.organization_id ≡ o

  -- A service that authenticates has found a live key.
  authenticate-key :
      (t : Text) (w w' : World) (principal : ApiKeyPrincipal)
      → authenticate_api_key p t w ≡ (ok principal, w')
      → (starts_with t (codes "tf_live_") ≡ true)
        × ((key : ApiKey) × (live_key p t w ≡ some key)
            × (key.organization_id ≡ principal.organization_id))
  unfolding authenticate_api_key
  authenticate-key t w w' principal h = on-read _ _ _ h refl λ _ begins h.
      on-read _ _ _ h refl λ row found h. on-step _ _ _ h refl λ h.
        let last = on-modify _ _ _ h in
        (
          checked-ok (starts_with t (codes "tf_live_")) _ begins,
          (row, or_error-ok (live_key p t w) _ found, cc),
        )

  -- The principal that the dependency finds.
  principal-key :
      (s : Settings) (app : App) (principal : ApiKeyPrincipal) (app1 : App)
      → get_api_key_principal p s headers app ≡ (ok principal, app1)
      → IsKeyHolder app.db principal.organization_id
  unfolding get_api_key_principal
  principal-key s app principal app1 h = on-answer _ _ app h λ t carries h.
      on-service (authenticate_api_key p t) _ app h λ found w found_it h.
        let (begins, (row, is_live, of_it)) = authenticate-key t app.db w found found_it in
        on-first _ _ _ h λ _ app2 _ last.
          let same : found ≡ principal = cc in
          record {
            text = t;
            carried = or_error-ok (plausible_key headers.x_api_key) _ carries;
            prefixed = begins;
            key = row;
            live = is_live;
            own = of_it ∙ ap (λ k. k.organization_id) same;
          }

  validated-ok :
      {A : Type 0} (found : Option A) (app app' : App) (a : A)
      → validated found app ≡ (ok a, app')
      → found ≡ some a
  validated-ok none app app' a h = absurd (cc)
  validated-ok (some b) app app' a h = cc

  -- POST /organizations/{o}/usage/events is answered only if its `X-API-Key` header carries a text
  -- of 8 to 256 characters that begins with `tf_live_` and hashes to an API key of `o` that is
  -- stored and not revoked, in the database that was committed when the request came, and if the
  -- quantity passes the schema.
  pub respond-IsKeyHolder :
      (s : Settings) (adapters : Adapters) (dummy_password_hash : Text) (o : Uuid) (amount : ℤ)
      (app : App) {answered : Response} {app' : App}
      → respond p s adapters dummy_password_hash headers (meters o amount) app ≡ (ok answered, app')
      → IsKeyHolder app.saved o × ((quantity : ℕ) × (usage_event_create amount ≡ some quantity))
  unfolding serve create_usage_event_route
  respond-IsKeyHolder s adapters dummy_password_hash o amount app h =
      let (end, answers, _) =
        in_session-ok (serve p s adapters dummy_password_hash headers (meters o amount)) app h in
      on-first (get_api_key_principal p s headers) _ _ answers λ principal app1 first h.
        on-first (validated (usage_event_create amount)) _ app1 h λ quantity app2 valid h.
          on-answer (checked (principal.organization_id == o) _) _ app2 h λ _ owns _.
            let same : principal.organization_id ≡ o =
              ground (arith, checked-ok (principal.organization_id == o) _ owns) in
            (
              subst (IsKeyHolder app.saved) same
                  (principal-key s (record app { db = app.saved }) principal app1 first),
              (quantity, validated-ok (usage_event_create amount) app1 app2 quantity valid),
            )
