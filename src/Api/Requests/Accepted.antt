-- ===== src/Api/Requests/Accepted.antt =====
-- The webhook route: what an accepted event shows of its request, and that it is committed.
use tenantforge.Api.Requests.Ownership.{enqueue_job-Holds}
use tenantforge.Api.Responses.{Response}
use tenantforge.Api.Requests.Serves.{Settled, Serves, Serves-reply, Holds-Serves, Serves-bind}
use tenantforge.Api.Requests.{serve, respond, receives_webhook}
use tenantforge.Session.Rules.{or_error-ok, on-step}
use tenantforge.Session.{Done}
use tenantforge.Services.Webhooks.Signature.Verified.{verify_webhook_signature_iff}
use tenantforge.Services.Webhooks.Signature.{
  signature_tolerance_seconds, verify_webhook_signature, IsSigned,
}
use tenantforge.Security.Crypto.{Primitives, Settings}
use tenantforge.Model.Json.{Fields}
use tenantforge.Api.Routes.Webhooks.{process_later, billing_webhook_route, checked_event}
use tenantforge.Api.Requests.Rules.{
  in_session-ok, on-gets, on-commit, on-service, on-first, on-answer,
}
use tenantforge.Api.Deps.{Headers, unix_time}
use tenantforge.Api.{reply, ◌>>◌, App}
use tenantforge.Prelude.{
  false, ℕ, refl, sym, ap, subst, ◌∙◌, Option, none, some, text_eq_refl, scalar-exists,
}
use tenantforge.Session.Keeps.{Keeps}
use tenantforge.Services.Webhooks.Processing.{
  existing_or_insert, webhook_is, add_webhook_event, insert_webhook, store_webhook_event,
}
use tenantforge.Services.Webhooks.{validate_webhook, BillingWebhook, WebhookCodec}
use tenantforge.Model.Tables.{WebhookEvent, World}
use tenantforge.Api.Email.{Adapters, new_uuid}
use tenantforge.Model.Errors.{ok}
use tenantforge.Prelude.{
  ◌≡◌, inl, inr, Bool, true, scalar, exists, Text, text_eq, Bool-cases, scalar-exists,
}

-- The event is in the table.
abbrev pub IsStored : Text → World → Type 0
IsStored i w = exists (webhook_is i) w.webhook_events ≡ true

new_uuid-Keeps : (i : Text) → Keeps (IsStored i) new_uuid
unfolding new_uuid
new_uuid-Keeps i = record { at = λ w h. h }

module _ (codec : WebhookCodec) (event : BillingWebhook) where
  insert_webhook-IsStored :
      (w : World) {r : WebhookEvent × Bool} {w' : World}
      → insert_webhook codec event w ≡ (ok r, w')
      → IsStored event.id w'
  unfolding insert_webhook add_webhook_event exists text_eq
  insert_webhook-IsStored w h = elim (Bool-cases (exists (webhook_is event.id) w.webhook_events)) [
    | inl taken ↦
        let same : (insert_webhook codec event w).1 ≡ w = rw taken refl in
        subst (IsStored event.id) (sym same ∙ ap (λ x. x.1) h) taken
    | inr new ↦ subst (IsStored event.id) (ap (λ x. x.1) h) (rw (new, text_eq_refl event.id) refl)
  ]

  found-IsStored :
      (w : World) (found : Option WebhookEvent) {r : WebhookEvent × Bool} {w' : World}
      → scalar (webhook_is event.id) w.webhook_events ≡ found
      → existing_or_insert codec event found w ≡ (ok r, w')
      → IsStored event.id w'
  found-IsStored w none e h = insert_webhook-IsStored w h
  found-IsStored w (some row) e h =
      subst (IsStored event.id) (ap (λ x. x.1) h)
        (scalar-exists (webhook_is event.id) w.webhook_events row e)

  -- An event that was stored, or found, is in the table.
  store_webhook_event-IsStored :
      (w : World) {r : WebhookEvent × Bool} {w' : World}
      → store_webhook_event codec event w ≡ (ok r, w')
      → IsStored event.id w'
  unfolding store_webhook_event
  store_webhook_event-IsStored w h =
      on-step _ _ w h refl
        λ h. found-IsStored w (scalar (webhook_is event.id) w.webhook_events) refl h

module _ (p : Primitives) (s : Settings) (adapters : Adapters) where
  -- What an accepted body is.
  pub record IsAccepted (w : World) (headers : Headers) (body : Text) : Type 0 where
    pub header : Text
    pub sent : headers.stripe_signature ≡ some header
    pub signed :
        IsSigned adapters.signing s.billing_webhook_secret body
          (unix_time w)
          signature_tolerance_seconds
          header
    pub event : BillingWebhook
    pub read : adapters.validate_json body ≡ some event
    pub fields : Fields
    pub valid : validate_webhook adapters.webhooks w.clock event ≡ ok fields

  sent_header :
      (header : Option Text) (body : Text) (now tolerance : ℕ) {d : Done}
      → verify_webhook_signature adapters.signing s.billing_webhook_secret body header now tolerance
        ≡ ok d
      → (t : Text) × (header ≡ some t)
        × IsSigned adapters.signing s.billing_webhook_secret body now tolerance t
  unfolding verify_webhook_signature
  sent_header none body now tolerance h = absurd (cc)
  sent_header (some t) body now tolerance h = (
    t,
    refl,
    (verify_webhook_signature_iff adapters.signing s.billing_webhook_secret body now tolerance t).0
        h,
  )

  checked_event-IsAccepted :
      (headers : Headers) (body : Text) (app : App) {e : BillingWebhook} {app' : App}
      → checked_event p s adapters headers body app ≡ (ok e, app')
      → (a : IsAccepted app.db headers body) × (a.event ≡ e) × (app ≡ app')
  unfolding checked_event
  checked_event-IsAccepted headers body app h =
      let h1 = on-gets (λ w. w.clock) _ app h in
      on-answer _ _ app h1 λ _ verified h. on-answer _ _ app h λ event reads h.
        on-answer _ _ app h λ object valid h.
          let (t, sent, signed) = sent_header headers.stripe_signature body _ _ verified in
          (
            record {
              header = t;
              sent = sent;
              signed = signed;
              event = event;
              read = or_error-ok (adapters.validate_json body) _ reads;
              fields = object;
              valid = valid;
            },
            cc,
            cc,
          )

  -- What follows the commit keeps the event.
  process_later-Serves :
      (i : Text) (now : Bool) (event : WebhookEvent)
      → Serves (IsStored i) (process_later p s adapters now event)
  process_later-Serves i true event =
      Holds-Serves _ (enqueue_job-Holds p adapters (new_uuid-Keeps i) _ _)
  process_later-Serves i false event = Serves-reply tt

  answered-IsStored :
      (i : Text) (now : Bool) (event : WebhookEvent) (rest : Response) (app : App) {app' : App}
      {answered : Response}
      → (process_later p s adapters now event >> reply rest) app ≡ (ok answered, app')
      → IsStored i app.db
      → IsStored i app.saved
      → IsStored i app'.db
  answered-IsStored i now event rest app h db saved =
      let serves =
        Serves-bind (process_later p s adapters now event) (λ _. reply rest)
          (process_later-Serves i now event) (λ _. Serves-reply rest) in
      (subst (Settled (IsStored i)) h (serves.at app db saved)).0

  billing_webhook_route-IsAccepted :
      (headers : Headers) (body : Text) (app : App) {answered : Response} {app' : App}
      → billing_webhook_route p s adapters headers body app ≡ (ok answered, app')
      → (a : IsAccepted app.db headers body) × IsStored a.event.id app'.db
  unfolding billing_webhook_route
  billing_webhook_route-IsAccepted headers body app {app' = app'} h =
      on-first _ _ app h λ event app1 checks h.
        on-service (store_webhook_event adapters.webhooks event) _ app1 h λ stored w stores h.
          let (a, same, _) = checked_event-IsAccepted headers body app checks in
          let kept = store_webhook_event-IsStored adapters.webhooks event app1.db stores in
          let h1 = on-commit _ (record app1 { db = w }) h in
          (
            a,
            subst (λ e. IsStored e.id app'.db) (sym same)
                (answered-IsStored event.id _ _ _ _ h1 kept kept),
          )

  -- An answered webhook request was signed: its header carries, next to a time at most 300 seconds
  -- away from now, the digest of that time and the body under the secret of the settings. Its body
  -- is an event that passes the schema and `validate_webhook`, and when the answer leaves, an event
  -- of the provider with that identifier is committed.
  pub respond-IsAccepted :
      (dummy_password_hash : Text) (headers : Headers) (body : Text) (app : App)
      {answered : Response} {app' : App}
      → respond p s adapters dummy_password_hash headers (receives_webhook body) app
        ≡ (ok answered, app')
      → (a : IsAccepted app.saved headers body) × IsStored a.event.id app'.saved
  unfolding serve
  respond-IsAccepted dummy_password_hash headers body app h =
      let route = serve p s adapters dummy_password_hash headers (receives_webhook body) in
      let (end, answers, closes) = in_session-ok route app h in
      let (a, stored) =
        billing_webhook_route-IsAccepted headers body (record app { db = app.saved }) answers in
      (a, subst (λ x. IsStored a.event.id x.saved) (sym closes) stored)
