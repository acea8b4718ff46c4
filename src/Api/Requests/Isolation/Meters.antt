-- ===== src/Api/Requests/Isolation/Meters.antt =====
-- The route of an API key, which posts usage, and the rows of the other organizations.
use tenantforge.Api.Requests.Serves.{Settled}
use tenantforge.Session.Rules.{on-read, on-step, on-modify, or_error-ok}
use tenantforge.Session.Keeps.{Keeps, keeps_rules}
use tenantforge.Services.Usage.{api_requests_metric, record_usage}
use tenantforge.Model.Time.{Timestamp, aware}
use tenantforge.Api.Routes.Resources.{create_usage_event_route}
use tenantforge.Services.ApiKeys.{save_used, live_key, ApiKeyPrincipal, authenticate_api_key}
use tenantforge.Security.Crypto.{Settings, Primitives}
use tenantforge.Api.Requests.Isolation.{Leaves, Guarded}
use tenantforge.Session.{Action, Done}
use tenantforge.Services.Organizations.Deletion.{TenantRows}
use tenantforge.Services.Isolation.{add_usage_event-Apart, Apart}
use tenantforge.Model.Tables.{Uuid, World}
use tenantforge.Model.Errors.{AppError, Result, err, ok}
use tenantforge.Api.Requests.Rules.{enforce_limit-db}
use tenantforge.Api.Deps.{Headers, get_api_key_principal, enforce_limit}
use tenantforge.Api.{
  answer, App, Endpoint, reply, with_db, on_db, proceed, ◌>>=◌, demand, validated,
}
use tenantforge.Prelude.{
  arith, ℤ, ap, select-update_other, ◌==◌, ℕ, ◌≡◌, refl, sym, subst, Bool, true, false, Option,
  none, some, Text,
}

module _ (g : Uuid) (rows : TenantRows) where
  -- What an endpoint ends with: its answer and session, or what is committed.
  abbrev EndsWith : {A : Type 0} → (A → World → Type 0) → Result A × App → Type 0
  EndsWith Q (ok a, app) = Q a app.db × Apart g rows app.saved
  EndsWith Q (err e, app) = Apart g rows app.saved

  -- From a session of which `P` holds, an answer of which `Q` does.
  record Ends {A : Type 0} (P : World → Type 0) (Q : A → World → Type 0) (m : Endpoint A)
      : Type 0 where
    at : (app : App) → P app.db → Apart g rows app.saved → EndsWith Q (m app)

  module _ {A B : Type 0} {Q : A → World → Type 0} {R : B → World → Type 0} where
    proceed-Ends :
        (r : Result A) (rest : A → Endpoint B) (app : App)
        → EndsWith Q (r, app)
        → ((a : A) → Ends (Q a) R (rest a))
        → EndsWith R (proceed r rest app)
    proceed-Ends (ok a) rest app h k = (k a).at app h.0 h.1
    proceed-Ends (err e) rest app h k = h

    Ends-bind :
        {P : World → Type 0} (m : Endpoint A) (rest : A → Endpoint B)
        → Ends P Q m
        → ((a : A) → Ends (Q a) R (rest a))
        → Ends P R (m >>= rest)
    unfolding ◌>>=◌
    Ends-bind m rest k kr = record {
      at = λ app h hs. let (r, app1) = m app in proceed-Ends r rest app1 (k.at app h hs) kr;
    }

  module _ {A : Type 0} where
    Ends-reply : (Q : A → World → Type 0) (a : A) → Ends (Q a) Q (reply a)
    Ends-reply Q a = record { at = λ app h hs. (h, hs) }

    Ends-answer : {P : World → Type 0} (r : Result A) → Ends P (λ a. P) (answer r)
    Ends-answer (ok a) = record { at = λ app h hs. (h, hs) }
    Ends-answer (err e) = record { at = λ app h hs. hs }

    Ends-validated : {P : World → Type 0} (o : Option A) → Ends P (λ a. P) (validated o)
    Ends-validated none = record { at = λ app h hs. hs }
    Ends-validated (some a) = record { at = λ app h hs. (h, hs) }

    with_db-Ends :
        (Q : A → World → Type 0) (r : Result A) (w : World) (app : App)
        → ((a : A) → r ≡ ok a → Q a w)
        → Apart g rows app.saved
        → EndsWith Q (with_db app (r, w))
    with_db-Ends Q (ok a) w app k hs = (k a refl, hs)
    with_db-Ends Q (err e) w app k hs = hs

    Ends-on_db :
        {P : World → Type 0} (Q : A → World → Type 0) (m : Action A)
        → ((w : World) → P w → (a : A) (w' : World) → m w ≡ (ok a, w') → Q a w')
        → Ends P Q (on_db m)
    unfolding on_db
    Ends-on_db Q m k = record {
      at = λ app h hs.
          let (r, w) = m app.db in
          with_db-Ends Q r w app (λ a e. k app.db h a w (ap (λ x. (x, w)) e)) hs;
    }

  limited-Ends :
      (P : World → Type 0) (r : Result Done) (end app : App)
      → end.db ≡ app.db
      → end.saved ≡ app.saved
      → P app.db
      → Apart g rows app.saved
      → EndsWith (λ d. P) (r, end)
  limited-Ends P (ok d) end app same kept h hs =
      (subst P (sym same) h, subst (Apart g rows) (sym kept) hs)
  limited-Ends P (err e) end app same kept h hs = subst (Apart g rows) (sym kept) hs

  module _ {P : World → Type 0} where
    Ends-demand : (c : Bool) (e : AppError) → Ends P (λ _ w. (c ≡ true) × P w) (demand c e)
    Ends-demand true e = record { at = λ app h hs. ((refl, h), hs) }
    Ends-demand false e = record { at = λ app h hs. hs }

    Ends-enforce_limit : (i : Text) (limit : ℕ) → Ends P (λ d. P) (enforce_limit i limit)
    Ends-enforce_limit i limit = record {
      at = λ app h hs.
          let (same, kept) = enforce_limit-db i limit app in
          let (r, end) = enforce_limit i limit app in limited-Ends P r end app same kept h hs;
    }

  -- A key that authenticates is marked as used, which no organization but its own sees.
  authenticated :
      (p : Primitives) (t : Text) (w : World)
      → Guarded g rows w
      → {key : ApiKeyPrincipal} {w' : World} → authenticate_api_key p t w ≡ (ok key, w')
      → (key.organization_id == g) ≡ false
      → Apart g rows w'
  unfolding authenticate_api_key
  authenticated p t w v {key} {w'} h apart = on-read _ _ _ h refl λ _ _ h.
      on-read _ _ _ h refl λ row live h. on-step _ _ _ h refl λ h.
        let last = on-modify _ _ _ h in
        let own : row.organization_id ≡ key.organization_id = cc in
        let there : (row.organization_id == g) ≡ false = rw own apart in
        let used =
          select-update_other (λ r. r.id) (λ r. r.organization_id == g) _
            (λ k. record k { last_used_at = some (aware w.clock) }) w.next_uuid w.api_keys row
            v.keys.api_keys (or_error-ok (live_key p t w) _ live) there there in
        let end : save_used row.id (aware w.clock) w ≡ w' = cc in
        subst (Apart g rows) end (rw used v.unseen)

  record_usage-Apart :
      (o : Uuid)
      → (o == g) ≡ false
      → (metric : Text) (quantity : ℕ) (now : Option Timestamp)
      → Keeps (Apart g rows) (record_usage o metric quantity now)
  unfolding record_usage
  record_usage-Apart o apart metric quantity now =
      search (keeps_rules, add_usage_event-Apart g rows o apart) depth 16

  -- The principal of a key: its own organization may have changed, if it is not `g`.
  abbrev Admitted : ApiKeyPrincipal → World → Type 0
  Admitted key w = (key.organization_id == g) ≡ false → Apart g rows w

  principal-Ends :
      (p : Primitives) (s : Settings) (h : Headers)
      → Ends (Guarded g rows) Admitted (get_api_key_principal p s h)
  unfolding get_api_key_principal
  principal-Ends p s h = Ends-bind _ _ (Ends-answer _) λ t.
      Ends-bind _ _ (Ends-on_db Admitted _ (λ w v key w' e. authenticated p t w v e))
        λ key. Ends-bind _ _ (Ends-enforce_limit _ _) λ _. Ends-reply Admitted key

  settled_end :
      {A : Type 0} (r : Result A) (app : App)
      → EndsWith (λ _. Apart g rows) (r, app)
      → Settled (Apart g rows) (r, app)
  settled_end (ok a) app h = h
  settled_end (err e) app h = h

  pub meters-Leaves :
      (p : Primitives) (s : Settings) (h : Headers) (o : Uuid) (amount : ℤ)
      → (o == g) ≡ false
      → Leaves g rows (create_usage_event_route p s h o amount)
  unfolding create_usage_event_route
  meters-Leaves p s h o amount apart =
      let ends : Ends (Guarded g rows) (λ _. Apart g rows)
          (create_usage_event_route p s h o amount) =
        Ends-bind _ _ (principal-Ends p s h) λ key. Ends-bind _ _ (Ends-validated _) λ quantity.
          Ends-bind _ _ (Ends-demand _ _) λ _.
            Ends-bind _ _
              (Ends-on_db (λ _. Apart g rows) _
                (λ w v event w' e.
                  let there : (key.organization_id == g) ≡ false = ground (arith, v.0, apart) in
                  let usage =
                    record_usage-Apart key.organization_id there api_requests_metric quantity
                      none in
                  subst (λ x. Apart g rows x.1) e (usage.at w (v.1 there))))
              λ event. Ends-reply (λ _. Apart g rows) _ in
      record {
        at = λ app v vs.
            let (r, end) = create_usage_event_route p s h o amount app in
            settled_end r end (ends.at app v vs.unseen);
      }
