-- ===== src/Api/Requests/Serves.antt =====
-- Invariants of endpoints: what is committed keeps them however the endpoint ends, and the session
-- does when it returns. One rule for each way to build an endpoint.
use tenantforge.Session.Keeps.{Keeps}
use tenantforge.Session.{Action, checked, commit, transaction}
use tenantforge.Model.Tables.{World}
use tenantforge.Model.Errors.{AppError, Exception, Result, err, ok}
use tenantforge.Api.{
  validated, App, Endpoint, reply, fail, with_db, on_db, unless_down, on_redis, proceed, ◌>>=◌,
  demand, answer, commit_session, close_session, in_session,
}
use tenantforge.Prelude.{
  Option, none, some, ap, ◌≡◌, refl, sym, subst, Bool, true, false, List, [], ◌∷◌,
}

abbrev pub Settled : {A : Type 0} → (World → Type 0) → Result A × App → Type 0
Settled P (ok a, app) = P app.db × P app.saved
Settled P (err e, app) = P app.saved

pub record Serves {A : Type 0} (P : World → Type 0) (m : Endpoint A) : Type 0 where
  pub at : (app : App) → P app.db → P app.saved → Settled P (m app)

-- A service that keeps the invariant when it returns.
pub record Returns {A : Type 0} (P : World → Type 0) (m : Action A) : Type 0 where
  pub at : (w : World) → P w → {a : A} {w' : World} → m w ≡ (ok a, w') → P w'

-- An endpoint that keeps both databases whole, also when it raises.
pub record Holds {A : Type 0} (P : World → Type 0) (m : Endpoint A) : Type 0 where
  pub at : (app : App) → P app.db → P app.saved → P (m app).1.db × P (m app).1.saved

module _ {A : Type 0} (P : World → Type 0) where
  settled : (r : Result A) (app : App) → P app.db → P app.saved → Settled P (r, app)
  settled (ok a) app h hs = (h, hs)
  settled (err e) app h hs = hs

  settled_db :
      (r : Result A) (w : World) (app : App)
      → ((a : A) → ◌≡◌ {A = Result A × World} (r, w) (ok a, w) → P w)
      → P app.saved
      → Settled P (with_db app (r, w))
  settled_db (ok a) w app k hs = (k a refl, hs)
  settled_db (err e) w app k hs = hs

  unless_down-holds :
      (call : App → Result A × App) (app : App) (later : List Bool)
      → ((a : App) → ((call a).1.db ≡ a.db) × ((call a).1.saved ≡ a.saved))
      → P app.db
      → P app.saved
      → P (unless_down call app later).1.db × P (unless_down call app later).1.saved
  unless_down-holds call app [] k h hs = (subst P (sym (k app).0) h, subst P (sym (k app).1) hs)
  unless_down-holds call app (true ∷ later) k h hs = (h, hs)
  unless_down-holds call app (false ∷ later) k h hs =
      let a : App = record app { outages = later } in
      (subst P (sym (k a).0) h, subst P (sym (k a).1) hs)

module _ {A : Type 0} {P : World → Type 0} where
  pub Keeps-Returns : (m : Action A) → Keeps P m → Returns P m
  Keeps-Returns m k = record { at = λ w h e. subst (λ x. P x.1) e (k.at w h) }

  pub transaction-Returns :
      (m : Action A) → ((w : World) → P w → P (transaction m w).1) → Returns P m
  unfolding transaction
  transaction-Returns m k = record { at = λ w h e. subst (λ x. P (commit w x.0 x.1).1) e (k w h) }

  pub Serves-reply : (a : A) → Serves P (reply a)
  Serves-reply a = record { at = λ app h hs. (h, hs) }

  pub Serves-fail : (e : Exception) → Serves P (fail {A = A} e)
  Serves-fail e = record { at = λ app h hs. hs }

  pub Serves-answer : (r : Result A) → Serves P (answer r)
  Serves-answer r = record { at = λ app h hs. settled P r app h hs }

  pub Serves-validated : (o : Option A) → Serves P (validated o)
  Serves-validated none = record { at = λ app h hs. hs }
  Serves-validated (some a) = record { at = λ app h hs. (h, hs) }

  pub Serves-on_db : (m : Action A) → Returns P m → Serves P (on_db m)
  unfolding on_db
  Serves-on_db m k = record {
    at = λ app h hs.
        let (r, w) = m app.db in
        settled_db P r w app (λ a e. k.at app.db h (ap (λ x. (x.0, w)) e)) hs;
  }

  pub Holds-Serves : (m : Endpoint A) → Holds P m → Serves P m
  Holds-Serves m k = record {
    at = λ app h hs. let (r, app') = m app in settled P r app' (k.at app h hs).0 (k.at app h hs).1;
  }

  pub Holds-fail : (e : Exception) → Holds P (fail {A = A} e)
  Holds-fail e = record { at = λ app h hs. (h, hs) }

  pub Holds-answer : (r : Result A) → Holds P (answer r)
  Holds-answer r = record { at = λ app h hs. (h, hs) }

  pub Holds-on_db : (m : Action A) → Keeps P m → Holds P (on_db m)
  unfolding on_db
  Holds-on_db m k = record { at = λ app h hs. (k.at app.db h, hs) }

  -- A call of Redis leaves the databases alone.
  pub Holds-on_redis :
      (call : App → Result A × App)
      → ((a : App) → ((call a).1.db ≡ a.db) × ((call a).1.saved ≡ a.saved))
      → Holds P (on_redis call)
  unfolding on_redis
  Holds-on_redis call k = record {
    at = λ app h hs. unless_down-holds P call app app.outages k h hs;
  }

module _ {P : World → Type 0} where
  pub Serves-demand : (c : Bool) (e : AppError) → Serves P (demand c e)
  Serves-demand c e = record { at = λ app h hs. settled P (checked c e) app h hs }

  pub Serves-commit_session : Serves P commit_session
  unfolding commit_session
  Serves-commit_session = record { at = λ app h hs. (h, h) }

module _ {A B : Type 0} {P : World → Type 0} where
  rest_serves :
      (r : Result A) (rest : A → Endpoint B) (app : App)
      → Settled P (r, app)
      → ((a : A) → Serves P (rest a))
      → Settled P (proceed r rest app)
  rest_serves (ok a) rest app h k = (k a).at app h.0 h.1
  rest_serves (err e) rest app h k = h

  pub Serves-bind :
      (m : Endpoint A) (rest : A → Endpoint B)
      → Serves P m
      → ((a : A) → Serves P (rest a))
      → Serves P (m >>= rest)
  unfolding ◌>>=◌
  Serves-bind m rest k kr = record {
    at = λ app h hs. let (r, app') = m app in rest_serves r rest app' (k.at app h hs) kr;
  }

  rest_holds :
      (r : Result A) (rest : A → Endpoint B) (app : App)
      → P app.db
      → P app.saved
      → ((a : A) → Holds P (rest a))
      → P (proceed r rest app).1.db × P (proceed r rest app).1.saved
  rest_holds (ok a) rest app h hs k = (k a).at app h hs
  rest_holds (err e) rest app h hs k = (h, hs)

  pub Holds-bind :
      (m : Endpoint A) (rest : A → Endpoint B)
      → Holds P m
      → ((a : A) → Holds P (rest a))
      → Holds P (m >>= rest)
  unfolding ◌>>=◌
  Holds-bind m rest k kr = record {
    at = λ app h hs.
        let (r, app') = m app in rest_holds r rest app' (k.at app h hs).0 (k.at app h hs).1 kr;
  }

-- The frame of a request: what is committed keeps the invariant.
pub closed_keeps :
    {A : Type 0} (P : World → Type 0) (r : Result A) (app : App)
    → Settled P (r, app)
    → P (close_session (r, app)).1.saved
closed_keeps P (ok a) app h = h.0
closed_keeps P (err e) app h = h

pub in_session-keeps :
    {A : Type 0} {P : World → Type 0} (m : Endpoint A)
    → Serves P m
    → (app : App) → P app.saved
    → P (in_session m app).1.saved
unfolding in_session
in_session-keeps {P = P} m k app h =
    let (r, end) = m (record app { db = app.saved }) in
    closed_keeps P r end (k.at (record app { db = app.saved }) h h)

pub ruleset serves_rules = (
  Serves-reply, Serves-fail, Serves-answer, Serves-validated, Serves-on_db, Serves-demand,
  Serves-commit_session, Serves-bind, Keeps-Returns,
)

pub ruleset holds_rules = (Holds-fail, Holds-answer, Holds-on_db, Holds-bind)
