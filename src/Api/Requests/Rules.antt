-- ===== src/Api/Requests/Rules.antt =====
-- Blocks of endpoints taken apart: a request that answered tells what each of its dependencies
-- returned, and one whose dependency raised raises the same.
use tenantforge.Infrastructure.RateLimit.{enforce}
use tenantforge.Session.Rules.{or_error-ok}
use tenantforge.Session.{Action, gets, Done, or_error, find}
use tenantforge.Model.Tables.{World}
use tenantforge.Model.Errors.{AppError, Exception, Result, err, ok}
use tenantforge.Api.Deps.{unix_time, with_counters, enforce_limit}
use tenantforge.Api.{
  commit_session, App, Endpoint, on_db, unless_down, on_redis, proceed, ◌>>=◌, answer,
  close_session, in_session,
}
use tenantforge.Prelude.{ℕ, ◌≡◌, refl, ap, Bool, true, false, Option, some, List, [], ◌∷◌, Text}

module _ {A B : Type 0} {C : Type 0} where
  proceeded :
      (r : Result A) (rest : A → Endpoint B) (app : App) {b : B} {app' : App}
      → proceed r rest app ≡ (ok b, app')
      → ((a : A) → r ≡ ok a → rest a app ≡ (ok b, app') → C)
      → C
  proceeded (ok a) rest app h k = k a refl h
  proceeded (err e) rest app h k = absurd (cc)

  -- The first step returned, and then the rest did.
  pub on-first :
      (m : Endpoint A) (rest : A → Endpoint B) (app : App) {b : B} {app' : App}
      → (m >>= rest) app ≡ (ok b, app')
      → ((a : A) (app1 : App) → m app ≡ (ok a, app1) → rest a app1 ≡ (ok b, app') → C)
      → C
  unfolding ◌>>=◌
  on-first m rest app h k =
      let (r, app1) = m app in
      proceeded r rest app1 h (λ a e after. k a app1 (ap (λ x. (x, app1)) e) after)

  -- The first step is a query, which found a row and left the database as it was.
  pub on-query :
      (query : World → Option A) (e : AppError) (rest : A → Endpoint B) (app : App) {b : B}
      {app' : App}
      → (on_db (find query e) >>= rest) app ≡ (ok b, app')
      → ((a : A) → query app.db ≡ some a → rest a app ≡ (ok b, app') → C)
      → C
  unfolding ◌>>=◌ on_db
  on-query query e rest app h k =
      proceeded (or_error (query app.db) e) rest app h
        λ a found after. k a (or_error-ok (query app.db) e found) after

  pub on-answer :
      (r : Result A) (rest : A → Endpoint B) (app : App) {b : B} {app' : App}
      → (answer r >>= rest) app ≡ (ok b, app')
      → ((a : A) → r ≡ ok a → rest a app ≡ (ok b, app') → C)
      → C
  unfolding ◌>>=◌
  on-answer r rest app h k = proceeded r rest app h k

module _ {A B : Type 0} where
  -- A first step that raised.
  pub first-err :
      (m : Endpoint A) (rest : A → Endpoint B) (app : App) {e : Exception} {app1 : App}
      → m app ≡ (err e, app1)
      → (m >>= rest) app ≡ (err e, app1)
  unfolding ◌>>=◌
  first-err m rest app h = rw h refl

-- The limiter does not touch a database.
unless_down-db :
    (call : App → Result Done × App) (app : App) (later : List Bool)
    → ((a : App) → ((call a).1.db ≡ a.db) × ((call a).1.saved ≡ a.saved))
    → ((unless_down call app later).1.db ≡ app.db)
      × ((unless_down call app later).1.saved ≡ app.saved)
unless_down-db call app [] k = k app
unless_down-db call app (true ∷ later) k = (refl, refl)
unless_down-db call app (false ∷ later) k = k (record app { outages = later })

pub enforce_limit-db :
    (i : Text) (limit : ℕ) (app : App)
    → ((enforce_limit i limit app).1.db ≡ app.db)
      × ((enforce_limit i limit app).1.saved ≡ app.saved)
unfolding enforce_limit on_redis
enforce_limit-db i limit app =
    unless_down-db (λ a. with_counters a (enforce i limit 60 (unix_time a.db) a.counters)) app
      app.outages (λ a. (refl, refl))

closed :
    {A : Type 0} (r : Result A) (end : App) {a : A} {app' : App}
    → close_session (r, end) ≡ (ok a, app')
    → (last : App) × (◌≡◌ {A = Result A × App} (r, end) (ok a, last))
      × (app' ≡ record last { saved = last.db })
closed (ok b) end h = (end, cc, cc)
closed (err e) end h = absurd (cc)

-- A session that ends with an answer is committed, and else rolled back.
pub in_session-ok :
    {A : Type 0} (m : Endpoint A) (app : App) {a : A} {app' : App}
    → in_session m app ≡ (ok a, app')
    → (end : App) × (m (record app { db = app.saved }) ≡ (ok a, end))
      × (app' ≡ record end { saved = end.db })
unfolding in_session
in_session-ok m app h = let (r, end) = m (record app { db = app.saved }) in closed r end h

-- The first step reads the database.
pub on-gets :
    {A B : Type 0} (f : World → A) (rest : A → Endpoint B) (app : App) {b : B} {app' : App}
    → (on_db (gets f) >>= rest) app ≡ (ok b, app')
    → rest (f app.db) app ≡ (ok b, app')
unfolding ◌>>=◌ on_db
on-gets f rest app h = h

-- The first step commits the session.
pub on-commit :
    {B : Type 0} (rest : Done → Endpoint B) (app : App) {b : B} {app' : App}
    → (commit_session >>= rest) app ≡ (ok b, app')
    → rest tt (record app { saved = app.db }) ≡ (ok b, app')
unfolding ◌>>=◌ commit_session
on-commit rest app h = h

-- The first step is a service, which returned.
pub on-service :
    {A B C : Type 0} (m : Action A) (rest : A → Endpoint B) (app : App) {b : B} {app' : App}
    → (on_db m >>= rest) app ≡ (ok b, app')
    → ((a : A) (w : World)
        → m app.db ≡ (ok a, w)
        → rest a (record app { db = w }) ≡ (ok b, app')
        → C)
    → C
unfolding ◌>>=◌ on_db
on-service m rest app h k =
    let (r, w) = m app.db in
    proceeded r rest (record app { db = w }) h (λ a e after. k a w (ap (λ x. (x, w)) e) after)
