-- ===== src/Api.antt =====
-- app/api: an HTTP request as a monad over what the application holds: the database of the request's
-- session, the committed database, and Redis. The frame of every request is `get_session`.
pub mod Deps
pub mod Responses
pub mod Email
pub mod Routes
pub mod Requests
use tenantforge.Session.{Action, Done, checked}
use tenantforge.Model.Tables.{World}
use tenantforge.Model.Errors.{AppError, Exception, Result, redis_error, validation_error, err, ok}
use tenantforge.Infrastructure.Queue.{Redis}
use tenantforge.Infrastructure.RateLimit.{Counter}
use tenantforge.Prelude.{Option, none, some, Bool, true, false, List, [], ◌∷◌}

-- What one process of the API sees of the outside.
pub record App : Type 0 where
  -- the database as the session of the request sees it, and as it was last committed
  pub db : World
  pub saved : World
  -- the counters of the rate limiter and the lists of the queue, which are both in Redis
  pub counters : List Counter
  pub redis : Redis
  -- for each of the calls of Redis to come, whether it fails
  pub outages : List Bool

abbrev pub Endpoint : Type 0 → Type 0
Endpoint A = App → Result A × App

module _ {A : Type 0} where
  abbrev pub reply : A → Endpoint A
  reply a app = (ok a, app)

  abbrev pub fail : Exception → Endpoint A
  fail e app = (err e, app)

  abbrev pub with_db : App → Result A × World → Result A × App
  with_db app (r, w) = (r, record app { db = w })

  -- A call of a service, or a statement on the session.
  unfoldable pub on_db : Action A → Endpoint A
  on_db m app = with_db app (m app.db)

  abbrev pub unless_down : (App → Result A × App) → App → List Bool → Result A × App
  unless_down call app [] = call app
  unless_down call app (true ∷ later) = (err redis_error, record app { outages = later })
  unless_down call app (false ∷ later) = call (record app { outages = later })

  -- A call of Redis, which is a `RedisError` where it cannot be reached.
  unfoldable pub on_redis : (App → Result A × App) → Endpoint A
  on_redis call app = unless_down call app app.outages

module _ {A B : Type 0} where
  abbrev pub proceed : Result A → (A → Endpoint B) → Endpoint B
  proceed (ok a) rest app = rest a app
  proceed (err e) rest app = (err e, app)

  infixl 5 ◌>>=◌ ◌>>◌
  unfoldable pub ◌>>=◌ : Endpoint A → (A → Endpoint B) → Endpoint B
  ◌>>=◌ m rest app = let (r, app') = m app in proceed r rest app'

  abbrev pub ◌>>◌ : Endpoint A → Endpoint B → Endpoint B
  m >> rest = m >>= λ _. rest

-- `raise` unless the test holds.
abbrev pub demand : Bool → AppError → Endpoint Done
demand test e app = (checked test e, app)

abbrev pub answer : {A : Type 0} → Result A → Endpoint A
answer r app = (r, app)

-- The body or the query of a request, which FastAPI validates after the dependencies have run.
abbrev pub validated : {A : Type 0} → Option A → Endpoint A
validated none app = (err validation_error, app)
validated (some a) app = (ok a, app)

-- `await session.commit()`
unfoldable pub commit_session : Endpoint Done
commit_session app = (ok tt, record app { saved = app.db })

module _ {A : Type 0} where
  abbrev pub close_session : Result A × App → Result A × App
  close_session (ok a, app) = (ok a, record app { saved = app.db })
  close_session (err e, app) = (err e, record app { db = app.saved })

  -- `get_session` around a request: a session on what is committed, which is committed when the
  -- endpoint returns and rolled back when it raises.
  unfoldable pub in_session : Endpoint A → Endpoint A
  in_session m app = close_session (m (record app { db = app.saved }))
