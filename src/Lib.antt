-- ===== src/Lib.antt =====
-- TenantForge: a multi-tenant SaaS backend (FastAPI, SQLAlchemy, Redis). This library models its
-- API, its service layer, its queue and workers, its rate limiter and its seed script, and proves
-- what makes them correct.
--
-- The program. Routes (app/api) open a database session (app/database.py), authenticate the caller
-- and call one function of app/services; it reads and writes the tables of app/models and raises
-- `AppError` (app/core/errors.py) or an `IntegrityError`; the session is committed on return and
-- rolled back otherwise. Slow work goes into Redis lists (app/infrastructure/queue.py), from which
-- app/workers/worker.py takes it. app/infrastructure/rate_limit.py counts requests in Redis.
--
-- The files.
--   Prelude           texts, statements on tables (`scalar`, `select`, `exists`, updates, ordering),
--                     primary keys, the integers of Python where they may be negative
--   Model             app/models: one record for each table, enums, `World` for the database with
--                     its clock; app/core/errors.py; `datetime`; JSON values
--   Session           the session as a monad of state and errors, `transaction` for `get_session`;
--                     Session/Rules takes blocks apart, Session/Keeps proves invariants of blocks
--   Security          app/security: permissions, tokens and keys over their primitives
--   Services          app/services, a module for each file, with the same function names;
--                     Rows is the flush of a new row with its constraints; Periods is the billing
--                     period of usage.py; System is the state-changing calls of the services,
--                     but those of webhooks, together; Webhooks/Signature is the signature of a
--                     webhook request; Isolation is the services beside the rows of another tenant
--   Infrastructure    app/infrastructure/queue.py and rate_limit.py
--   Workers           app/workers/worker.py and jobs.py; Worker/Schedule is the line of tasks that
--                     the worker promises
--   Schemas           app/schemas: what is checked of a request, field by field
--   Api               app/api: Api is the state and the monad of a request, Deps is deps.py,
--                     Responses the response models, Email is app/services/email.py, Routes has
--                     the files of app/api/routes (Resources is projects.py, api_keys.py,
--                     usage.py, billing.py and audit.py), Requests is the routes as one function
--   Scripts           scripts/seed_demo.py; Seeded has its steps, Twice its second run
--   Tests             concrete runs
--
-- How the model stands to the code.
--   - A service is an action: from the database to a result and the database that was flushed.
--     `transaction` gives back the database of the start when the result is an exception. An inner
--     `session.rollback()` goes back to the start of the block that it guards, which is the start of
--     the transaction's writes in each use. Row locks (`with_for_update`) make the transactions that
--     touch the same rows run one after the other: the model runs them one after the other.
--   - Tables are lists with the newest row first. `uuid4()` is the next number of a counter; a token
--     from `secrets` is the next draw of another. `now()` is the clock of the database's state.
--     `updated_at` is set where a flush changes a column (the `touch_` functions of Services/Rows).
--     The two readings of the clock in `validate_webhook` are a first and a next one: the next
--     reading is a parameter. Every other call reads the clock of the state.
--   - `datetime` keeps year, month, day and the microsecond of the day in UTC, and is compared by
--     these; naive and aware values are told apart where the code does so. Adding a month clips the
--     day; the year 10000 is an error.
--   - Lower case and `strip` are those of ASCII. Quantities of usage are natural numbers. Messages
--     of errors, logs and metrics are left out; codes, statuses and headers are kept.
--   - A request runs on an `App`: the committed database, that of its session, the counters and lists
--     of Redis, and for each call of Redis to come whether it fails. FastAPI solves the dependencies
--     first and validates body and query after them. `get_session` commits when the endpoint returns;
--     two routes commit before they queue a job. A request is served whole before the next one.
--   - SHA-256, `secrets`, password hashing, JWT, HMAC, `isoformat` and the JSON texts are parameters:
--     the records `Primitives`, `Signing`, `Adapters`, `JsonCodec` and `WebhookCodec`. Theorems that
--     rest on reading back what was written say so.
--   - The `while` loop of `subscription_period` runs on fuel: a round for each month from the end of
--     the stored period to the present and two more, proved to be enough. `recover_in_flight` has a
--     round for each claimed entry, proved to be enough. `run_forever` is the run of a list of polls.
--
-- Not modelled: the syntax of paths, headers and JSON bodies (FastAPI and Pydantic), the routes of
-- health and metrics, configuration, logging, metrics and migrations: glue around other packages, or
-- data.
pub mod Prelude
pub mod Model
pub mod Session
pub mod Security
pub mod Services
pub mod Infrastructure
pub mod Workers
pub mod Schemas
pub mod Api
pub mod Scripts
pub mod Tests
