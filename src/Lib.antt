-- ===== src/Lib.antt =====
-- fastapi_project: a model of the FastAPI demonstration service in fastapi_app/.
--
-- The service keeps users and background jobs in dictionaries of its process, publishes events to
-- RabbitMQ, consumes messages from it, watches the broker, and pushes texts to WebSocket clients.
--
-- * Health, with its children, is fastapi_app/rmq/health.py: `HealthModule` is the module's globals
--   `_shared_channel` and `rmq_health` with the reports of the hooks, Health.Probe has the probes,
--   Health.Checker the loop `rmq_health_checker` cut into turns.
-- * Consumer is fastapi_app/rmq/consumer.py: the handler registry and `_process_message`. Its child
--   Pool has the tasks of `_spawn_task` with `_active_tasks`, the semaphore and `_drain_tasks`, Loop
--   has `rmq_consumer` cut into turns, and Flow joins the deliveries of its connections to the pool.
-- * Publisher is fastapi_app/rmq/publisher.py: `_get_channel`, `publish`, `close`. Its child
--   Lock has concurrent calls of `_get_channel`, Lifetime the connections that end meanwhile, and
--   Delivery joins it to the consumer.
-- * Store is `broadcast_ws` of fastapi_app/core/store.py.
-- * Users is fastapi_app/models/user.py, fastapi_app/core/dependencies.py (the users' dependencies)
--   and fastapi_app/routers/users.py, with `fake_users_db` as an argument. Its child Directory
--   says what the routes promise over a map that forgets the order, and Refinement joins the two.
-- * Jobs is fastapi_app/core/jobs.py, fastapi_app/routers/jobs.py and fastapi_app/models/job.py; its
--   child Timing has the two steps of an asynchronous job with their times, and Entries the same
--   program over the dictionaries that the code writes, with the responses that FastAPI validates.
-- * Auth is fastapi_app/auth/: access tokens, the dependency that reads them, and its child Rotation
--   the refresh tokens. These files use names that they do not import; the model takes them for what
--   they are elsewhere in the repository, or as arguments.
-- * App is fastapi_app/main.py: `lifespan`, which takes how the consumer and the health checker end.
--   Its child Endpoint has the loop of `websocket_endpoint`, Sockets all endpoints and broadcasts on
--   one list, Http the exception handlers and the timing middleware, Routing the routers of
--   fastapi_app/routers/ with their paths, Api a request to any route with the state that it acts
--   on, and Instances the globals that exist twice in a process, since the modules are imported with
--   the package's name and without it.
-- * Settings is fastapi_app/core/config.py, AsyncDemo is fastapi_app/routers/async_demo.py, Database
--   is fastapi_app/core/database.py (`get_db`) and alembic/env.py, and Migrations is
--   alembic/versions/89cc93b7e46d_initial.py and fastapi_app/models/orm/.
-- * Prelude, Python, Dict and Json are what they share: names of the libraries, exceptions and
--   outcomes, asyncio's `gather`, Python's dictionaries in their order of insertion, and JSON values.
--
-- How the code becomes definitions. A method that writes to an object returns the new record, and
-- code that raises returns an `Outcome`. A coroutine is cut at its awaits: what an awaited call of a
-- library does, how a sleep ends and what the clock shows are arguments, and the segments between
-- two awaits are steps, so that a list of steps is an interleaving of coroutines. Loops without end
-- run over a list of turns; no theorem depends on a bound of it. A worker thread is cut at its writes
-- to the store, and goes on when the await of it is cancelled. Times are numbers of ticks.
--
-- aio_pika, PyJWT, json, FastAPI's answers, its search for a route and its validation of responses,
-- alembic's operations, pydantic's stripping of texts, `str.lower` and `str()` are parameters with the
-- laws that the code relies on as fields. Not modelled are logging, CORS, the check of the types of a
-- request's fields, and the internals of SQLAlchemy and alembic.
mod Prelude
pub mod Python
pub mod Dict
pub mod Json
pub mod Health
pub mod Consumer
pub mod Publisher
pub mod Store
pub mod Users
pub mod Jobs
pub mod App
pub mod Database
pub mod Migrations
pub mod AsyncDemo
pub mod Auth
pub mod Settings
