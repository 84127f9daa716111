-- ===== src/App.antt =====
-- fastapi_app/main.py: the lifespan, which starts the consumer and the health checker and stops
-- them. How a background task ends is what `rmq_consumer` or `rmq_health_checker` gives, the turn
-- in which it is cancelled included.
pub mod Api
pub mod Routing
pub mod Lifespan
pub mod Endpoint
pub mod Http
pub mod Instances
pub mod Sockets
mod Tests
use fastapi_project.Prelude.{Option, none, some, List, [], ◌∷◌, ◌++◌}
use fastapi_project.Python.{
  Exn, cancelled_error, Outcome, returned, raised, Await, done, ◌>>=◌, ◌>>◌,
}

pub data Background : Type 0 where
  consumer_task health_task : Background

-- What the lifespan does, in order.
pub data Effect : Type 0 where
  opened_client : Effect
  created cancelled : Background → Effect
  closed_publisher closed_client : Effect

-- What the exit of the application finds: how each task ends once it is cancelled, where `none` is
-- a task that does not end, and how the two closes end.
pub record Exit : Type 0 where
  pub consumer_end : Option Exn
  pub health_end : Option Exn
  pub close_publisher : Await
  pub aclose : Await

-- A step of the exit: its result, or `none` if it waits for good, with what it did.
abbrev pub Stopped : Type 0
Stopped = Option Await × List Effect

abbrev pub also : List Effect → Stopped → Stopped
also es (out, fs) = (out, es ++ fs)

-- `try: await task`, where a cancellation is passed over, and what follows.
abbrev await_task : Option Exn → Stopped → Stopped
await_task none next = (none, [])
await_task (some cancelled_error) next = next
await_task (some e) next = (some (raised e), [])

-- `task.cancel()` has no effect on a task that has ended, whose exception is raised again.
stop_task : Background → Option Exn → Stopped → Stopped
stop_task task end_of next = also (cancelled task ∷ []) (await_task end_of next)

close_client : Exit → Stopped
close_client x = (some x.aclose, closed_client ∷ [])

-- `await close_publisher()`, then the client.
close_all : Exit → Stopped
unfolding close_client
close_all x =
    also (closed_publisher ∷ [])
      (elim x.close_publisher [ raised e ↦ (some (raised e), []) | returned _ ↦ close_client x ])

-- The code after `yield`.
unfoldable pub shut_down : Exit → Stopped
unfolding stop_task close_all
shut_down x =
    stop_task consumer_task x.consumer_end (stop_task health_task x.health_end (close_all x))

unfoldable pub lifespan : Exit → Stopped
unfolding shut_down
lifespan x = also (opened_client ∷ created consumer_task ∷ created health_task ∷ []) (shut_down x)
