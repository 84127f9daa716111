-- ===== src/Consumer/Loop.antt =====
-- fastapi_app/rmq/consumer.py: `rmq_consumer`. One turn of its loop is an `Attempt`: what aio_pika
-- does during it, the messages that the iterator yields, and how the sleep of a handler ends.
pub mod Reconnect
pub mod Shutdown
use fastapi_project.Prelude.{
  ℕ, ◌≡◌, Bool, true, false, not, Option, none, some, List, [], ◌∷◌, ◌++◌, if◌then◌else◌,
}
use fastapi_project.Python.{
  Exn, amqp_channel_error, amqp_connection_error, cancelled_error, Outcome, returned, raised, ◌>>=◌,
  ◌>>◌, Await, done,
}
use fastapi_project.Health.{HealthModule, set_shared_channel, flag_degraded}

-- What the loop does to the outside, latest first: a task for a message, the exit of the `async
-- with connection`, the drain, and the close of a connection that is still open.
pub data Effect : Type 0 where
  spawned : ℕ → Effect
  left_connection drained closed_connection : Effect

pub record Attempt : Type 0 where
  pub connect : Await
  pub open_channel : Outcome ℕ
  pub set_qos : Await
  pub declare_exchange : Await
  pub declare_queue : Await
  pub bind : Await
  pub messages : List ℕ
  pub iteration : Await
  pub leave_connection : Await
  pub conn_is_closed : Bool
  pub drain : Await
  pub close : Await
  pub sleep : Await

-- The globals of rmq/health.py that the loop writes, and its effects.
pub record LoopState : Type 0 where
  pub health : HealthModule
  pub effects : List Effect

log : Effect → LoopState → LoopState
log e s = record s { effects = e ∷ s.effects }

unfoldable pub share : Option ℕ → LoopState → LoopState
unfolding set_shared_channel
share c s = record s { health = set_shared_channel c s.health }

-- `async for message in messages: _spawn_task(message)`
unfoldable pub spawn_all : List ℕ → LoopState → LoopState
unfolding log
spawn_all [] s = s
spawn_all (message ∷ messages) s = spawn_all messages (log (spawned message) s)

-- The calls between the channel and the iterator.
set_up : Attempt → Await
set_up a = do a.set_qos; a.declare_exchange; a.declare_queue; a.bind

unfoldable pub consume : Attempt → LoopState → Await × LoopState
unfolding spawn_all set_up
consume a s = elim (set_up a) [
  | raised e ↦ (raised e, s)
  | returned _ ↦ (a.iteration, spawn_all a.messages s)
]

-- The body of `async with connection`.
unfoldable pub inside : Attempt → LoopState → Await × LoopState
unfolding consume share
inside a s = elim a.open_channel [
  | raised e ↦ (raised e, s)
  | returned c ↦ consume a (share (some c) s)
]

-- The exit of `async with connection` closes it; an error of the exit replaces the other.
unfoldable pub leave : Attempt → Await × LoopState → Await × LoopState
unfolding log
leave a (out, s) =
    (elim a.leave_connection [ raised e ↦ raised e | returned _ ↦ out ], log left_connection s)

-- The `try` of the loop.
unfoldable pub attempt : Attempt → LoopState → Await × LoopState
unfolding inside leave
attempt a s = elim a.connect [ raised e ↦ (raised e, s) | returned _ ↦ leave a (inside a s) ]

-- `except CancelledError`: the drain, and the close where `connection` was set and is still open.
-- What is raised meanwhile replaces the cancellation.
unfoldable pub close_open : Attempt → LoopState → Await × LoopState
unfolding log
close_open a s = elim a.connect [
  | raised _ ↦ (raised cancelled_error, s)
  | returned _ ↦
      if not a.conn_is_closed
      then ((do a.close; raised cancelled_error), log closed_connection s)
      else (raised cancelled_error, s)
]

unfoldable pub on_cancelled : Attempt → LoopState → Await × LoopState
unfolding log share close_open
on_cancelled a s =
    let s' = log drained (share none s) in
    elim a.drain [ raised e ↦ (raised e, s') | returned _ ↦ close_open a s' ]

-- The `except` clauses, in their order. Each ends in a sleep or raises, and an exception in a
-- clause leaves the loop.
unfoldable pub handle : Attempt → Exn → LoopState → Await × LoopState
unfolding on_cancelled flag_degraded
handle a amqp_channel_error s = (a.sleep, record s { health = flag_degraded s.health })
handle a amqp_connection_error s = (a.sleep, share none s)
handle a cancelled_error s = on_cancelled a s
handle a e s = (a.sleep, share none s)

unfoldable pub after_attempt : Attempt → Await × LoopState → Await × LoopState
unfolding handle
after_attempt a (returned u, s) = (done, s)
after_attempt a (raised e, s) = handle a e s

-- One turn of `while True`.
unfoldable pub turn : Attempt → LoopState → Await × LoopState
unfolding after_attempt
turn a s = after_attempt a (attempt a s)

-- The loop over the turns that are given: `none` means that it is still running after them.
unfoldable pub rmq_consumer : List Attempt → LoopState → Option Exn × LoopState
rmq_consumer [] s = (none, s)
rmq_consumer (a ∷ rest) s =
    let (out, s') = turn a s in
    elim out [ raised e ↦ (some e, s') | returned _ ↦ rmq_consumer rest s' ]
