-- ===== src/Health/Probe.antt =====
-- fastapi_app/rmq/health.py: the two probe strategies and the choice between them. What the
-- broker and aio_pika do during one probe is the argument `ProbeReplies`.
use fastapi_project.Prelude.{Bool, true, false, not, Option, none, some, if◌then◌else◌, String}
use fastapi_project.Python.{
  amqp_channel_error, is_exception, Outcome, returned, raised, ◌>>=◌, ◌>>◌, Await,
}
use fastapi_project.Health.{ProbeResult, HealthModule, set_shared_channel}

-- The replies during one probe: what `is_closed` reads and how each await ends. Of the two calls
-- of `declare_queue` in the source a probe makes at most one.
pub record ProbeReplies : Type 0 where
  pub channel_is_closed : Bool
  pub connect : Await
  pub open_channel : Await
  pub declare_queue : Await
  pub conn_is_closed : Bool
  pub close : Await

abbrev pub result : Bool → Option Bool → String → ProbeResult
result broker queue method = record { broker_alive = broker; queue_exists = queue; method = method }

-- The `try` of `_probe_passive`, by how `declare_queue` ended.
passive_result : Await → HealthModule → Outcome ProbeResult × HealthModule
passive_result (returned _) m = (returned (result true (some true) "passive"), m)
passive_result (raised amqp_channel_error) m =
    (returned (result true (some false) "passive"), set_shared_channel none m)
passive_result (raised e) m =
    if is_exception e
    then (returned (result false none "passive"), set_shared_channel none m)
    else (raised e, m)

unfoldable pub probe_passive : ProbeReplies → HealthModule → Outcome ProbeResult × HealthModule
unfolding passive_result
probe_passive r m = passive_result r.declare_queue m

-- The inner `try` of `_probe_new_connection`.
queue_check : Await → Outcome Bool
queue_check (returned _) = returned true
queue_check (raised amqp_channel_error) = returned false
queue_check (raised e) = raised e

-- The outer `try`, up to its `except`.
unfoldable pub try_connection : ProbeReplies → Outcome ProbeResult
unfolding queue_check
try_connection r = do
  r.connect
  r.open_channel
  exists ← queue_check r.declare_queue
  returned (result true (some exists) "new_connection")

-- Its `except Exception`.
unfoldable pub failed_connection : Outcome ProbeResult → Outcome ProbeResult
failed_connection (returned p) = returned p
failed_connection (raised e) =
    if is_exception e then returned (result false none "new_connection") else raised e

-- Its `finally`: `conn` is None where `connect` raised, and an error of `close` replaces what was
-- to be returned or raised.
unfoldable pub close_connection : ProbeReplies → Outcome ProbeResult → Outcome ProbeResult
close_connection r out = elim r.connect [
  | raised _ ↦ out
  | returned _ ↦ if not r.conn_is_closed then (do r.close; out) else out
]

unfoldable pub probe_new_connection : ProbeReplies → Outcome ProbeResult
unfolding try_connection failed_connection close_connection
probe_new_connection r = close_connection r (failed_connection (try_connection r))

-- `_probe`
unfoldable pub probe : ProbeReplies → HealthModule → Outcome ProbeResult × HealthModule
unfolding probe_passive probe_new_connection
probe r m = elim m.shared_channel [
  | none ↦ (probe_new_connection r, m)
  | some c ↦ if not r.channel_is_closed then probe_passive r m else (probe_new_connection r, m)
]
