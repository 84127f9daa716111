-- ===== src/Consumer/Tests.antt =====
-- Messages that the consumer processes, and the theorems at concrete inputs.
use fastapi_project.Prelude.{
  ◌+◌, ◌≤◌, ◌⊎◌, ◌≢◌, length, if◌then◌else◌, ◌≡◌, refl, true, false, Option, none, some, List, [],
  ◌∷◌, arith,
}
use fastapi_project.Python.{Exn, amqp_connection_error, cancelled_error, returned, raised, done}
use fastapi_project.Health.{fresh}
use fastapi_project.Python.Lists.{remove, discard}
use fastapi_project.Consumer.Pool.{
  idle, PoolStep, spawned, begun, finished, pool_step, spawn, begin, finish, pool_run, drain_tasks,
}
use fastapi_project.Consumer.Pool.Slots.{IsBalanced, idle-IsBalanced, pool_run-IsBalanced}
use fastapi_project.Consumer.Pool.Draining.{steps_left, pool_ends}
use fastapi_project.Consumer.Loop.{Attempt, LoopState, inside, attempt, turn, rmq_consumer}
use fastapi_project.Consumer.Loop.Reconnect.{IsCalm, consumer_cancelled}
use fastapi_project.Consumer.Loop.Shutdown.{drains, was_cancelled, turn_drains}
use fastapi_project.Dict
use fastapi_project.Dict.{Dict}
use fastapi_project.Json.{Json, str}
use fastapi_project.Consumer.{
  acked, nacked, rejected, example_handlers, event_type_of, find_handler, process_message,
}
use fastapi_project.Consumer.Settling.{fate, settlement, process_message_settles}
use fastapi_project.Consumer.Samples.{sample_api, sample_codec, sample_handlers, is_cancelled}

consumer_defs : Unit {0}
unfolding process_message example_handlers event_type_of find_handler Dict.get Dict.set
consumer_defs = tt

pool_defs : Unit {0}
unfolding pool_run drain_tasks pool_step finish remove begin spawn discard
pool_defs = tt

loop_defs : Unit {0}
unfolding rmq_consumer turn attempt inside
loop_defs = tt

abbrev asking : Option (Dict Json)
asking = some (("event_type", str "job.requested") ∷ [])

-- Bad JSON and an unknown type are acknowledged, a failed handler requeues, a cancelled one drops.
settling_tests :
    ((process_message sample_api sample_codec sample_handlers none).1 ≡ acked)
    × ((process_message sample_api sample_codec sample_handlers (some [])).1 ≡ acked)
    × ((process_message sample_api sample_codec sample_handlers asking).1 ≡ nacked true)
    × ((process_message sample_api sample_codec (("job.requested", is_cancelled) ∷ []) asking).1
        ≡ rejected false)
unfolding consumer_defs
settling_tests = (refl, refl, refl, refl)

process_message_settles_example :
    (process_message sample_api sample_codec sample_handlers asking).1
    ≡ settlement sample_api sample_codec sample_handlers
        (fate sample_api sample_codec sample_handlers asking)
process_message_settles_example =
    process_message_settles sample_api sample_codec sample_handlers asking

-- Three tasks ask for two slots: the third waits, and has the slot that the first leaves.
abbrev three_tasks : List PoolStep
three_tasks = spawned 1 ∷ spawned 2 ∷ spawned 3 ∷ begun 1 ∷ begun 2 ∷ begun 3 ∷ finished 1 ∷ []

pool_tests :
    ((pool_run 2 three_tasks idle).running ≡ 2 ∷ 3 ∷ [])
    × ((pool_run 2 three_tasks idle).semaphore ≡ some 0)
    × (drain_tasks 2 false (pool_run 2 three_tasks idle) ≡ 2 ∷ 3 ∷ [])
unfolding pool_defs
pool_tests = (refl, refl, refl)

pool_run-IsBalanced_example : IsBalanced 2 (pool_run 2 three_tasks idle)
pool_run-IsBalanced_example = pool_run-IsBalanced 2 three_tasks idle (idle-IsBalanced 2)

-- A turn that connects, yields two messages, and is then cancelled inside the connection.
abbrev stopped_inside : Attempt
stopped_inside = record {
  connect = done;
  open_channel = returned 4;
  set_qos = done;
  declare_exchange = done;
  declare_queue = done;
  bind = done;
  messages = 1 ∷ 2 ∷ [];
  iteration = raised cancelled_error;
  leave_connection = done;
  conn_is_closed = true;
  drain = done;
  close = done;
  sleep = done;
}

-- The broker goes away, and the sleep before the next turn is cancelled, or is not.
abbrev stopped_asleep : Attempt
stopped_asleep = record stopped_inside {
  iteration = raised amqp_connection_error;
  sleep = raised cancelled_error;
}

abbrev lost : Attempt
lost = record stopped_asleep { sleep = done }

abbrev at_start : LoopState
at_start = record { health = fresh; effects = [] }

lost-IsCalm : IsCalm lost
lost-IsCalm = ground arith

stopped-IsCalm : IsCalm stopped_inside
stopped-IsCalm = ground arith

consumer_cancelled_example : ◌≡◌ {A = Exn} cancelled_error cancelled_error
unfolding loop_defs
consumer_cancelled_example =
    consumer_cancelled (lost ∷ stopped_inside ∷ []) at_start cancelled_error
      (lost-IsCalm, (stopped-IsCalm, tt)) refl

-- The cancelled sleep: no drain.
turn_drains_example :
    drains (turn stopped_asleep at_start).1.effects
    ≡ drains at_start.effects + (if was_cancelled (attempt stopped_asleep at_start).0 then 1 else 0)
turn_drains_example = turn_drains stopped_asleep at_start

asleep_run : drains (turn stopped_asleep at_start).1.effects ≡ 0
unfolding loop_defs
asleep_run = refl

-- One slot: the second task waits, and gets it when the first ends.
is_some : {A : Type 0} → {a : A} → some a ≢ none
is_some h = cc

abbrev two_begun : List PoolStep
two_begun = spawned 1 ∷ spawned 2 ∷ begun 1 ∷ begun 2 ∷ []

abbrev both_end : List PoolStep
both_end = finished 1 ∷ finished 2 ∷ []

pool_ends_example :
    (length both_end ≤ steps_left (pool_run 1 two_begun idle))
    × (((pool_run 1 both_end (pool_run 1 two_begun idle)).active ≡ [])
        ⊎ (1
            ≤ length (pool_run 1 both_end (pool_run 1 two_begun idle)).created
              + length (pool_run 1 both_end (pool_run 1 two_begun idle)).running))
unfolding pool_defs
pool_ends_example = pool_ends 1 two_begun both_end (omega arith) (is_some, (is_some, tt))
