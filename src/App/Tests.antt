-- ===== src/App/Tests.antt =====
-- Runs of the lifespan and of the WebSocket endpoint, and the theorems at concrete inputs.
use fastapi_project.Prelude.{◌↔◌, true, ◌≡◌, refl, false, some, List, [], ◌∷◌, arith}
use fastapi_project.Python.{
  amqp_connection_error, cancelled_error, websocket_disconnect, other_error, returned, raised, done,
}
use fastapi_project.Python.Lists.{remove}
use fastapi_project.Health.{fresh}
use fastapi_project.Health.Probe.{probe}
use fastapi_project.Health.Checker.{Round, observe, tick, turn, checker_loop, rmq_health_checker}
use fastapi_project.Health.Stopping
use fastapi_project.Consumer.Loop.{Attempt, attempt, inside, rmq_consumer}
use fastapi_project.Consumer.Loop
use fastapi_project.Consumer.Loop.Reconnect
use fastapi_project.Store.{joins, leaves, interfere_all}
use fastapi_project.App.{
  Exit, opened_client, created, cancelled, closed_publisher, closed_client, consumer_task,
  health_task, lifespan,
}
use fastapi_project.App.Lifespan.{
  Tasks, exit_of, IsCalm, lifespan_closes, closes_client, lifespan-closes_client_iff,
}
use fastapi_project.App.Endpoint.{Turn, EndpointState, websocket_endpoint}
use fastapi_project.App.Endpoint.Traces.{until_end, HoldsBesides, websocket_endpoint_holds}

app_defs : Unit {0}
unfolding lifespan websocket_endpoint remove interfere_all rmq_consumer Loop.turn attempt inside
    rmq_health_checker checker_loop turn tick observe probe
app_defs = tt

-- The broker cannot be reached, and both tasks are cancelled while they sleep.
abbrev failed_attempt : Attempt
failed_attempt = record {
  connect = raised amqp_connection_error;
  open_channel = returned 4;
  set_qos = done;
  declare_exchange = done;
  declare_queue = done;
  bind = done;
  messages = [];
  iteration = done;
  leave_connection = done;
  conn_is_closed = false;
  drain = done;
  close = done;
  sleep = raised cancelled_error;
}

abbrev failed_round : Round
failed_round = record {
  replies = record {
    channel_is_closed = false;
    connect = raised amqp_connection_error;
    open_channel = done;
    declare_queue = done;
    conn_is_closed = false;
    close = done;
  };
  now = 3;
  sleep = raised cancelled_error;
}

abbrev asleep : Tasks
asleep = record {
  attempts = failed_attempt ∷ [];
  loop_state = record { health = fresh; effects = [] };
  delay = done;
  rounds = failed_round ∷ [];
  health = fresh;
}

attempt-IsCalm : Reconnect.IsCalm failed_attempt
attempt-IsCalm = ground arith

round-IsCalm : Stopping.IsCalm failed_round
round-IsCalm = ground arith

asleep-IsCalm : IsCalm asleep
asleep-IsCalm = record {
  attempts = (attempt-IsCalm, tt);
  delay = λ d h. cc;
  rounds = (round-IsCalm, tt);
}

lifespan_closes_example : lifespan (exit_of asleep done done) ≡ (
  some done,
  opened_client
      ∷ created consumer_task
      ∷ created health_task
      ∷ cancelled consumer_task
      ∷ cancelled health_task
      ∷ closed_publisher
      ∷ closed_client
      ∷ [],
)
unfolding app_defs
lifespan_closes_example =
    lifespan_closes asleep done cancelled_error cancelled_error asleep-IsCalm refl refl

abbrev crashed : Exit
crashed = record {
  consumer_end = some cancelled_error;
  health_end = some (other_error "close");
  close_publisher = done;
  aclose = done;
}

crashed_run : (lifespan crashed).0 ≡ some (raised (other_error "close"))
unfolding app_defs
crashed_run = refl

lifespan-closes_client_iff_example : (closes_client (lifespan crashed).1 ≡ true) ↔ (
    (crashed.consumer_end ≡ some cancelled_error)
    × (crashed.health_end ≡ some cancelled_error)
    × (crashed.close_publisher ≡ done))
lifespan-closes_client_iff_example = lifespan-closes_client_iff crashed

-- A client sends a text while another joins, and goes away while the first of the list leaves.
abbrev visit : List Turn
visit =
    record { received = returned "hi"; sent = done; meanwhile = joins 3 ∷ [] }
    ∷ record { received = raised websocket_disconnect; sent = done; meanwhile = leaves 1 ∷ [] }
    ∷ []

abbrev one_open : EndpointState
one_open = record { active_connections = 1 ∷ []; echoed = [] }

visit_run :
    ((websocket_endpoint done 2 visit one_open).0 ≡ some done)
    × ((websocket_endpoint done 2 visit one_open).1.active_connections ≡ 3 ∷ [])
    × ((websocket_endpoint done 2 visit one_open).1.echoed ≡ "echo: hi" ∷ [])
unfolding app_defs
visit_run = (refl, refl, refl)

websocket_endpoint_holds_example :
    HoldsBesides 2
      (websocket_endpoint done 2 visit one_open).0
      (websocket_endpoint done 2 visit one_open).1.active_connections
      (interfere_all (until_end visit) (1 ∷ []))
unfolding app_defs
websocket_endpoint_holds_example =
    websocket_endpoint_holds 2 visit one_open (((λ h. cc), tt), (((λ h. cc), tt), tt)) refl
