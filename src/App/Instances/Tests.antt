-- ===== src/App/Instances/Tests.antt =====
-- A process in which the broker is up, a client is connected, and a route has published.
use fastapi_project.Prelude.{ℕ, ◌≡◌, refl, true, false, List, [], ◌∷◌, nat_eq, if◌then◌else◌, arith}
use fastapi_project.Python.{Outcome, returned, raised, other_error, done}
use fastapi_project.Health.{fresh, to_dict}
use fastapi_project.Health.Checker.{Round}
use fastapi_project.Publisher.{Library}
use fastapi_project.App.Instances.{
  new_process, ProcessStep, joins, checks, publishes, broadcasts, process_run, rabbitmq_health,
  close_publisher, job_connections,
}
use fastapi_project.App.Instances.Isolation.{process_disconnected}

abbrev healthy : Round
healthy = record {
  replies = record {
    channel_is_closed = false;
    connect = done;
    open_channel = done;
    declare_queue = done;
    conn_is_closed = false;
    close = done;
  };
  now = 3;
  sleep = done;
}

only_7 : (c : ℕ) → nat_eq c 7 ≡ true → nat_eq 7 7 ≡ true
only_7 c h = refl

connected_7 : (k : ℕ) → ◌≡◌ {A = Outcome ℕ} (returned 7) (returned k) → nat_eq k 7 ≡ true
connected_7 k h = ground arith

abbrev opens_7 : ℕ → Outcome ℕ
opens_7 k = if nat_eq k 7 then returned 7 else raised (other_error "closed")

opened_7 : (k c : ℕ) → opens_7 k ≡ returned c → (nat_eq c 7 ≡ true) × (7 ≡ k)
opened_7 k c h = ground arith

abbrev library : Library
library = record {
  conn_open = λ k. nat_eq k 7;
  chan_open = λ c. nat_eq c 7;
  chan_conn = λ c. 7;
  connect_robust = returned 7;
  open_channel = opens_7;
  declare_exchange = done;
  exchange_publish = done;
  close_channel = done;
  close_connection = done;
  chan_open_lem = only_7;
  connect_lem = connected_7;
  open_lem = opened_7;
}

abbrev busy : List ProcessStep
busy = joins 1 ∷ checks healthy ∷ publishes library ∷ broadcasts (done ∷ []) ∷ []

process_disconnected_example :
    (rabbitmq_health (λ t. "now") (process_run busy new_process)
      ≡ to_dict (λ t. "now") fresh.health)
    × (job_connections (process_run busy new_process) ≡ [])
    × (close_publisher library (process_run busy new_process) ≡ (done, []))
process_disconnected_example = process_disconnected (λ t. "now") library busy
