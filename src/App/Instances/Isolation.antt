-- ===== src/App/Instances/Isolation.antt =====
-- The two instances of the globals do not meet: what the routes and the jobs see, and what the exit
-- closes.
use fastapi_project.Prelude.{ℕ, String, ◌≡◌, refl, ap, ◌∙◌, map, List, [], ◌∷◌, some, arith}
use fastapi_project.Python.{Await, done}
use fastapi_project.Health.{HealthModule, fresh, to_dict}
use fastapi_project.Publisher.{Library, PublisherState, Closed, get_channel}
use fastapi_project.Publisher
use fastapi_project.Store.{Send, collect, purge, broadcast_ws}
use fastapi_project.App.Instances.{
  Globals, Process, new_process, fresh_globals, ProcessStep, broadcasts, process_step, process_run,
  main_imports, job_imports, health_route_imports, users_route_imports, rabbitmq_health,
  close_publisher, job_connections, broadcast_on, alone,
}

-- The parts that nobody writes: the connections and the health state of one instance, and the
-- publisher of the other.
pub record IsIsolated (p : Process) : Type 0 where
  pub connections : p.top_level_globals.active_connections ≡ []
  pub health : p.top_level_globals.health ≡ fresh
  pub publisher : p.package_globals.publisher ≡ fresh_globals.publisher

broadcast_ws-nil : (ss : List Send) → broadcast_ws ss [] ≡ some (done, [])
unfolding broadcast_ws collect purge
broadcast_ws-nil [] = refl
broadcast_ws-nil (s ∷ ss) = refl

broadcast_on-nil :
    (outs : List Await) (g : Globals)
    → g.active_connections ≡ []
    → ((broadcast_on outs g).active_connections ≡ []) × ((broadcast_on outs g).health ≡ g.health)
unfolding broadcast_on
broadcast_on-nil outs g h = ground (arith, broadcast_ws-nil (map alone outs))

process_step-IsIsolated :
    (s : ProcessStep) (p : Process) → IsIsolated p → IsIsolated (process_step s p)
unfolding process_step main_imports job_imports users_route_imports
process_step-IsIsolated (broadcasts outs) p h =
    let (none_open, same) = broadcast_on-nil outs p.top_level_globals h.connections in
    record { connections = none_open; health = same ∙ h.health; publisher = h.publisher }
process_step-IsIsolated s p h = record {
  connections = h.connections;
  health = h.health;
  publisher = h.publisher;
}

process_run-IsIsolated :
    (ss : List ProcessStep) (p : Process) → IsIsolated p → IsIsolated (process_run ss p)
unfolding process_run
process_run-IsIsolated [] p h = h
process_run-IsIsolated (s ∷ ss) p h =
    process_run-IsIsolated ss (process_step s p) (process_step-IsIsolated s p h)

new_process-IsIsolated : IsIsolated new_process
new_process-IsIsolated = record { connections = refl; health = refl; publisher = refl }

-- Whatever a new process does, GET /health/rabbitmq shows the state from before the first probe, a
-- job's broadcast sends to nobody, whoever is connected to the endpoint, and the exit of the
-- application closes no connection of the publisher, whatever the routes have published.
pub process_disconnected :
    (isoformat : ℕ → String) (lib : Library) (ss : List ProcessStep)
    → let p = process_run ss new_process in
      (rabbitmq_health isoformat p ≡ to_dict isoformat fresh.health)
      × (job_connections p ≡ [])
      × (close_publisher lib p ≡ (done, []))
unfolding rabbitmq_health job_connections close_publisher job_imports main_imports
    health_route_imports Publisher.close
process_disconnected isoformat lib ss =
    let isolated = process_run-IsIsolated ss new_process new_process-IsIsolated in
    (
      ap (λ (m : HealthModule). to_dict isoformat m.health) isolated.health,
      isolated.connections,
      ap (λ (s : PublisherState). Publisher.close lib s) isolated.publisher,
    )
