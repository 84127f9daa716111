-- ===== src/App/Instances.antt =====
-- The modules of fastapi_app/ are imported under two names, as fastapi_app.core.store and as
-- core.store, and Python makes a module of its own for each name. A process thus has two instances
-- of the globals of core/store.py, rmq/health.py and rmq/publisher.py; which one a part of the
-- program uses is said by its imports.
pub mod Isolation
mod Tests
use fastapi_project.Prelude.{ℕ, String, Option, none, some, List, [], ◌∷◌, ◌++◌, map}
use fastapi_project.Python.{Outcome, Await}
use fastapi_project.Python.Lists.{discard}
use fastapi_project.Dict.{Dict}
use fastapi_project.Json.{Json}
use fastapi_project.Health.{HealthModule, fresh, to_dict}
use fastapi_project.Health.Checker.{Round}
use fastapi_project.Health.Checker
use fastapi_project.Consumer.Loop.{Attempt, LoopState}
use fastapi_project.Consumer.Loop
use fastapi_project.Publisher.{Library, PublisherState, get_channel, Closed}
use fastapi_project.Publisher
use fastapi_project.Store.{Send, broadcast_ws}

-- The name that a module is imported by: with the package fastapi_app, or without.
pub data Instance : Type 0 where
  in_package top_level : Instance

-- The globals of one instance.
pub record Globals : Type 0 where
  pub active_connections : List ℕ
  pub health : HealthModule
  pub publisher : PublisherState

pub record Process : Type 0 where
  pub package_globals : Globals
  pub top_level_globals : Globals

abbrev pub globals : Instance → Process → Globals
globals in_package p = p.package_globals
globals top_level p = p.top_level_globals

abbrev pub with_globals : Instance → Globals → Process → Process
with_globals in_package g p = record p { package_globals = g }
with_globals top_level g p = record p { top_level_globals = g }

abbrev pub fresh_globals : Globals
fresh_globals = record {
  active_connections = [];
  health = fresh;
  publisher = record { connection = none; channel = none };
}

abbrev pub new_process : Process
new_process = record { package_globals = fresh_globals; top_level_globals = fresh_globals }

-- What main.py imports: the list of connections of its endpoint, the consumer and the checker, and
-- the publisher that its exit closes. rmq/consumer.py imports fastapi_app.rmq.health too.
unfoldable pub main_imports : Instance
main_imports = in_package

-- What core/jobs.py, routers/health.py and routers/users.py import.
unfoldable pub job_imports : Instance
job_imports = top_level

unfoldable pub health_route_imports : Instance
health_route_imports = top_level

unfoldable pub users_route_imports : Instance
users_route_imports = top_level

-- A message that is sent while the other coroutines do nothing to this list.
abbrev alone : Await → Send
alone out = record { outcome = out; meanwhile = [] }

-- What happens in the process: a client of the endpoint comes or goes, the checker or the consumer
-- makes a turn, a job broadcasts, a route publishes.
pub data ProcessStep : Type 0 where
  joins leaves : ℕ → ProcessStep
  checks : Round → ProcessStep
  consumes : Attempt → ProcessStep
  broadcasts : List Await → ProcessStep
  publishes : Library → ProcessStep

change : Instance → (Globals → Globals) → Process → Process
change i f p = with_globals i (f (globals i p)) p

broadcast_on : List Await → Globals → Globals
broadcast_on outs g = elim (broadcast_ws (map alone outs) g.active_connections) [
  | none ↦ g
  | some (out, conns) ↦ record g { active_connections = conns }
]

unfoldable pub process_step : ProcessStep → Process → Process
unfolding change broadcast_on
process_step (joins ws) p =
    change main_imports (λ g. record g { active_connections = g.active_connections ++ ws ∷ [] }) p
process_step (leaves ws) p =
    change main_imports (λ g. record g { active_connections = discard ws g.active_connections }) p
process_step (checks r) p =
    change main_imports (λ g. record g { health = (Checker.turn r g.health).1 }) p
process_step (consumes a) p =
    change main_imports
      (λ g. record g {
        health = (Loop.turn a (record { health = g.health; effects = [] })).1.health;
      })
      p
process_step (broadcasts outs) p = change job_imports (broadcast_on outs) p
process_step (publishes lib) p =
    change users_route_imports (λ g. record g { publisher = (get_channel lib g.publisher).1 }) p

unfoldable pub process_run : List ProcessStep → Process → Process
process_run [] p = p
process_run (s ∷ ss) p = process_run ss (process_step s p)

-- GET /health/rabbitmq: `rmq_health.to_dict()`
unfoldable pub rabbitmq_health : (isoformat : ℕ → String) → Process → Dict Json
rabbitmq_health isoformat p = to_dict isoformat (globals health_route_imports p).health.health

-- What `close_publisher` of the lifespan closes.
unfoldable pub close_publisher : Library → Process → Await × List Closed
close_publisher lib p = Publisher.close lib (globals main_imports p).publisher

-- The connections to which `broadcast_ws` of a job sends.
unfoldable pub job_connections : Process → List ℕ
job_connections p = (globals job_imports p).active_connections
