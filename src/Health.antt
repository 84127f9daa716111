-- ===== src/Health.antt =====
-- fastapi_app/rmq/health.py: the state that the health checker keeps, its event hooks and the
-- result of a probe. The module's two globals, `_shared_channel` and `rmq_health`, are the record
-- `HealthModule`, which also collects what the hooks report. A channel is a number that names it,
-- and a time is a number of ticks.
pub mod Probe
pub mod Checker
pub mod Probes
pub mod History
pub mod Stopping
pub mod Alerts
pub mod Invariant
pub mod Endpoint
mod Tests
use fastapi_project.Prelude.{ℕ, String, Bool, Option, none, some, List, [], ◌∷◌}
use fastapi_project.Python.{Outcome, returned, raised, attribute_error}
use fastapi_project.Python.Int.{pos}
use fastapi_project.Dict.{Dict}
use fastapi_project.Json.{Json, null, bool, int, str}

pub data RmqStatus : Type 0 where
  unknown alive dead recovered degraded : RmqStatus

-- The value of the enumeration's member, which is what JSON shows.
abbrev pub status_value : RmqStatus → String
status_value unknown = "unknown"
status_value alive = "alive"
status_value dead = "dead"
status_value recovered = "recovered"
status_value degraded = "degraded"

pub record RmqHealthState : Type 0 where
  pub status : RmqStatus
  pub last_checked : Option ℕ
  pub last_alive : Option ℕ
  pub last_dead : Option ℕ
  pub consecutive_failures : ℕ
  pub probe_method : String
  pub queue_exists : Option Bool

-- `RMQHealthState.__init__`
abbrev pub new_health : RmqHealthState
new_health = record {
  status = RmqStatus.unknown;
  last_checked = none;
  last_alive = none;
  last_dead = none;
  consecutive_failures = 0;
  probe_method = "none";
  queue_exists = none;
}

-- `datetime.isoformat` is the argument of `to_dict`.
module _ (isoformat : ℕ → String) where
  abbrev time_json : Option ℕ → Json
  time_json none = null
  time_json (some t) = str (isoformat t)

  abbrev flag_json : Option Bool → Json
  flag_json none = null
  flag_json (some b) = bool b

  unfoldable pub to_dict : RmqHealthState → Dict Json
  to_dict h =
      ("status", str (status_value h.status))
      ∷ ("queue_exists", flag_json h.queue_exists)
      ∷ ("probe_method", str h.probe_method)
      ∷ ("last_checked", time_json h.last_checked)
      ∷ ("last_alive", time_json h.last_alive)
      ∷ ("last_dead", time_json h.last_dead)
      ∷ ("consecutive_failures", int (pos h.consecutive_failures))
      ∷ []

-- What a hook, or the warning of a queue that is still missing, reports.
pub data Report : Type 0 where
  down : (at failures : ℕ) → Report
  recovery : (at : ℕ) → Report
  still_alive : (method : String) → Report
  still_dead : (failures : ℕ) → Report
  queue_missing : Report
  still_missing : (failures : ℕ) → Report

-- `last_dead.isoformat()` raises where `last_dead` is None.
unfoldable pub on_rabbitmq_down : RmqHealthState → Outcome Report
on_rabbitmq_down h = elim h.last_dead [
  | none ↦ raised attribute_error
  | some t ↦ returned (down t h.consecutive_failures)
]

-- `last_alive.isoformat()` raises where `last_alive` is None.
unfoldable pub on_rabbitmq_recovered : RmqHealthState → Outcome Report
on_rabbitmq_recovered h = elim h.last_alive [
  | none ↦ raised attribute_error
  | some t ↦ returned (recovery t)
]

unfoldable pub on_rabbitmq_still_alive : RmqHealthState → Outcome Report
on_rabbitmq_still_alive h = returned (still_alive h.probe_method)

unfoldable pub on_rabbitmq_still_dead : RmqHealthState → Outcome Report
on_rabbitmq_still_dead h = returned (still_dead h.consecutive_failures)

unfoldable pub on_queue_missing : RmqHealthState → Outcome Report
on_queue_missing h = returned queue_missing

pub record ProbeResult : Type 0 where
  pub broker_alive : Bool
  pub queue_exists : Option Bool
  pub method : String

-- The globals of the module; `reports` has the latest first.
pub record HealthModule : Type 0 where
  pub shared_channel : Option ℕ
  pub health : RmqHealthState
  pub reports : List Report

abbrev pub fresh : HealthModule
fresh = record { shared_channel = none; health = new_health; reports = [] }

unfoldable pub set_shared_channel : Option ℕ → HealthModule → HealthModule
set_shared_channel channel m = record m { shared_channel = channel }

-- What rmq/consumer.py writes here on a channel error.
unfoldable pub flag_degraded : HealthModule → HealthModule
unfolding set_shared_channel
flag_degraded m =
    set_shared_channel none (record m { health = record m.health { status = degraded } })
