-- ===== src/Health/Tests.antt =====
-- Runs of the health checker, and its theorems at concrete inputs.
use fastapi_project.Prelude.{◌≡◌, refl, true, false, some, List, [], ◌∷◌}
use fastapi_project.Python.{
  amqp_channel_error, cancelled_error, timeout_error, other_error, raised, Await, done,
}
use fastapi_project.Health.{
  dead, down, recovery, still_missing, ProbeResult, HealthModule, fresh, set_shared_channel,
}
use fastapi_project.Health.Probe.{ProbeReplies, probe, result}
use fastapi_project.Health.Checker.{observe, tick, Round, turn, checker_loop, rmq_health_checker}
use fastapi_project.Health.History.{Event, observed, flagged, after, Agrees, after-Agrees}
use fastapi_project.Health.Alerts.{flagged_silences, alerts}
use fastapi_project.Health.Invariant.{IsValid, fresh-IsValid, checker_loop-IsValid}

-- All the definitions of the component, for `unfolding` lines.
health_defs : Unit {0}
unfolding probe observe tick turn checker_loop rmq_health_checker set_shared_channel after
health_defs = tt

abbrev all_well : ProbeReplies
all_well = record {
  channel_is_closed = false;
  connect = done;
  open_channel = done;
  declare_queue = done;
  conn_is_closed = false;
  close = done;
}

abbrev queue_gone : ProbeReplies
queue_gone = record all_well { declare_queue = raised amqp_channel_error }

abbrev unreachable : ProbeReplies
unreachable = record all_well { connect = raised timeout_error }

abbrev stuck_close : ProbeReplies
stuck_close = record all_well { close = raised (other_error "close") }

abbrev cancelled_probe : ProbeReplies
cancelled_probe = record all_well { connect = raised cancelled_error }

abbrev round_of : ProbeReplies → Await → Round
round_of r sleep = record { replies = r; now = 7; sleep = sleep }

abbrev with_channel : HealthModule
with_channel = record fresh { shared_channel = some 1 }

abbrev passive_found : ProbeResult
passive_found = result true (some true) "passive"

abbrev passive_missing : ProbeResult
passive_missing = result true (some false) "passive"

abbrev new_found : ProbeResult
new_found = result true (some true) "new_connection"

abbrev two_rounds : List Round
two_rounds = round_of all_well done ∷ round_of unreachable (raised cancelled_error) ∷ []

-- A healthy round, a dead broker, and a cancellation during the sleep.
two_rounds_run :
    ((checker_loop two_rounds fresh).0 ≡ some cancelled_error)
    × ((checker_loop two_rounds fresh).1.health.status ≡ dead)
    × ((checker_loop two_rounds fresh).1.reports ≡ down 7 1 ∷ recovery 7 ∷ [])
unfolding health_defs
two_rounds_run = (refl, refl, refl)

abbrev flagged_history : List Event
flagged_history = observed passive_missing 3 ∷ flagged ∷ observed passive_found 1 ∷ []

flagged_run : (after flagged_history).reports ≡ still_missing 1 ∷ recovery 1 ∷ []
unfolding health_defs
flagged_run = refl

after-Agrees_example : Agrees flagged_history (after flagged_history)
after-Agrees_example = after-Agrees flagged_history

flagged_silences_example :
    alerts (after flagged_history).reports ≡ alerts (after (observed passive_found 1 ∷ [])).reports
flagged_silences_example =
    flagged_silences (observed passive_missing 3 ∷ []) (observed passive_found 1 ∷ []) (refl, tt)

checker_loop-IsValid_example : IsValid (checker_loop two_rounds fresh).1
checker_loop-IsValid_example = checker_loop-IsValid two_rounds fresh fresh-IsValid
