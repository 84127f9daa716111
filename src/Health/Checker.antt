-- ===== src/Health/Checker.antt =====
-- fastapi_app/rmq/health.py: `rmq_health_checker`. One turn of its loop is a `Round`: the replies
-- of the broker, the time that is read, and how the sleep after it ends.
use fastapi_project.Prelude.{
  ℕ, ◌+◌, Bool, true, false, not, ◌&&◌, Option, none, some, List, [], ◌∷◌, if◌then◌else◌,
}
use fastapi_project.Python.{Exn, Outcome, returned, raised, Await, done}
use fastapi_project.Health.{
  RmqStatus, unknown, alive, dead, recovered, degraded, Report, still_missing, on_rabbitmq_down,
  on_rabbitmq_recovered, on_rabbitmq_still_alive, on_rabbitmq_still_dead, on_queue_missing,
  ProbeResult, HealthModule,
}
use fastapi_project.Health.Probe.{ProbeReplies, probe}

-- `prev_status in (RMQStatus.DEAD, RMQStatus.UNKNOWN, RMQStatus.DEGRADED)`
abbrev was_failing : RmqStatus → Bool
was_failing dead = true
was_failing unknown = true
was_failing degraded = true
was_failing _ = false

abbrev is_degraded : RmqStatus → Bool
is_degraded degraded = true
is_degraded _ = false

abbrev is_dead : RmqStatus → Bool
is_dead dead = true
is_dead _ = false

-- The truth value of `queue_exists`, where None is false.
abbrev pub truthy : Option Bool → Bool
truthy (some b) = b
truthy none = false

-- Awaiting a hook on the state as it now is: it reports, or its exception leaves the loop.
fire : Outcome Report → HealthModule → Await × HealthModule
fire (returned r) m = (done, record m { reports = r ∷ m.reports })
fire (raised e) m = (raised e, m)

fully_healthy : RmqStatus → ℕ → HealthModule → Await × HealthModule
unfolding fire on_rabbitmq_recovered on_rabbitmq_still_alive
fully_healthy prev now m =
    let h = record m.health { last_alive = some now; consecutive_failures = 0 } in
    let up = record h { status = recovered } in
    let still = record h { status = alive } in
    if was_failing prev
    then fire (on_rabbitmq_recovered up) (record m { health = up })
    else fire (on_rabbitmq_still_alive still) (record m { health = still })

missing_queue : RmqStatus → ℕ → HealthModule → Await × HealthModule
unfolding fire on_queue_missing
missing_queue prev now m =
    let h = record m.health { consecutive_failures = m.health.consecutive_failures + 1 } in
    let broken = record h { status = degraded; last_dead = some now } in
    if not (is_degraded prev)
    then fire (on_queue_missing broken) (record m { health = broken })
    else fire (returned (still_missing h.consecutive_failures)) (record m { health = h })

broker_down : RmqStatus → ℕ → HealthModule → Await × HealthModule
unfolding fire on_rabbitmq_down on_rabbitmq_still_dead
broker_down prev now m =
    let h = record m.health { consecutive_failures = m.health.consecutive_failures + 1 } in
    let lost = record h { status = dead; last_dead = some now } in
    if not (is_dead prev)
    then fire (on_rabbitmq_down lost) (record m { health = lost })
    else fire (on_rabbitmq_still_dead h) (record m { health = h })

-- The body of the loop after `_probe` has returned.
unfoldable pub observe : ProbeResult → ℕ → HealthModule → Await × HealthModule
unfolding fully_healthy missing_queue broker_down
observe r now m =
    let h = record m.health {
      last_checked = some now;
      probe_method = r.method;
      queue_exists = r.queue_exists;
    } in
    let m' = record m { health = h } in
    if r.broker_alive && truthy r.queue_exists
    then fully_healthy m.health.status now m'
    else if r.broker_alive && not (truthy r.queue_exists)
    then missing_queue m.health.status now m'
    else broker_down m.health.status now m'

unfoldable pub after_probe : ℕ → Outcome ProbeResult × HealthModule → Await × HealthModule
after_probe now (returned r, m) = observe r now m
after_probe now (raised e, m) = (raised e, m)

-- The `try` of the loop: no exception stays in it, as its only handler raises again.
unfoldable pub tick : ProbeReplies → ℕ → HealthModule → Await × HealthModule
unfolding after_probe
tick replies now m = after_probe now (probe replies m)

pub record Round : Type 0 where
  pub replies : ProbeReplies
  pub now : ℕ
  pub sleep : Await

-- One turn of `while True`: the probe and, if nothing was raised, the sleep.
unfoldable pub turn : Round → HealthModule → Await × HealthModule
turn r m =
    let (out, m') = tick r.replies r.now m in
    elim out [ raised e ↦ (raised e, m') | returned _ ↦ (r.sleep, m') ]

-- The loop over the turns that are given: `none` means that it is still running after them.
unfoldable pub checker_loop : List Round → HealthModule → Option Exn × HealthModule
checker_loop [] m = (none, m)
checker_loop (r ∷ rs) m =
    let (out, m') = turn r m in
    elim out [ raised e ↦ (some e, m') | returned _ ↦ checker_loop rs m' ]

-- The sleep before the first probe, and the loop.
unfoldable pub rmq_health_checker : Await → List Round → HealthModule → Option Exn × HealthModule
rmq_health_checker delay rounds m = elim delay [
  | raised e ↦ (some e, m)
  | returned _ ↦ checker_loop rounds m
]
