-- ===== src/Health/History.antt =====
-- fastapi_app/rmq/health.py against its history: an independent description of every field of
-- `RMQHealthState` by the observations and the consumer's writes so far, latest first.
use fastapi_project.Prelude.{
  ℕ, ◌+◌, ◌≡◌, refl, ap, ◌∙◌, Bool, Option, none, some, List, [], ◌∷◌, arith, if◌then◌else◌, String,
}
use fastapi_project.Health.{
  RmqStatus, unknown, alive, dead, recovered, degraded, Report, down, recovery, still_alive,
  still_dead, queue_missing, still_missing, ProbeResult, HealthModule, fresh, set_shared_channel,
  flag_degraded,
}
use fastapi_project.Health.Checker.{truthy, observe}

-- What happens to the module: the checker observes, the consumer flags a channel error, and the
-- consumer or a probe sets the shared channel.
pub data Event : Type 0 where
  observed : ProbeResult → ℕ → Event
  flagged : Event
  shared : Option ℕ → Event

unfoldable pub apply : Event → HealthModule → HealthModule
unfolding observe flag_degraded set_shared_channel
apply (observed r now) m = (observe r now m).1
apply flagged m = flag_degraded m
apply (shared c) m = set_shared_channel c m

-- The module after the events of a history.
unfoldable pub after : List Event → HealthModule
unfolding apply
after [] = fresh
after (e ∷ es) = apply e (after es)

pub data Verdict : Type 0 where
  healthy missing broken : Verdict

abbrev pub verdict : ProbeResult → Verdict
verdict r = if r.broker_alive then (if truthy r.queue_exists then healthy else missing) else broken

-- The latest verdict, where a flag of the consumer counts as a missing queue.
abbrev pub last_verdict : List Event → Option Verdict
last_verdict [] = none
last_verdict (observed r now ∷ es) = some (verdict r)
last_verdict (flagged ∷ es) = some missing
last_verdict (shared c ∷ es) = last_verdict es

abbrev settle : Verdict → Option Verdict → RmqStatus
settle healthy (some healthy) = alive
settle healthy _ = recovered
settle missing _ = degraded
settle broken _ = dead

abbrev pub status_of : List Event → RmqStatus
status_of [] = unknown
status_of (observed r now ∷ es) = settle (verdict r) (last_verdict es)
status_of (flagged ∷ es) = degraded
status_of (shared c ∷ es) = status_of es

-- The observations since the last healthy one.
abbrev count_failure : Verdict → ℕ → ℕ
count_failure healthy n = 0
count_failure _ n = n + 1

abbrev pub failures_of : List Event → ℕ
failures_of [] = 0
failures_of (observed r now ∷ es) = count_failure (verdict r) (failures_of es)
failures_of (_ ∷ es) = failures_of es

abbrev when_healthy : Verdict → Option ℕ → Option ℕ → Option ℕ
when_healthy healthy now before = now
when_healthy _ now before = before

abbrev pub last_alive_of : List Event → Option ℕ
last_alive_of [] = none
last_alive_of (observed r now ∷ es) = when_healthy (verdict r) (some now) (last_alive_of es)
last_alive_of (_ ∷ es) = last_alive_of es

-- The time at which the present trouble was first seen: a verdict that repeats the latest one
-- does not move it.
abbrev when_new : Verdict → Option Verdict → Option ℕ → Option ℕ → Option ℕ
when_new healthy _ now before = before
when_new missing (some missing) now before = before
when_new missing _ now before = now
when_new broken (some broken) now before = before
when_new broken _ now before = now

abbrev pub last_dead_of : List Event → Option ℕ
last_dead_of [] = none
last_dead_of (observed r now ∷ es) =
    when_new (verdict r) (last_verdict es) (some now) (last_dead_of es)
last_dead_of (_ ∷ es) = last_dead_of es

abbrev pub last_checked_of : List Event → Option ℕ
last_checked_of [] = none
last_checked_of (observed r now ∷ es) = some now
last_checked_of (_ ∷ es) = last_checked_of es

abbrev pub probe_method_of : List Event → String
probe_method_of [] = "none"
probe_method_of (observed r now ∷ es) = r.method
probe_method_of (_ ∷ es) = probe_method_of es

abbrev pub queue_exists_of : List Event → Option Bool
queue_exists_of [] = none
queue_exists_of (observed r now ∷ es) = r.queue_exists
queue_exists_of (_ ∷ es) = queue_exists_of es

-- The report of an observation: the alerts are edge-triggered on the verdict.
abbrev report_of : Verdict → Option Verdict → ℕ → ℕ → String → Report
report_of healthy (some healthy) now n method = still_alive method
report_of healthy _ now n method = recovery now
report_of missing (some missing) now n method = still_missing (n + 1)
report_of missing _ now n method = queue_missing
report_of broken (some broken) now n method = still_dead (n + 1)
report_of broken _ now n method = down now (n + 1)

abbrev pub reports_of : List Event → List Report
reports_of [] = []
reports_of (observed r now ∷ es) =
    report_of (verdict r) (last_verdict es) now (failures_of es) r.method ∷ reports_of es
reports_of (_ ∷ es) = reports_of es

pub record Agrees (es : List Event) (m : HealthModule) : Type 0 where
  pub status : m.health.status ≡ status_of es
  pub last_checked : m.health.last_checked ≡ last_checked_of es
  pub last_alive : m.health.last_alive ≡ last_alive_of es
  pub last_dead : m.health.last_dead ≡ last_dead_of es
  pub consecutive_failures : m.health.consecutive_failures ≡ failures_of es
  pub probe_method : m.health.probe_method ≡ probe_method_of es
  pub queue_exists : m.health.queue_exists ≡ queue_exists_of es
  pub reports : m.reports ≡ reports_of es

-- What a status says of the latest verdict.
abbrev read_back : RmqStatus → Option Verdict
read_back unknown = none
read_back alive = some healthy
read_back recovered = some healthy
read_back degraded = some missing
read_back dead = some broken

read_back-settle : (v : Verdict) (o : Option Verdict) → read_back (settle v o) ≡ some v
read_back-settle v o = ground arith

read_back-status_of : (es : List Event) → read_back (status_of es) ≡ last_verdict es
read_back-status_of [] = refl
read_back-status_of (observed r now ∷ es) = read_back-settle (verdict r) (last_verdict es)
read_back-status_of (flagged ∷ es) = refl
read_back-status_of (shared c ∷ es) = read_back-status_of es

observe-Agrees :
    (r : ProbeResult) (now : ℕ) (es : List Event) (m : HealthModule)
    → Agrees es m
    → read_back m.health.status ≡ last_verdict es
    → Agrees (observed r now ∷ es) (observe r now m).1
unfolding observe
observe-Agrees r now es m h v = ground arith

apply-Agrees :
    (e : Event) (es : List Event) (m : HealthModule) → Agrees es m → Agrees (e ∷ es) (apply e m)
unfolding apply
apply-Agrees (observed r now) es m h =
    observe-Agrees r now es m h (ap read_back h.status ∙ read_back-status_of es)
apply-Agrees flagged es m h = ground arith
apply-Agrees (shared c) es m h = ground arith

-- After any history of observations, consumer flags and channel changes every field of the health
-- state, and the list of reports, is what the history says: the status is fixed by the last two
-- verdicts, consecutive_failures counts the observations since the last healthy one, last_dead is
-- the time of the last observation whose verdict is a failing one and is not the verdict before it,
-- and an alert is reported exactly by an observation whose verdict is not the one before it; a flag
-- of the consumer counts as a verdict of a missing queue, which has no time and reports nothing.
pub after-Agrees : (es : List Event) → Agrees es (after es)
unfolding after
after-Agrees [] = ground arith
after-Agrees (e ∷ es) = apply-Agrees e es (after es) (after-Agrees es)
