-- ===== src/Health/Invariant.antt =====
-- fastapi_app/rmq/health.py: what holds of the health state at every moment.
use fastapi_project.Prelude.{
  ℕ, ◌<◌, ◌≡◌, ◌≢◌, ◌⊎◌, refl, true, Option, none, some, List, [], ◌∷◌, arith,
}
use fastapi_project.Python.{returned, raised, Outcome}
use fastapi_project.Health.{
  unknown, alive, recovered, dead, ProbeResult, HealthModule, fresh, set_shared_channel,
  flag_degraded,
}
use fastapi_project.Health.Probe.{ProbeReplies, probe}
use fastapi_project.Health.Probes.{IsHonest, probe-IsHonest, probe_effect, channel_after}
use fastapi_project.Health.Checker.{observe, after_probe, tick, Round, turn, checker_loop}

pub record IsValid (m : HealthModule) : Type 0 where
  pub up_failures :
      (m.health.status ≡ alive) ⊎ (m.health.status ≡ recovered) → m.health.consecutive_failures ≡ 0
  pub up_times :
      (m.health.status ≡ alive) ⊎ (m.health.status ≡ recovered)
      → (m.health.last_alive ≡ m.health.last_checked) × (m.health.last_alive ≢ none)
  pub up_queue :
      (m.health.status ≡ alive) ⊎ (m.health.status ≡ recovered) → m.health.queue_exists ≡ some true
  pub dead_failures : m.health.status ≡ dead → 0 < m.health.consecutive_failures
  pub dead_queue : m.health.status ≡ dead → m.health.queue_exists ≡ none
  pub dead_since : m.health.status ≡ dead → m.health.last_dead ≢ none
  pub unknown_lem : m.health.status ≡ unknown → m.health.last_checked ≡ none
  pub failures_checked : 0 < m.health.consecutive_failures → m.health.last_checked ≢ none

pub fresh-IsValid : IsValid fresh
fresh-IsValid = ground arith

pub set_shared_channel-IsValid :
    (c : Option ℕ) (m : HealthModule) → IsValid m → IsValid (set_shared_channel c m)
unfolding set_shared_channel
set_shared_channel-IsValid c m v = ground arith

pub flag_degraded-IsValid : (m : HealthModule) → IsValid m → IsValid (flag_degraded m)
unfolding flag_degraded
flag_degraded-IsValid m v = ground arith

observe-IsValid :
    (r : ProbeReplies) (p : ProbeResult) (now : ℕ) (m : HealthModule)
    → IsHonest r p
    → IsValid m
    → IsValid (observe p now m).1
unfolding observe
observe-IsValid r p now m h v = ground arith

after_probe-IsValid :
    (r : ProbeReplies) (now : ℕ) (x : Outcome ProbeResult × HealthModule)
    → ((p : ProbeResult) → x.0 ≡ returned p → IsHonest r p)
    → IsValid x.1
    → IsValid (after_probe now x).1
unfolding after_probe
after_probe-IsValid r now (returned p, m) h v = observe-IsValid r p now m (h p refl) v
after_probe-IsValid r now (raised e, m) h v = v

-- Every turn of the checker keeps the invariant, whether its probe returns or raises.
pub tick-IsValid :
    (r : ProbeReplies) (now : ℕ) (m : HealthModule) → IsValid m → IsValid (tick r now m).1
unfolding tick
tick-IsValid r now m v = after_probe-IsValid r now (probe r m) (probe-IsHonest r m) (
    rw probe_effect (
      unfold set_shared_channel in
      set_shared_channel-IsValid (channel_after r m.shared_channel) m v))

turn-IsValid : (r : Round) (m : HealthModule) → IsValid m → IsValid (turn r m).1
unfolding turn
turn-IsValid r m v = ground (arith, tick-IsValid r.replies r.now m v)

-- From a valid state any number of turns, whatever the broker replies, leads to a valid state: a
-- status that says that the broker is up goes with no failure, an existing queue and a last sign of
-- life that is the last check; DEAD goes with a failure, a time of death and an unknown queue;
-- UNKNOWN goes with no check; and a failure goes with a check.
pub checker_loop-IsValid :
    (rounds : List Round) (m : HealthModule) → IsValid m → IsValid (checker_loop rounds m).1
unfolding checker_loop
checker_loop-IsValid [] m v = v
checker_loop-IsValid (r ∷ rs) m v =
    ground (arith, turn-IsValid r m v, checker_loop-IsValid rs (turn r m).1 (turn-IsValid r m v))
