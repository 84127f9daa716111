-- ===== src/Health/Stopping.antt =====
-- fastapi_app/rmq/health.py: no hook raises, and when the checker stops.
use fastapi_project.Prelude.{
  ℕ, ap, ◌∙◌, ◌≡◌, ◌⊎◌, refl, false, none, some, List, [], ◌∷◌, arith, All,
}
use fastapi_project.Python.{
  Exn, cancelled_error, is_exception, Outcome, returned, raised, Await, done,
}
use fastapi_project.Health.{ProbeResult, HealthModule}
use fastapi_project.Health.Probe.{ProbeReplies, probe, probe_new_connection}
use fastapi_project.Health.Probes.{probe_raises, probe_effect}
use fastapi_project.Health.Checker.{
  observe, after_probe, tick, Round, turn, checker_loop, rmq_health_checker,
}

-- No hook raises: `last_dead` and `last_alive` are set wherever a hook formats them.
pub observe_returns : (r : ProbeResult) (now : ℕ) (m : HealthModule) → (observe r now m).0 ≡ done
unfolding observe
observe_returns r now m = ground arith

-- The loop's `try` raises what `_probe` raises.
raised_by_probe :
    (now : ℕ) (x : Outcome ProbeResult × HealthModule) (e : Exn)
    → (after_probe now x).0 ≡ raised e
    → (x.0 ≡ raised e) × ((after_probe now x).1 ≡ x.1)
unfolding after_probe
raised_by_probe now (returned r, m) e h = absurd (cc (observe_returns r now m))
raised_by_probe now (raised d, m) e h = (cc, refl)

tick_raises :
    (r : ProbeReplies) (now : ℕ) (m : HealthModule) (e : Exn)
    → (tick r now m).0 ≡ raised e
    → (is_exception e ≡ false) ⊎ (r.close ≡ raised e)
unfolding tick
tick_raises r now m e h = probe_raises r m e (raised_by_probe now (probe r m) e h).0

-- A turn whose probe raises leaves the health state and the reports as they were.
pub tick_raised_unchanged :
    (r : ProbeReplies) (now : ℕ) (m : HealthModule) (e : Exn)
    → (tick r now m).0 ≡ raised e
    → ((tick r now m).1.health ≡ m.health) × ((tick r now m).1.reports ≡ m.reports)
unfolding tick
tick_raised_unchanged r now m e h =
    let (_, same) = raised_by_probe now (probe r m) e h in
    (
      ap (λ (n : HealthModule). n.health) (same ∙ probe_effect r m),
      ap (λ (n : HealthModule). n.reports) (same ∙ probe_effect r m),
    )

-- A turn in which closing the probe's connection works, and only a cancellation ends the sleep.
pub record IsCalm (r : Round) : Type 0 where
  pub closes : r.replies.close ≡ done
  pub sleeps : (e : Exn) → r.sleep ≡ raised e → is_exception e ≡ false

not_exception : (e : Exn) → is_exception e ≡ false → e ≡ cancelled_error
not_exception e h = ground arith

turn_cancelled :
    (r : Round) (m : HealthModule) (e : Exn)
    → IsCalm r
    → (turn r m).0 ≡ raised e
    → is_exception e ≡ false
unfolding turn
turn_cancelled r m e c h = ground (arith, tick_raises r.replies r.now m e, c.closes, c.sleeps e)

loop_cancelled :
    (rounds : List Round) (m : HealthModule) (e : Exn)
    → All IsCalm rounds
    → (checker_loop rounds m).0 ≡ some e
    → is_exception e ≡ false
unfolding checker_loop
loop_cancelled [] m e c h = cc
loop_cancelled (r ∷ rs) m e c h =
    ground (arith, turn_cancelled r m e c.0, loop_cancelled rs (turn r m).1 e c.1)

-- Whatever the broker does, the checker keeps running until it is cancelled, provided that closing
-- the connection of a probe raises nothing and that only a cancellation ends a sleep.
pub checker_cancelled :
    (delay : Await) (rounds : List Round) (m : HealthModule) (e : Exn)
    → ((d : Exn) → delay ≡ raised d → is_exception d ≡ false)
    → All IsCalm rounds
    → (rmq_health_checker delay rounds m).0 ≡ some e
    → e ≡ cancelled_error
unfolding rmq_health_checker
checker_cancelled delay rounds m e d c h =
    ground (arith, d e, loop_cancelled rounds m e c, not_exception e)

-- Where there is no shared channel, and close raises on the open connection of the first probe,
-- that exception ends the checker, be it an Exception or a cancellation.
pub close_error_stops :
    (r : Round) (rs : List Round) (m : HealthModule) (e : Exn)
    → m.shared_channel ≡ none
    → r.replies.connect ≡ done
    → r.replies.conn_is_closed ≡ false
    → r.replies.close ≡ raised e
    → (rmq_health_checker done (r ∷ rs) m).0 ≡ some e
unfolding rmq_health_checker checker_loop turn tick after_probe probe probe_new_connection
close_error_stops r rs m e s c k x = ground arith
