-- ===== src/Health/Alerts.antt =====
-- fastapi_app/rmq/health.py: the alerts of the checker, from its start, in its loop, and after
-- the consumer has flagged a channel error itself.
use fastapi_project.Prelude.{
  ℕ, ◌+◌, ◌≡◌, refl, some, List, [], ◌∷◌, ◌++◌, arith, All, ◌⊎◌, inl, inr, ap, ◌∙◌, sym,
  append_assoc,
}
use fastapi_project.Python.{returned, raised}
use fastapi_project.Health.{
  alive, recovered, Report, recovery, still_alive, queue_missing, ProbeResult, HealthModule,
  set_shared_channel,
}
use fastapi_project.Health.Probe.{probe}
use fastapi_project.Health.Probes.{probe_effect, channel_after}
use fastapi_project.Health.Checker.{after_probe, tick, Round, turn, checker_loop}
use fastapi_project.Health.History.{
  Event, observed, flagged, shared, healthy, missing, verdict, last_verdict, reports_of, apply,
  after, after-Agrees,
}

-- The first observation of a running broker with its queue makes the status RECOVERED and reports
-- a recovery; only the second one in a row makes it ALIVE.
pub first_healthy :
    (r s : ProbeResult) (t u : ℕ)
    → verdict r ≡ healthy
    → verdict s ≡ healthy
    → ((after (observed r t ∷ [])).health.status ≡ recovered)
      × ((after (observed r t ∷ [])).reports ≡ recovery t ∷ [])
      × ((after (observed s u ∷ observed r t ∷ [])).health.status ≡ alive)
      × ((after (observed s u ∷ observed r t ∷ [])).reports
          ≡ still_alive s.method ∷ recovery t ∷ [])
first_healthy r s t u h k =
    let first = after-Agrees (observed r t ∷ []) in
    let second = after-Agrees (observed s u ∷ observed r t ∷ []) in ground (arith, first, second)

-- How many of the reports are alerts of a missing queue.
abbrev count_alert : Report → ℕ → ℕ
count_alert queue_missing n = n + 1
count_alert _ n = n

abbrev pub alerts : List Report → ℕ
alerts [] = 0
alerts (r ∷ rs) = count_alert r (alerts rs)

abbrev IsMissing : Event → Type 0
IsMissing (observed r t) = verdict r ≡ missing
IsMissing _ = Unit {0}

stays_missing :
    (new es : List Event) → All IsMissing new → last_verdict (new ++ flagged ∷ es) ≡ some missing
stays_missing [] es h = refl
stays_missing (observed r t ∷ new) es h = ground arith
stays_missing (flagged ∷ new) es h = refl
stays_missing (shared c ∷ new) es h = stays_missing new es h.1

quiet_reports :
    (new es : List Event)
    → All IsMissing new
    → alerts (reports_of (new ++ flagged ∷ es)) ≡ alerts (reports_of es)
quiet_reports [] es h = refl
quiet_reports (observed r t ∷ new) es h =
    ground (arith, quiet_reports new es h.1, stays_missing new es h.1)
quiet_reports (flagged ∷ new) es h = quiet_reports new es h.1
quiet_reports (shared c ∷ new) es h = quiet_reports new es h.1

-- Once the consumer has flagged a channel error, no observation of the missing queue, however many
-- follow, runs `on_queue_missing`, until the verdict is another.
pub flagged_silences :
    (new es : List Event)
    → All IsMissing new
    → alerts (after (new ++ flagged ∷ es)).reports ≡ alerts (after es).reports
flagged_silences new es h =
    ground (arith, quiet_reports new es h, after-Agrees (new ++ flagged ∷ es), after-Agrees es)

-- The events of one turn: the probe may give up the shared channel, and what it returned is
-- observed.
abbrev events_of : Round → HealthModule → List Event
events_of r m = elim (probe r.replies m).0 [
  | returned p ↦ observed p r.now ∷ shared (channel_after r.replies m.shared_channel) ∷ []
  | raised e ↦ shared (channel_after r.replies m.shared_channel) ∷ []
]

tick_events :
    (r : Round) (es : List Event)
    → (tick r.replies r.now (after es)).1 ≡ after (events_of r (after es) ++ es)
unfolding tick after_probe after apply set_shared_channel
tick_events r es = ground (arith, probe_effect r.replies (after es))

state-turn : (r : Round) (m : HealthModule) → (turn r m).1 ≡ (tick r.replies r.now m).1
unfolding turn
state-turn r m = ground arith

loop_cases :
    (r : Round) (rs : List Round) (m : HealthModule)
    → ((checker_loop (r ∷ rs) m).1 ≡ (turn r m).1)
      ⊎ ((checker_loop (r ∷ rs) m).1 ≡ (checker_loop rs (turn r m).1).1)
unfolding checker_loop
loop_cases r rs m = ground arith

-- Whatever the checker's loop does after a history is again the outcome of a history, so that
-- `after-Agrees` describes the state of the running checker.
pub loop_history :
    (rounds : List Round) (es : List Event)
    → (new : List Event) × ((checker_loop rounds (after es)).1 ≡ after (new ++ es))
unfolding checker_loop
loop_history [] es = ([], refl)
loop_history (r ∷ rs) es =
    let fresh_events = events_of r (after es) in
    let turned = state-turn r (after es) ∙ tick_events r es in
    let (new, same) = loop_history rs (fresh_events ++ es) in
    elim (loop_cases r rs (after es)) [
      | inl stopped ↦ (fresh_events, stopped ∙ turned)
      | inr going ↦ (
        new ++ fresh_events,
        going
            ∙ ap (λ (m : HealthModule). (checker_loop rs m).1) turned
            ∙ same
            ∙ ap after (sym (append_assoc new fresh_events es)),
      )
    ]
