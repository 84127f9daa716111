-- ===== src/App/Lifespan.antt =====
-- fastapi_app/main.py: what the exit of the lifespan closes, by how the consumer and the health
-- checker end.
use fastapi_project.Prelude.{
  ◌≡◌, refl, ap, Bool, true, ◌↔◌, ◌∙◌, false, some, List, [], ◌∷◌, arith, All,
}
use fastapi_project.Python.{Exn, cancelled_error, is_exception, raised, Await, done}
use fastapi_project.Health.{HealthModule}
use fastapi_project.Health.Checker.{Round, rmq_health_checker}
use fastapi_project.Health.Stopping.{checker_cancelled}
use fastapi_project.Health.Stopping
use fastapi_project.Consumer.Loop.{Attempt, LoopState, rmq_consumer}
use fastapi_project.Consumer.Loop.Reconnect.{consumer_cancelled}
use fastapi_project.Consumer.Loop.Reconnect
use fastapi_project.App.{
  Effect, Exit, opened_client, created, cancelled, closed_publisher, closed_client, consumer_task,
  health_task, shut_down, lifespan,
}

-- The consumer and the checker of a process, with all their turns.
pub record Tasks : Type 0 where
  pub attempts : List Attempt
  pub loop_state : LoopState
  pub delay : Await
  pub rounds : List Round
  pub health : HealthModule

abbrev pub exit_of : Tasks → (close_publisher aclose : Await) → Exit
exit_of t close_publisher aclose = record {
  consumer_end = (rmq_consumer t.attempts t.loop_state).0;
  health_end = (rmq_health_checker t.delay t.rounds t.health).0;
  close_publisher = close_publisher;
  aclose = aclose;
}

-- Nothing but a cancellation comes from a sleep, a drain or a close of the two tasks.
pub record IsCalm (t : Tasks) : Type 0 where
  pub attempts : All Reconnect.IsCalm t.attempts
  pub delay : (d : Exn) → t.delay ≡ raised d → is_exception d ≡ false
  pub rounds : All Stopping.IsCalm t.rounds

both_cancelled :
    (x : Exit)
    → x.consumer_end ≡ some cancelled_error
    → x.health_end ≡ some cancelled_error
    → x.close_publisher ≡ done
    → lifespan x ≡ (
      some x.aclose,
      opened_client
          ∷ created consumer_task
          ∷ created health_task
          ∷ cancelled consumer_task
          ∷ cancelled health_task
          ∷ closed_publisher
          ∷ closed_client
          ∷ [],
    )
unfolding lifespan shut_down
both_cancelled x c h p = rw (c, h, p) refl

-- If both tasks end, and nothing but a cancellation came from their sleeps, drains and closes,
-- then the exit of the application, whatever the broker did before, cancels both tasks, closes the
-- publisher and at last the HTTP client, provided that the publisher's close returns.
pub lifespan_closes :
    (t : Tasks) (aclose : Await) (c h : Exn)
    → IsCalm t
    → (rmq_consumer t.attempts t.loop_state).0 ≡ some c
    → (rmq_health_checker t.delay t.rounds t.health).0 ≡ some h
    → lifespan (exit_of t done aclose) ≡ (
      some aclose,
      opened_client
          ∷ created consumer_task
          ∷ created health_task
          ∷ cancelled consumer_task
          ∷ cancelled health_task
          ∷ closed_publisher
          ∷ closed_client
          ∷ [],
    )
lifespan_closes t aclose c h calm ended stopped =
    both_cancelled (exit_of t done aclose)
      (ended ∙ ap some (consumer_cancelled t.attempts t.loop_state c calm.attempts ended))
      (stopped
        ∙ ap some (checker_cancelled t.delay t.rounds t.health h calm.delay calm.rounds stopped))
      refl

-- Whether the HTTP client is closed.
abbrev pub closes_client : List Effect → Bool
closes_client [] = false
closes_client (closed_client ∷ es) = true
closes_client (_ ∷ es) = closes_client es

-- The exit of the application closes the HTTP client exactly if both background tasks end by a
-- cancellation and the close of the publisher returns: a task that has crashed, or that does not
-- end, leaves the client open.
pub lifespan-closes_client_iff :
    (x : Exit)
    → (closes_client (lifespan x).1 ≡ true) ↔ (
        (x.consumer_end ≡ some cancelled_error)
        × (x.health_end ≡ some cancelled_error)
        × (x.close_publisher ≡ done))
unfolding lifespan shut_down
lifespan-closes_client_iff x = ground arith
