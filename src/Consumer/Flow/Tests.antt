-- ===== src/Consumer/Flow/Tests.antt =====
-- Flows with the default settings, and with one slot.
use fastapi_project.Prelude.{ℕ, ◌≤◌, ◌≡◌, refl, false, List, [], ◌∷◌, arith}
use fastapi_project.Python.Lists.{remove, discard, count}
use fastapi_project.Consumer.Pool.{
  begin, finish, drop, abandon, spawn, pool_step, free, drain_tasks,
}
use fastapi_project.Settings.{Settings, defaults}
use fastapi_project.Consumer.Flow.{
  no_flow, FlowStep, delivers, begins, settles, drops, connects_again, flow_step, flow_run,
  cancel_all, drain,
}
use fastapi_project.Consumer.Flow.Timeout.{drained}
use fastapi_project.Consumer.Flow.Messages.{IsOwned, flow_run-IsOwned}

-- Two messages, of which one is still processed when the connection is lost and a third comes.
abbrev reconnecting : List FlowStep
reconnecting =
    delivers 1
    ∷ begins 1
    ∷ delivers 2
    ∷ begins 2
    ∷ settles 2
    ∷ connects_again
    ∷ delivers 3
    ∷ begins 3
    ∷ []

-- With room for one message only, that one waits for the slot of the lost connection.
abbrev narrow : Settings
narrow = record defaults { rmq_prefetch_count = 1; rmq_max_concurrent_tasks = 1 }

waits_after_reconnect : (flow_run narrow reconnecting no_flow).pool.waiting ≡ 3 ∷ []
unfolding flow_run flow_step pool_step spawn begin finish remove discard
waits_after_reconnect = refl

-- The message of a task that is cancelled before it begins stays with the broker.
abbrev cancelled_early : List FlowStep
cancelled_early = delivers 1 ∷ delivers 2 ∷ begins 2 ∷ drops 1 ∷ settles 2 ∷ []

unsettled_early : (flow_run defaults cancelled_early no_flow).unsettled ≡ 1 ∷ []
unfolding flow_run flow_step pool_step spawn begin finish drop remove discard
unsettled_early = refl

flow_run-IsOwned_example : IsOwned (flow_run defaults cancelled_early no_flow)
flow_run-IsOwned_example = flow_run-IsOwned defaults cancelled_early

-- One slot, which the first of three messages has when the drain runs into its timeout.
abbrev in_flight : List FlowStep
in_flight = delivers 1 ∷ begins 1 ∷ delivers 2 ∷ begins 2 ∷ delivers 3 ∷ []

abbrev one_slot : Settings
one_slot = record defaults { rmq_prefetch_count = 10; rmq_max_concurrent_tasks = 1 }

one_runs :
    (t : ℕ)
    → count t (drain one_slot false (flow_run one_slot in_flight no_flow)).pool.running
      ≤ count t (1 ∷ [])
unfolding drain drain_tasks cancel_all flow_run flow_step pool_step spawn begin drop abandon remove
    discard
one_runs t = omega arith

drained_example :
    let f = drain one_slot false (flow_run one_slot in_flight no_flow) in
    let g = flow_run one_slot (settles 1 ∷ []) f in
    (f.pool.created ≡ [])
    × (f.pool.waiting ≡ [])
    × (g.pool.active ≡ [])
    × (free 1 g.pool ≡ 1)
    × ((t : ℕ) → count t g.unsettled ≤ count t g.cancelled)
drained_example = drained one_slot in_flight (1 ∷ []) one_runs

returned_to_the_broker :
    (flow_run one_slot
      (settles 1 ∷ [])
      (drain one_slot false (flow_run one_slot in_flight no_flow))).unsettled
    ≡ 2 ∷ 3 ∷ []
unfolding drain drain_tasks cancel_all flow_run flow_step pool_step spawn begin finish drop abandon
    remove discard
returned_to_the_broker = refl

-- A prefetch count of 0 is no limit.
abbrev unlimited : Settings
unlimited = record defaults { rmq_prefetch_count = 0; rmq_max_concurrent_tasks = 1 }

waits_without_limit :
    (flow_run unlimited (delivers 1 ∷ delivers 2 ∷ begins 1 ∷ begins 2 ∷ []) no_flow).pool.waiting
    ≡ 2 ∷ []
unfolding flow_run flow_step pool_step spawn begin remove discard
waits_without_limit = refl
