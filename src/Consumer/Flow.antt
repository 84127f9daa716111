-- ===== src/Consumer/Flow.antt =====
-- fastapi_app/rmq/consumer.py: the broker, the loop and the pool together. The broker delivers on a
-- channel only while fewer messages than the prefetch count are unsettled there, or if that is 0, `_spawn_task` makes
-- a task of each, and a task that ends has settled its message. Tasks outlive their connection.
pub mod Bounds
pub mod Messages
pub mod Timeout
mod Tests
use fastapi_project.Prelude.{
  ℕ, Bool, suc, none, some, List, [], ◌∷◌, ◌++◌, length, ltb, nat_eq, ◌||◌, if◌then◌else◌,
}
use fastapi_project.Python.Lists.{remove, discard}
use fastapi_project.Consumer.Pool.{
  Pool, idle, PoolStep, spawned, begun, finished, dropped, abandoned, pool_step, drain_tasks,
}
use fastapi_project.Settings.{Settings}

-- The pool, the messages that are unsettled on the present channel, how often the loop has connected
-- again, and the tasks that were cancelled before they had a slot.
pub record Flow : Type 0 where
  pub pool : Pool
  pub unsettled : List ℕ
  pub reconnects : ℕ
  pub cancelled : List ℕ

abbrev pub no_flow : Flow
no_flow = record { pool = idle; unsettled = []; reconnects = 0; cancelled = [] }

-- A message and its task have the same number. A task that is cancelled before it has its slot
-- leaves its message unsettled; the broker forgets the messages of a connection that is lost.
pub data FlowStep : Type 0 where
  delivers begins settles drops abandons : ℕ → FlowStep
  connects_again : FlowStep

module _ (c : Settings) where
  abbrev on_pool : PoolStep → Flow → Flow
  on_pool s f = record f { pool = pool_step c.rmq_max_concurrent_tasks s f.pool }

  -- `basic.qos`: fewer messages than the prefetch count are unsettled, where 0 is no limit.
  abbrev pub has_room : Flow → Bool
  has_room f = nat_eq c.rmq_prefetch_count 0 || ltb (length f.unsettled) c.rmq_prefetch_count

  deliver : ℕ → Flow → Flow
  deliver task f =
      if has_room f
      then on_pool (spawned task) (record f { unsettled = f.unsettled ++ task ∷ [] })
      else f

  settle : ℕ → Flow → Flow
  settle task f = elim (remove task f.pool.running) [
    | none ↦ f
    | some rest ↦ on_pool (finished task) (record f { unsettled = discard task f.unsettled })
  ]

  give_up : PoolStep → ℕ → List ℕ → Flow → Flow
  give_up s task tasks f = elim (remove task tasks) [
    | none ↦ f
    | some rest ↦ on_pool s (record f { cancelled = task ∷ f.cancelled })
  ]

  unfoldable pub flow_step : FlowStep → Flow → Flow
  unfolding deliver settle give_up
  flow_step (delivers task) f = deliver task f
  flow_step (begins task) f = on_pool (begun task) f
  flow_step (settles task) f = settle task f
  flow_step (drops task) f = give_up (dropped task) task f.pool.created f
  flow_step (abandons task) f = give_up (abandoned task) task f.pool.waiting f
  flow_step connects_again f = record f { unsettled = []; reconnects = suc f.reconnects }

  unfoldable pub flow_run : List FlowStep → Flow → Flow
  flow_run [] f = f
  flow_run (s ∷ ss) f = flow_run ss (flow_step s f)

  -- `task.cancel()`: a task without a slot leaves at once, and one that has a slot gets the
  -- cancellation in its handler, so that it ends by a step of its own.
  abbrev pub cancel_step : ℕ → Flow → FlowStep
  cancel_step task f = elim (remove task f.pool.created) [
    | none ↦ abandons task
    | some rest ↦ drops task
  ]

  unfoldable pub cancel_all : List ℕ → Flow → Flow
  unfolding flow_step
  cancel_all [] f = f
  cancel_all (task ∷ tasks) f = cancel_all tasks (flow_step (cancel_step task f) f)

  -- `_drain_tasks`, up to its return.
  unfoldable pub drain : (in_time : Bool) → Flow → Flow
  unfolding cancel_all
  drain in_time f = cancel_all (drain_tasks c.rmq_max_concurrent_tasks in_time f.pool) f
