-- ===== src/Consumer/Pool/Prefetch.antt =====
-- fastapi_app/rmq/consumer.py and fastapi_app/core/config.py: the prefetch count against the
-- semaphore's maximum.
use fastapi_project.Prelude.{◌≤◌, ◌≡◌, refl, List, [], arith, length}
use fastapi_project.Consumer.Pool.{idle, PoolStep, pool_run}
use fastapi_project.Consumer.Pool.Slots.{idle-IsBalanced, pool_run-IsBalanced}
use fastapi_project.Settings.{Settings, FollowsRule}
use fastapi_project.Consumer.Pool.Counts.{pool_run-IsCounted, nobody_waits}

-- If the settings follow their rule, then no task waits for a slot of the semaphore as long as no
-- more tasks are active than the prefetch count, whatever tasks were created, began, ended and were
-- cancelled before.
pub prefetch_admits :
    (c : Settings) (ss : List PoolStep)
    → FollowsRule c
    → length (pool_run c.rmq_max_concurrent_tasks ss idle).active ≤ c.rmq_prefetch_count
    → (pool_run c.rmq_max_concurrent_tasks ss idle).waiting ≡ []
prefetch_admits c ss rule few =
    let m = c.rmq_max_concurrent_tasks in
    nobody_waits m (pool_run m ss idle) _ refl (pool_run-IsBalanced m ss idle (idle-IsBalanced m))
      (pool_run-IsCounted m ss idle (λ t. refl) refl) (omega arith)
