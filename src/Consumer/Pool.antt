-- ===== src/Consumer/Pool.antt =====
-- fastapi_app/rmq/consumer.py: the tasks of `_spawn_task`, the semaphore that bounds how many of
-- them process a message at a time, and `_drain_tasks`. A task is a number. The semaphore is
-- asyncio's: its waiters are served in their order, and a release hands its slot to the first.
pub mod Slots
pub mod Counts
pub mod Prefetch
pub mod Draining
use fastapi_project.Prelude.{
  ℕ, zero, suc, ◌+◌, ◌-◌, ◌≤◌, ◌<◌, ◌≡◌, ◌≢◌, refl, sym, ap, ◌∙◌, Bool, true, false, Option, none,
  some, List, [], ◌∷◌, ◌++◌, arith, length, length-append, append_assoc, append-nil, Option-cases,
  inl, inr, ltb, if◌then◌else◌,
}
use fastapi_project.Python.Lists.{remove, discard}

-- `_semaphore` with its counter, None until the first task runs; `_active_tasks`; and where the
-- active tasks stand: created, waiting for a slot, or in one.
pub record Pool : Type 0 where
  pub semaphore : Option ℕ
  pub active : List ℕ
  pub created : List ℕ
  pub waiting : List ℕ
  pub running : List ℕ

abbrev pub idle : Pool
idle = record { semaphore = none; active = []; created = []; waiting = []; running = [] }

-- The setting RMQ_MAX_CONCURRENT_TASKS.
module _ (max_concurrent : ℕ) where
  -- `_get_semaphore`: the counter, with which a first call creates the semaphore.
  abbrev pub free : Pool → ℕ
  free p = elim p.semaphore [ none ↦ max_concurrent | some n ↦ n ]

  unfoldable pub spawn : ℕ → Pool → Pool
  spawn task p = record p { active = p.active ++ task ∷ []; created = p.created ++ task ∷ [] }

  admit : ℕ → ℕ → Pool → Pool
  admit task slots p = record p { semaphore = some slots; running = p.running ++ task ∷ [] }

  -- `semaphore.acquire()`: a slot at once only if one is free and nobody waits.
  acquire : ℕ → ℕ → List ℕ → Pool → Pool
  unfolding admit
  acquire task (suc n) [] p = admit task n p
  acquire task n waiting p = record p { semaphore = some n; waiting = waiting ++ task ∷ [] }

  -- A created task begins, up to its `async with semaphore`.
  unfoldable pub begin : ℕ → Pool → Pool
  unfolding acquire
  begin task p = elim (remove task p.created) [
    | none ↦ p
    | some rest ↦ acquire task (free p) p.waiting (record p { created = rest })
  ]

  -- `semaphore.release()`: the slot is handed to the first waiter, or is free.
  unfoldable pub release : ℕ → List ℕ → Pool → Pool
  unfolding admit
  release n [] p = record p { semaphore = some (n + 1) }
  release n (w ∷ ws) p = admit w n (record p { waiting = ws })

  -- A task leaves its slot, by a return or by an exception, and its callback discards it.
  unfoldable pub finish : ℕ → Pool → Pool
  unfolding release
  finish task p = elim (remove task p.running) [
    | none ↦ p
    | some rest ↦
        release (free p) p.waiting (record p { running = rest; active = discard task p.active })
  ]

  -- A task that is cancelled before it begins.
  unfoldable pub drop : ℕ → Pool → Pool
  drop task p = elim (remove task p.created) [
    | none ↦ p
    | some rest ↦ record p { created = rest; active = discard task p.active }
  ]

  -- A task that is cancelled while it waits for a slot.
  unfoldable pub abandon : ℕ → Pool → Pool
  abandon task p = elim (remove task p.waiting) [
    | none ↦ p
    | some rest ↦ record p { waiting = rest; active = discard task p.active }
  ]

  -- `_drain_tasks`: it waits for the active tasks, and the timeout cancels all of them. The result
  -- are the tasks that are cancelled.
  unfoldable pub drain_tasks : (in_time : Bool) → Pool → List ℕ
  drain_tasks in_time p = if in_time then [] else p.active

-- What happens to the pool.
pub data PoolStep : Type 0 where
  spawned begun finished dropped abandoned : ℕ → PoolStep

unfoldable pub pool_step : ℕ → PoolStep → Pool → Pool
pool_step m (spawned task) p = spawn m task p
pool_step m (begun task) p = begin m task p
pool_step m (finished task) p = finish m task p
pool_step m (dropped task) p = drop m task p
pool_step m (abandoned task) p = abandon m task p

unfoldable pub pool_run : ℕ → List PoolStep → Pool → Pool
pool_run m [] p = p
pool_run m (s ∷ ss) p = pool_run m ss (pool_step m s p)
