-- ===== src/Consumer/Flow/Bounds.antt =====
-- fastapi_app/rmq/consumer.py: how many tasks there are at most, and when none waits for a slot.
use Prim.Native.Nat.{◌*◌}
use fastapi_project.Prelude.{
  ℕ, suc, ◌+◌, ◌≤◌, ◌≡◌, refl, List, [], ◌∷◌, ◌++◌, arith, length, length-append, Option-cases,
  Bool-cases, inl, inr, true,
}
use fastapi_project.Python.Lists.{remove, discard}
use fastapi_project.Consumer.Pool.{
  PoolStep, spawned, begun, finished, dropped, abandoned, pool_step,
}
use fastapi_project.Consumer.Pool.Slots.{
  IsBalanced, IsTracked, idle-IsBalanced, pool_step-IsBalanced, pool_step-IsTracked,
}
use fastapi_project.Consumer.Pool.Counts.{
  IsCounted, pool_step-IsCounted, news, active_bound, active-finish, length-discard_le,
}
use fastapi_project.Settings.{Settings}
use fastapi_project.Consumer.Flow.{
  Flow, no_flow, FlowStep, delivers, begins, settles, drops, abandons, connects_again, flow_step,
  flow_run, deliver, settle, give_up, on_pool, has_room,
}

one_more : (p n : ℕ) → p * suc n ≡ p * n + p
one_more p n = omega arith

module _ (c : Settings) where
  pub record IsBounded (f : Flow) : Type 0 where
    pub balanced : IsBalanced c.rmq_max_concurrent_tasks f.pool
    pub tracked : IsTracked f.pool
    counted : IsCounted f.pool
    few : 1 ≤ c.rmq_prefetch_count → length f.unsettled ≤ c.rmq_prefetch_count
    live :
        1 ≤ c.rmq_prefetch_count
        → length f.pool.active ≤ length f.unsettled + c.rmq_prefetch_count * f.reconnects

  below :
      (f : Flow)
      → 1 ≤ c.rmq_prefetch_count
      → has_room c f ≡ true
      → suc (length f.unsettled) ≤ c.rmq_prefetch_count
  below f limited h = ground arith

  on_pool-IsBounded :
      (s : PoolStep) (f : Flow) (us : List ℕ)
      → (1 ≤ c.rmq_prefetch_count → length us ≤ c.rmq_prefetch_count)
      → (1 ≤ c.rmq_prefetch_count
          → length (pool_step c.rmq_max_concurrent_tasks s f.pool).active
            ≤ length us + c.rmq_prefetch_count * f.reconnects)
      → IsBounded f
      → IsBounded (on_pool c s (record f { unsettled = us }))
  on_pool-IsBounded s f us few live h =
      let m = c.rmq_max_concurrent_tasks in
      record {
        balanced = pool_step-IsBalanced m s f.pool h.balanced;
        tracked = pool_step-IsTracked m s f.pool h.tracked;
        counted = pool_step-IsCounted m s f.pool h.tracked h.counted;
        few = few;
        live = live;
      }

  kept-IsBounded : (s : PoolStep) (f : Flow) → news s ≡ 0 → IsBounded f → IsBounded (on_pool c s f)
  kept-IsBounded s f e h =
      on_pool-IsBounded s f f.unsettled h.few
        (λ limited.
          omega (arith, e, h.live limited, active_bound c.rmq_max_concurrent_tasks s f.pool))
        h

  give_up-IsBounded :
      (s : PoolStep) (task : ℕ) (tasks : List ℕ) (f : Flow)
      → news s ≡ 0
      → IsBounded f
      → IsBounded (give_up c s task tasks f)
  unfolding give_up
  give_up-IsBounded s task tasks f e h = elim (Option-cases (remove task tasks)) [
    | inl gone ↦ rw (gone, give_up) h
    | inr (rest, found) ↦
        rw (found, give_up)
          (kept-IsBounded s (record f { cancelled = task ∷ f.cancelled }) e
            (record {
              balanced = h.balanced;
              tracked = h.tracked;
              counted = h.counted;
              few = h.few;
              live = h.live;
            }))
  ]

  pub flow_step-IsBounded : (s : FlowStep) (f : Flow) → IsBounded f → IsBounded (flow_step c s f)
  unfolding flow_step
  flow_step-IsBounded (delivers task) f h = elim (Bool-cases (has_room c f)) [
    | inl free ↦
        rw (free, flow_step, deliver)
          (on_pool-IsBounded (spawned task) f (f.unsettled ++ task ∷ [])
            (λ limited. omega (arith, below f limited free, length-append f.unsettled (task ∷ [])))
            (λ limited. omega (
              arith,
              h.live limited,
              active_bound c.rmq_max_concurrent_tasks (spawned task) f.pool,
              length-append f.unsettled (task ∷ []),
            ))
            h)
    | inr full ↦ rw (full, flow_step, deliver) h
  ]
  flow_step-IsBounded (begins task) f h = kept-IsBounded (begun task) f refl h
  flow_step-IsBounded (settles task) f h = elim (Option-cases (remove task f.pool.running)) [
    | inl gone ↦ rw (gone, flow_step, settle) h
    | inr (rest, found) ↦
        let (fewer, by_one) = length-discard_le task f.unsettled in
        rw (found, flow_step, settle)
          (on_pool-IsBounded (finished task) f (discard task f.unsettled)
            (λ limited. omega (arith, fewer, h.few limited))
            (λ limited. omega (
              arith,
              by_one,
              h.live limited,
              active-finish c.rmq_max_concurrent_tasks task rest f.pool found h.tracked,
            ))
            h)
  ]
  flow_step-IsBounded (drops task) f h =
      give_up-IsBounded (dropped task) task f.pool.created f refl h
  flow_step-IsBounded (abandons task) f h =
      give_up-IsBounded (abandoned task) task f.pool.waiting f refl h
  flow_step-IsBounded connects_again f h = record {
    balanced = h.balanced;
    tracked = h.tracked;
    counted = h.counted;
    few = λ limited. omega arith;
    live = λ limited.
        omega (arith, h.live limited, h.few limited, one_more c.rmq_prefetch_count f.reconnects);
  }

  pub flow_run-IsBounded :
      (ss : List FlowStep) (f : Flow) → IsBounded f → IsBounded (flow_run c ss f)
  unfolding flow_run
  flow_run-IsBounded [] f h = h
  flow_run-IsBounded (s ∷ ss) f h =
      flow_run-IsBounded ss (flow_step c s f) (flow_step-IsBounded s f h)

  pub no_flow-IsBounded : IsBounded no_flow
  no_flow-IsBounded = record {
    balanced = idle-IsBalanced c.rmq_max_concurrent_tasks;
    tracked = λ t. refl;
    counted = refl;
    few = λ limited. omega arith;
    live = λ limited. omega arith;
  }

  -- There are at most as many active tasks as the prefetch count for each connection.
  pub active-flow_run :
      (ss : List FlowStep)
      → 1 ≤ c.rmq_prefetch_count
      → let f = flow_run c ss no_flow in
        length f.pool.active ≤ c.rmq_prefetch_count * suc f.reconnects
  active-flow_run ss limited =
      let f = flow_run c ss no_flow in
      let h = flow_run-IsBounded ss no_flow no_flow-IsBounded in
      omega (arith, h.live limited, h.few limited, one_more c.rmq_prefetch_count f.reconnects)
