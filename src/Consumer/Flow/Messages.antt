-- ===== src/Consumer/Flow/Messages.antt =====
-- fastapi_app/rmq/consumer.py: no message is forgotten.
use fastapi_project.Prelude.{
  ℕ, ◌+◌, ◌≤◌, ap, List, [], ◌∷◌, arith, Option-cases, Bool-cases, inl, inr,
}
use fastapi_project.Python.Lists.{remove, count, count-append, count-discard, count-remove}
use fastapi_project.Consumer.Pool.{spawn, drop, abandon, pool_step}
use fastapi_project.Consumer.Pool.Slots.{IsTracked}
use fastapi_project.Consumer.Pool.Counts.{active-begin, active-finish_found}
use fastapi_project.Settings.{Settings}
use fastapi_project.Consumer.Flow.Bounds.{IsBounded, flow_step-IsBounded, no_flow-IsBounded}
use fastapi_project.Consumer.Flow.{
  Flow, no_flow, FlowStep, delivers, begins, settles, drops, abandons, connects_again, flow_step,
  flow_run, deliver, settle, give_up, has_room,
}

-- An unsettled message has its task, active, or cancelled before it had its slot.
abbrev pub IsOwned : Flow → Type 0
IsOwned f = (t : ℕ) → count t f.unsettled ≤ count t f.pool.active + count t f.cancelled

module _ (c : Settings) where
  abbrev m : ℕ
  m = c.rmq_max_concurrent_tasks

  pub flow_step-IsOwned :
      (s : FlowStep) (f : Flow) → IsTracked f.pool → IsOwned f → IsOwned (flow_step c s f)
  unfolding flow_step deliver settle give_up pool_step spawn drop abandon
  flow_step-IsOwned (delivers task) f k h t = elim (Bool-cases (has_room c f)) [
    | inl free ↦
        rw (free, flow_step, deliver)
          (omega (
            arith,
            h t,
            count-append t f.unsettled (task ∷ []),
            count-append t f.pool.active (task ∷ []),
          ))
    | inr full ↦ rw (full, flow_step, deliver) (h t)
  ]
  flow_step-IsOwned (begins task) f k h t =
      omega (arith, h t, ap (count t) (active-begin m task f.pool))
  flow_step-IsOwned (settles task) f k h t = elim (Option-cases (remove task f.pool.running)) [
    | inl gone ↦ rw (gone, flow_step, settle) (h t)
    | inr (rest, found) ↦
        rw (found, flow_step, settle)
          (omega (
            arith,
            h t,
            k t,
            count-remove t task f.pool.running rest found,
            ap (count t) (active-finish_found m task rest f.pool found),
            count-discard t task f.pool.active,
            count-discard t task f.unsettled,
          ))
  ]
  flow_step-IsOwned (drops task) f k h t = elim (Option-cases (remove task f.pool.created)) [
    | inl gone ↦ rw (gone, flow_step, give_up) (h t)
    | inr (rest, found) ↦
        rw (found, flow_step, give_up)
          (rw (found, pool_step, drop) (omega (arith, h t, count-discard t task f.pool.active)))
  ]
  flow_step-IsOwned (abandons task) f k h t = elim (Option-cases (remove task f.pool.waiting)) [
    | inl gone ↦ rw (gone, flow_step, give_up) (h t)
    | inr (rest, found) ↦
        rw (found, flow_step, give_up)
          (rw (found, pool_step, abandon) (omega (arith, h t, count-discard t task f.pool.active)))
  ]
  flow_step-IsOwned connects_again f k h t = omega arith

  pub flow_run_from :
      (ss : List FlowStep) (f : Flow) → IsBounded c f → IsOwned f → IsOwned (flow_run c ss f)
  unfolding flow_run
  flow_run_from [] f k h = h
  flow_run_from (s ∷ ss) f k h =
      flow_run_from ss (flow_step c s f) (flow_step-IsBounded c s f k)
        (flow_step-IsOwned s f k.tracked h)

  -- No message is forgotten: every message that is unsettled on the present channel has a task that
  -- is active, unless that was cancelled before it had a slot.
  pub flow_run-IsOwned : (ss : List FlowStep) → IsOwned (flow_run c ss no_flow)
  flow_run-IsOwned ss = flow_run_from ss no_flow (no_flow-IsBounded c) (λ t. omega arith)
