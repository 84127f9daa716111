-- ===== src/Consumer/Flow/Timeout.antt =====
-- fastapi_app/rmq/consumer.py: what is left when `_drain_tasks` has run into its timeout.
use fastapi_project.Prelude.{
  ℕ, ◌+◌, ◌≤◌, ◌≡◌, refl, ap, false, none, some, List, [], ◌∷◌, map, length, arith, Option-cases,
  inl, inr,
}
use fastapi_project.Python.Lists.{remove, count, count-remove}
use fastapi_project.Python.Lists.Counts.{count_of_none, count-zero}
use fastapi_project.Consumer.Pool.{free, drop, abandon, finish, release, pool_step, drain_tasks}
use fastapi_project.Settings.{Settings}
use fastapi_project.Consumer.Flow.Bounds.{
  IsBounded, flow_step-IsBounded, flow_run-IsBounded, no_flow-IsBounded,
}
use fastapi_project.Consumer.Flow.Messages.{
  IsOwned, flow_step-IsOwned, flow_run_from, flow_run-IsOwned,
}
use fastapi_project.Consumer.Flow.{
  Flow, no_flow, FlowStep, settles, drops, abandons, flow_step, flow_run, settle, give_up,
  cancel_step, cancel_all, drain,
}

module _ (c : Settings) where
  -- The tasks without a slot are among these.
  abbrev AreAmong : List ℕ → Flow → Type 0
  AreAmong ts f = (t : ℕ) → count t f.pool.created + count t f.pool.waiting ≤ count t ts

  drops_lists :
      (task : ℕ) (rest : List ℕ) (f : Flow)
      → remove task f.pool.created ≡ some rest
      → let g = flow_step c (drops task) f in
        (g.pool.created ≡ rest) × (g.pool.waiting ≡ f.pool.waiting)
  unfolding flow_step give_up pool_step drop
  drops_lists task rest f found =
      rw (found, flow_step, give_up) (rw (found, pool_step, drop) (refl, refl))

  abandons_lists :
      (task : ℕ) (rest : List ℕ) (f : Flow)
      → remove task f.pool.waiting ≡ some rest
      → let g = flow_step c (abandons task) f in
        (g.pool.created ≡ f.pool.created) × (g.pool.waiting ≡ rest)
  unfolding flow_step give_up pool_step abandon
  abandons_lists task rest f found =
      rw (found, flow_step, give_up) (rw (found, pool_step, abandon) (refl, refl))

  abandons_nothing :
      (task : ℕ) (f : Flow) → remove task f.pool.waiting ≡ none → flow_step c (abandons task) f ≡ f
  unfolding flow_step give_up
  abandons_nothing task f ready = rw (ready, flow_step, give_up) refl

  step-AreAmong :
      (task : ℕ) (ts : List ℕ) (f : Flow)
      → AreAmong (task ∷ ts) f
      → AreAmong ts (flow_step c (cancel_step c task f) f)
  step-AreAmong task ts f h t = elim (Option-cases (remove task f.pool.created)) [
    | inr (rest, found) ↦
        let (created, waiting) = drops_lists task rest f found in
        let which : cancel_step c task f ≡ drops task = rw (found, cancel_step) refl in
        rw which (
          omega (
            arith,
            h t,
            count-remove t task f.pool.created rest found,
            ap (count t) created,
            ap (count t) waiting,
          ))
    | inl started ↦ elim (Option-cases (remove task f.pool.waiting)) [
      | inr (rest, found) ↦
          let (created, waiting) = abandons_lists task rest f found in
          let which : cancel_step c task f ≡ abandons task = rw (started, cancel_step) refl in
          rw which (
            omega (
              arith,
              h t,
              count-remove t task f.pool.waiting rest found,
              ap (count t) created,
              ap (count t) waiting,
            ))
      | inl ready ↦
          let same : flow_step c (cancel_step c task f) f ≡ f =
            rw (started, cancel_step) (abandons_nothing task f ready) in
          omega (
            arith,
            count_of_none t task f.pool.created f.pool.waiting started ready (count t ts) (h t),
            ap (λ (g : Flow). count t g.pool.created + count t g.pool.waiting) same,
          )
    ]
  ]

  cancel_all-AreAmong : (ts : List ℕ) (f : Flow) → AreAmong ts f → AreAmong [] (cancel_all c ts f)
  unfolding cancel_all
  cancel_all-AreAmong [] f h = h
  cancel_all-AreAmong (task ∷ ts) f h =
      cancel_all-AreAmong ts (flow_step c (cancel_step c task f) f) (step-AreAmong task ts f h)

  cancel_all-IsBounded : (ts : List ℕ) (f : Flow) → IsBounded c f → IsBounded c (cancel_all c ts f)
  unfolding cancel_all
  cancel_all-IsBounded [] f h = h
  cancel_all-IsBounded (task ∷ ts) f h =
      cancel_all-IsBounded ts (flow_step c (cancel_step c task f) f)
        (flow_step-IsBounded c (cancel_step c task f) f h)

  cancel_all-IsOwned :
      (ts : List ℕ) (f : Flow) → IsBounded c f → IsOwned f → IsOwned (cancel_all c ts f)
  unfolding cancel_all
  cancel_all-IsOwned [] f k h = h
  cancel_all-IsOwned (task ∷ ts) f k h =
      cancel_all-IsOwned ts (flow_step c (cancel_step c task f) f)
        (flow_step-IsBounded c (cancel_step c task f) f k)
        (flow_step-IsOwned c (cancel_step c task f) f k.tracked h)

  -- No task is without a slot, and those that have one are among these.
  record AreLast (ts : List ℕ) (f : Flow) : Type 0 where
    none_created : f.pool.created ≡ []
    none_waits : f.pool.waiting ≡ []
    among : (t : ℕ) → count t f.pool.running ≤ count t ts

  settles-AreLast :
      (task : ℕ) (ts : List ℕ) (f : Flow)
      → AreLast (task ∷ ts) f
      → AreLast ts (flow_step c (settles task) f)
  unfolding flow_step settle pool_step finish release remove
  settles-AreLast task ts f h = elim (Option-cases (remove task f.pool.running)) [
    | inl gone ↦
        rw (gone, flow_step, settle)
          (record {
            none_created = h.none_created;
            none_waits = h.none_waits;
            among = λ t. omega (
              arith,
              count_of_none t task f.pool.running [] gone refl (count t ts)
                  (omega (arith, h.among t)),
            );
          })
    | inr (rest, found) ↦
        rw (found, flow_step, settle)
          (rw (found, pool_step, finish)
            (rw (h.none_waits, release)
              (record {
                none_created = h.none_created;
                none_waits = refl;
                among =
                    λ t. omega (arith, h.among t, count-remove t task f.pool.running rest found);
              })))
  ]

  settle_all-AreLast :
      (ts : List ℕ) (f : Flow) → AreLast ts f → AreLast [] (flow_run c (map settles ts) f)
  unfolding flow_run
  settle_all-AreLast [] f h = h
  settle_all-AreLast (task ∷ ts) f h =
      settle_all-AreLast ts (flow_step c (settles task) f) (settles-AreLast task ts f h)

  AreAmong-empty : (f : Flow) → AreAmong [] f → (f.pool.created ≡ []) × (f.pool.waiting ≡ [])
  AreAmong-empty f h = (
    count-zero f.pool.created (λ t. omega (arith, h t)),
    count-zero f.pool.waiting (λ t. omega (arith, h t)),
  )

  -- With no task left the set is empty and every slot is free.
  AreLast-empty :
      (f : Flow)
      → IsBounded c f
      → AreLast [] f
      → (f.pool.active ≡ []) × (free c.rmq_max_concurrent_tasks f.pool ≡ c.rmq_max_concurrent_tasks)
  AreLast-empty f b h =
      let stopped = count-zero f.pool.running h.among in
      (
        count-zero f.pool.active (λ t. omega (
          arith,
          b.tracked t,
          ap (count t) h.none_created,
          ap (count t) h.none_waits,
          h.among t,
        )),
        omega (arith, b.balanced.slots, ap (length {A = ℕ}) stopped),
      )

  -- A drain that runs into its timeout, whatever has happened before, leaves only tasks that have a
  -- slot; and when these have ended, in any order, no task is active, every slot is free, and every
  -- message that is unsettled is one whose task was cancelled before it had a slot.
  pub drained :
      (ss : List FlowStep) (ends : List ℕ)
      → ((t : ℕ) → count t (drain c false (flow_run c ss no_flow)).pool.running ≤ count t ends)
      → let f = drain c false (flow_run c ss no_flow) in
        let g = flow_run c (map settles ends) f in
        (f.pool.created ≡ [])
        × (f.pool.waiting ≡ [])
        × (g.pool.active ≡ [])
        × (free c.rmq_max_concurrent_tasks g.pool ≡ c.rmq_max_concurrent_tasks)
        × ((t : ℕ) → count t g.unsettled ≤ count t g.cancelled)
  unfolding drain drain_tasks
  drained ss ends run =
      let e = flow_run c ss no_flow in
      let f = cancel_all c e.pool.active e in
      let bound = flow_run-IsBounded c ss no_flow (no_flow-IsBounded c) in
      let owned = flow_run-IsOwned c ss in
      let (created, waiting) =
        AreAmong-empty f
          (cancel_all-AreAmong e.pool.active e (λ t. omega (arith, bound.tracked t))) in
      let bound' = cancel_all-IsBounded e.pool.active e bound in
      let g = flow_run c (map settles ends) f in
      let bound'' = flow_run-IsBounded c (map settles ends) f bound' in
      let last =
        settle_all-AreLast ends f
          (record { none_created = created; none_waits = waiting; among = run }) in
      let (active, slots) = AreLast-empty g bound'' last in
      let owned' =
        flow_run_from c (map settles ends) f bound'
          (cancel_all-IsOwned e.pool.active e bound owned) in
      (created, waiting, active, slots, λ t. omega (arith, owned' t, ap (count t) active))
