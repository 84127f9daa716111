-- ===== src/Consumer/Pool/Draining.antt =====
-- fastapi_app/rmq/consumer.py: the tasks come to an end, which is what `_drain_tasks` waits for.
use Prim.Native.Nat.{◌*◌}
use fastapi_project.Prelude.{
  ℕ, zero, suc, ◌+◌, ◌≤◌, ◌≡◌, ◌≢◌, refl, ap, none, List, [], ◌∷◌, ◌++◌, ◌⊎◌, inl, inr, arith,
  length, length-append, Option-cases,
}
use fastapi_project.Python.Lists.{remove, length-remove}
use fastapi_project.Consumer.Pool.{
  Pool, idle, free, begin, finish, drop, abandon, acquire, release, PoolStep, spawned, begun,
  finished, dropped, abandoned, pool_step, pool_run,
}
use fastapi_project.Consumer.Pool.Slots.{IsBalanced, idle-IsBalanced, pool_run-IsBalanced}
use fastapi_project.Consumer.Pool.Counts.{IsCounted, pool_run-IsCounted}

-- How many steps are still to come, where no task is created any more.
abbrev pub steps_left : Pool → ℕ
steps_left p = 2 * length p.created + length p.waiting + length p.running

-- A step of a task that stands where the step begins.
abbrev pub IsStep : PoolStep → Pool → Type 0
IsStep (spawned task) p = ⊥
IsStep (begun task) p = remove task p.created ≢ none
IsStep (finished task) p = remove task p.running ≢ none
IsStep (dropped task) p = remove task p.created ≢ none
IsStep (abandoned task) p = remove task p.waiting ≢ none

abbrev pub AreSteps : ℕ → List PoolStep → Pool → Type 0
AreSteps m [] p = Unit {0}
AreSteps m (s ∷ ss) p = IsStep s p × AreSteps m ss (pool_step m s p)

module _ (m : ℕ) where
  acquire_left :
      (task n : ℕ) (ws : List ℕ) (p : Pool)
      → p.waiting ≡ ws
      → steps_left (acquire m task n ws p) ≡ suc (steps_left p)
  unfolding acquire
  acquire_left task zero ws p e = omega (arith, length-append ws (task ∷ []), ap (length {A = ℕ}) e)
  acquire_left task (suc n) [] p e = omega (arith, length-append p.running (task ∷ []))
  acquire_left task (suc n) (w ∷ ws) p e =
      omega (arith, length-append ws (task ∷ []), ap (length {A = ℕ}) e)

  release_left :
      (n : ℕ) (ws : List ℕ) (p : Pool)
      → p.waiting ≡ ws
      → steps_left (release m n ws p) ≡ steps_left p
  unfolding release
  release_left n [] p e = refl
  release_left n (w ∷ ws) p e =
      omega (arith, length-append p.running (w ∷ []), ap (length {A = ℕ}) e)

  pool_step_left :
      (s : PoolStep) (p : Pool) → IsStep s p → suc (steps_left (pool_step m s p)) ≤ steps_left p
  unfolding pool_step begin finish drop abandon
  pool_step_left (spawned task) p h = absurd h
  pool_step_left (begun task) p h = elim (Option-cases (remove task p.created)) [
    | inl gone ↦ absurd (h gone)
    | inr (rest, found) ↦
        rw (found, pool_step, begin)
          (omega (
            arith,
            length-remove task p.created rest found,
            acquire_left task (free m p) p.waiting _ refl,
          ))
  ]
  pool_step_left (finished task) p h = elim (Option-cases (remove task p.running)) [
    | inl gone ↦ absurd (h gone)
    | inr (rest, found) ↦
        rw (found, pool_step, finish)
          (omega (
            arith,
            length-remove task p.running rest found,
            release_left (free m p) p.waiting _ refl,
          ))
  ]
  pool_step_left (dropped task) p h = elim (Option-cases (remove task p.created)) [
    | inl gone ↦ absurd (h gone)
    | inr (rest, found) ↦
        rw (found, pool_step, drop) (omega (arith, length-remove task p.created rest found))
  ]
  pool_step_left (abandoned task) p h = elim (Option-cases (remove task p.waiting)) [
    | inl gone ↦ absurd (h gone)
    | inr (rest, found) ↦
        rw (found, pool_step, abandon) (omega (arith, length-remove task p.waiting rest found))
  ]

  pool_run_left : (ss : List PoolStep) (p : Pool) → AreSteps m ss p → length ss ≤ steps_left p
  pool_run_left [] p h = omega arith
  pool_run_left (s ∷ ss) p h =
      omega (arith, pool_step_left s p h.0, pool_run_left ss (pool_step m s p) h.1)

  -- A task that waits has another that runs.
  can_move :
      (p : Pool) (active waiting : List ℕ)
      → p.active ≡ active
      → p.waiting ≡ waiting
      → 1 ≤ m
      → IsBalanced m p
      → IsCounted p
      → (active ≡ []) ⊎ (1 ≤ length p.created + length p.running)
  can_move p [] waiting e f room b h = inl refl
  can_move p (a ∷ active) [] e f room b h =
      inr (omega (arith, h, ap (length {A = ℕ}) e, ap (length {A = ℕ}) f))
  can_move p (a ∷ active) (w ∷ waiting) e f room b h =
      inr (omega (arith, b.slots, b.busy (λ k. cc), room))

  pool_run-pool_run :
      (ss more : List PoolStep) (p : Pool)
      → pool_run m more (pool_run m ss p) ≡ pool_run m (ss ++ more) p
  unfolding pool_run
  pool_run-pool_run [] more p = refl
  pool_run-pool_run (s ∷ ss) more p = pool_run-pool_run ss more (pool_step m s p)

  -- If RMQ_MAX_CONCURRENT_TASKS is at least 1, and no task is created any more, then the tasks make
  -- only so many steps, and as long as one of them is active, one can begin or end, so that what
  -- the drain waits for comes unless a task does not end.
  pub pool_ends :
      (before ss : List PoolStep)
      → 1 ≤ m
      → AreSteps m ss (pool_run m before idle)
      → let p = pool_run m before idle in
        let q = pool_run m ss p in
        (length ss ≤ steps_left p) × ((q.active ≡ []) ⊎ (1 ≤ length q.created + length q.running))
  pool_ends before ss room h =
      let all = before ++ ss in
      let q = pool_run m all idle in
      let e : pool_run m ss (pool_run m before idle) ≡ q = pool_run-pool_run before ss idle in
      (
        pool_run_left ss (pool_run m before idle) h,
        rw e (
            can_move q _ _ refl refl room (pool_run-IsBalanced m all idle (idle-IsBalanced m))
              (pool_run-IsCounted m all idle (λ t. refl) refl)),
      )
