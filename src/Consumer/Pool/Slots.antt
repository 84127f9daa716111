-- ===== src/Consumer/Pool/Slots.antt =====
-- fastapi_app/rmq/consumer.py: the bound that the semaphore sets, and the set of active tasks.
use fastapi_project.Prelude.{
  ℕ, zero, suc, ◌+◌, ◌≡◌, ◌≢◌, refl, ap, List, [], ◌∷◌, ◌++◌, arith, length, length-append,
  Option-cases, inl, inr, nat_eq,
}
use fastapi_project.Python.Lists.{
  remove, count, one_if, length-remove, remove-some, count-append, count-remove, count-discard,
}
use fastapi_project.Consumer.Pool.{
  Pool, idle, free, spawn, begin, finish, drop, abandon, acquire, release, PoolStep, spawned, begun,
  finished, dropped, abandoned, pool_step, pool_run,
}

-- The slots that are free and those that are taken make up the maximum, a task waits only if no
-- slot is free, and each active task stands in exactly one place.
pub record IsBalanced (max_concurrent : ℕ) (p : Pool) : Type 0 where
  pub slots : free max_concurrent p + length p.running ≡ max_concurrent
  pub busy : p.waiting ≢ [] → free max_concurrent p ≡ 0

abbrev pub IsTracked : Pool → Type 0
IsTracked p = (t : ℕ) → count t p.active ≡ count t p.created + count t p.waiting + count t p.running

append-ne-nil : (ws : List ℕ) (w : ℕ) → ws ++ w ∷ [] ≢ []
append-ne-nil [] w h = cc
append-ne-nil (v ∷ ws) w h = cc

module _ (m : ℕ) where
  acquire-IsBalanced :
      (task n : ℕ) (ws : List ℕ) (p : Pool)
      → n + length p.running ≡ m
      → p.waiting ≡ ws
      → (ws ≢ [] → n ≡ 0)
      → IsBalanced m (acquire m task n ws p)
  unfolding acquire
  acquire-IsBalanced task (suc n) [] p s e b = ground (arith, length-append p.running (task ∷ []))
  acquire-IsBalanced task zero [] p s e b = ground arith
  acquire-IsBalanced task zero (w ∷ ws) p s e b = ground arith
  acquire-IsBalanced task (suc n) (w ∷ ws) p s e b = absurd (cc (b (λ h. cc)))

  release-IsBalanced :
      (n : ℕ) (ws : List ℕ) (p : Pool)
      → suc n + length p.running ≡ m
      → p.waiting ≡ ws
      → (ws ≢ [] → n ≡ 0)
      → IsBalanced m (release m n ws p)
  unfolding release
  release-IsBalanced n [] p s e b = ground arith
  release-IsBalanced n (w ∷ ws) p s e b =
      ground (arith, length-append p.running (w ∷ []), b (λ h. cc))

  pub pool_step-IsBalanced :
      (s : PoolStep) (p : Pool) → IsBalanced m p → IsBalanced m (pool_step m s p)
  unfolding pool_step spawn begin finish drop abandon
  pool_step-IsBalanced (spawned task) p b = ground arith
  pool_step-IsBalanced (begun task) p b = elim (Option-cases (remove task p.created)) [
    | inl gone ↦ rw (gone, pool_step, begin) b
    | inr (rest, found) ↦
        rw (found, pool_step, begin)
          (acquire-IsBalanced task (free m p) p.waiting _ b.slots refl b.busy)
  ]
  pool_step-IsBalanced (finished task) p b = elim (Option-cases (remove task p.running)) [
    | inl gone ↦ rw (gone, pool_step, finish) b
    | inr (rest, found) ↦
        rw (found, pool_step, finish)
          (release-IsBalanced (free m p) p.waiting _
            (omega (arith, b.slots, length-remove task p.running rest found)) refl b.busy)
  ]
  pool_step-IsBalanced (dropped task) p b = elim (Option-cases (remove task p.created)) [
    | inl gone ↦ rw (gone, pool_step, drop) b
    | inr (rest, found) ↦ rw (found, pool_step, drop) (record { slots = b.slots; busy = b.busy })
  ]
  pool_step-IsBalanced (abandoned task) p b = elim (Option-cases (remove task p.waiting)) [
    | inl gone ↦ rw (gone, pool_step, abandon) b
    | inr (rest, found) ↦
        rw (found, pool_step, abandon)
          (record { slots = b.slots; busy = λ h. b.busy (remove-some task p.waiting rest found) })
  ]

  pub idle-IsBalanced : IsBalanced m idle
  idle-IsBalanced = ground arith

  -- From a pool in which this holds, as it does at first, whatever tasks are created, begin, end
  -- and are cancelled, in any order, the free and the taken slots make up RMQ_MAX_CONCURRENT_TASKS,
  -- so that never more tasks than that process a message at a time; and a task waits only while no
  -- slot is free.
  pub pool_run-IsBalanced :
      (ss : List PoolStep) (p : Pool) → IsBalanced m p → IsBalanced m (pool_run m ss p)
  unfolding pool_run
  pool_run-IsBalanced [] p b = b
  pool_run-IsBalanced (s ∷ ss) p b =
      pool_run-IsBalanced ss (pool_step m s p) (pool_step-IsBalanced s p b)

  acquire-IsTracked :
      (task n t : ℕ) (ws : List ℕ) (p : Pool)
      → p.waiting ≡ ws
      → count t p.active
        ≡ count t p.created + count t p.waiting + count t p.running + one_if (nat_eq task t)
      → let q = acquire m task n ws p in
        count t q.active ≡ count t q.created + count t q.waiting + count t q.running
  unfolding acquire
  acquire-IsTracked task zero t ws p e h =
      rw (← e) (omega (arith, h, count-append t p.waiting (task ∷ [])))
  acquire-IsTracked task (suc n) t [] p e h = omega (arith, h, count-append t p.running (task ∷ []))
  acquire-IsTracked task (suc n) t (w ∷ ws) p e h =
      omega (arith, h, count-append t ws (task ∷ []), ap (count t) e)

  release-IsTracked :
      (n t : ℕ) (ws : List ℕ) (p : Pool)
      → p.waiting ≡ ws
      → count t p.active ≡ count t p.created + count t p.waiting + count t p.running
      → let q = release m n ws p in
        count t q.active ≡ count t q.created + count t q.waiting + count t q.running
  unfolding release
  release-IsTracked n t [] p e h = h
  release-IsTracked n t (w ∷ ws) p e h =
      omega (arith, h, count-append t p.running (w ∷ []), ap (count t) e)

  pub pool_step-IsTracked : (s : PoolStep) (p : Pool) → IsTracked p → IsTracked (pool_step m s p)
  unfolding pool_step spawn begin finish drop abandon
  pool_step-IsTracked (spawned task) p h t =
      omega (arith, h t, count-append t p.active (task ∷ []), count-append t p.created (task ∷ []))
  pool_step-IsTracked (begun task) p h t = elim (Option-cases (remove task p.created)) [
    | inl gone ↦ rw (gone, pool_step, begin) (h t)
    | inr (rest, found) ↦
        rw (found, pool_step, begin)
          (acquire-IsTracked task (free m p) t p.waiting _ refl
            (omega (arith, h t, count-remove t task p.created rest found)))
  ]
  pool_step-IsTracked (finished task) p h t = elim (Option-cases (remove task p.running)) [
    | inl gone ↦ rw (gone, pool_step, finish) (h t)
    | inr (rest, found) ↦
        rw (found, pool_step, finish)
          (release-IsTracked (free m p) t p.waiting _ refl (
            omega (
              arith,
              h t,
              count-discard t task p.active,
              count-remove t task p.running rest found,
            )))
  ]
  pool_step-IsTracked (dropped task) p h t = elim (Option-cases (remove task p.created)) [
    | inl gone ↦ rw (gone, pool_step, drop) (h t)
    | inr (rest, found) ↦
        rw (found, pool_step, drop)
          (omega
            (arith, h t, count-discard t task p.active, count-remove t task p.created rest found))
  ]
  pool_step-IsTracked (abandoned task) p h t = elim (Option-cases (remove task p.waiting)) [
    | inl gone ↦ rw (gone, pool_step, abandon) (h t)
    | inr (rest, found) ↦
        rw (found, pool_step, abandon)
          (omega
            (arith, h t, count-discard t task p.active, count-remove t task p.waiting rest found))
  ]

  -- From a pool in which this holds, after any steps the set of active tasks holds exactly those
  -- that are created, wait or run, as often as they do: no live task is lost to the drain, and none
  -- is kept after its end.
  pool_run-IsTracked : (ss : List PoolStep) (p : Pool) → IsTracked p → IsTracked (pool_run m ss p)
  unfolding pool_run
  pool_run-IsTracked [] p h = h
  pool_run-IsTracked (s ∷ ss) p h =
      pool_run-IsTracked ss (pool_step m s p) (pool_step-IsTracked s p h)
