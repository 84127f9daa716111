-- ===== src/Consumer/Pool/Counts.antt =====
-- fastapi_app/rmq/consumer.py: how many tasks are active, and which steps change that.
use fastapi_project.Prelude.{
  ℕ, zero, suc, ◌+◌, ◌≤◌, ◌≡◌, refl, ap, some, List, [], ◌∷◌, arith, length, length-append,
  Option-cases, inl, inr,
}
use fastapi_project.Python.Lists.{
  remove, discard, count, length-remove, count-remove, count-remove-none,
}
use fastapi_project.Consumer.Pool.{
  Pool, free, spawn, begin, finish, drop, abandon, acquire, release, PoolStep, spawned, begun,
  finished, dropped, abandoned, pool_step, pool_run,
}
use fastapi_project.Consumer.Pool.Slots.{IsBalanced, IsTracked, pool_step-IsTracked}

-- There are as many active tasks as tasks that are created, wait or run.
abbrev pub IsCounted : Pool → Type 0
IsCounted p = length p.active ≡ length p.created + length p.waiting + length p.running

-- A task that stands in one list, and in the set, leaves both.
length-discard :
    (task : ℕ) (vs us active : List ℕ)
    → remove task vs ≡ some us
    → count task vs ≤ count task active
    → length active ≡ suc (length (discard task active))
unfolding discard
length-discard task vs us active found le = elim (Option-cases (remove task active)) [
  | inl gone ↦
      absurd
        (ground (arith, count-remove task task vs us found, count-remove-none task active gone))
  | inr (rest, there) ↦ rw (there, discard) (length-remove task active rest there)
]

pub length-discard_le :
    (task : ℕ) (vs : List ℕ)
    → (length (discard task vs) ≤ length vs) × (length vs ≤ suc (length (discard task vs)))
unfolding discard
length-discard_le task vs = elim (Option-cases (remove task vs)) [
  | inl gone ↦ rw (gone, discard) (omega arith, omega arith)
  | inr (rest, found) ↦
      let n = length-remove task vs rest found in
      rw (found, discard) (omega (arith, n), omega (arith, n))
]

-- The tasks that a step creates.
abbrev pub news : PoolStep → ℕ
news (spawned task) = 1
news _ = 0

module _ (m : ℕ) where
  acquire-IsCounted :
      (task n : ℕ) (ws : List ℕ) (p : Pool)
      → p.waiting ≡ ws
      → length p.active ≡ suc (length p.created + length p.waiting + length p.running)
      → IsCounted (acquire m task n ws p)
  unfolding acquire
  acquire-IsCounted task zero ws p e h =
      omega (arith, h, length-append ws (task ∷ []), ap (length {A = ℕ}) e)
  acquire-IsCounted task (suc n) [] p e h = omega (arith, h, length-append p.running (task ∷ []))
  acquire-IsCounted task (suc n) (w ∷ ws) p e h =
      omega (arith, h, length-append ws (task ∷ []), ap (length {A = ℕ}) e)

  release-IsCounted :
      (n : ℕ) (ws : List ℕ) (p : Pool) → p.waiting ≡ ws → IsCounted p → IsCounted (release m n ws p)
  unfolding release
  release-IsCounted n [] p e h = h
  release-IsCounted n (w ∷ ws) p e h =
      omega (arith, h, length-append p.running (w ∷ []), ap (length {A = ℕ}) e)

  pub pool_step-IsCounted :
      (s : PoolStep) (p : Pool) → IsTracked p → IsCounted p → IsCounted (pool_step m s p)
  unfolding pool_step spawn begin finish drop abandon
  pool_step-IsCounted (spawned task) p t h =
      omega (arith, h, length-append p.active (task ∷ []), length-append p.created (task ∷ []))
  pool_step-IsCounted (begun task) p t h = elim (Option-cases (remove task p.created)) [
    | inl gone ↦ rw (gone, pool_step, begin) h
    | inr (rest, found) ↦
        rw (found, pool_step, begin)
          (acquire-IsCounted task (free m p) p.waiting _ refl
            (omega (arith, h, length-remove task p.created rest found)))
  ]
  pool_step-IsCounted (finished task) p t h = elim (Option-cases (remove task p.running)) [
    | inl gone ↦ rw (gone, pool_step, finish) h
    | inr (rest, found) ↦
        rw (found, pool_step, finish)
          (release-IsCounted (free m p) p.waiting _ refl (
            omega (
              arith,
              h,
              t task,
              length-remove task p.running rest found,
              length-discard task p.running rest p.active found,
            )))
  ]
  pool_step-IsCounted (dropped task) p t h = elim (Option-cases (remove task p.created)) [
    | inl gone ↦ rw (gone, pool_step, drop) h
    | inr (rest, found) ↦
        rw (found, pool_step, drop)
          (omega (
            arith,
            h,
            t task,
            length-remove task p.created rest found,
            length-discard task p.created rest p.active found,
          ))
  ]
  pool_step-IsCounted (abandoned task) p t h = elim (Option-cases (remove task p.waiting)) [
    | inl gone ↦ rw (gone, pool_step, abandon) h
    | inr (rest, found) ↦
        rw (found, pool_step, abandon)
          (omega (
            arith,
            h,
            t task,
            length-remove task p.waiting rest found,
            length-discard task p.waiting rest p.active found,
          ))
  ]

  acquire-active : (task n : ℕ) (ws : List ℕ) (p : Pool) → (acquire m task n ws p).active ≡ p.active
  unfolding acquire
  acquire-active task zero ws p = refl
  acquire-active task (suc n) [] p = refl
  acquire-active task (suc n) (w ∷ ws) p = refl

  release-active : (n : ℕ) (ws : List ℕ) (p : Pool) → (release m n ws p).active ≡ p.active
  unfolding release
  release-active n [] p = refl
  release-active n (w ∷ ws) p = refl

  -- Only a new task makes the active ones more.
  pub active_bound :
      (s : PoolStep) (p : Pool) → length (pool_step m s p).active ≤ length p.active + news s
  unfolding pool_step spawn begin finish drop abandon
  active_bound (spawned task) p = omega (arith, length-append p.active (task ∷ []))
  active_bound (begun task) p = elim (Option-cases (remove task p.created)) [
    | inl gone ↦ rw (gone, pool_step, begin) (omega arith)
    | inr (rest, found) ↦
        rw (found, pool_step, begin)
          (omega (arith, ap (length {A = ℕ}) (acquire-active task (free m p) p.waiting _)))
  ]
  active_bound (finished task) p = elim (Option-cases (remove task p.running)) [
    | inl gone ↦ rw (gone, pool_step, finish) (omega arith)
    | inr (rest, found) ↦
        rw (found, pool_step, finish)
          (omega (
            arith,
            ap (length {A = ℕ}) (release-active (free m p) p.waiting _),
            length-discard_le task p.active,
          ))
  ]
  active_bound (dropped task) p = elim (Option-cases (remove task p.created)) [
    | inl gone ↦ rw (gone, pool_step, drop) (omega arith)
    | inr (rest, found) ↦
        rw (found, pool_step, drop) (omega (arith, length-discard_le task p.active))
  ]
  active_bound (abandoned task) p = elim (Option-cases (remove task p.waiting)) [
    | inl gone ↦ rw (gone, pool_step, abandon) (omega arith)
    | inr (rest, found) ↦
        rw (found, pool_step, abandon) (omega (arith, length-discard_le task p.active))
  ]

  pub active-begin : (task : ℕ) (p : Pool) → (begin m task p).active ≡ p.active
  unfolding begin
  active-begin task p = elim (Option-cases (remove task p.created)) [
    | inl gone ↦ rw (gone, begin) refl
    | inr (rest, found) ↦ rw (found, begin) (acquire-active task (free m p) p.waiting _)
  ]

  pub active-finish_found :
      (task : ℕ) (rest : List ℕ) (p : Pool)
      → remove task p.running ≡ some rest
      → (finish m task p).active ≡ discard task p.active
  unfolding finish
  active-finish_found task rest p found = rw (found, finish) (release-active (free m p) p.waiting _)

  -- A task that ends is active no longer.
  pub active-finish :
      (task : ℕ) (rest : List ℕ) (p : Pool)
      → remove task p.running ≡ some rest
      → IsTracked p
      → suc (length (pool_step m (finished task) p).active) ≤ length p.active
  unfolding pool_step finish
  active-finish task rest p found t =
      rw (found, pool_step, finish)
        (omega (
          arith,
          ap (length {A = ℕ}) (release-active (free m p) p.waiting _),
          t task,
          length-discard task p.running rest p.active found,
        ))

  pub pool_run-IsCounted :
      (ss : List PoolStep) (p : Pool) → IsTracked p → IsCounted p → IsCounted (pool_run m ss p)
  unfolding pool_run
  pool_run-IsCounted [] p t h = h
  pool_run-IsCounted (s ∷ ss) p t h =
      pool_run-IsCounted ss (pool_step m s p) (pool_step-IsTracked m s p t)
        (pool_step-IsCounted s p t h)

  -- A pool whose active tasks are no more than the slots has nobody waiting.
  pub nobody_waits :
      (p : Pool) (ws : List ℕ)
      → p.waiting ≡ ws
      → IsBalanced m p
      → IsCounted p
      → length p.active ≤ m
      → ws ≡ []
  nobody_waits p [] e b h le = refl
  nobody_waits p (w ∷ ws) e b h le =
      absurd (omega (arith, h, b.slots, b.busy (λ k. cc), ap (length {A = ℕ}) e))
