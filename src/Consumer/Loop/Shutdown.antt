-- ===== src/Consumer/Loop/Shutdown.antt =====
-- fastapi_app/rmq/consumer.py: what a cancellation of the consumer does, by where it arrives.
use fastapi_project.Prelude.{
  ℕ, suc, ◌+◌, ◌≡◌, ◌≢◌, ◌⊎◌, inl, inr, refl, Bool, true, false, none, some, Bool-cases, List, [],
  ◌∷◌, if◌then◌else◌, arith,
}
use fastapi_project.Python.{cancelled_error, Outcome, returned, raised, Await, done}
use fastapi_project.Consumer.Loop.{
  consume, spawn_all, share, Effect, Attempt, LoopState, left_connection, drained, inside, leave,
  attempt, close_open, on_cancelled, handle, after_attempt, turn, rmq_consumer,
}

module _ (a : Attempt) (s : LoopState) (rest : List Attempt) where
  -- Where the connection was made, its exit and the drain return, and it is closed then, a
  -- cancellation inside `async with connection` ends the loop with the tasks drained, but only
  -- after the exit of the connection.
  pub cancelled_inside :
      a.connect ≡ done
      → (inside a s).0 ≡ raised cancelled_error
      → a.leave_connection ≡ done
      → a.conn_is_closed ≡ true
      → a.drain ≡ done
      → ((rmq_consumer (a ∷ rest) s).0 ≡ some cancelled_error)
        × ((rmq_consumer (a ∷ rest) s).1.effects
            ≡ drained ∷ left_connection ∷ (inside a s).1.effects)
  unfolding rmq_consumer turn attempt handle leave on_cancelled close_open after_attempt
  cancelled_inside c i l k d = ground arith

-- How often the drain was called.
abbrev pub drains : List Effect → ℕ
drains [] = 0
drains (drained ∷ es) = suc (drains es)
drains (_ ∷ es) = drains es

drains-spawn_all :
    (ms : List ℕ) (s : LoopState) → drains (spawn_all ms s).effects ≡ drains s.effects
unfolding spawn_all
drains-spawn_all [] s = refl
drains-spawn_all (m ∷ ms) s = drains-spawn_all ms _

drains-consume : (a : Attempt) (s : LoopState) → drains (consume a s).1.effects ≡ drains s.effects
unfolding consume
drains-consume a s = ground (arith, drains-spawn_all a.messages s)

drains-inside : (a : Attempt) (s : LoopState) → drains (inside a s).1.effects ≡ drains s.effects
unfolding inside share
drains-inside a s = by_channel a.open_channel refl
  where
    by_channel :
        (o : Outcome ℕ) → a.open_channel ≡ o → drains (inside a s).1.effects ≡ drains s.effects
    by_channel (returned c) h = rw (h, drains-consume a (share (some c) s))
    by_channel (raised e) h = rw h

drains-attempt : (a : Attempt) (s : LoopState) → drains (attempt a s).1.effects ≡ drains s.effects
unfolding attempt leave
drains-attempt a s = ground (arith, drains-inside a s)

abbrev pub was_cancelled : Await → Bool
was_cancelled (raised cancelled_error) = true
was_cancelled _ = false

drains-after_attempt :
    (a : Attempt) (x : Await × LoopState)
    → drains (after_attempt a x).1.effects
      ≡ drains x.1.effects + (if was_cancelled x.0 then 1 else 0)
unfolding after_attempt handle on_cancelled close_open share
drains-after_attempt a x = ground arith

-- A turn calls the drain exactly if a cancellation leaves its `try`: a cancellation of the sleep
-- in an `except` clause, as any other end of the turn, leaves the active tasks alone.
pub turn_drains :
    (a : Attempt) (s : LoopState)
    → drains (turn a s).1.effects
      ≡ drains s.effects + (if was_cancelled (attempt a s).0 then 1 else 0)
unfolding turn
turn_drains a s = omega (arith, drains-after_attempt a (attempt a s), drains-attempt a s)

cancelled_ends :
    (a : Attempt) (x : Await × LoopState) → was_cancelled x.0 ≡ true → (after_attempt a x).0 ≢ done
unfolding after_attempt handle on_cancelled close_open
cancelled_ends a x h = ground arith

-- A turn either goes on without a drain, or it is the last one.
turn_drains_or_ends :
    (a : Attempt) (s : LoopState)
    → (drains (turn a s).1.effects ≡ drains s.effects)
      ⊎ ((drains (turn a s).1.effects ≡ drains s.effects + 1) × ((turn a s).0 ≢ done))
unfolding turn
turn_drains_or_ends a s = elim (Bool-cases (was_cancelled (attempt a s).0)) [
  | inl stopped ↦ inr (ground (arith, turn_drains a s), cancelled_ends a (attempt a s) stopped)
  | inr other ↦ inl (ground (arith, turn_drains a s))
]

-- However many turns the consumer makes, it calls the drain at most once, and then it ends.
pub rmq_consumer_drains :
    (rest : List Attempt) (s : LoopState)
    → let (out, s') = rmq_consumer rest s in
      (drains s'.effects ≡ drains s.effects)
      ⊎ ((drains s'.effects ≡ drains s.effects + 1) × (out ≢ none))
unfolding rmq_consumer
rmq_consumer_drains [] s = inl refl
rmq_consumer_drains (a ∷ rest) s =
    ground (arith, turn_drains_or_ends a s, rmq_consumer_drains rest (turn a s).1)
