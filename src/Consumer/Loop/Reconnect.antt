-- ===== src/Consumer/Loop/Reconnect.antt =====
-- fastapi_app/rmq/consumer.py: what a turn of the consumer's loop leaves in rmq/health.py, and that
-- the loop goes on until it is cancelled.
use fastapi_project.Prelude.{ℕ, ◌≡◌, refl, ap, false, Option, none, some, List, [], ◌∷◌, arith, All}
use fastapi_project.Python.{
  Exn, amqp_channel_error, cancelled_error, is_exception, Outcome, returned, raised, Await,
}
use fastapi_project.Health.{
  degraded, HealthModule, RmqHealthState, set_shared_channel, flag_degraded,
}
use fastapi_project.Consumer.Loop.{
  Attempt, LoopState, spawn_all, inside, consume, leave, attempt, share, close_open, on_cancelled,
  handle, after_attempt, turn, rmq_consumer,
}

-- The state of the health checker when a turn ends: DEGRADED after a channel error, unchanged
-- otherwise.
abbrev pub health_after : Await → RmqHealthState → RmqHealthState
health_after (raised amqp_channel_error) h = record h { status = degraded }
health_after _ h = h

health-spawn_all : (ms : List ℕ) (s : LoopState) → (spawn_all ms s).health ≡ s.health
unfolding spawn_all
health-spawn_all [] s = refl
health-spawn_all (m ∷ ms) s = health-spawn_all ms _

health-consume : (a : Attempt) (s : LoopState) → (consume a s).1.health ≡ s.health
unfolding consume
health-consume a s = ground (arith, health-spawn_all a.messages s)

health-consume-share :
    (a : Attempt) (c : Option ℕ) (s : LoopState)
    → (consume a (share c s)).1.health.health ≡ s.health.health
unfolding share set_shared_channel
health-consume-share a c s = ap (λ (n : HealthModule). n.health) (health-consume a (share c s))

health-inside : (a : Attempt) (s : LoopState) → (inside a s).1.health.health ≡ s.health.health
unfolding inside
health-inside a s = by_channel a.open_channel refl
  where
    by_channel :
        (o : Outcome ℕ) → a.open_channel ≡ o → (inside a s).1.health.health ≡ s.health.health
    by_channel (returned c) h = rw (h, health-consume-share a (some c) s)
    by_channel (raised e) h = rw h

health-attempt : (a : Attempt) (s : LoopState) → (attempt a s).1.health.health ≡ s.health.health
unfolding attempt leave
health-attempt a s = ground (arith, health-inside a s)

module _ (a : Attempt) (s : LoopState) where
  -- A turn whose `try` raises leaves no shared channel, so that the checker does not use one that
  -- is closed, and changes the health state only to DEGRADED on a channel error.
  pub turn_raised :
      (e : Exn)
      → (attempt a s).0 ≡ raised e
      → ((turn a s).1.health.shared_channel ≡ none)
        × ((turn a s).1.health.health ≡ health_after (raised e) s.health.health)
  unfolding turn handle set_shared_channel flag_degraded on_cancelled close_open after_attempt
  turn_raised e h = ground (arith, h, health-attempt a s)

-- Sleeps, the drain and the closes of a turn raise nothing but a cancellation.
pub record IsCalm (a : Attempt) : Type 0 where
  pub sleeps : (e : Exn) → a.sleep ≡ raised e → is_exception e ≡ false
  pub drains : (e : Exn) → a.drain ≡ raised e → is_exception e ≡ false
  pub closes : (e : Exn) → a.close ≡ raised e → is_exception e ≡ false

health-close_open : (a : Attempt) (s : LoopState) → (close_open a s).1.health ≡ s.health
unfolding close_open
health-close_open a s = ground arith

handle_raises :
    (a : Attempt) (s : LoopState) (d e : Exn)
    → IsCalm a
    → (handle a d s).0 ≡ raised e
    → is_exception e ≡ false
unfolding handle on_cancelled close_open
handle_raises a s d e c h = ground (arith, c.sleeps e, c.drains e, c.closes e)

after_raises :
    (a : Attempt) (x : Await × LoopState) (e : Exn)
    → IsCalm a
    → (after_attempt a x).0 ≡ raised e
    → is_exception e ≡ false
unfolding after_attempt
after_raises a (returned u, s) e c h = ground arith
after_raises a (raised d, s) e c h = handle_raises a s d e c h

turn_cancelled :
    (a : Attempt) (s : LoopState) (e : Exn)
    → IsCalm a
    → (turn a s).0 ≡ raised e
    → is_exception e ≡ false
unfolding turn
turn_cancelled a s e c h = after_raises a (attempt a s) e c h

not_exception : (e : Exn) → is_exception e ≡ false → e ≡ cancelled_error
not_exception e h = ground arith

-- Whatever the broker does, the consumer goes on reconnecting until it is cancelled, provided that
-- its sleeps, its drain and its last close raise nothing but a cancellation.
pub consumer_cancelled :
    (rest : List Attempt) (s : LoopState) (e : Exn)
    → All IsCalm rest
    → (rmq_consumer rest s).0 ≡ some e
    → e ≡ cancelled_error
unfolding rmq_consumer
consumer_cancelled [] s e c h = cc
consumer_cancelled (a ∷ rest) s e c h =
    ground
      (arith, turn_cancelled a s e c.0, consumer_cancelled rest (turn a s).1 e c.1, not_exception e)
