-- ===== src/Publisher/Lock.antt =====
-- fastapi_app/rmq/publisher.py: the calls of `_get_channel` that run at the same time. `_lock` is
-- asyncio's: the call that holds it is at one of the two awaits, and the others wait. Which of them
-- goes on is left open, so that each order of the calls is a list of actions.
pub mod Sharing
use fastapi_project.Prelude.{ℕ, Bool, Option, none, some, List, [], ◌∷◌, if◌then◌else◌}
use fastapi_project.Python.{Outcome, returned, raised}
use fastapi_project.Publisher.{Library, PublisherState}

-- The call that holds the lock, if any, and its await: `connect_robust`, or the `channel` of a
-- connection.
pub data Stage : Type 0 where
  unlocked : Stage
  connecting : (call : ℕ) → Stage
  opening : (call connection : ℕ) → Stage

-- The globals, the lock, and the calls that have ended, with their results, latest first.
pub record Shared : Type 0 where
  pub publisher : PublisherState
  pub stage : Stage
  pub ended : List (ℕ × Outcome ℕ)

-- A call enters the lock, or the await of the call that holds it ends.
pub data CallStep : Type 0 where
  enters : (call : ℕ) → CallStep
  connects opens : Outcome ℕ → CallStep

-- The exit of `async with _lock`, by a return or by an exception.
abbrev pub end_call : ℕ → Outcome ℕ → PublisherState → List (ℕ × Outcome ℕ) → Shared
end_call call out p ended = record { publisher = p; stage = unlocked; ended = (call, out) ∷ ended }

abbrev pub await_at : Stage → PublisherState → List (ℕ × Outcome ℕ) → Shared
await_at stage p ended = record { publisher = p; stage = stage; ended = ended }

-- Nothing is closed meanwhile: which objects are open does not change.
module _ (conn_open chan_open : ℕ → Bool) where
  -- The second `if`, with the connection that the first one has left.
  unfoldable pub reach_channel : ℕ → ℕ → PublisherState → List (ℕ × Outcome ℕ) → Shared
  reach_channel call k p ended = elim p.channel [
    | none ↦ await_at (opening call k) p ended
    | some c ↦
        if chan_open c
        then end_call call (returned c) p ended
        else await_at (opening call k) p ended
  ]

  -- The first `if`.
  unfoldable pub enter : ℕ → PublisherState → List (ℕ × Outcome ℕ) → Shared
  unfolding reach_channel
  enter call p ended = elim p.connection [
    | none ↦ await_at (connecting call) p ended
    | some k ↦
        if conn_open k then reach_channel call k p ended else await_at (connecting call) p ended
  ]

  unfoldable pub connected : ℕ → Outcome ℕ → PublisherState → List (ℕ × Outcome ℕ) → Shared
  unfolding reach_channel
  connected call (returned k) p ended =
      reach_channel call k (record p { connection = some k }) ended
  connected call (raised e) p ended = end_call call (raised e) p ended

  unfoldable pub channel_opened : ℕ → Outcome ℕ → PublisherState → List (ℕ × Outcome ℕ) → Shared
  channel_opened call (returned c) p ended =
      end_call call (returned c) (record p { channel = some c }) ended
  channel_opened call (raised e) p ended = end_call call (raised e) p ended

  -- What is not possible at a stage changes nothing: a call does not enter a lock that is held.
  unfoldable pub step_at : Stage → CallStep → Shared → Shared
  unfolding enter connected channel_opened
  step_at unlocked (enters call) s = enter call s.publisher s.ended
  step_at (connecting call) (connects out) s = connected call out s.publisher s.ended
  step_at (opening call k) (opens out) s = channel_opened call out s.publisher s.ended
  step_at _ _ s = s

  unfoldable pub call_step : CallStep → Shared → Shared
  unfolding step_at
  call_step a s = step_at s.stage a s

  unfoldable pub call_run : List CallStep → Shared → Shared
  unfolding call_step
  call_run [] s = s
  call_run (a ∷ rest) s = call_run rest (call_step a s)
