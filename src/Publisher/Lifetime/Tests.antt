-- ===== src/Publisher/Lifetime/Tests.antt =====
-- Calls of `_get_channel` while the publisher is closed.
use fastapi_project.Prelude.{ℕ, ◌≡◌, ◌⊎◌, refl, Bool, true, some, List, [], ◌∷◌}
use fastapi_project.Python.{returned}
use fastapi_project.Python.Lists.{remove, discard}
use fastapi_project.Publisher.Lock.{
  enters, connects, opens, reach_channel, enter, connected, channel_opened, step_at, call_step,
}
use fastapi_project.Publisher.Lifetime.{unused, LifeStep, calls, closes, life_step, life_run}
use fastapi_project.Publisher.Lifetime.Single.{life_run_single}

abbrev all_open : ℕ → Bool
all_open c = true

-- A connection is lost, and the next call makes another.
abbrev lost_once : List LifeStep
lost_once =
    calls all_open (enters 1)
    ∷ calls all_open (connects (returned 7))
    ∷ closes 7
    ∷ calls all_open (opens (returned 3))
    ∷ calls all_open (enters 2)
    ∷ calls all_open (connects (returned 8))
    ∷ []

life_run_single_example :
    ((life_run lost_once unused).open_connections ≡ [])
    ⊎ ((k : ℕ) × ((life_run lost_once unused).open_connections ≡ k ∷ [])
        × ((life_run lost_once unused).shared.publisher.connection ≡ some k))
life_run_single_example = life_run_single lost_once

second_connection : (life_run lost_once unused).open_connections ≡ 8 ∷ []
unfolding life_run life_step call_step step_at enter connected reach_channel channel_opened remove
    discard
second_connection = refl
