-- ===== src/Publisher/Lifetime.antt =====
-- fastapi_app/rmq/publisher.py: which connections are open while calls of `_get_channel` run, and
-- connections are closed, by `close`, which takes no lock, or by the broker.
pub mod Single
mod Tests
use fastapi_project.Prelude.{ℕ, Bool, true, false, none, some, List, [], ◌∷◌}
use fastapi_project.Python.{Outcome, returned, raised}
use fastapi_project.Python.Lists.{remove, discard}
use fastapi_project.Publisher.Lock.{
  Stage, unlocked, connecting, opening, Shared, CallStep, enters, connects, opens, call_step,
}

pub record Lifetime : Type 0 where
  pub shared : Shared
  pub open_connections : List ℕ

abbrev pub unused : Lifetime
unused = record {
  shared = record {
    publisher = record { connection = none; channel = none };
    stage = unlocked;
    ended = [];
  };
  open_connections = [];
}

-- A step of a call, with the channels that are open then, or the end of a connection.
pub data LifeStep : Type 0 where
  calls : (chan_open : ℕ → Bool) → CallStep → LifeStep
  closes : (connection : ℕ) → LifeStep

-- `not connection.is_closed`
abbrev pub is_open : List ℕ → ℕ → Bool
is_open open_ k = elim (remove k open_) [ none ↦ false | some rest ↦ true ]

-- `connect_robust` opens what it returns.
abbrev pub opened_by : Stage → CallStep → List ℕ → List ℕ
opened_by (connecting call) (connects (returned k)) open_ = k ∷ open_
opened_by _ _ open_ = open_

unfoldable pub life_step : LifeStep → Lifetime → Lifetime
life_step (calls chan_open a) s = record {
  shared = call_step (is_open s.open_connections) chan_open a s.shared;
  open_connections = opened_by s.shared.stage a s.open_connections;
}
life_step (closes k) s = record s { open_connections = discard k s.open_connections }

unfoldable pub life_run : List LifeStep → Lifetime → Lifetime
life_run [] s = s
life_run (a ∷ rest) s = life_run rest (life_step a s)
