-- ===== src/Publisher/Tests.antt =====
-- The publisher at concrete inputs.
use fastapi_project.Prelude.{
  List, ℕ, ◌≡◌, refl, true, Bool, none, some, [], ◌∷◌, nat_eq, arith, if◌then◌else◌,
}
use fastapi_project.Python.{other_error, Outcome, returned, raised, done}
use fastapi_project.Dict
use fastapi_project.Dict.{Dict}
use fastapi_project.Json.{Json, str}
use fastapi_project.Consumer.{register_handler, example_handlers}
use fastapi_project.Consumer.Samples.{sample_codec}
use fastapi_project.Publisher.{
  Library, PublisherState, Message, get_channel, message_body, publish, close,
}
use fastapi_project.Publisher.Lock.{
  CallStep, enters, connects, opens, Shared, unlocked, call_step, call_run, step_at, enter,
  connected, channel_opened, reach_channel,
}

publisher_defs : Unit {0}
unfolding get_channel message_body publish close example_handlers register_handler Dict.get Dict.set
publisher_defs = tt

lock_defs : Unit {0}
unfolding call_run call_step step_at enter connected channel_opened reach_channel
lock_defs = tt

-- Connection 7 and its channel 3 are open, and so is everything that is opened now.
abbrev only_open : ℕ → ℕ → Bool
only_open x y = nat_eq x y

only_3 : (c : ℕ) → only_open c 3 ≡ true → only_open 7 7 ≡ true
only_3 c h = refl

abbrev opens_only : ℕ → Outcome ℕ
opens_only k = if only_open k 7 then returned 3 else raised (other_error "closed")

connects_lem : (k : ℕ) → ◌≡◌ {A = Outcome ℕ} (returned 7) (returned k) → only_open k 7 ≡ true
connects_lem k h = ground arith

opens_only_lem : (k c : ℕ) → opens_only k ≡ returned c → (only_open c 3 ≡ true) × (7 ≡ k)
opens_only_lem k c h = ground arith

abbrev library : Library
library = record {
  conn_open = λ k. only_open k 7;
  chan_open = λ c. only_open c 3;
  chan_conn = λ c. 7;
  connect_robust = returned 7;
  open_channel = opens_only;
  declare_exchange = done;
  exchange_publish = done;
  close_channel = done;
  close_connection = done;
  chan_open_lem = only_3;
  connect_lem = connects_lem;
  open_lem = opens_only_lem;
}

abbrev idle : PublisherState
idle = record { connection = none; channel = none }

abbrev busy : PublisherState
busy = record { connection = some 7; channel = some 3 }

abbrev payload : Dict Json
payload = ("id", str "1") ∷ ("email", str "a@x") ∷ []

abbrev sent : Message sample_codec.Bytes
sent = record {
  exchange = "app_exchange";
  routing_key = "user.created";
  body = some (message_body "user.created" "now" payload);
}

-- Three calls at the same time: the second and the third find the channel that the first opens.
abbrev three_calls : List CallStep
three_calls = enters 1 ∷ connects (returned 7) ∷ opens (returned 3) ∷ enters 2 ∷ enters 3 ∷ []

abbrev nobody : Shared
nobody = record { publisher = idle; stage = unlocked; ended = [] }

three_calls_run :
    (call_run library.conn_open library.chan_open three_calls nobody).ended
    ≡ (3, returned 3) ∷ (2, returned 3) ∷ (1, returned 3) ∷ []
unfolding lock_defs
three_calls_run = refl
