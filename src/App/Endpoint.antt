-- ===== src/App/Endpoint.antt =====
-- fastapi_app/main.py: `websocket_endpoint` on `active_connections`, while other endpoints and
-- `broadcast_ws` change the list at its awaits.
pub mod Traces
use fastapi_project.Prelude.{ℕ, String, Option, none, some, List, [], ◌∷◌, ◌++◌}
use Prim.Native.String
use fastapi_project.Python.{
  Exn, websocket_disconnect, value_error, Outcome, returned, raised, Await, done, ◌>>=◌, ◌>>◌,
}
use fastapi_project.Python.Lists.{remove}
use fastapi_project.Store.{Interference, interfere_all}

-- One turn of the loop: what `receive_text` gives, how `send_text` ends, and what happens to the
-- list meanwhile.
pub record Turn : Type 0 where
  pub received : Outcome String
  pub sent : Await
  pub meanwhile : List Interference

pub record EndpointState : Type 0 where
  pub active_connections : List ℕ
  pub echoed : List String

-- `data = await ws.receive_text()` and `await ws.send_text(f"echo: {data}")`
pub echo : Turn → Outcome String
echo t = do data_ ← t.received; t.sent; returned (String.◌++◌ "echo: " data_)

-- `active_connections.remove(ws)`
leave : ℕ → EndpointState → Await × EndpointState
leave ws s = elim (remove ws s.active_connections) [
  | none ↦ (raised (value_error "list.remove(x): x not in list"), s)
  | some rest ↦ (done, record s { active_connections = rest })
]

-- The `except` clause; other exceptions leave the endpoint.
ended : ℕ → Exn → EndpointState → Await × EndpointState
unfolding leave
ended ws websocket_disconnect s = leave ws s
ended ws e s = (raised e, s)

abbrev changed : Turn → EndpointState → EndpointState
changed t s = record s { active_connections = interfere_all t.meanwhile s.active_connections }

-- The loop over the turns that are given: `none` means that it is still running after them.
receive_loop : ℕ → List Turn → EndpointState → Option Await × EndpointState
unfolding ended echo
receive_loop ws [] s = (none, s)
receive_loop ws (t ∷ ts) s =
    let s' = changed t s in
    elim (echo t) [
      | returned text ↦ receive_loop ws ts (record s' { echoed = text ∷ s'.echoed })
      | raised e ↦ let (out, s'') = ended ws e s' in (some out, s'')
    ]

unfoldable pub websocket_endpoint :
    Await → ℕ → List Turn → EndpointState → Option Await × EndpointState
unfolding receive_loop
websocket_endpoint accept ws turns s = elim accept [
  | raised e ↦ (some (raised e), s)
  | returned _ ↦
      receive_loop ws turns (record s { active_connections = s.active_connections ++ ws ∷ [] })
]
