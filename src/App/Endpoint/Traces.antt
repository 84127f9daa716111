-- ===== src/App/Endpoint/Traces.antt =====
-- fastapi_app/main.py: what `websocket_endpoint` leaves in `active_connections`.
use fastapi_project.Prelude.{
  ℕ, ◌≡◌, ◌≢◌, refl, Option, none, some, List, [], ◌∷◌, ◌++◌, arith, All, inl, inr,
}
use fastapi_project.Python.{Exn, returned, raised, Await, done, Outcome-split}
use fastapi_project.Python.Lists.{
  remove, discard, remove-append, remove-append_self, remove-discard,
}
use fastapi_project.Store.{Interference, joins, leaves, interfere, interfere_all}
use fastapi_project.App.Endpoint.{
  Turn, EndpointState, echo, leave, ended, changed, receive_loop, websocket_endpoint,
}

-- The connection that joins or leaves.
abbrev pub subject : Interference → ℕ
subject (joins v) = v
subject (leaves v) = v

-- Only other connections join and leave.
abbrev pub IsApart : ℕ → List Interference → Type 0
IsApart ws actions = All (λ a. subject a ≢ ws) actions

-- What happens to the list until the endpoint ends.
abbrev pub until_end : List Turn → List Interference
until_end [] = []
until_end (t ∷ ts) =
    let rest = until_end ts in t.meanwhile ++ elim (echo t) [ returned _ ↦ rest | raised _ ↦ [] ]

-- The list is as it would be without the endpoint once it has returned, and until then, or where an
-- exception ends it, it holds the connection besides.
abbrev pub HoldsBesides : ℕ → Option Await → List ℕ → List ℕ → Type 0
HoldsBesides ws (some (returned _)) conns others = conns ≡ others
HoldsBesides ws _ conns others = remove ws conns ≡ some others

interfere-remove :
    (ws : ℕ) (a : Interference) (conns others : List ℕ)
    → subject a ≢ ws
    → remove ws conns ≡ some others
    → remove ws (interfere a conns) ≡ some (interfere a others)
unfolding interfere discard
interfere-remove ws (joins v) conns others n h = remove-append ws v conns others h
interfere-remove ws (leaves v) conns others n h = remove-discard ws v conns others n h

interfere_all-remove :
    (ws : ℕ) (actions : List Interference) (conns others : List ℕ)
    → IsApart ws actions
    → remove ws conns ≡ some others
    → remove ws (interfere_all actions conns) ≡ some (interfere_all actions others)
unfolding interfere_all
interfere_all-remove ws [] conns others n h = h
interfere_all-remove ws (a ∷ rest) conns others n h =
    interfere_all-remove ws rest (interfere a conns) (interfere a others) n.1
      (interfere-remove ws a conns others n.0 h)

interfere_all-append :
    (first second : List Interference) (conns : List ℕ)
    → interfere_all (first ++ second) conns ≡ interfere_all second (interfere_all first conns)
unfolding interfere_all
interfere_all-append [] second conns = refl
interfere_all-append (a ∷ rest) second conns = interfere_all-append rest second (interfere a conns)

ended_holds :
    (ws : ℕ) (e : Exn) (s : EndpointState) (others : List ℕ)
    → remove ws s.active_connections ≡ some others
    → let (out, s') = ended ws e s in HoldsBesides ws (some out) s'.active_connections others
unfolding ended leave
ended_holds ws e s others h = ground arith

receive_loop_holds :
    (ws : ℕ) (turns : List Turn) (s : EndpointState) (others : List ℕ)
    → All (λ (t : Turn). IsApart ws t.meanwhile) turns
    → remove ws s.active_connections ≡ some others
    → let (out, s') = receive_loop ws turns s in
      HoldsBesides ws out s'.active_connections (interfere_all (until_end turns) others)
unfolding receive_loop interfere_all echo
receive_loop_holds ws [] s others n h = h
receive_loop_holds ws (t ∷ ts) s others n h =
    let still = interfere_all-remove ws t.meanwhile s.active_connections others n.0 h in
    elim (Outcome-split (echo t)) [
      | inl (text, got) ↦
          rw (got, receive_loop, interfere_all-append t.meanwhile (until_end ts) others)
            (receive_loop_holds ws ts _ _ n.1 still)
      | inr (e, got) ↦
          rw (got, receive_loop, interfere_all-append t.meanwhile [] others)
            (ended_holds ws e (changed t s) _ still)
    ]

-- An endpoint leaves no trace: if its connection is not in the list before, and nobody else adds or
-- removes it, then after its client has disconnected the list of connections is what the others
-- alone have made of it; and while it runs, or if another exception has ended it, the list holds
-- the connection besides.
pub websocket_endpoint_holds :
    (ws : ℕ) (turns : List Turn) (s : EndpointState)
    → All (λ (t : Turn). IsApart ws t.meanwhile) turns
    → remove ws s.active_connections ≡ none
    → let (out, s') = websocket_endpoint done ws turns s in
      HoldsBesides ws out s'.active_connections
        (interfere_all (until_end turns) s.active_connections)
unfolding websocket_endpoint
websocket_endpoint_holds ws turns s n h =
    receive_loop_holds ws turns _ s.active_connections n
      (remove-append_self ws s.active_connections h)
