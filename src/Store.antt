-- ===== src/Store.antt =====
-- fastapi_app/core/store.py: `broadcast_ws` over the list of open WebSocket connections. A
-- connection is a number that names the object. Other coroutines run while a message is sent: they
-- append a connection that was accepted, or remove one whose client went away.
pub mod Quiet
pub mod Race
pub mod Termination
mod Tests
use fastapi_project.Prelude.{
  ℕ, zero, suc, ◌+◌, Bool, true, false, Option, none, some, List, [], ◌∷◌, ◌++◌, if◌then◌else◌,
  nat_eq, get_elem?,
}
use fastapi_project.Python.Lists.{remove}
use fastapi_project.Python.{Exn, is_exception, value_error, Outcome, returned, raised, Await, done}

-- What an endpoint does to the list while another coroutine waits; a connection that is not in the
-- list is not removed twice.
pub data Interference : Type 0 where
  joins leaves : ℕ → Interference

unfoldable pub interfere : Interference → List ℕ → List ℕ
unfolding remove
interfere (joins w) conns = conns ++ w ∷ []
interfere (leaves w) conns = elim (remove w conns) [ none ↦ conns | some rest ↦ rest ]

unfoldable pub interfere_all : List Interference → List ℕ → List ℕ
unfolding interfere
interfere_all [] conns = conns
interfere_all (a ∷ rest) conns = interfere_all rest (interfere a conns)

-- One `await ws.send_text(message)`: how it ends, and what happens to the list meanwhile.
pub record Send : Type 0 where
  pub outcome : Await
  pub meanwhile : List Interference

-- The first loop. It runs through the list by its index, so it sees the changes. The result is the
-- list `dead`, or what leaves the loop; `none` means that the next message is still to be sent.
unfoldable pub collect : List Send → ℕ → List ℕ → List ℕ → Option (Outcome (List ℕ) × List ℕ)
unfolding interfere_all
collect [] i dead conns = elim (get_elem? conns i) [
  | none ↦ some (returned dead, conns)
  | some w ↦ none
]
collect (s ∷ ss) i dead conns =
    let conns' = interfere_all s.meanwhile conns in
    elim (get_elem? conns i) [
      | none ↦ some (returned dead, conns)
      | some w ↦ elim s.outcome [
        | returned _ ↦ collect ss (i + 1) dead conns'
        | raised e ↦
            if is_exception e
            then collect ss (i + 1) (dead ++ w ∷ []) conns'
            else some (raised e, conns')
      ]
    ]

-- The second loop.
unfoldable pub purge : List ℕ → List ℕ → Await × List ℕ
purge [] conns = (done, conns)
purge (w ∷ ws) conns = elim (remove w conns) [
  | none ↦ (raised (value_error "list.remove(x): x not in list"), conns)
  | some rest ↦ purge ws rest
]

unfoldable pub purge_collected : Outcome (List ℕ) → List ℕ → Await × List ℕ
purge_collected (returned dead) conns = purge dead conns
purge_collected (raised e) conns = (raised e, conns)

unfoldable pub broadcast_ws : List Send → List ℕ → Option (Await × List ℕ)
unfolding purge_collected
broadcast_ws sends conns = elim (collect sends 0 [] conns) [
  | none ↦ none
  | some (out, conns') ↦ some (purge_collected out conns')
]
