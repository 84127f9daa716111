-- ===== src/Store/Termination.antt =====
-- fastapi_app/core/store.py: the first loop of `broadcast_ws` ends, although it runs through a list
-- that may grow meanwhile.
use fastapi_project.Prelude.{
  ℕ, zero, suc, refl, ◌+◌, ◌≤◌, ◌≡◌, ◌≢◌, none, List, [], ◌∷◌, ◌++◌, arith, length, length-append,
  get_elem?, Option-cases, inl, inr,
}
use fastapi_project.Python.Lists.{remove, length-remove}
use fastapi_project.Store.{
  Interference, joins, leaves, interfere, interfere_all, Send, collect, broadcast_ws,
}

-- How many connections join.
abbrev pub joined : List Interference → ℕ
joined [] = 0
joined (joins w ∷ actions) = suc (joined actions)
joined (leaves w ∷ actions) = joined actions

abbrev pub joined_meanwhile : List Send → ℕ
joined_meanwhile [] = 0
joined_meanwhile (s ∷ ss) = joined s.meanwhile + joined_meanwhile ss

length-interfere :
    (a : Interference) (conns : List ℕ)
    → length (interfere a conns) ≤ length conns + joined (a ∷ [])
unfolding interfere
length-interfere (joins w) conns = omega (arith, length-append conns (w ∷ []))
length-interfere (leaves w) conns = elim (Option-cases (remove w conns)) [
  | inl gone ↦ rw (gone, interfere) (omega arith)
  | inr (rest, found) ↦ rw (found, interfere) (omega (arith, length-remove w conns rest found))
]

length-interfere_all :
    (actions : List Interference) (conns : List ℕ)
    → length (interfere_all actions conns) ≤ length conns + joined actions
unfolding interfere_all
length-interfere_all [] conns = omega arith
length-interfere_all (a ∷ rest) conns =
    ground (arith, length-interfere a conns, length-interfere_all rest (interfere a conns))

get_elem?-end : (conns : List ℕ) (i : ℕ) → length conns ≤ i → get_elem? conns i ≡ none
get_elem?-end [] i h = refl
get_elem?-end (w ∷ conns) zero h = absurd (omega arith)
get_elem?-end (w ∷ conns) (suc i) h = get_elem?-end conns i (omega arith)

collect_total :
    (ss : List Send) (i : ℕ) (dead conns : List ℕ)
    → length conns + joined_meanwhile ss ≤ i + length ss
    → collect ss i dead conns ≢ none
unfolding collect
collect_total [] i dead conns h = ground (arith, get_elem?-end conns i)
collect_total (s ∷ ss) i dead conns h = elim (Option-cases (get_elem? conns i)) [
  | inl past ↦ ground arith
  | inr (w, at) ↦ ground (
    arith,
    collect_total ss (i + 1) dead (interfere_all s.meanwhile conns),
    collect_total ss (i + 1) (dead ++ w ∷ []) (interfere_all s.meanwhile conns),
    length-interfere_all s.meanwhile conns,
  )
]

-- A broadcast returns or raises after at most as many messages as there are connections at first
-- and connections that join meanwhile, whatever else happens to the list and to the messages.
broadcast_ws_total :
    (ss : List Send) (conns : List ℕ)
    → length conns + joined_meanwhile ss ≤ length ss
    → broadcast_ws ss conns ≢ none
unfolding broadcast_ws
broadcast_ws_total ss conns h = ground (arith, collect_total ss 0 [] conns)
