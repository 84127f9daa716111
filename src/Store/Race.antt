-- ===== src/Store/Race.antt =====
-- fastapi_app/core/store.py: `broadcast_ws` where an endpoint (fastapi_app/main.py) removes its own
-- connection while the broadcast waits.
use fastapi_project.Prelude.{ℕ, ◌≡◌, inl, inr, none, some, List, [], ◌∷◌, ◌++◌, arith, Option-cases}
use fastapi_project.Python.{Exn, value_error, returned, raised, Await, done}
use fastapi_project.Python.Lists.{remove}
use fastapi_project.Store.{Send, leaves, interfere_all, collect, purge, broadcast_ws}

remove_other :
    (w v : ℕ) (conns rest : List ℕ)
    → remove w conns ≡ none
    → remove v conns ≡ some rest
    → remove w rest ≡ none
unfolding remove
remove_other w v [] rest h k = cc
remove_other w v (c ∷ conns) rest h k = elim (Option-cases (remove v conns)) [
  | inl gone ↦ ground arith
  | inr (rest', found) ↦ ground (arith, remove_other w v conns rest')
]

abbrev pub not_in_list : Exn
not_in_list = value_error "list.remove(x): x not in list"

-- A connection that is to be removed and is gone makes the second loop raise a ValueError, after
-- which the dead connections behind it stay in the list.
pub purge_raises :
    (before : List ℕ) (w : ℕ) (behind conns : List ℕ)
    → remove w conns ≡ none
    → (purge (before ++ w ∷ behind) conns).0 ≡ raised not_in_list
unfolding purge
purge_raises [] w behind conns h = ground arith
purge_raises (d ∷ before) w behind conns h = elim (Option-cases (remove d conns)) [
  | inl gone ↦ ground arith
  | inr (rest, found) ↦
      ground (arith, purge_raises before w behind rest, remove_other w d conns rest)
]

-- If the first loop found a connection dead whose endpoint has removed it meanwhile, broadcast_ws
-- raises a ValueError.
pub broadcast_ws_race :
    (ss : List Send) (conns conns' before behind : List ℕ) (w : ℕ)
    → collect ss 0 [] conns ≡ some (returned (before ++ w ∷ behind), conns')
    → remove w conns' ≡ none
    → (out : Await × List ℕ) × (broadcast_ws ss conns ≡ some out) × (out.0 ≡ raised not_in_list)
unfolding broadcast_ws
broadcast_ws_race ss conns conns' before behind w h gone =
    (purge (before ++ w ∷ behind) conns', ground arith, purge_raises before w behind conns' gone)

-- If the first connection leaves while its message is sent, the second one is skipped: with two
-- connections the broadcast returns after one message, whatever sends are still possible.
pub broadcast_ws_skips :
    (s : Send) (ss : List Send) (w v : ℕ)
    → s.outcome ≡ done
    → s.meanwhile ≡ leaves w ∷ []
    → broadcast_ws (s ∷ ss) (w ∷ v ∷ []) ≡ some (done, v ∷ [])
unfolding broadcast_ws collect interfere_all purge remove
broadcast_ws_skips s [] w v o m = ground arith
broadcast_ws_skips s (t ∷ ss) w v o m = ground arith
