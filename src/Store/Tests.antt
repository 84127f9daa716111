-- ===== src/Store/Tests.antt =====
-- Broadcasts with dead connections and with a race, and the theorems at concrete inputs.
use fastapi_project.Store.{joins}
use fastapi_project.Prelude.{[], ◌∷◌, ◌≡◌, refl, some}
use fastapi_project.Python.{other_error, raised, done}
use fastapi_project.Python.Lists.{remove}
use fastapi_project.Store.{Send, leaves, interfere_all, collect, purge, broadcast_ws}

store_defs : Unit {0}
unfolding remove interfere_all collect purge broadcast_ws
store_defs = tt

abbrev sent : Send
sent = record { outcome = done; meanwhile = [] }

abbrev lost : Send
lost = record { outcome = raised (other_error "closed"); meanwhile = [] }

-- The client of connection 1 has gone: its endpoint removes the connection during the send.
abbrev raced : Send
raced = record { outcome = raised (other_error "closed"); meanwhile = leaves 1 ∷ [] }

abbrev left : Send
left = record { outcome = done; meanwhile = leaves 1 ∷ [] }

-- While 1 is sent to, 2 joins, and it is sent to as well.
abbrev joined_late : Send
joined_late = record { outcome = done; meanwhile = joins 2 ∷ [] }

late_test : broadcast_ws (joined_late ∷ lost ∷ []) (1 ∷ []) ≡ some (done, 1 ∷ [])
unfolding store_defs
late_test = refl
