-- ===== src/App/Sockets.antt =====
-- fastapi_app/main.py and fastapi_app/core/store.py: all endpoints and all broadcasts of a process on
-- one list of connections, as steps between their awaits in any order. A connection is a new object,
-- and is named by how many were accepted before it.
pub mod Invariant
pub mod Accounts
pub mod Silence
pub mod Others
pub mod Courses
pub mod Broadcasts
mod Tests
use fastapi_project.Prelude.{
  ℕ, suc, ◌+◌, Option, none, some, List, [], ◌∷◌, ◌++◌, if◌then◌else◌, nat_eq, get_elem?,
}
use fastapi_project.Python.{is_exception, value_error, returned, raised, Await, done}
use fastapi_project.Python.Lists.{remove}

-- A `broadcast_ws` that waits for `ws.send_text`: its loop variable, the index of the iterator, and
-- its list `dead`.
pub record Broadcast : Type 0 where
  pub ws : ℕ
  pub index : ℕ
  pub dead : List ℕ

-- Where a call of `broadcast_ws` stands.
pub data Stage : Type 0 where
  idle : Stage
  waiting : Broadcast → Stage
  over : Await → Stage

-- The list, the coroutines that are at an await, and what has happened to the connections: by whom
-- they were removed, where a removal raised a ValueError (`lost` in an endpoint, `conflicts` in a
-- broadcast), and which endpoints another exception has ended.
pub record Sockets : Type 0 where
  pub active_connections : List ℕ
  pub accepted : ℕ
  pub endpoints : List ℕ
  pub broadcasts : ℕ → Stage
  pub removed : List ℕ
  pub purged : List ℕ
  pub lost : List ℕ
  pub failed : List ℕ
  pub conflicts : List ℕ

abbrev pub no_sockets : Sockets
no_sockets = record {
  active_connections = [];
  accepted = 0;
  endpoints = [];
  broadcasts = λ b. idle;
  removed = [];
  purged = [];
  lost = [];
  failed = [];
  conflicts = [];
}

-- An endpoint accepts a connection and waits for its first text.
unfoldable pub accept : Sockets → Sockets
accept s = record s {
  active_connections = s.active_connections ++ s.accepted ∷ [];
  endpoints = s.endpoints ++ s.accepted ∷ [];
  accepted = suc s.accepted;
}

-- The `except WebSocketDisconnect` of an endpoint.
unfoldable pub disconnect : ℕ → Sockets → Sockets
disconnect ws s = elim (remove ws s.active_connections) [
  | none ↦ record s { lost = ws ∷ s.lost }
  | some rest ↦ record s { active_connections = rest; removed = ws ∷ s.removed }
]

abbrev pub set_broadcast : ℕ → Stage → Sockets → Sockets
set_broadcast b stage s = record s {
  broadcasts = λ c. if nat_eq b c then stage else s.broadcasts c;
}

-- The second loop of `broadcast_ws`, which has no await.
unfoldable pub purge_dead : (b : ℕ) → List ℕ → Sockets → Sockets
purge_dead b [] s = set_broadcast b (over done) s
purge_dead b (ws ∷ dead) s = elim (remove ws s.active_connections) [
  | none ↦
      set_broadcast b (over (raised (value_error "list.remove(x): x not in list")))
        (record s { conflicts = ws ∷ s.conflicts })
  | some rest ↦ purge_dead b dead (record s { active_connections = rest; purged = ws ∷ s.purged })
]

-- The first loop goes on at this index: it waits for the next text to be sent, or is over.
unfoldable pub next_send : (b index : ℕ) → List ℕ → Sockets → Sockets
unfolding purge_dead
next_send b index dead s = elim (get_elem? s.active_connections index) [
  | none ↦ purge_dead b dead s
  | some ws ↦ set_broadcast b (waiting (record { ws = ws; index = index; dead = dead })) s
]

-- The await of a broadcast ends.
unfoldable pub resume_send : (b : ℕ) → Await → Broadcast → Sockets → Sockets
unfolding next_send
resume_send b (returned _) p s = next_send b (p.index + 1) p.dead s
resume_send b (raised e) p s =
    if is_exception e
    then next_send b (p.index + 1) (p.dead ++ p.ws ∷ []) s
    else set_broadcast b (over (raised e)) s

-- The call begins, or its await ends; there is no step for one that has not begun, or is over.
unfoldable pub begin_broadcast : (b : ℕ) → Stage → Sockets → Sockets
begin_broadcast b idle s = next_send b 0 [] s
begin_broadcast b _ s = s

unfoldable pub resume_broadcast : (b : ℕ) → Await → Stage → Sockets → Sockets
resume_broadcast b out (waiting p) s = resume_send b out p s
resume_broadcast b out _ s = s

-- What happens: a client comes, goes, or its endpoint ends by another exception; a broadcast begins,
-- or the text that it sends is sent, or is not.
pub data SocketStep : Type 0 where
  accepts : SocketStep
  disconnects fails begins : ℕ → SocketStep
  sends : (b : ℕ) → Await → SocketStep

unfoldable pub socket_step : SocketStep → Sockets → Sockets
unfolding accept disconnect begin_broadcast resume_broadcast
socket_step accepts s = accept s
socket_step (disconnects ws) s = elim (remove ws s.endpoints) [
  | none ↦ s
  | some rest ↦ disconnect ws (record s { endpoints = rest })
]
socket_step (fails ws) s = elim (remove ws s.endpoints) [
  | none ↦ s
  | some rest ↦ record s { endpoints = rest; failed = ws ∷ s.failed }
]
socket_step (begins b) s = begin_broadcast b (s.broadcasts b) s
socket_step (sends b out) s = resume_broadcast b out (s.broadcasts b) s

unfoldable pub socket_run : List SocketStep → Sockets → Sockets
socket_run [] s = s
socket_run (a ∷ actions) s = socket_run actions (socket_step a s)
