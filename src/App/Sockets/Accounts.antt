-- ===== src/App/Sockets/Accounts.antt =====
-- fastapi_app/main.py and fastapi_app/core/store.py: where every accepted connection is, and where a
-- removal raises a ValueError.
use fastapi_project.Prelude.{
  ℕ, ◌+◌, ◌<◌, List, [], ◌∷◌, ◌++◌, arith, get_elem?, Option-cases, Bool-cases, inl, inr,
}
use fastapi_project.Python.{is_exception, returned, raised, Await}
use fastapi_project.Python.Lists.{remove}
use fastapi_project.App.Sockets.{
  Broadcast, Stage, idle, waiting, over, begin_broadcast, resume_broadcast, Sockets, no_sockets,
  next_send, resume_send, SocketStep, accepts, disconnects, fails, begins, sends, socket_step,
  socket_run,
}
use fastapi_project.Python.Lists.Counts.{no_more, accepted_if, get_elem?-All}
use fastapi_project.App.Sockets.Invariant.{
  IsAccounted, Known, Accepted, IsSound, accept-IsSound, disconnect-IsSound, fails-IsSound,
  set_broadcast-IsSound, purge_dead-IsSound,
}

next_send-IsSound :
    (b i : ℕ) (dead : List ℕ) (s : Sockets)
    → Accepted s.accepted dead
    → IsSound s
    → IsSound (next_send b i dead s)
unfolding next_send
next_send-IsSound b i dead s k h = elim (Option-cases (get_elem? s.active_connections i)) [
  | inl past ↦ rw (past, next_send) (purge_dead-IsSound b dead s k h)
  | inr (ws, at) ↦
      rw (at, next_send)
        (set_broadcast-IsSound b (waiting (record { ws = ws; index = i; dead = dead })) s
          (
            get_elem?-All s.accepted s.active_connections i ws
                (λ v c. accepted_if v s.accepted (omega (arith, c, h.accounted.places v))) at,
            k,
          )
          h)
]

Accepted-append :
    (n : ℕ) (dead : List ℕ) (ws : ℕ) → Accepted n dead → ws < n → Accepted n (dead ++ ws ∷ [])
Accepted-append n [] ws h k = (k, tt)
Accepted-append n (w ∷ dead) ws h k = (h.0, Accepted-append n dead ws h.1 k)

resume_send-IsSound :
    (b : ℕ) (out : Await) (p : Broadcast) (s : Sockets)
    → Known s.accepted (waiting p)
    → IsSound s
    → IsSound (resume_send b out p s)
unfolding resume_send
resume_send-IsSound b (returned _) p s k h = next_send-IsSound b (p.index + 1) p.dead s k.1 h
resume_send-IsSound b (raised e) p s k h = elim (Bool-cases (is_exception e)) [
  | inl caught ↦
      rw (caught, resume_send)
        (next_send-IsSound b (p.index + 1) (p.dead ++ p.ws ∷ []) s
          (Accepted-append s.accepted p.dead p.ws k.1 k.0) h)
  | inr other ↦ rw (other, resume_send) (set_broadcast-IsSound b (over (raised e)) s tt h)
]

begin_broadcast-IsSound :
    (b : ℕ) (stage : Stage) (s : Sockets) → IsSound s → IsSound (begin_broadcast b stage s)
unfolding begin_broadcast
begin_broadcast-IsSound b idle s h = next_send-IsSound b 0 [] s tt h
begin_broadcast-IsSound b (waiting p) s h = h
begin_broadcast-IsSound b (over out) s h = h

resume_broadcast-IsSound :
    (b : ℕ) (out : Await) (stage : Stage) (s : Sockets)
    → Known s.accepted stage
    → IsSound s
    → IsSound (resume_broadcast b out stage s)
unfolding resume_broadcast
resume_broadcast-IsSound b out idle s k h = h
resume_broadcast-IsSound b out (waiting p) s k h = resume_send-IsSound b out p s k h
resume_broadcast-IsSound b out (over o) s k h = h

socket_step-IsSound : (a : SocketStep) (s : Sockets) → IsSound s → IsSound (socket_step a s)
unfolding socket_step
socket_step-IsSound accepts s h = accept-IsSound s h
socket_step-IsSound (disconnects ws) s h = elim (Option-cases (remove ws s.endpoints)) [
  | inl gone ↦ rw (gone, socket_step) h
  | inr (rest, found) ↦ rw (found, socket_step) (disconnect-IsSound ws rest s found h)
]
socket_step-IsSound (fails ws) s h = elim (Option-cases (remove ws s.endpoints)) [
  | inl gone ↦ rw (gone, socket_step) h
  | inr (rest, found) ↦ rw (found, socket_step) (fails-IsSound ws rest s found h)
]
socket_step-IsSound (begins b) s h = begin_broadcast-IsSound b (s.broadcasts b) s h
socket_step-IsSound (sends b out) s h =
    resume_broadcast-IsSound b out (s.broadcasts b) s (h.known b) h

socket_run-IsSound :
    (actions : List SocketStep) (s : Sockets) → IsSound s → IsSound (socket_run actions s)
unfolding socket_run
socket_run-IsSound [] s h = h
socket_run-IsSound (a ∷ actions) s h =
    socket_run-IsSound actions (socket_step a s) (socket_step-IsSound a s h)

no_sockets-IsSound : IsSound no_sockets
no_sockets-IsSound = record {
  accounted = record {
    places = λ w. no_more w;
    ends = λ w. no_more w;
    lost = λ w. omega arith;
    conflicts = λ w c. omega (arith, c);
  };
  known = λ b. tt;
}

-- However many endpoints and broadcasts run at the same time, in any order, every accepted
-- connection is in one place: in the list, removed by its endpoint, or removed by a broadcast.
-- Every endpoint runs, or has ended in one of three ways; its removal has raised a ValueError only
-- if a broadcast had removed its connection, and that of a broadcast only if the endpoint or a
-- broadcast had.
pub socket_run-IsAccounted :
    (actions : List SocketStep) → IsAccounted (socket_run actions no_sockets)
socket_run-IsAccounted actions =
    (socket_run-IsSound actions no_sockets no_sockets-IsSound).accounted
