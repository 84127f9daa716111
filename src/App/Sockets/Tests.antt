-- ===== src/App/Sockets/Tests.antt =====
-- Runs of endpoints and broadcasts on one list.
use fastapi_project.Prelude.{ℕ, ◌≡◌, refl, ◌+◌, some, List, [], ◌∷◌}
use fastapi_project.Python.{raised, other_error, value_error, Await, done}
use fastapi_project.Python.Lists.{remove, count}
use fastapi_project.App.Sockets.{
  no_sockets, accept, disconnect, purge_dead, next_send, resume_send, Sockets, SocketStep, accepts,
  disconnects, fails, begins, sends, begin_broadcast, resume_broadcast, socket_step, socket_run,
}
use fastapi_project.Store.{Send, broadcast_ws}
use fastapi_project.App.Sockets.Silence.{socket_run-listed}
use fastapi_project.App.Sockets.Courses.{Course, course, ends_of, outcomes}
use fastapi_project.App.Sockets.Broadcasts.{course-broadcast_ws}
use fastapi_project.App.Sockets.Accounts.{socket_run-IsAccounted}
use fastapi_project.App.Sockets.Invariant.{IsAccounted}

-- Two broadcasts whose text does not reach the only client, which then goes.
abbrev broken_twice : List SocketStep
broken_twice =
    accepts
    ∷ begins 1
    ∷ begins 2
    ∷ sends 1 (raised (other_error "gone"))
    ∷ sends 2 (raised (other_error "gone"))
    ∷ disconnects 0
    ∷ []

second_broadcast_conflicts : (socket_run broken_twice no_sockets).conflicts ≡ 0 ∷ []
unfolding socket_run socket_step accept begin_broadcast resume_broadcast next_send resume_send
    purge_dead remove disconnect
second_broadcast_conflicts = refl

endpoint_conflicts : (socket_run broken_twice no_sockets).lost ≡ 0 ∷ []
unfolding socket_run socket_step accept begin_broadcast resume_broadcast next_send resume_send
    purge_dead remove disconnect
endpoint_conflicts = refl

socket_run-IsAccounted_example : IsAccounted (socket_run broken_twice no_sockets)
socket_run-IsAccounted_example = socket_run-IsAccounted broken_twice

-- Three clients: one goes, another is ended by an exception, while a text is sent to all.
abbrev all_sent : List SocketStep
all_sent =
    accepts
    ∷ accepts
    ∷ accepts
    ∷ begins 1
    ∷ disconnects 1
    ∷ sends 1 done
    ∷ fails 2
    ∷ sends 1 done
    ∷ []

socket_run-listed_example :
    ((socket_run all_sent no_sockets).lost ≡ [])
    × ((socket_run all_sent no_sockets).conflicts ≡ [])
    × ((w : ℕ)
        → count w (socket_run all_sent no_sockets).active_connections
          ≡ count w (socket_run all_sent no_sockets).endpoints
            + count w (socket_run all_sent no_sockets).failed)
socket_run-listed_example =
    socket_run-listed all_sent (tt, (tt, (tt, (tt, (tt, (tt, (tt, (tt, tt))))))))

-- A client that is gone, and a broadcast that waits for its text.
abbrev one_broadcast : Sockets
one_broadcast = socket_run (accepts ∷ begins 2 ∷ []) no_sockets

abbrev not_found : Await
not_found = raised (value_error "list.remove(x): x not in list")

-- Another broadcast, during whose await the first one removes the connection.
abbrev overtaken : Course
overtaken = (sends 2 (raised (other_error "gone")) ∷ [], raised (other_error "gone")) ∷ []

course-broadcast_ws_example :
    (texts : List Send) × (outcomes texts ≡ ends_of overtaken)
    × (broadcast_ws texts one_broadcast.active_connections
        ≡ some (
          not_found,
          (course 1 overtaken (socket_step (begins 1) one_broadcast)).active_connections,
        ))
unfolding socket_run socket_step accept begin_broadcast resume_broadcast next_send resume_send
    purge_dead remove
course-broadcast_ws_example =
    course-broadcast_ws 1 not_found overtaken one_broadcast refl ((_, refl), (refl, tt), refl)
