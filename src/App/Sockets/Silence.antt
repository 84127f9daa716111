-- ===== src/App/Sockets/Silence.antt =====
-- fastapi_app/main.py and fastapi_app/core/store.py: as long as every text is sent, broadcasts leave
-- the list alone.
use fastapi_project.Prelude.{
  ℕ, ◌+◌, ◌≤◌, ◌≡◌, refl, ap, false, List, [], ◌∷◌, arith, nat_eq, get_elem?, Option-cases,
  Bool-cases, inl, inr, All,
}
use fastapi_project.Python.{is_exception, returned, raised, Await, done}
use fastapi_project.Python.Lists.{remove, count}
use fastapi_project.App.Sockets.{
  Broadcast, Stage, idle, waiting, over, begin_broadcast, resume_broadcast, Sockets, no_sockets,
  accept, disconnect, set_broadcast, purge_dead, next_send, resume_send, SocketStep, accepts,
  disconnects, fails, begins, sends, socket_step, socket_run,
}
use fastapi_project.App.Sockets.Accounts.{socket_run-IsAccounted}
use fastapi_project.Python.Lists.Counts.{count-none}

-- The await of a text ends without an Exception.
abbrev IsSent : Await → Type 0
IsSent (returned _) = Unit {0}
IsSent (raised e) = is_exception e ≡ false

abbrev pub SendsAll : SocketStep → Type 0
SendsAll (sends b out) = IsSent out
SendsAll _ = Unit {0}

abbrev NoneDead : Stage → Type 0
NoneDead (waiting p) = p.dead ≡ []
NoneDead _ = Unit {0}

record IsSilent (s : Sockets) : Type 0 where
  purged : s.purged ≡ []
  conflicts : s.conflicts ≡ []
  none_dead : (b : ℕ) → NoneDead (s.broadcasts b)

set_broadcast-IsSilent :
    (b : ℕ) (o : Stage) (s : Sockets) → NoneDead o → IsSilent s → IsSilent (set_broadcast b o s)
set_broadcast-IsSilent b o s k h = record {
  purged = h.purged;
  conflicts = h.conflicts;
  none_dead = λ c. elim (Bool-cases (nat_eq b c)) [
    | inl same ↦ rw same k
    | inr other ↦ rw other (h.none_dead c)
  ];
}

next_send-IsSilent : (b i : ℕ) (s : Sockets) → IsSilent s → IsSilent (next_send b i [] s)
unfolding next_send purge_dead
next_send-IsSilent b i s h = elim (Option-cases (get_elem? s.active_connections i)) [
  | inl past ↦ rw (past, next_send) (set_broadcast-IsSilent b (over done) s tt h)
  | inr (ws, at) ↦
      rw (at, next_send)
        (set_broadcast-IsSilent b (waiting (record { ws = ws; index = i; dead = [] })) s refl h)
]

resume_send-IsSilent :
    (b : ℕ) (out : Await) (p : Broadcast) (s : Sockets)
    → IsSent out
    → p.dead ≡ []
    → IsSilent s
    → IsSilent (resume_send b out p s)
unfolding resume_send
resume_send-IsSilent b (returned _) p s sent k h = rw k (next_send-IsSilent b (p.index + 1) s h)
resume_send-IsSilent b (raised e) p s sent k h =
    rw (sent, resume_send) (set_broadcast-IsSilent b (over (raised e)) s tt h)

disconnect-IsSilent : (ws : ℕ) (s : Sockets) → IsSilent s → IsSilent (disconnect ws s)
unfolding disconnect
disconnect-IsSilent ws s h = elim (Option-cases (remove ws s.active_connections)) [
  | inl gone ↦
      rw (gone, disconnect)
        (record { purged = h.purged; conflicts = h.conflicts; none_dead = h.none_dead })
  | inr (rest, listed) ↦
      rw (listed, disconnect)
        (record { purged = h.purged; conflicts = h.conflicts; none_dead = h.none_dead })
]

begin_broadcast-IsSilent :
    (b : ℕ) (stage : Stage) (s : Sockets) → IsSilent s → IsSilent (begin_broadcast b stage s)
unfolding begin_broadcast
begin_broadcast-IsSilent b idle s h = next_send-IsSilent b 0 s h
begin_broadcast-IsSilent b (waiting p) s h = h
begin_broadcast-IsSilent b (over out) s h = h

resume_broadcast-IsSilent :
    (b : ℕ) (out : Await) (stage : Stage) (s : Sockets)
    → IsSent out
    → NoneDead stage
    → IsSilent s
    → IsSilent (resume_broadcast b out stage s)
unfolding resume_broadcast
resume_broadcast-IsSilent b out idle s sent k h = h
resume_broadcast-IsSilent b out (waiting p) s sent k h = resume_send-IsSilent b out p s sent k h
resume_broadcast-IsSilent b out (over o) s sent k h = h

socket_step-IsSilent :
    (a : SocketStep) (s : Sockets) → SendsAll a → IsSilent s → IsSilent (socket_step a s)
unfolding socket_step accept disconnect
socket_step-IsSilent accepts s sent h = record {
  purged = h.purged;
  conflicts = h.conflicts;
  none_dead = h.none_dead;
}
socket_step-IsSilent (disconnects ws) s sent h = elim (Option-cases (remove ws s.endpoints)) [
  | inl gone ↦ rw (gone, socket_step) h
  | inr (rest, found) ↦
      rw (found, socket_step)
        (disconnect-IsSilent ws (record s { endpoints = rest })
          (record { purged = h.purged; conflicts = h.conflicts; none_dead = h.none_dead }))
]
socket_step-IsSilent (fails ws) s sent h = elim (Option-cases (remove ws s.endpoints)) [
  | inl gone ↦ rw (gone, socket_step) h
  | inr (rest, found) ↦
      rw (found, socket_step)
        (record { purged = h.purged; conflicts = h.conflicts; none_dead = h.none_dead })
]
socket_step-IsSilent (begins b) s sent h = begin_broadcast-IsSilent b (s.broadcasts b) s h
socket_step-IsSilent (sends b out) s sent h =
    resume_broadcast-IsSilent b out (s.broadcasts b) s sent (h.none_dead b) h

socket_run-IsSilent :
    (actions : List SocketStep) (s : Sockets)
    → All SendsAll actions
    → IsSilent s
    → IsSilent (socket_run actions s)
unfolding socket_run
socket_run-IsSilent [] s sent h = h
socket_run-IsSilent (a ∷ actions) s sent h =
    socket_run-IsSilent actions (socket_step a s) sent.1 (socket_step-IsSilent a s sent.0 h)

no_sockets-IsSilent : IsSilent no_sockets
no_sockets-IsSilent = record { purged = refl; conflicts = refl; none_dead = λ b. tt }

-- As long as no text of a broadcast raises an Exception, no removal raises a ValueError, and the
-- list holds the connections of the endpoints that run or were ended by another exception, and no
-- others.
pub socket_run-listed :
    (actions : List SocketStep)
    → All SendsAll actions
    → let s = socket_run actions no_sockets in
      (s.lost ≡ [])
      × (s.conflicts ≡ [])
      × ((w : ℕ) → count w s.active_connections ≡ count w s.endpoints + count w s.failed)
socket_run-listed actions sent =
    let s = socket_run actions no_sockets in
    let quiet = socket_run-IsSilent actions no_sockets sent no_sockets-IsSilent in
    let account = socket_run-IsAccounted actions in
    let unpurged : (w : ℕ) → count w s.purged ≡ 0 = λ w. ap (count w) quiet.purged in
    let found : (w : ℕ) → count w s.lost ≤ 0 = λ w. omega (arith, account.lost w, unpurged w) in
    (
      count-none s.lost found,
      quiet.conflicts,
      λ w. omega (arith, account.places w, account.ends w, unpurged w, found w),
    )
