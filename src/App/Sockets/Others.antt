-- ===== src/App/Sockets/Others.antt =====
-- fastapi_app/main.py and fastapi_app/core/store.py: what the other coroutines do to the list, as one
-- broadcast sees it, is a list of interferences.
use fastapi_project.Prelude.{
  ℕ, ◌+◌, ◌≡◌, refl, sym, ap, ◌∙◌, false, none, some, List, [], ◌∷◌, ◌++◌, nat_eq, get_elem?,
  Option-cases, Bool-cases, inl, inr, All,
}
use fastapi_project.Python.{is_exception, returned, raised, Await, done}
use fastapi_project.Python.Lists.{remove}
use fastapi_project.Store.{Interference, joins, leaves, interfere, interfere_all}
use fastapi_project.App.Sockets.{
  Broadcast, Stage, idle, waiting, over, begin_broadcast, resume_broadcast, Sockets, accept,
  disconnect, set_broadcast, purge_dead, next_send, resume_send, SocketStep, accepts, disconnects,
  fails, begins, sends, socket_step, socket_run,
}

-- A step of another coroutine.
abbrev pub IsOther : ℕ → SocketStep → Type 0
IsOther b (begins c) = nat_eq c b ≡ false
IsOther b (sends c out) = nat_eq c b ≡ false
IsOther b _ = Unit {0}

-- What others have done, as this broadcast sees it.
abbrev pub Interferes : ℕ → Sockets → Sockets → Type 0
Interferes b s t =
    (t.broadcasts b ≡ s.broadcasts b)
    × (actions : List Interference) × (t.active_connections
        ≡ interfere_all actions s.active_connections)

interfere_all-append :
    (actions more : List Interference) (conns : List ℕ)
    → interfere_all (actions ++ more) conns ≡ interfere_all more (interfere_all actions conns)
unfolding interfere_all
interfere_all-append [] more conns = refl
interfere_all-append (a ∷ actions) more conns =
    interfere_all-append actions more (interfere a conns)

then-Interferes : (b : ℕ) (s t u : Sockets) → Interferes b s t → Interferes b t u → Interferes b s u
then-Interferes b s t u (kept, actions, e) (kept', more, f) = (
  kept' ∙ kept,
  actions ++ more,
  f ∙ ap (interfere_all more) e ∙ sym (interfere_all-append actions more s.active_connections),
)

nothing-Interferes : (b : ℕ) (s : Sockets) → Interferes b s s
unfolding interfere_all
nothing-Interferes b s = (refl, [], refl)

set_broadcast-Interferes :
    (b c : ℕ) (stage : Stage) (s : Sockets)
    → nat_eq c b ≡ false
    → Interferes b s (set_broadcast c stage s)
unfolding interfere_all
set_broadcast-Interferes b c stage s h = (rw h refl, [], refl)

left :
    (ws : ℕ) (conns rest : List ℕ)
    → remove ws conns ≡ some rest
    → rest ≡ interfere_all (leaves ws ∷ []) conns
unfolding interfere_all interfere
left ws conns rest h = sym (ap (λ o. elim o [ none ↦ conns | some r ↦ r ]) h)

purge_dead-Interferes :
    (b c : ℕ) (dead : List ℕ) (s : Sockets)
    → nat_eq c b ≡ false
    → Interferes b s (purge_dead c dead s)
unfolding purge_dead
purge_dead-Interferes b c [] s h = set_broadcast-Interferes b c (over done) s h
purge_dead-Interferes b c (ws ∷ dead) s h = elim (Option-cases (remove ws s.active_connections)) [
  | inl gone ↦ rw (gone, purge_dead) (rw h (nothing-Interferes b s))
  | inr (rest, listed) ↦
      let s' : Sockets = record s { active_connections = rest; purged = ws ∷ s.purged } in
      rw (listed, purge_dead)
        (then-Interferes b s s' (purge_dead c dead s')
          (refl, leaves ws ∷ [], left ws s.active_connections rest listed)
          (purge_dead-Interferes b c dead s' h))
]

next_send-Interferes :
    (b c i : ℕ) (dead : List ℕ) (s : Sockets)
    → nat_eq c b ≡ false
    → Interferes b s (next_send c i dead s)
unfolding next_send
next_send-Interferes b c i dead s h = elim (Option-cases (get_elem? s.active_connections i)) [
  | inl past ↦ rw (past, next_send) (purge_dead-Interferes b c dead s h)
  | inr (ws, at) ↦ rw (at, next_send) (set_broadcast-Interferes b c (waiting _) s h)
]

begin_broadcast-Interferes :
    (b c : ℕ) (stage : Stage) (s : Sockets)
    → nat_eq c b ≡ false
    → Interferes b s (begin_broadcast c stage s)
unfolding begin_broadcast
begin_broadcast-Interferes b c idle s h = next_send-Interferes b c 0 [] s h
begin_broadcast-Interferes b c (waiting p) s h = nothing-Interferes b s
begin_broadcast-Interferes b c (over out) s h = nothing-Interferes b s

resume_send-Interferes :
    (b c : ℕ) (out : Await) (p : Broadcast) (s : Sockets)
    → nat_eq c b ≡ false
    → Interferes b s (resume_send c out p s)
unfolding resume_send
resume_send-Interferes b c (returned _) p s h = next_send-Interferes b c (p.index + 1) p.dead s h
resume_send-Interferes b c (raised e) p s h = elim (Bool-cases (is_exception e)) [
  | inl caught ↦
      rw (caught, resume_send) (next_send-Interferes b c (p.index + 1) (p.dead ++ p.ws ∷ []) s h)
  | inr other ↦ rw (other, resume_send) (set_broadcast-Interferes b c (over (raised e)) s h)
]

resume_broadcast-Interferes :
    (b c : ℕ) (out : Await) (stage : Stage) (s : Sockets)
    → nat_eq c b ≡ false
    → Interferes b s (resume_broadcast c out stage s)
unfolding resume_broadcast
resume_broadcast-Interferes b c out idle s h = nothing-Interferes b s
resume_broadcast-Interferes b c out (waiting p) s h = resume_send-Interferes b c out p s h
resume_broadcast-Interferes b c out (over o) s h = nothing-Interferes b s

disconnect-Interferes : (b ws : ℕ) (s : Sockets) → Interferes b s (disconnect ws s)
unfolding disconnect
disconnect-Interferes b ws s = elim (Option-cases (remove ws s.active_connections)) [
  | inl gone ↦ rw (gone, disconnect) (nothing-Interferes b s)
  | inr (rest, listed) ↦
      rw (listed, disconnect) (refl, leaves ws ∷ [], left ws s.active_connections rest listed)
]

socket_step-Interferes :
    (b : ℕ) (a : SocketStep) (s : Sockets) → IsOther b a → Interferes b s (socket_step a s)
unfolding socket_step accept interfere_all interfere
socket_step-Interferes b accepts s h = (refl, joins s.accepted ∷ [], refl)
socket_step-Interferes b (disconnects ws) s h = elim (Option-cases (remove ws s.endpoints)) [
  | inl gone ↦ rw (gone, socket_step) (nothing-Interferes b s)
  | inr (rest, found) ↦
      rw (found, socket_step) (disconnect-Interferes b ws (record s { endpoints = rest }))
]
socket_step-Interferes b (fails ws) s h = elim (Option-cases (remove ws s.endpoints)) [
  | inl gone ↦ rw (gone, socket_step) (nothing-Interferes b s)
  | inr (rest, found) ↦ rw (found, socket_step) (nothing-Interferes b s)
]
socket_step-Interferes b (begins c) s h = begin_broadcast-Interferes b c (s.broadcasts c) s h
socket_step-Interferes b (sends c out) s h =
    resume_broadcast-Interferes b c out (s.broadcasts c) s h

pub socket_run-Interferes :
    (b : ℕ) (others : List SocketStep) (s : Sockets)
    → All (IsOther b) others
    → Interferes b s (socket_run others s)
unfolding socket_run
socket_run-Interferes b [] s h = nothing-Interferes b s
socket_run-Interferes b (a ∷ others) s h =
    then-Interferes b s (socket_step a s) (socket_run others (socket_step a s))
      (socket_step-Interferes b a s h.0) (socket_run-Interferes b others (socket_step a s) h.1)
