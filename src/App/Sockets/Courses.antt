-- ===== src/App/Sockets/Courses.antt =====
-- fastapi_app/core/store.py: the course of one broadcast among all the others, and its two loops step
-- by step against those of Store.
use fastapi_project.Prelude.{
  ℕ, ◌≡◌, refl, true, Option, none, some, List, [], ◌∷◌, map, arith, nat_eq, get_elem?,
  Option-cases, inl, inr, All,
}
use fastapi_project.Python.{Outcome, Await}
use fastapi_project.Python.Lists.{remove}
use fastapi_project.Store.{Send, collect, purge, purge_collected}
use fastapi_project.App.Sockets.{
  Broadcast, waiting, over, Sockets, set_broadcast, purge_dead, next_send, SocketStep, sends,
  socket_step, socket_run,
}
use fastapi_project.App.Sockets.Others.{IsOther}

-- The course of a broadcast after its first step: what others do during each of its awaits, and how
-- that ends.
abbrev pub Course : Type 0
Course = List (List SocketStep × Await)

unfoldable pub course : ℕ → Course → Sockets → Sockets
course b [] s = s
course b ((others, sent) ∷ rest) s =
    course b rest (socket_step (sends b sent) (socket_run others s))

-- The broadcast waits before each of these awaits ends, and is over with this outcome after the
-- last.
abbrev pub EndsWith : ℕ → Await → Course → Sockets → Type 0
EndsWith b out [] s = s.broadcasts b ≡ over out
EndsWith b out ((others, sent) ∷ rest) s =
    ((p : Broadcast) × (s.broadcasts b ≡ waiting p))
    × All (IsOther b) others
    × EndsWith b out rest (socket_step (sends b sent) (socket_run others s))

-- The second loop after the first, as in `broadcast_ws`.
abbrev pub purged : Option (Outcome (List ℕ) × List ℕ) → Option (Await × List ℕ)
purged o = elim o [ none ↦ none | some (out, conns) ↦ some (purge_collected out conns) ]

abbrev pub ends_of : Course → List Await
ends_of c = map (λ (x : List SocketStep × Await). x.1) c

abbrev pub outcomes : List Send → List Await
outcomes texts = map (λ (t : Send). t.outcome) texts

-- Store's definitions make the same of texts with these outcomes, from this index on.
abbrev pub Matches : (i : ℕ) → List ℕ → Await → List Await → (s t : Sockets) → Type 0
Matches i dead out ends s t =
    (texts : List Send) × (outcomes texts ≡ ends)
    × (purged (collect texts i dead s.active_connections) ≡ some (out, t.active_connections))

pub at_itself : (b : ℕ) → nat_eq b b ≡ true
at_itself b = ground arith

pub purge_dead-purge :
    (b : ℕ) (dead : List ℕ) (s : Sockets)
    → ((purge_dead b dead s).broadcasts b ≡ over (purge dead s.active_connections).0)
      × ((purge_dead b dead s).active_connections ≡ (purge dead s.active_connections).1)
unfolding purge_dead purge
purge_dead-purge b [] s = (rw (at_itself b) refl, refl)
purge_dead-purge b (ws ∷ dead) s = elim (Option-cases (remove ws s.active_connections)) [
  | inl gone ↦ rw (gone, purge_dead, purge) (rw (at_itself b) refl, refl)
  | inr (rest, listed) ↦
      rw (listed, purge_dead, purge)
        (purge_dead-purge b dead (record s { active_connections = rest; purged = ws ∷ s.purged }))
]

pub next_send-none :
    (b i : ℕ) (dead : List ℕ) (s : Sockets)
    → get_elem? s.active_connections i ≡ none
    → next_send b i dead s ≡ purge_dead b dead s
unfolding next_send
next_send-none b i dead s h = rw (h, next_send) refl

pub next_send-some :
    (b i ws : ℕ) (dead : List ℕ) (s : Sockets)
    → get_elem? s.active_connections i ≡ some ws
    → next_send b i dead s
      ≡ set_broadcast b (waiting (record { ws = ws; index = i; dead = dead })) s
unfolding next_send
next_send-some b i ws dead s h = rw (h, next_send) refl

-- A call that is over has no course.
pub ended_at :
    (b : ℕ) (o out : Await) (c : Course) (u : Sockets)
    → u.broadcasts b ≡ over o
    → EndsWith b out c u
    → (c ≡ []) × (out ≡ o)
ended_at b o out [] u e h = (refl, cc)
ended_at b o out ((others, sent) ∷ c) u e h = absurd cc

pub collect-none :
    (conns dead : List ℕ) (i : ℕ)
    → get_elem? conns i ≡ none
    → purged (collect [] i dead conns) ≡ some (purge dead conns)
unfolding collect purge_collected
collect-none conns dead i h = rw (h, collect) refl
