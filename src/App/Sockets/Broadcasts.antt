-- ===== src/App/Sockets/Broadcasts.antt =====
-- fastapi_app/core/store.py: one broadcast among all the others is the `broadcast_ws` of Store, with
-- what the others do to the list as its interference.
use fastapi_project.Prelude.{
  ℕ, ◌+◌, ◌≡◌, refl, sym, ap, ◌∙◌, some, List, [], ◌∷◌, ◌++◌, if◌then◌else◌, get_elem?,
  Option-cases, Bool-cases, inl, inr,
}
use std.Path.{subst}
use fastapi_project.Python.{is_exception, returned, raised, Await}
use fastapi_project.Store.{
  Interference, interfere_all, Send, collect, purge, purge_collected, broadcast_ws,
}
use fastapi_project.App.Sockets.{
  Broadcast, idle, waiting, over, begin_broadcast, resume_broadcast, Sockets, set_broadcast,
  purge_dead, next_send, resume_send, begins, sends, socket_step, socket_run,
}
use fastapi_project.App.Sockets.Others.{socket_run-Interferes}
use fastapi_project.App.Sockets.Courses.{
  Course, course, EndsWith, ends_of, outcomes, Matches, at_itself, purge_dead-purge, next_send-none,
  next_send-some, ended_at, collect-none,
}

-- The await of a text that was sent in the first loop ends.
after_send :
    (b : ℕ) (out : Await) (c : Course) (sent : Await) (p : Broadcast) (s u : Sockets)
    (actions : List Interference)
    → u.active_connections ≡ interfere_all actions s.active_connections
    → get_elem? s.active_connections p.index ≡ some p.ws
    → ((i : ℕ) (dead : List ℕ)
        → EndsWith b out c (next_send b i dead u)
        → Matches i dead out (ends_of c) u (course b c (next_send b i dead u)))
    → EndsWith b out c (resume_send b sent p u)
    → Matches p.index p.dead out (sent ∷ ends_of c) s (course b c (resume_send b sent p u))
unfolding resume_send collect purge_collected course
after_send b out c (returned r) p s u actions changed at later h =
    let (texts, same, m) = later (p.index + 1) p.dead h in
    (
      record { outcome = returned r; meanwhile = actions } ∷ texts,
      ap (◌∷◌ (returned r)) same,
      rw (at, collect) (rw (← changed) m),
    )
after_send b out c (raised e) p s u actions changed at later h =
    elim (Bool-cases (is_exception e)) [
      | inl caught ↦
          let dead = p.dead ++ p.ws ∷ [] in
          let h' : EndsWith b out c (next_send b (p.index + 1) dead u) =
            subst
              (λ x. EndsWith b out c (
                if x
                then next_send b (p.index + 1) dead u
                else set_broadcast b (over (raised e)) u))
              caught h in
          let (texts, same, m) = later (p.index + 1) dead h' in
          rw caught (
            record { outcome = raised e; meanwhile = actions } ∷ texts,
            ap (◌∷◌ (raised e)) same,
            rw (at, collect) (rw caught (rw (← changed) m)),
          )
      | inr other ↦
          let u' = set_broadcast b (over (raised e)) u in
          let h' : EndsWith b out c u' =
            subst
              (λ x.
                EndsWith b out c
                  (if x then next_send b (p.index + 1) (p.dead ++ p.ws ∷ []) u else u'))
              other h in
          let (nil, o) = ended_at b (raised e) out c u' (rw (at_itself b) refl) h' in
          rw (other, nil, o)
            (
              record { outcome = raised e; meanwhile = actions } ∷ [],
              refl,
              rw (at, collect) (rw (other, changed) refl),
            )
    ]

waits_at :
    (b i ws : ℕ) (dead : List ℕ) (s : Sockets)
    → get_elem? s.active_connections i ≡ some ws
    → (next_send b i dead s).broadcasts b ≡ waiting (record { ws = ws; index = i; dead = dead })
waits_at b i ws dead s at =
    ap (λ (u : Sockets). u.broadcasts b) (next_send-some b i ws dead s at) ∙ rw (at_itself b) refl

resumes_at :
    (b : ℕ) (sent : Await) (p : Broadcast) (u : Sockets)
    → u.broadcasts b ≡ waiting p
    → socket_step (sends b sent) u ≡ resume_send b sent p u
unfolding socket_step resume_broadcast
resumes_at b sent p u h = ap (λ stage. resume_broadcast b sent stage u) h

after_next :
    (b : ℕ) (out : Await) (c : Course) (i : ℕ) (dead : List ℕ) (s : Sockets)
    → EndsWith b out c (next_send b i dead s)
    → Matches i dead out (ends_of c) s (course b c (next_send b i dead s))
unfolding course
after_next b out [] i dead s h = elim (Option-cases (get_elem? s.active_connections i)) [
  | inl past ↦
      let e : next_send b i dead s ≡ purge_dead b dead s = next_send-none b i dead s past in
      let p = purge_dead-purge b dead s in
      let (_, o) =
        ended_at b (purge dead s.active_connections).0 out [] (next_send b i dead s)
          (ap (λ (u : Sockets). u.broadcasts b) e ∙ p.0) h in
      (
        [],
        refl,
        collect-none s.active_connections dead i past
            ∙ rw (o, ap (λ (u : Sockets). u.active_connections) e ∙ p.1) refl,
      )
  | inr (ws, at) ↦ let w = waits_at b i ws dead s at in absurd cc
]
after_next b out ((others, sent) ∷ c) i dead s h =
    elim (Option-cases (get_elem? s.active_connections i)) [
      | inl past ↦
          let e : next_send b i dead s ≡ purge_dead b dead s = next_send-none b i dead s past in
          let (nil, _) =
            ended_at b (purge dead s.active_connections).0 out ((others, sent) ∷ c)
              (next_send b i dead s)
              (ap (λ (u : Sockets). u.broadcasts b) e ∙ (purge_dead-purge b dead s).0) h in
          absurd cc
      | inr (ws, at) ↦
          let p : Broadcast = record { ws = ws; index = i; dead = dead } in
          let s1 = set_broadcast b (waiting p) s in
          let e : next_send b i dead s ≡ s1 = next_send-some b i ws dead s at in
          let (_, apart, h2) = subst (EndsWith b out ((others, sent) ∷ c)) e h in
          let u = socket_run others s1 in
          let (kept, actions, changed) = socket_run-Interferes b others s1 apart in
          let resumed : socket_step (sends b sent) u ≡ resume_send b sent p u =
            resumes_at b sent p u (kept ∙ rw (at_itself b) refl) in
          let (texts, same, m) =
            after_send b out c sent p s u actions changed at
              (λ j later. after_next b out c j later u) (subst (EndsWith b out c) resumed h2) in
          (
            texts,
            same,
            m
                ∙ ap (λ v. some (out, (course b c v).active_connections))
                    (sym resumed
                      ∙ ap (λ v. socket_step (sends b sent) (socket_run others v)) (sym e)),
          )
    ]

-- Among any other endpoints and broadcasts, a broadcast that has not begun, and that then ends, is
-- a run of broadcast_ws on the list from its begin: with the same outcomes of its texts, and some
-- interferences in the place of what the others do, it ends in the same way and leaves the same
-- list.
pub course-broadcast_ws :
    (b : ℕ) (out : Await) (c : Course) (s : Sockets)
    → s.broadcasts b ≡ idle
    → EndsWith b out c (socket_step (begins b) s)
    → (texts : List Send) × (outcomes texts ≡ ends_of c)
      × (broadcast_ws texts s.active_connections
          ≡ some (out, (course b c (socket_step (begins b) s)).active_connections))
unfolding broadcast_ws socket_step begin_broadcast
course-broadcast_ws b out c s h ends =
    let e : socket_step (begins b) s ≡ next_send b 0 [] s =
      ap (λ stage. begin_broadcast b stage s) h in
    let (texts, same, m) = after_next b out c 0 [] s (subst (EndsWith b out c) e ends) in
    (texts, same, m ∙ ap (λ v. some (out, (course b c v).active_connections)) (sym e))
