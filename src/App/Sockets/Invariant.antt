-- ===== src/App/Sockets/Invariant.antt =====
-- fastapi_app/main.py and fastapi_app/core/store.py: the account of all connections, and the steps of
-- the endpoints and of a broadcast's second loop, which keep it.
use fastapi_project.Prelude.{
  ℕ, suc, ◌+◌, ◌≤◌, ◌<◌, ◌≡◌, none, some, List, [], ◌∷◌, arith, ltb, nat_eq, Option-cases,
  Bool-cases, inl, inr, All,
}
use fastapi_project.Python.{done}
use fastapi_project.Python.Lists.{
  remove, count, one_if, count-append, count-remove, count-remove-none,
}
use fastapi_project.App.Sockets.{
  Stage, idle, waiting, over, Sockets, accept, disconnect, set_broadcast, purge_dead,
}
use fastapi_project.Python.Lists.Counts.{
  one_more, one_if_self, same_number, is_accepted, other_first, more_at,
}

-- Every accepted connection is in one place: in the list, removed by its endpoint, or removed by a
-- broadcast. Every endpoint is at its await, or has ended in one of three ways. And a removal has
-- raised a ValueError only where another had removed the connection before.
pub record IsAccounted (s : Sockets) : Type 0 where
  pub places :
      (w : ℕ)
      → count w s.active_connections + count w s.removed + count w s.purged
        ≡ one_if (ltb w s.accepted)
  pub ends :
      (w : ℕ)
      → count w s.endpoints + count w s.removed + count w s.lost + count w s.failed
        ≡ one_if (ltb w s.accepted)
  pub lost : (w : ℕ) → count w s.lost ≤ count w s.purged
  pub conflicts : (w : ℕ) → 1 ≤ count w s.conflicts → 1 ≤ count w s.removed + count w s.purged

-- The connections that a broadcast knows were accepted.
abbrev pub Known : ℕ → Stage → Type 0
Known n (waiting p) = (p.ws < n) × All (λ w. w < n) p.dead
Known n _ = Unit {0}

pub record IsSound (s : Sockets) : Type 0 where
  pub accounted : IsAccounted s
  pub known : (b : ℕ) → Known s.accepted (s.broadcasts b)

abbrev pub Accepted : ℕ → List ℕ → Type 0
Accepted n dead = All (λ w. w < n) dead

Accepted-suc : (n : ℕ) (dead : List ℕ) → Accepted n dead → Accepted (suc n) dead
Accepted-suc n [] h = h
Accepted-suc n (w ∷ dead) h = (omega (arith, h.0), Accepted-suc n dead h.1)

Known-suc : (n : ℕ) (stage : Stage) → Known n stage → Known (suc n) stage
Known-suc n idle k = k
Known-suc n (over out) k = k
Known-suc n (waiting p) k = (omega (arith, k.0), Accepted-suc n p.dead k.1)

pub accept-IsSound : (s : Sockets) → IsSound s → IsSound (accept s)
unfolding accept
accept-IsSound s h = record {
  accounted = record {
    places = λ w. omega (
      arith,
      h.accounted.places w,
      one_more w s.accepted,
      count-append w s.active_connections (s.accepted ∷ []),
    );
    ends = λ w. omega (
      arith,
      h.accounted.ends w,
      one_more w s.accepted,
      count-append w s.endpoints (s.accepted ∷ []),
    );
    lost = h.accounted.lost;
    conflicts = h.accounted.conflicts;
  };
  known = λ b. Known-suc s.accepted (s.broadcasts b) (h.known b);
}

-- An endpoint that is accepted and not in the list was removed by a broadcast.
pub disconnect-IsSound :
    (ws : ℕ) (rest : List ℕ) (s : Sockets)
    → remove ws s.endpoints ≡ some rest
    → IsSound s
    → IsSound (disconnect ws (record s { endpoints = rest }))
unfolding disconnect
disconnect-IsSound ws rest s found h = elim (Option-cases (remove ws s.active_connections)) [
  | inl gone ↦
      rw (gone, disconnect)
        (record {
          accounted = record {
            places = h.accounted.places;
            ends = λ w. omega (arith, h.accounted.ends w, count-remove w ws s.endpoints rest found);
            lost = λ w.
                more_at ws w s.lost s.purged
                  (omega (
                    arith,
                    h.accounted.ends ws,
                    h.accounted.places ws,
                    one_if_self ws,
                    count-remove ws ws s.endpoints rest found,
                    count-remove-none ws s.active_connections gone,
                  ))
                  (h.accounted.lost w);
            conflicts = h.accounted.conflicts;
          };
          known = h.known;
        })
  | inr (conns, listed) ↦
      rw (listed, disconnect)
        (record {
          accounted = record {
            places = λ w.
                omega (
                  arith,
                  h.accounted.places w,
                  count-remove w ws s.active_connections conns listed,
                );
            ends = λ w. omega (arith, h.accounted.ends w, count-remove w ws s.endpoints rest found);
            lost = h.accounted.lost;
            conflicts = λ w k. omega (arith, h.accounted.conflicts w k);
          };
          known = h.known;
        })
]

pub fails-IsSound :
    (ws : ℕ) (rest : List ℕ) (s : Sockets)
    → remove ws s.endpoints ≡ some rest
    → IsSound s
    → IsSound (record s { endpoints = rest; failed = ws ∷ s.failed })
fails-IsSound ws rest s found h = record {
  accounted = record {
    places = h.accounted.places;
    ends = λ w. omega (arith, h.accounted.ends w, count-remove w ws s.endpoints rest found);
    lost = h.accounted.lost;
    conflicts = h.accounted.conflicts;
  };
  known = h.known;
}

pub set_broadcast-IsSound :
    (b : ℕ) (o : Stage) (s : Sockets)
    → Known s.accepted o
    → IsSound s
    → IsSound (set_broadcast b o s)
set_broadcast-IsSound b o s k h = record {
  accounted = record {
    places = h.accounted.places;
    ends = h.accounted.ends;
    lost = h.accounted.lost;
    conflicts = h.accounted.conflicts;
  };
  known = λ c. elim (Bool-cases (nat_eq b c)) [
    | inl same ↦ rw same k
    | inr other ↦ rw other (h.known c)
  ];
}

-- A dead connection that is accepted and not in the list was removed.
conflict-IsSound :
    (ws : ℕ) (s : Sockets)
    → ws < s.accepted
    → remove ws s.active_connections ≡ none
    → IsSound s
    → IsSound (record s { conflicts = ws ∷ s.conflicts })
conflict-IsSound ws s below gone h = record {
  accounted = record {
    places = h.accounted.places;
    ends = h.accounted.ends;
    lost = h.accounted.lost;
    conflicts = λ w c. elim (Bool-cases (nat_eq ws w)) [
      | inl same ↦
          let e : ws ≡ w = same_number ws w same in
          let placed : count ws s.removed + count ws s.purged ≡ 1 = omega (
            arith,
            h.accounted.places ws,
            is_accepted ws s.accepted below,
            count-remove-none ws s.active_connections gone,
          ) in
          rw (← e) (omega (arith, placed))
      | inr other ↦ h.accounted.conflicts w (rw (← other_first ws w s.conflicts other) c)
    ];
  };
  known = h.known;
}

pub purge_dead-IsSound :
    (b : ℕ) (dead : List ℕ) (s : Sockets)
    → Accepted s.accepted dead
    → IsSound s
    → IsSound (purge_dead b dead s)
unfolding purge_dead
purge_dead-IsSound b [] s k h = set_broadcast-IsSound b (over done) s tt h
purge_dead-IsSound b (ws ∷ dead) s k h = elim (Option-cases (remove ws s.active_connections)) [
  | inl gone ↦
      rw (gone, purge_dead)
        (set_broadcast-IsSound b (over _) _ tt (conflict-IsSound ws s k.0 gone h))
  | inr (conns, listed) ↦
      rw (listed, purge_dead)
        (purge_dead-IsSound b dead (record s { active_connections = conns; purged = ws ∷ s.purged })
          k.1
          (record {
            accounted = record {
              places = λ w. omega (
                arith,
                h.accounted.places w,
                count-remove w ws s.active_connections conns listed,
              );
              ends = h.accounted.ends;
              lost = λ w. omega (arith, h.accounted.lost w);
              conflicts = λ w c. omega (arith, h.accounted.conflicts w c);
            };
            known = h.known;
          }))
]
