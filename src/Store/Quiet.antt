-- ===== src/Store/Quiet.antt =====
-- fastapi_app/core/store.py: `broadcast_ws` where no connection joins or leaves meanwhile.
use fastapi_project.Prelude.{
  ℕ, ◌+◌, ◌≤◌, ◌≡◌, ◌≢◌, refl, sym, ap, ◌∙◌, inl, inr, Option-cases, true, none, some, List, [],
  ◌∷◌, ◌++◌, arith, All, length, get_elem?, get_elem?-middle, get_elem?-length, length-append,
  append_assoc, append-nil,
}
use fastapi_project.Python.{Exn, is_exception, returned, raised, done, Outcome-cases}
use fastapi_project.Python.Lists.{remove}
use fastapi_project.Store.{Send, interfere_all, collect, purge, broadcast_ws}

-- Nothing else runs during the call, and a failure is an `Exception`.
pub record IsQuiet (s : Send) : Type 0 where
  pub alone : s.meanwhile ≡ []
  pub caught : (e : Exn) → s.outcome ≡ raised e → is_exception e ≡ true

abbrev pub AreDistinct : List ℕ → Type 0
AreDistinct [] = Unit
AreDistinct (w ∷ ws) = All (λ v. w ≢ v) ws × AreDistinct ws

abbrev pub survivors : List Send → List ℕ → List ℕ
survivors [] ws = ws
survivors ss [] = []
survivors (s ∷ ss) (w ∷ ws) = elim s.outcome [
  | returned _ ↦ w ∷ survivors ss ws
  | raised e ↦ survivors ss ws
]

abbrev failing : List Send → List ℕ → List ℕ
failing [] ws = []
failing ss [] = []
failing (s ∷ ss) (w ∷ ws) = elim s.outcome [
  | returned _ ↦ failing ss ws
  | raised e ↦ w ∷ failing ss ws
]

abbrev dead_after : Send → ℕ → List ℕ → List ℕ
dead_after s w dead = elim s.outcome [ returned _ ↦ dead | raised e ↦ dead ++ w ∷ [] ]

-- One round of the first loop, at the connection that the index names.
collect_round :
    (s : Send) (ss : List Send) (w i : ℕ) (dead conns : List ℕ)
    → IsQuiet s
    → get_elem? conns i ≡ some w
    → collect (s ∷ ss) i dead conns ≡ collect ss (i + 1) (dead_after s w dead) conns
unfolding collect interfere_all
collect_round s ss w i dead conns q h = elim (Outcome-cases s.outcome) [
  | inl sent ↦ ground (arith, q.alone)
  | inr (e, failed) ↦ ground (arith, q.alone, q.caught e)
]

collect_end :
    (ss : List Send) (i : ℕ) (dead conns : List ℕ)
    → get_elem? conns i ≡ none
    → collect ss i dead conns ≡ some (returned dead, conns)
unfolding collect
collect_end [] i dead conns h = ground arith
collect_end (s ∷ ss) i dead conns h = ground arith

failing_after :
    (s : Send) (ss : List Send) (w : ℕ) (ws dead : List ℕ)
    → dead_after s w dead ++ failing ss ws ≡ dead ++ failing (s ∷ ss) (w ∷ ws)
failing_after s ss w ws dead = ground (arith, append_assoc dead (w ∷ []) (failing ss ws))

failing-nil : (ss : List Send) → failing ss [] ≡ []
failing-nil [] = refl
failing-nil (s ∷ ss) = refl

collect_quiet :
    (ss : List Send) (i : ℕ) (pre ws dead conns : List ℕ)
    → All IsQuiet ss
    → length ws ≤ length ss
    → i ≡ length pre
    → conns ≡ pre ++ ws
    → collect ss i dead conns ≡ some (returned (dead ++ failing ss ws), conns)
collect_quiet ss i pre [] dead conns q n at whole =
    collect_end ss i dead conns (rw (at, whole, append-nil) (get_elem?-length pre))
    ∙ ap (λ (d : List ℕ). some (returned d, conns)) (rw (failing-nil ss) (sym (append-nil dead)))
collect_quiet [] i pre (w ∷ ws) dead conns q n at whole = absurd (omega arith)
collect_quiet (s ∷ ss) i pre (w ∷ ws) dead conns q n at whole =
    collect_round s ss w i dead conns q.0 (rw (at, whole) (get_elem?-middle pre ws w))
    ∙ collect_quiet ss (i + 1) (pre ++ w ∷ []) ws (dead_after s w dead) conns q.1 (omega arith)
        (omega (arith, length-append pre (w ∷ []))) (whole ∙ sym (append_assoc pre (w ∷ []) ws))
    ∙ ap (λ (d : List ℕ). some (returned d, conns)) (failing_after s ss w ws dead)

All-failing {κ} : (P : ℕ → Type κ) (ss : List Send) (ws : List ℕ) → All P ws → All P (failing ss ws)
All-failing P [] ws h = tt
All-failing P (s ∷ ss) [] h = tt
All-failing P (s ∷ ss) (w ∷ ws) h = ground (arith, All-failing P ss ws h.1)

purge_skip :
    (w : ℕ) (dead ws : List ℕ)
    → All (λ v. w ≢ v) dead
    → purge dead (w ∷ ws) ≡ ((purge dead ws).0, w ∷ (purge dead ws).1)
unfolding purge remove
purge_skip w [] ws h = refl
purge_skip w (d ∷ dead) ws h = elim (Option-cases (remove d ws)) [
  | inl gone ↦ ground arith
  | inr (rest, found) ↦ ground (arith, purge_skip w dead rest h.1)
]

purge-failing :
    (ss : List Send) (ws : List ℕ)
    → AreDistinct ws
    → purge (failing ss ws) ws ≡ (done, survivors ss ws)
unfolding purge remove
purge-failing [] ws h = refl
purge-failing (s ∷ ss) [] h = refl
purge-failing (s ∷ ss) (w ∷ ws) h = ground (
  arith,
  purge_skip w (failing ss ws) ws (All-failing (λ v. w ≢ v) ss ws h.0),
  purge-failing ss ws h.1,
)

-- If nobody joins or leaves meanwhile, a broadcast that has time to send to every connection
-- returns, and keeps exactly the connections whose message was sent, in their order.
pub broadcast_ws_quiet :
    (ss : List Send) (conns : List ℕ)
    → All IsQuiet ss
    → length conns ≤ length ss
    → AreDistinct conns
    → broadcast_ws ss conns ≡ some (done, survivors ss conns)
unfolding broadcast_ws
broadcast_ws_quiet ss conns q n d =
    rw (collect_quiet ss 0 [] conns [] conns q n refl refl, broadcast_ws)
      (ap some (purge-failing ss conns d))
