-- ===== src/Publisher/Lifetime/Single.antt =====
-- fastapi_app/rmq/publisher.py: the publisher has at most one open connection, the cached one.
use fastapi_project.Prelude.{
  ℕ, ◌≡◌, ◌⊎◌, inl, inr, refl, ap, ◌∙◌, Bool, true, false, none, some, List, [], ◌∷◌, arith,
  Option-cases, Bool-cases,
}
use fastapi_project.Python.{Outcome, returned, raised}
use fastapi_project.Python.Lists.{remove, discard}
use fastapi_project.Publisher.{PublisherState}
use fastapi_project.Publisher.Lock.{
  Stage, unlocked, connecting, opening, Shared, CallStep, enters, connects, opens, call_step,
  step_at, enter, connected, channel_opened, reach_channel,
}
use fastapi_project.Publisher.Lifetime.{
  Lifetime, unused, LifeStep, calls, closes, is_open, opened_by, life_step, life_run,
}

abbrev OnlyCached : PublisherState → List ℕ → Type 0
OnlyCached p open_ = (open_ ≡ []) ⊎ ((k : ℕ) × (open_ ≡ k ∷ []) × (p.connection ≡ some k))

-- During `connect_robust` none is open.
abbrev IsSingleAt : Stage → PublisherState → List ℕ → Type 0
IsSingleAt (connecting call) p open_ = open_ ≡ []
IsSingleAt _ p open_ = OnlyCached p open_

abbrev IsSingle : Shared → List ℕ → Type 0
IsSingle s open_ = IsSingleAt s.stage s.publisher open_

open_itself : (k : ℕ) → is_open (k ∷ []) k ≡ true
unfolding remove
open_itself k = ground arith

-- A cached connection that is closed is not the open one.
none_open :
    (p : PublisherState) (k : ℕ) (open_ : List ℕ)
    → p.connection ≡ some k
    → is_open open_ k ≡ false
    → OnlyCached p open_
    → open_ ≡ []
none_open p k open_ cached closed (inl e) = e
none_open p k open_ cached closed (inr (k', e, cached')) =
    let same : k ≡ k' = cc in
    let usable : is_open open_ k ≡ true =
      ap (λ o. is_open o k) e ∙ ap (is_open (k' ∷ [])) same ∙ open_itself k' in
    absurd cc

nothing_open :
    (p : PublisherState) (open_ : List ℕ) → p.connection ≡ none → OnlyCached p open_ → open_ ≡ []
nothing_open p open_ nothing (inl e) = e
nothing_open p open_ nothing (inr (k, e, cached)) = absurd cc

discard_one : (k w : ℕ) → (discard k (w ∷ []) ≡ []) ⊎ (discard k (w ∷ []) ≡ w ∷ [])
unfolding discard remove
discard_one k w = ground arith

discard_nil : (k : ℕ) → discard k [] ≡ []
unfolding discard remove
discard_nil k = refl

closes-OnlyCached :
    (k : ℕ) (p : PublisherState) (open_ : List ℕ)
    → OnlyCached p open_
    → OnlyCached p (discard k open_)
closes-OnlyCached k p open_ (inl e) = inl (ap (discard k) e ∙ discard_nil k)
closes-OnlyCached k p open_ (inr (w, e, cached)) = elim (discard_one k w) [
  | inl gone ↦ inl (ap (discard k) e ∙ gone)
  | inr kept ↦ inr (w, ap (discard k) e ∙ kept, cached)
]

closes-IsSingle :
    (k : ℕ) (stage : Stage) (p : PublisherState) (open_ : List ℕ)
    → IsSingleAt stage p open_
    → IsSingleAt stage p (discard k open_)
closes-IsSingle k unlocked p open_ h = closes-OnlyCached k p open_ h
closes-IsSingle k (connecting call) p open_ h = ap (discard k) h ∙ discard_nil k
closes-IsSingle k (opening call c) p open_ h = closes-OnlyCached k p open_ h

module _ (conn_open chan_open : ℕ → Bool) where
  reach_channel-IsSingle :
      (call k : ℕ) (p : PublisherState) (es : List (ℕ × Outcome ℕ)) (open_ : List ℕ)
      → OnlyCached p open_
      → IsSingle (reach_channel conn_open chan_open call k p es) open_
  unfolding reach_channel
  reach_channel-IsSingle call k p es open_ h = elim (Option-cases p.channel) [
    | inl no_channel ↦ rw (no_channel, reach_channel) h
    | inr (c, cached) ↦ elim (Bool-cases (chan_open c)) [
      | inl usable ↦ rw (cached, reach_channel) (rw usable h)
      | inr closed ↦ rw (cached, reach_channel) (rw closed h)
    ]
  ]

  connected-IsSingle :
      (call : ℕ) (out : Outcome ℕ) (p : PublisherState) (es : List (ℕ × Outcome ℕ))
      → IsSingle
          (connected conn_open chan_open call out p es)
          (opened_by (connecting call) (connects out) [])
  unfolding connected
  connected-IsSingle call (returned k) p es =
      reach_channel-IsSingle call k (record p { connection = some k }) es (k ∷ [])
        (inr (k, refl, refl))
  connected-IsSingle call (raised e) p es = inl refl

  channel_opened-IsSingle :
      (call : ℕ) (out : Outcome ℕ) (p : PublisherState) (es : List (ℕ × Outcome ℕ)) (open_ : List ℕ)
      → OnlyCached p open_
      → IsSingle (channel_opened conn_open chan_open call out p es) open_
  unfolding channel_opened
  channel_opened-IsSingle call (returned c) p es open_ h = h
  channel_opened-IsSingle call (raised e) p es open_ h = h

module _ (chan_open : ℕ → Bool) (open_ : List ℕ) where
  enter-IsSingle :
      (call : ℕ) (p : PublisherState) (es : List (ℕ × Outcome ℕ))
      → OnlyCached p open_
      → IsSingle (enter (is_open open_) chan_open call p es) open_
  unfolding enter
  enter-IsSingle call p es h = elim (Option-cases p.connection) [
    | inl nothing ↦ rw (nothing, enter) (nothing_open p open_ nothing h)
    | inr (k, cached) ↦ elim (Bool-cases (is_open open_ k)) [
      | inl usable ↦
          rw (cached, enter)
            (rw usable (reach_channel-IsSingle (is_open open_) chan_open call k p es open_ h))
      | inr closed ↦ rw (cached, enter) (rw closed (none_open p k open_ cached closed h))
    ]
  ]

  step_at-IsSingle :
      (stage : Stage) (a : CallStep) (s : Shared)
      → s.stage ≡ stage
      → IsSingleAt stage s.publisher open_
      → IsSingle (step_at (is_open open_) chan_open stage a s) (opened_by stage a open_)
  unfolding step_at
  step_at-IsSingle unlocked (enters call) s e h = enter-IsSingle call s.publisher s.ended h
  step_at-IsSingle (connecting call) (connects out) s e h =
      rw h (connected-IsSingle (is_open []) chan_open call out s.publisher s.ended)
  step_at-IsSingle (opening call k) (opens out) s e h =
      channel_opened-IsSingle (is_open open_) chan_open call out s.publisher s.ended open_ h
  step_at-IsSingle unlocked (connects out) s e h = rw e h
  step_at-IsSingle unlocked (opens out) s e h = rw e h
  step_at-IsSingle (connecting call) (enters c) s e h = rw e h
  step_at-IsSingle (connecting call) (opens out) s e h = rw e h
  step_at-IsSingle (opening call k) (enters c) s e h = rw e h
  step_at-IsSingle (opening call k) (connects out) s e h = rw e h

life_step-IsSingle :
    (a : LifeStep) (s : Lifetime)
    → IsSingle s.shared s.open_connections
    → IsSingle (life_step a s).shared (life_step a s).open_connections
unfolding life_step call_step
life_step-IsSingle (calls chan_open a) s h =
    step_at-IsSingle chan_open s.open_connections s.shared.stage a s.shared refl h
life_step-IsSingle (closes k) s h =
    closes-IsSingle k s.shared.stage s.shared.publisher s.open_connections h

life_run-IsSingle :
    (ss : List LifeStep) (s : Lifetime)
    → IsSingle s.shared s.open_connections
    → IsSingle (life_run ss s).shared (life_run ss s).open_connections
unfolding life_run
life_run-IsSingle [] s h = h
life_run-IsSingle (a ∷ ss) s h = life_run-IsSingle ss (life_step a s) (life_step-IsSingle a s h)

single_cached :
    (stage : Stage) (p : PublisherState) (open_ : List ℕ)
    → IsSingleAt stage p open_
    → OnlyCached p open_
single_cached unlocked p open_ h = h
single_cached (connecting call) p open_ h = inl h
single_cached (opening call k) p open_ h = h

-- However calls of _get_channel run at the same time, and whenever connections are closed, by close
-- or by the broker, the publisher has at most one open connection at a time, and that is the cached
-- one.
pub life_run_single :
    (ss : List LifeStep)
    → let s = life_run ss unused in
      (s.open_connections ≡ [])
      ⊎ ((k : ℕ) × (s.open_connections ≡ k ∷ []) × (s.shared.publisher.connection ≡ some k))
life_run_single ss =
    let s = life_run ss unused in
    single_cached s.shared.stage s.shared.publisher s.open_connections
      (life_run-IsSingle ss unused (inl refl))
