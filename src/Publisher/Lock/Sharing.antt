-- ===== src/Publisher/Lock/Sharing.antt =====
-- fastapi_app/rmq/publisher.py: calls of `_get_channel` under the lock share one channel.
use fastapi_project.Prelude.{
  ℕ, ◌≡◌, refl, Bool, true, false, some, List, [], ◌∷◌, All, Option-cases, Bool-cases, inl, inr,
}
use fastapi_project.Python.{Outcome, returned, raised}
use fastapi_project.Publisher.{PublisherState}
use fastapi_project.Publisher.Lock.{
  Stage, unlocked, connecting, opening, Shared, CallStep, enters, connects, opens, reach_channel,
  enter, connected, channel_opened, step_at, call_step, call_run,
}

module _ (conn_open chan_open : ℕ → Bool) where
  -- A result is an exception, or the cached channel, which is open.
  abbrev pub IsCached : PublisherState → ℕ × Outcome ℕ → Type 0
  IsCached p (call, returned c) = (p.channel ≡ some c) × (chan_open c ≡ true)
  IsCached p (call, raised e) = Unit {0}

  -- While a call opens a channel, there is no open one.
  abbrev pub IsNeeded : Stage → PublisherState → Type 0
  IsNeeded (opening call k) p = (c : ℕ) → p.channel ≡ some c → chan_open c ≡ false
  IsNeeded _ p = Unit {0}

  pub record IsShared (s : Shared) : Type 0 where
    pub results : All (IsCached s.publisher) s.ended
    pub needed : IsNeeded s.stage s.publisher

  -- What is opened is open.
  abbrev pub IsOpening : CallStep → Type 0
  IsOpening (opens (returned c)) = chan_open c ≡ true
  IsOpening _ = Unit {0}

  -- Results that are all exceptions do not depend on the cached channel.
  results_kept :
      (p q : PublisherState) (es : List (ℕ × Outcome ℕ))
      → ((c : ℕ) → p.channel ≡ some c → chan_open c ≡ false)
      → All (IsCached p) es
      → All (IsCached q) es
  results_kept p q [] n r = tt
  results_kept p q ((call, returned c) ∷ es) n r = absurd (cc (n c r.0.0, r.0.1))
  results_kept p q ((call, raised e) ∷ es) n r = (tt, results_kept p q es n r.1)

  reach_channel-IsShared :
      (call k : ℕ) (p : PublisherState) (es : List (ℕ × Outcome ℕ))
      → All (IsCached p) es
      → IsShared (reach_channel conn_open chan_open call k p es)
  unfolding reach_channel
  reach_channel-IsShared call k p es r = elim (Option-cases p.channel) [
    | inl e ↦ rw (e, reach_channel) (record { results = r; needed = λ c h. absurd (cc (e, h)) })
    | inr (c, e) ↦ elim (Bool-cases (chan_open c)) [
      | inl open_one ↦
          rw (e, open_one, reach_channel) (record { results = ((e, open_one), r); needed = tt })
      | inr closed ↦
          rw (e, closed, reach_channel) (record { results = r; needed = λ d h. cc (e, h, closed) })
    ]
  ]

  enter-IsShared :
      (call : ℕ) (p : PublisherState) (es : List (ℕ × Outcome ℕ))
      → All (IsCached p) es
      → IsShared (enter conn_open chan_open call p es)
  unfolding enter
  enter-IsShared call p es r = elim (Option-cases p.connection) [
    | inl e ↦ rw (e, enter) (record { results = r; needed = tt })
    | inr (k, e) ↦ elim (Bool-cases (conn_open k)) [
      | inl open_one ↦ rw (e, open_one, enter) (reach_channel-IsShared call k p es r)
      | inr closed ↦ rw (e, closed, enter) (record { results = r; needed = tt })
    ]
  ]

  stage-IsNeeded :
      (stage : Stage) (s : Shared) → s.stage ≡ stage → IsShared s → IsNeeded stage s.publisher
  stage-IsNeeded stage s e h = rw (← e) h.needed

  step_at-IsShared :
      (stage : Stage) (a : CallStep) (s : Shared)
      → s.stage ≡ stage
      → IsOpening a
      → IsShared s
      → IsShared (step_at conn_open chan_open stage a s)
  unfolding step_at connected channel_opened
  step_at-IsShared unlocked (enters call) s e o h =
      enter-IsShared call s.publisher s.ended h.results
  step_at-IsShared unlocked (connects out) s e o h = h
  step_at-IsShared unlocked (opens out) s e o h = h
  step_at-IsShared (connecting call) (connects (returned k)) s e o h =
      reach_channel-IsShared call k _ s.ended h.results
  step_at-IsShared (connecting call) (connects (raised d)) s e o h = record {
    results = (tt, h.results);
    needed = tt;
  }
  step_at-IsShared (connecting call) (enters other) s e o h = h
  step_at-IsShared (connecting call) (opens out) s e o h = h
  step_at-IsShared (opening call k) (opens (returned c)) s e o h = record {
    results = (
      (refl, o),
      results_kept s.publisher (record s.publisher { channel = some c }) s.ended
          (stage-IsNeeded (opening call k) s e h) h.results,
    );
    needed = tt;
  }
  step_at-IsShared (opening call k) (opens (raised d)) s e o h = record {
    results = (tt, h.results);
    needed = tt;
  }
  step_at-IsShared (opening call k) (enters other) s e o h = h
  step_at-IsShared (opening call k) (connects out) s e o h = h

  call_step-IsShared :
      (a : CallStep) (s : Shared)
      → IsOpening a
      → IsShared s
      → IsShared (call_step conn_open chan_open a s)
  unfolding call_step
  call_step-IsShared a s o h = step_at-IsShared s.stage a s refl o h

  -- From a state in which this holds, as it does before the first call, however many calls of
  -- _get_channel run at the same time, in any order, if nothing is closed meanwhile and what is
  -- opened is open, then all that have returned gave the one channel that is cached.
  call_run-IsShared :
      (steps : List CallStep) (s : Shared)
      → All IsOpening steps
      → IsShared s
      → IsShared (call_run conn_open chan_open steps s)
  unfolding call_run
  call_run-IsShared [] s o h = h
  call_run-IsShared (a ∷ rest) s o h =
      call_run-IsShared rest (call_step conn_open chan_open a s) o.1 (call_step-IsShared a s o.0 h)
