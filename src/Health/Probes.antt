-- ===== src/Health/Probes.antt =====
-- fastapi_app/rmq/health.py: what the probes report of the broker, what they do to the shared
-- channel, and which exceptions leave them.
use mathlib.Core.Bool.{false≢true}
use fastapi_project.Prelude.{
  ℕ, sym, ◌∙◌, eq_iff, ◌≡◌, ◌≢◌, ◌⊎◌, inl, inr, Bool, true, false, not, Option, none, some, arith,
  if◌then◌else◌,
}
use fastapi_project.Python.{Exn, amqp_channel_error, is_exception, Outcome, returned, raised, done}
use fastapi_project.Health.{ProbeResult, HealthModule, set_shared_channel}
use fastapi_project.Health.Probe.{
  ProbeReplies, probe_passive, probe_new_connection, probe, try_connection, failed_connection,
  close_connection,
}
use fastapi_project.Health.History.{healthy, missing, broken, verdict}

-- What a result claims, in terms of the broker's replies: the queue is there only if the passive
-- declaration returned, it is missing only if that got a channel error, nothing is said of the
-- queue of a broker that is taken for dead, and something is said of it if the broker answered.
pub record IsHonest (r : ProbeReplies) (p : ProbeResult) : Type 0 where
  pub healthy_lem : verdict p ≡ healthy → r.declare_queue ≡ done
  pub missing_lem : verdict p ≡ missing → r.declare_queue ≡ raised amqp_channel_error
  pub broken_lem : verdict p ≡ broken → p.queue_exists ≡ none
  pub known : p.broker_alive ≡ true → p.queue_exists ≢ none

-- `_probe` takes the passive way.
abbrev pub is_passive : ProbeReplies → Option ℕ → Bool
is_passive r none = false
is_passive r (some c) = not r.channel_is_closed

passive-IsHonest :
    (r : ProbeReplies) (m : HealthModule) (p : ProbeResult)
    → (probe_passive r m).0 ≡ returned p
    → IsHonest r p
unfolding probe_passive
passive-IsHonest r m p h = ground arith

new_connection-IsHonest :
    (r : ProbeReplies) (p : ProbeResult) → probe_new_connection r ≡ returned p → IsHonest r p
unfolding probe_new_connection
new_connection-IsHonest r p h = ground arith

-- A returned probe result claims that the queue exists only if the passive declaration returned,
-- and that it is missing only if that got a channel error; it says nothing of the queue if the
-- broker is taken for dead, and something otherwise.
pub probe-IsHonest :
    (r : ProbeReplies) (m : HealthModule) (p : ProbeResult)
    → (probe r m).0 ≡ returned p
    → IsHonest r p
unfolding probe
probe-IsHonest r m p h = ground (arith, passive-IsHonest r m p, new_connection-IsHonest r p)

-- The shared channel is given up exactly where a passive declaration raised an `Exception`, and
-- nothing else of the module changes.
abbrev pub channel_after : ProbeReplies → Option ℕ → Option ℕ
channel_after r none = none
channel_after r (some c) = elim r.declare_queue [
  | returned _ ↦ some c
  | raised e ↦ if not r.channel_is_closed then (if is_exception e then none else some c) else some c
]

pub probe_effect :
    (r : ProbeReplies) (m : HealthModule)
    → (probe r m).1 ≡ record m { shared_channel = channel_after r m.shared_channel }
unfolding probe probe_passive set_shared_channel
probe_effect r m = ground arith

passive_raises :
    (r : ProbeReplies) (m : HealthModule) (e : Exn)
    → (probe_passive r m).0 ≡ raised e
    → is_exception e ≡ false
unfolding probe_passive
passive_raises r m e h = ground arith

failed_raises :
    (o : Outcome ProbeResult) (e : Exn) → failed_connection o ≡ raised e → is_exception e ≡ false
unfolding failed_connection
failed_raises (returned p) e h = cc
failed_raises (raised x) e h = ground arith

close_raises :
    (r : ProbeReplies) (o : Outcome ProbeResult) (e : Exn)
    → close_connection r o ≡ raised e
    → (o ≡ raised e) ⊎ (r.close ≡ raised e)
unfolding close_connection
close_raises r o e h = ground arith

new_connection_raises :
    (r : ProbeReplies) (e : Exn)
    → probe_new_connection r ≡ raised e
    → (is_exception e ≡ false) ⊎ (r.close ≡ raised e)
new_connection_raises r e h =
    let out = failed_connection (try_connection r) in
    elim (close_raises r out e (unfold probe_new_connection in h)) [
      | inl a ↦ inl (failed_raises (try_connection r) e a)
      | inr b ↦ inr b
    ]

-- What leaves `_probe` is a cancellation, or the error of the `close` in its `finally`.
pub probe_raises :
    (r : ProbeReplies) (m : HealthModule) (e : Exn)
    → (probe r m).0 ≡ raised e
    → (is_exception e ≡ false) ⊎ (r.close ≡ raised e)
unfolding probe
probe_raises r m e h = ground (arith, passive_raises r m e, new_connection_raises r e)

passive_invalidates :
    (r : ProbeReplies) (m : HealthModule) (p : ProbeResult)
    → (probe_passive r m).0 ≡ returned p
    → verdict p ≢ healthy
    → (probe_passive r m).1.shared_channel ≡ none
unfolding probe_passive set_shared_channel
passive_invalidates r m p h v = ground arith

method-new_connection :
    (r : ProbeReplies) (p : ProbeResult)
    → probe_new_connection r ≡ returned p
    → p.method ≡ "new_connection"
unfolding probe_new_connection
method-new_connection r p h = ground arith

methods_differ : (p : ProbeResult) → p.method ≡ "new_connection" → p.method ≢ "passive"
methods_differ p h k = false≢true ((eq_iff "new_connection" "passive").1 (sym h ∙ k))

-- After a passive probe that found the queue missing or the broker dead, the next probe opens a
-- connection of its own.
pub probe-probe_new_connection :
    (r s : ProbeReplies) (m : HealthModule) (p q : ProbeResult)
    → (probe r m).0 ≡ returned p
    → p.method ≡ "passive"
    → verdict p ≢ healthy
    → (probe s (probe r m).1).0 ≡ returned q
    → q.method ≡ "new_connection"
unfolding probe
probe-probe_new_connection r s m p q h k v g = ground (
  arith,
  passive_invalidates r m p,
  method-new_connection r p,
  method-new_connection s q,
  methods_differ p,
)
