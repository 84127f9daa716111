-- ===== src/Publisher.antt =====
-- fastapi_app/rmq/publisher.py: the cached connection and channel, `publish` and `close`.
-- Connections and channels are numbers that name aio_pika's objects; what those do during one call
-- is the argument `Library`.
pub mod Channel
pub mod Delivery
pub mod Lock
pub mod Lifetime
mod Tests
use fastapi_project.Prelude.{
  ℕ, String, ◌≡◌, Bool, true, false, not, Option, none, some, List, [], ◌∷◌, ◌==◌, if◌then◌else◌,
}
use fastapi_project.Python.{Exn, Outcome, returned, raised, ◌>>=◌, ◌>>◌, Await, done}
use fastapi_project.Dict
use fastapi_project.Dict.{Dict}
use fastapi_project.Json.{Json, str}

-- aio_pika during one call: which objects are open, which connection a channel belongs to, and how
-- the awaits end. A closed connection has no open channel, and what is opened is open.
pub record Library : Type 0 where
  pub conn_open : ℕ → Bool
  pub chan_open : ℕ → Bool
  pub chan_conn : ℕ → ℕ
  pub connect_robust : Outcome ℕ
  pub open_channel : ℕ → Outcome ℕ
  pub declare_exchange : Await
  pub exchange_publish : Await
  pub close_channel : Await
  pub close_connection : Await
  pub chan_open_lem : (c : ℕ) → chan_open c ≡ true → conn_open (chan_conn c) ≡ true
  pub connect_lem : (k : ℕ) → connect_robust ≡ returned k → conn_open k ≡ true
  pub open_lem : (k c : ℕ) → open_channel k ≡ returned c → (chan_open c ≡ true) × (chan_conn c ≡ k)

-- The globals `_connection` and `_channel`.
pub record PublisherState : Type 0 where
  pub connection : Option ℕ
  pub channel : Option ℕ

-- A persistent JSON message, as `exchange.publish` is given it.
pub record Message (Bytes : Type 0) : Type 0 where
  pub exchange : String
  pub routing_key : String
  pub body : Bytes

abbrev opened : PublisherState → Outcome ℕ → Outcome ℕ × PublisherState
opened s (returned c) = (returned c, record s { channel = some c })
opened s (raised e) = (raised e, s)

-- `{"event_type": …, "published_at": …, **data}`
unfoldable pub message_body : String → String → Dict Json → Dict Json
unfolding Dict.merge
message_body event_type now payload =
    Dict.merge (("event_type", str event_type) ∷ ("published_at", str now) ∷ []) payload

-- `routing_key or event_type`
abbrev pub routing_key_or : Option String → String → String
routing_key_or none event_type = event_type
routing_key_or (some rk) event_type = if rk == "" then event_type else rk

module _ (lib : Library) where
  open lib use {conn_open, chan_open, connect_robust, open_channel}

  -- The first `if` under the lock: a connection that is missing or closed is replaced.
  connection_of : PublisherState → Outcome ℕ
  connection_of s = elim s.connection [
    | none ↦ connect_robust
    | some k ↦ if conn_open k then returned k else connect_robust
  ]

  -- The second `if`, with the connection that the first one has left.
  channel_on : ℕ → PublisherState → Outcome ℕ × PublisherState
  channel_on k s = elim s.channel [
    | none ↦ opened s (open_channel k)
    | some c ↦ if chan_open c then (returned c, s) else opened s (open_channel k)
  ]

  unfoldable pub get_channel : PublisherState → Outcome ℕ × PublisherState
  unfolding connection_of channel_on
  get_channel s = elim (connection_of s) [
    | returned k ↦ channel_on k (record s { connection = some k })
    | raised e ↦ (raised e, s)
  ]

  module _ {Bytes : Type 0} (exchange_name : String) (dumps : Dict Json → Bytes) where
    deliver : Message Bytes → Outcome ℕ × PublisherState → Outcome (Message Bytes) × PublisherState
    deliver m (out, s) = ((do c ← out; lib.declare_exchange; lib.exchange_publish; returned m), s)

    -- The result names the message that was handed to the exchange.
    unfoldable pub publish :
        (event_type now : String)
        → Dict Json
        → Option String
        → PublisherState
        → Outcome (Message Bytes) × PublisherState
    unfolding deliver message_body get_channel
    publish event_type now payload routing_key s =
        deliver
          (record {
            exchange = exchange_name;
            routing_key = routing_key_or routing_key event_type;
            body = dumps (message_body event_type now payload);
          })
          (get_channel s)

-- What `close` has closed, in order.
pub data Closed : Type 0 where
  channel connection : ℕ → Closed

module _ (lib : Library) where
  close_conn : Option ℕ → Await × List Closed
  close_conn none = (done, [])
  close_conn (some k) =
      if lib.conn_open k then (lib.close_connection, connection k ∷ []) else (done, [])

  -- `close`: an exception of the first close leaves the second one out.
  unfoldable pub close : PublisherState → Await × List Closed
  unfolding close_conn
  close s = elim s.channel [
    | none ↦ close_conn s.connection
    | some c ↦
        if lib.chan_open c
        then elim lib.close_channel [
          | returned _ ↦ let (out, closed) = close_conn s.connection in (out, channel c ∷ closed)
          | raised e ↦ (raised e, [])
        ]
        else close_conn s.connection
  ]
