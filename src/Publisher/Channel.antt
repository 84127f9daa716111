-- ===== src/Publisher/Channel.antt =====
-- fastapi_app/rmq/publisher.py: what `_get_channel` returns and keeps, and what `close` closes.
use fastapi_project.Prelude.{
  ℕ, ◌≡◌, ap, sym, true, Option, none, some, List, [], ◌∷◌, ◌++◌, arith, inl, inr, if◌then◌else◌,
}
use fastapi_project.Python.{Exn, returned, raised, done, Outcome-split}
use fastapi_project.Publisher.{
  Library, PublisherState, opened, connection_of, channel_on, get_channel, Closed, channel,
  connection, close,
}

abbrev AttachedAt : Library → Option ℕ → Option ℕ → Type 0
AttachedAt lib conn none = Unit {0}
AttachedAt lib conn (some c) = lib.chan_open c ≡ true → conn ≡ some (lib.chan_conn c)

-- A cached channel that is open stands on the cached connection.
abbrev pub IsAttached : Library → PublisherState → Type 0
IsAttached lib s = AttachedAt lib s.connection s.channel

-- Both objects are open, and belong together.
pub record IsReady (lib : Library) (s : PublisherState) (c : ℕ) : Type 0 where
  pub cached : s.channel ≡ some c
  pub is_open : lib.chan_open c ≡ true
  pub attached : s.connection ≡ some (lib.chan_conn c)

module _ (lib : Library) where
  -- The cached channel, if it is open, is one of the connection `k`.
  abbrev OnConnection : ℕ → Option ℕ → Type 0
  OnConnection k none = Unit {0}
  OnConnection k (some c) = lib.chan_open c ≡ true → lib.chan_conn c ≡ k

  -- The first step leaves a connection that carries the cached channel: where it was replaced, the
  -- old one is closed, and the channel with it.
  connection_carries :
      (k : ℕ) (old o : Option ℕ)
      → AttachedAt lib old o
      → connection_of lib (record { connection = old; channel = o }) ≡ returned k
      → (lib.conn_open k ≡ true) × OnConnection k o
  unfolding connection_of
  connection_carries k none none h e = (lib.connect_lem k e, tt)
  connection_carries k none (some c) h e = (lib.connect_lem k e, λ is_open. absurd (cc (h is_open)))
  connection_carries k (some old) none h e = ground (arith, lib.connect_lem k)
  connection_carries k (some old) (some c) h e =
      ground (arith, lib.connect_lem k, lib.chan_open_lem c)

  channel_on-IsReady :
      (k c : ℕ) (o : Option ℕ)
      → OnConnection k o
      → let (out, s') = channel_on lib k (record { connection = some k; channel = o }) in
        out ≡ returned c → IsReady lib s' c × (lib.chan_conn c ≡ k)
  unfolding channel_on
  channel_on-IsReady k c none h e = ground (arith, lib.open_lem k c)
  channel_on-IsReady k c (some d) h e = ground (arith, lib.open_lem k c)

  weaken : (k : ℕ) (o : Option ℕ) → OnConnection k o → AttachedAt lib (some k) o
  weaken k none h = tt
  weaken k (some c) h = λ is_open. ap some (sym (h is_open))

  opened-IsAttached :
      (k : ℕ) (o : Option ℕ)
      → OnConnection k o
      → IsAttached lib (opened (record { connection = some k; channel = o }) (lib.open_channel k)).1
  opened-IsAttached k o h = elim (Outcome-split (lib.open_channel k)) [
    | inl (c, e) ↦ rw e (λ is_open. ap some (sym (lib.open_lem k c e).1))
    | inr (e, f) ↦ rw f (weaken k o h)
  ]

  channel_on-IsAttached :
      (k : ℕ) (o : Option ℕ)
      → OnConnection k o
      → IsAttached lib (channel_on lib k (record { connection = some k; channel = o })).1
  unfolding channel_on
  channel_on-IsAttached k none h = ground (arith, opened-IsAttached k none)
  channel_on-IsAttached k (some d) h = ground (arith, opened-IsAttached k (some d))

  module _ (s : PublisherState) where
    -- If the cached channel is closed or on the cached connection, a channel that _get_channel
    -- returns is cached, open, and on the cached connection, which is open too.
    pub get_channel-IsReady :
        (c : ℕ)
        → IsAttached lib s
        → (get_channel lib s).0 ≡ returned c
        → IsReady lib (get_channel lib s).1 c × (lib.conn_open (lib.chan_conn c) ≡ true)
    unfolding get_channel
    get_channel-IsReady c h e = elim (Outcome-split (connection_of lib s)) [
      | inl (k, found) ↦
          let (conn, carried) = connection_carries k s.connection s.channel h found in
          let (ready, on) =
            channel_on-IsReady k c s.channel carried (rw (found, get_channel) at e) in
          rw (found, get_channel) (ready, rw on conn)
      | inr (x, failed) ↦ absurd (ground arith)
    ]

    -- Whatever it returns or raises, `_get_channel` leaves an open channel on the connection.
    pub get_channel-IsAttached : IsAttached lib s → IsAttached lib (get_channel lib s).1
    unfolding get_channel
    get_channel-IsAttached h = elim (Outcome-split (connection_of lib s)) [
      | inl (k, found) ↦
          rw (found, get_channel)
            (channel_on-IsAttached k s.channel
              (connection_carries k s.connection s.channel h found).1)
      | inr (x, failed) ↦ rw (failed, get_channel) h
    ]

    -- An open connection and an open channel are used again, and nothing is opened.
    pub get_channel_reuses :
        (k c : ℕ)
        → s.connection ≡ some k
        → s.channel ≡ some c
        → lib.conn_open k ≡ true
        → lib.chan_open c ≡ true
        → get_channel lib s ≡ (returned c, s)
    unfolding get_channel
    get_channel_reuses k c hk hc ok oc = ground arith

-- The cached objects that are open, the channel first.
abbrev pub open_ones : Library → PublisherState → List Closed
open_ones lib s = chan s.channel ++ conn s.connection
  where
    chan : Option ℕ → List Closed
    chan none = []
    chan (some c) = if lib.chan_open c then channel c ∷ [] else []

    conn : Option ℕ → List Closed
    conn none = []
    conn (some k) = if lib.conn_open k then connection k ∷ [] else []

-- If close returns, it has closed what was open, the channel before its connection; and if the
-- close of an open channel raises, close raises the same and has closed nothing.
pub close_closes :
    (lib : Library) (s : PublisherState)
    → ((close lib s).0 ≡ done → (close lib s).1 ≡ open_ones lib s)
      × ((c : ℕ) (e : Exn)
          → s.channel ≡ some c
          → lib.chan_open c ≡ true
          → lib.close_channel ≡ raised e
          → close lib s ≡ (raised e, []))
unfolding close
close_closes lib s = (ground arith, λ c e h o x. ground arith)
