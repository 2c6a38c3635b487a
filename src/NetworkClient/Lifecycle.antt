-- ===== src/NetworkClient/Lifecycle.antt =====
-- src/network/NetworkClient.ts: `connect` and `close`.
use kafka_node_ts.Prelude.{
  ℕ, suc, true, false, Option, none, some, List, [], ◌∷◌, map, if◌then◌else◌,
}
use kafka_node_ts.Prelude.Int.{ℤ}
use kafka_node_ts.Prelude.Errors.{Result, ok, err, kafka_error}
use kafka_node_ts.JsMap.{JsMap}
use kafka_node_ts.NetworkClient.Defs.{
  Connections, ready, close as close_event, Ref, seed, Link, NetworkClient,
}
use kafka_node_ts.NetworkClient.Action.{Action, catching, ◌>>=◌, modify, emit, fail}
use kafka_node_ts.NetworkClient.Refresh.{
  disconnect_link, refresh_metadata, start_metadata_refresh_timer, fetch_api_versions,
}

module _ ⦃k : Connections⦄ where
  open k use {Conn}

  abbrev pub next_index : Option ℕ → Option ℕ
  next_index none = none
  next_index (some i) = some (suc i)

  -- The loop over the seed brokers, which ends at the first one that connects: its index, and the
  -- seed brokers after the attempts.
  unfoldable pub connect_seeds : List Conn → Option ℕ × List Conn
  connect_seeds [] = (none, [])
  connect_seeds (s ∷ ss) =
      let (r, d) = k.connect s in
      let (i, rest) = connect_seeds ss in
      elim r [ ok u ↦ (some 0, d ∷ ss) | err e ↦ (next_index i, d ∷ rest) ]

  abbrev pub found_seed : Option ℕ → Result Ref
  found_seed none = err kafka_error
  found_seed (some i) = ok (seed i)

  unfoldable pub connect_any : Action Ref
  connect_any c =
      let (i, seeds) = connect_seeds c.seed_brokers in
      (found_seed i, record c { seed_brokers = seeds })

  unfoldable pub connect_body : Action Unit
  connect_body = do
    broker ← connect_any
    u ← fetch_api_versions broker
    v ← refresh_metadata none (some broker)
    modify (λ c. emit ready (record (start_metadata_refresh_timer c) { is_initialized = true }))

  -- `connect`
  unfoldable pub connect_client : Action Unit
  connect_client c =
      let connected = catching connect_body fail c in
      if c.is_initialized
      then (ok tt, c)
      else if c.is_closed
      then (err kafka_error, c)
      else connected

  -- Every connection is told to disconnect, in the order of the map.
  unfoldable pub disconnect_links : JsMap ℤ Link → NetworkClient → NetworkClient
  disconnect_links [] c = c
  disconnect_links ((n, l) ∷ rest) c = disconnect_links rest (disconnect_link n l c)

  -- The connections after that; they stay in the map.
  unfoldable pub disconnected_links : JsMap ℤ Link → JsMap ℤ Link
  disconnected_links [] = []
  disconnected_links ((n, l) ∷ rest) =
      (n, record l { conn = k.disconnect l.conn }) ∷ disconnected_links rest

  abbrev pub stopped : NetworkClient → NetworkClient
  stopped c = record c {
    is_closed = true;
    metadata_refresh_timer = false;
    seed_brokers = map k.disconnect c.seed_brokers;
    connections = disconnected_links c.connections;
  }

  -- `close` of a client that is not closed, up to its `await`, and from there on. The client does not
  -- listen to the seed brokers.
  abbrev pub close_begins : NetworkClient → NetworkClient
  close_begins c = disconnect_links c.connections (stopped c)

  abbrev pub close_ends : NetworkClient → NetworkClient
  close_ends c = emit close_event (record c { connections = []; seed_brokers = [] })

  -- `close`, where nothing happens while it waits.
  unfoldable pub close_client : NetworkClient → NetworkClient
  close_client c = let closed = close_ends (close_begins c) in if c.is_closed then c else closed
