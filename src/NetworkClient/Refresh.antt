-- ===== src/NetworkClient/Refresh.antt =====
-- src/network/NetworkClient.ts: `refreshMetadata` and what it calls, and its timer.
use kafka_node_ts.Prelude.{
  Bool, true, false, ◌||◌, Option, none, some, List, [], ◌∷◌, if◌then◌else◌,
}
use kafka_node_ts.Prelude.Int.{ℤ, pos, eq_ℤ}
use kafka_node_ts.Prelude.Errors.{Result, ok, err, kafka_error}
use kafka_node_ts.Text.{JsString}
use kafka_node_ts.JsMap.{JsMap, int_key, get, set, delete}
use kafka_node_ts.ClusterMetadata.Changes.{Broker}
use kafka_node_ts.ClusterMetadata.{update_metadata, is_some}
use kafka_node_ts.Network.Requests.{
  MetadataRequest, for_all_topics, for_topics, encode_metadata_request, encode_versions_request,
  create_versions_request,
}
use kafka_node_ts.Network.Responses.{
  ApiVersionRange, ApiVersionsResponse, MetadataResponse, parse_metadata, parse_versions,
}
use kafka_node_ts.NetworkClient.Defs.{
  Connections, broker_connect, broker_disconnect, metadata_update, Ref, seed, node, Link,
  NetworkClient,
}
use kafka_node_ts.NetworkClient.Action.{
  Action, pure, of_result, gets, continue_with, catching, finally, ◌>>=◌, modify, emit, fail,
  send_to,
}

-- `currentNodeIds.has(nodeId)`
abbrev pub has_id : ℤ → List Broker → Bool
has_id n [] = false
has_id n (b ∷ bs) = eq_ℤ b.node_id n || has_id n bs

module _ ⦃k : Connections⦄ where
  open k use {Conn, Settings, new_conn, node_settings}

  abbrev pub first_seed : List Conn → Option Conn
  first_seed [] = none
  first_seed (s ∷ ss) = some s

  -- The connection to a node of the metadata, after its attempt to connect.
  abbrev pub attempt : List Conn → Broker → Result {0} Unit × Conn
  attempt seeds b = k.connect (new_conn (node_settings (first_seed seeds) b.host b.port))

  abbrev pub link_to : Broker → Conn → Link
  link_to b d = record { conn = k.set_node_id b.node_id d; host = b.host; port = b.port }

  -- A failed attempt is only logged.
  abbrev pub add_link : Broker → Result {0} Unit × Conn → NetworkClient → NetworkClient
  add_link b (err e, d) c = c
  add_link b (ok u, d) c =
      emit (broker_connect b.node_id b.host b.port)
        (record c { connections = set b.node_id (link_to b d) c.connections })

  -- `if (this.connections.has(broker.nodeId)) continue`
  unfoldable pub connect_broker : Broker → NetworkClient → NetworkClient
  connect_broker b c =
      if is_some (get b.node_id c.connections) then c else add_link b (attempt c.seed_brokers b) c

  unfoldable pub connect_brokers : List Broker → NetworkClient → NetworkClient
  connect_brokers [] c = c
  connect_brokers (b ∷ bs) c = connect_brokers bs (connect_broker b c)

  -- `disconnect` calls the listener that emits `brokerDisconnect`, unless the connection is down.
  abbrev pub disconnect_link : ℤ → Link → NetworkClient → NetworkClient
  disconnect_link n l c = if k.is_open l.conn then emit (broker_disconnect n l.host l.port) c else c

  unfoldable pub close_link : ℤ → Link → NetworkClient → NetworkClient
  close_link n l c =
      let disconnected = disconnect_link n l c in
      record disconnected { connections = delete n disconnected.connections }

  -- The loop over the entries of `this.connections`, from which it deletes.
  unfoldable pub close_absent : List Broker → JsMap ℤ Link → NetworkClient → NetworkClient
  close_absent brokers [] c = c
  close_absent brokers ((n, l) ∷ rest) c =
      close_absent brokers rest (if has_id n brokers then c else close_link n l c)

  unfoldable pub update_broker_connections : List Broker → NetworkClient → NetworkClient
  update_broker_connections brokers c =
      let added = connect_brokers brokers c in close_absent brokers added.connections added

  abbrev pub metadata_request : Option (List JsString) → MetadataRequest
  metadata_request none = for_all_topics
  metadata_request (some topics) = for_topics topics

  -- `broker = this.seedBrokers[0]; await broker.connect()`
  abbrev pub connect_first : List Conn → Action Ref
  connect_first [] c = (err kafka_error, c)
  connect_first (s ∷ ss) c =
      let (r, d) = k.connect s in
      continue_with r (record c { seed_brokers = d ∷ ss }) (λ u. pure (seed 0))

  abbrev pub first_of : JsMap ℤ Link → Action Ref
  first_of [] c = connect_first c.seed_brokers c
  first_of ((n, l) ∷ rest) c = (ok (node n), c)

  -- The broker that is asked: the one given, or the first connection, or the first seed broker.
  unfoldable pub choose_broker : Option Ref → Action Ref
  choose_broker (some r) c = (ok r, c)
  choose_broker none c = first_of c.connections c

  abbrev pub max_or_zero : Option ApiVersionRange → ℤ
  max_or_zero none = pos 0
  max_or_zero (some range) = range.max_version

  abbrev pub metadata_version : NetworkClient → ℤ
  metadata_version c = max_or_zero (get (pos 3) c.api_versions)

  abbrev pub announce : Option (List JsString) → NetworkClient → NetworkClient
  announce none c = c
  announce (some topics) c = emit (metadata_update topics) c

  -- `this.clusterMetadata.updateMetadata(...)`, whose event `update` is passed on.
  unfoldable pub update_cluster : MetadataResponse → NetworkClient → NetworkClient
  update_cluster m c =
      let updated =
        update_metadata m.brokers m.topics m.cluster_id m.controller_id c.cluster_metadata in
      announce updated.1 (record c { cluster_metadata = updated.0 })

  unfoldable pub refresh_body : Option (List JsString) → Option Ref → Action Unit
  refresh_body topics specific = do
    broker ← choose_broker specific
    version ← gets metadata_version
    request ← of_result (encode_metadata_request (metadata_request topics))
    response_buffer ← send_to broker (pos 3) version request none
    response ← of_result (parse_metadata response_buffer)
    modify (λ c. update_broker_connections response.brokers (update_cluster response c))

  unfoldable pub refresh_metadata : Option (List JsString) → Option Ref → Action Unit
  refresh_metadata topics specific c =
      let refreshed =
        finally (catching (refresh_body topics specific) fail)
          (λ c. record c { is_refreshing_metadata = false })
          (record c { is_refreshing_metadata = true }) in
      if c.is_refreshing_metadata then (ok tt, c) else refreshed

  -- The callback of the timer handles every error, and starts the timer again.
  unfoldable pub start_metadata_refresh_timer : NetworkClient → NetworkClient
  start_metadata_refresh_timer c =
      if c.auto_refresh_metadata then record c { metadata_refresh_timer = true } else c

  unfoldable pub on_metadata_refresh_timer : NetworkClient → NetworkClient
  on_metadata_refresh_timer c = start_metadata_refresh_timer (refresh_metadata none none c).1

  abbrev pub set_versions : JsMap ℤ ApiVersionRange → List ApiVersionRange → JsMap ℤ ApiVersionRange
  set_versions m [] = m
  set_versions m (v ∷ vs) = set_versions (set v.api_key v m) vs

  abbrev pub store_versions : ApiVersionsResponse → Action Unit
  store_versions response c =
      if eq_ℤ response.error_code (pos 0)
      then (ok tt, record c { api_versions = set_versions [] response.api_versions })
      else (err kafka_error, c)

  unfoldable pub fetch_api_versions : Ref → Action Unit
  fetch_api_versions broker = do
    request ← of_result (encode_versions_request create_versions_request)
    response_buffer ← send_to broker (pos 18) (pos 0) request none
    response ← of_result (parse_versions response_buffer)
    store_versions response
